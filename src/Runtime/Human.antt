-- ===== src/Runtime/Human.antt =====
-- runtime/decision.py: the human gate, where an operator approves or denies a request that waits.
pub mod Reports
pub mod Steps
pub mod Gate
pub mod Forward
pub mod Once
use Prim.Native.String.{◌++◌ as concat}
use mgk_governance_kernel.Prelude.{
  Bool, true, false, not, Option, none, some, List, [], ◌∷◌, ◌++◌, String, str_eq, if◌then◌else◌,
}
use mgk_governance_kernel.Prelude.Int.{ℤ}
use mgk_governance_kernel.Errors.{Error, Result, ok, err}
use mgk_governance_kernel.Json.{Value, Items, Fields}
use mgk_governance_kernel.Platform.{Bytes, Platform}
use mgk_governance_kernel.Canonical.{canonicalize}
use mgk_governance_kernel.Crypto.{human_gate_domain, sign}
use mgk_governance_kernel.Models.{
  ActionRequest, IssueResult, ExecutionResult, request_payload, request_digest,
}
use mgk_governance_kernel.Saxp.{evaluate}
use mgk_governance_kernel.Runtime.Policy.{resolved_context}
use mgk_governance_kernel.Runtime.Store.{ProposalView, HumanRow, proposal, store_human_action}
use mgk_governance_kernel.Runtime.Calls.{Call, return, reads, lift, ◌>>=◌, ◌>>◌, try_then}
use mgk_governance_kernel.Runtime.Decision.{
  DecisionState, allow, deny, indeterminate, Decision, plain, optional_text, optional_value,
  DecisionPipeline, RuntimeState, as_request, is_bad_value, is_mgk, code_or_unexpected, now,
  record_flight, write_ledger, save_decision, save_decision_at, decision_state,
}
use mgk_governance_kernel.Runtime.Propose.{decided, issue_for, run_execution, try_flight}

-- The dict that `RuntimeLedger.proposal` returns, but its time: what `_request` and `_sign_human` read.
abbrev pub stored_request : ProposalView → Fields
stored_request v = Fields.field "request_id" (Value.str v.row.request_id) (
    Fields.field "principal" (Value.str v.row.principal) (
      Fields.field "audience" (Value.str v.row.audience) (
        Fields.field "action" (Value.str v.row.action) (
          Fields.field "resource" (Value.str v.row.resource) (
            Fields.field "parameters" v.parameters
              (Fields.field "request_digest" (Value.str v.row.request_digest) Fields.end))))))

-- `current != DecisionState.REQUIRE_HUMAN.value`.
abbrev pub is_waiting : Option String → Bool
is_waiting none = false
is_waiting (some state) = str_eq state "REQUIRE_HUMAN"

abbrev pub just_id : String → Value
just_id request_id = Value.obj (Fields.field "request_id" (Value.str request_id) Fields.end)

abbrev pub human_data : String → String → String → String → Fields
human_data request_id operator decision signature =
    Fields.field "request_id" (Value.str request_id) (
      Fields.field "operator" (Value.str operator) (
        Fields.field "decision" (Value.str decision)
          (Fields.field "signature" (Value.str signature) Fields.end)))

abbrev pub action_id_of : String → String
action_id_of request_id = concat "human-" request_id

abbrev pub human_row : String → String → String → String → String → ℤ → HumanRow
human_row request_id operator decision signature flight_hash created_at = record {
  action_id = action_id_of request_id;
  request_id = request_id;
  operator = operator;
  decision = decision;
  signature = signature;
  flight_hash = flight_hash;
  created_at = created_at;
}

abbrev pub execution_data : ActionRequest → IssueResult → ExecutionResult → Fields
execution_data r issued result = Fields.field "request_id" (Value.str r.request_id) (
    Fields.field "decision" (Value.str "APPROVE") (
      Fields.field "capability_id" (optional_text issued.capability_id) (
        Fields.field "executed" (Value.bool result.success)
          (Fields.field "output_digest" (optional_value result.output_digest) Fields.end))))

-- A decision with the marks of the human's.
abbrev pub signed_by : String → String → String → Decision → Decision
signed_by operator decision signature d = record d {
  human_decision = some decision;
  human_signature = some signature;
  operator = some operator;
}

module _ (p : Platform) (x : DecisionPipeline) where
  -- The document of `_sign_human`.
  abbrev pub human_document : ProposalView → String → String → ℤ → Value
  human_document v decision operator timestamp = Value.obj (
      Fields.field "request_id" (Value.str v.row.request_id) (
        Fields.field "request_digest" (Value.str v.row.request_digest) (
          Fields.field "decision" (Value.str decision) (
            Fields.field "operator" (Value.str operator)
              (Fields.field "timestamp" (Value.int timestamp) Fields.end)))))

  unfoldable pub sign_with :
      Option Bytes → ProposalView → String → String → Call RuntimeState String
  sign_with none v decision operator = return ""
  sign_with (some key) v decision operator = do
    timestamp ← now p x
    document ← lift (canonicalize p (human_document v decision operator timestamp))
    return (sign p key human_gate_domain document)

  -- `_sign_human`.
  unfoldable pub sign_human : ProposalView → String → String → Call RuntimeState String
  unfolding sign_with
  sign_human v decision operator = sign_with x.operator_key v decision operator

  -- `_gate_transition_denied`, for the request that the proposal gives or the exception it raises.
  unfoldable pub deny_transition :
      Result ActionRequest → String → Option String → Call RuntimeState Decision
  deny_transition (err e) request_id current =
      if is_bad_value e
      then return (plain deny (just_id request_id) "" ("HUMAN_GATE_TRANSITION_DENIED" ∷ []) none)
      else lift (err e)
  deny_transition (ok r) request_id current = do
    flight_hash ← try_flight p x "HUMAN_GATE_DENIED" (
        Fields.field "request_id" (Value.str request_id) (
          Fields.field "current_state" (optional_text current) (
            Fields.field "reason_codes"
              (Value.arr (Items.cons (Value.str "HUMAN_GATE_TRANSITION_DENIED") Items.nil))
              Fields.end)))
    request_sha ← lift (request_digest p r)
    return (
        plain deny (request_payload r) request_sha ("HUMAN_GATE_TRANSITION_DENIED" ∷ [])
          flight_hash)

  -- The signature, the flight record and the row of what the human decides, with the time of the row,
  -- which is read between the first two.
  unfoldable pub record_human :
      ProposalView → String → String → String → Call RuntimeState (String × String × ℤ)
  unfolding sign_human
  record_human v request_id operator decision = do
    signature ← sign_human v decision operator
    at ← now p x
    flight_hash ←
        record_flight p x "HUMAN_DECISION" (human_data request_id operator decision signature)
    write_ledger p x
        (store_human_action (human_row request_id operator decision signature flight_hash at))
    return (signature, flight_hash, at)

  -- `except MGKError` around the issuance.
  unfoldable pub refuse_human :
      ActionRequest → List String → String → String → Error → Call RuntimeState Decision
  refuse_human r codes operator signature e =
      if is_mgk e
      then (do
        flight_hash ← record_flight p x "HUMAN_DECISION_DENY" (
            decided r.request_id (codes ++ code_or_unexpected e ∷ [])
              (Fields.field "reason" (Value.str (x.python.message e)) Fields.end))
        save_decision p x r.request_id deny (codes ++ code_or_unexpected e ∷ []) none false none
            flight_hash
        request_sha ← lift (request_digest p r)
        return (
            signed_by operator "APPROVE" signature (
              plain deny (request_payload r) request_sha (codes ++ code_or_unexpected e ∷ [])
                (some flight_hash))))
      else lift (err e)

  abbrev pub state_of : Bool → DecisionState
  state_of true = allow
  state_of false = deny

  -- After the execution.
  unfoldable pub report_human :
      ActionRequest
      → List String
      → String
      → String
      → IssueResult
      → ExecutionResult
      → Call RuntimeState Decision
  report_human r codes operator signature issued result = do
    flight_hash ← record_flight p x "HUMAN_EXECUTION" (execution_data r issued result)
    save_decision p x r.request_id (state_of result.success) codes issued.capability_id
        result.success result.output_digest flight_hash
    request_sha ← lift (request_digest p r)
    return (
        signed_by operator "APPROVE" signature
          (record (plain (state_of result.success) (request_payload r) request_sha codes
            (some flight_hash)) {
              capability_id = issued.capability_id;
              executed = result.success;
              output_digest = result.output_digest;
            }))

  unfoldable pub use_human_capability :
      ActionRequest
      → List String
      → String
      → String
      → IssueResult
      → Option Bytes
      → Call RuntimeState Decision
  unfolding report_human
  use_human_capability r codes operator signature issued none = do
    request_sha ← lift (request_digest p r)
    return (
        signed_by operator "APPROVE" signature
          (plain deny (request_payload r) request_sha codes none))
  use_human_capability r codes operator signature issued (some envelope) = do
    result ← run_execution p x envelope r
    report_human r codes operator signature issued result

  -- `_issue_and_execute_human`, with the context that the approval resolves to.
  unfoldable pub issue_and_execute_human :
      ActionRequest → List String → String → String → Call RuntimeState Decision
  unfolding refuse_human use_human_capability
  issue_and_execute_human r codes operator signature =
      try_then (issue_for p x r (some (resolved_context x.policy)))
        (refuse_human r codes operator signature)
        (λ issued. use_human_capability r codes operator signature issued issued.envelope)

  -- `human_approve` once the approval is recorded.
  unfoldable pub execute_approved : ActionRequest → String → String → Call RuntimeState Decision
  unfolding issue_and_execute_human
  execute_approved r operator signature = do
    decision ← lift (evaluate p x.saxp r (resolved_context x.policy))
    issue_and_execute_human r decision.reason_codes operator signature

  -- `human_approve` for a request that waits.
  unfoldable pub approve : ProposalView → String → String → Call RuntimeState Decision
  unfolding record_human execute_approved
  approve v request_id operator = do
    r ← lift (as_request x.python (stored_request v))
    (signature, flight_hash, at) ← record_human v request_id operator "APPROVE"
    execute_approved r operator signature

  -- `human_deny` for a request that waits.
  unfoldable pub refuse : ProposalView → String → String → Call RuntimeState Decision
  unfolding record_human
  refuse v request_id operator = do
    r ← lift (as_request x.python (stored_request v))
    (signature, flight_hash, at) ← record_human v request_id operator "DENY"
    save_decision_at p x at request_id deny ("HUMAN_DENIED" ∷ []) none false none flight_hash
    request_sha ← lift (request_digest p r)
    return (
        signed_by operator "DENY" signature
          (plain deny (request_payload r) request_sha ("HUMAN_DENIED" ∷ []) (some flight_hash)))

  -- The first statements of `human_approve` and `human_deny`: the proposal, and the state of its decision.
  unfoldable pub gate :
      (ProposalView → Call RuntimeState Decision)
      → String
      → Option ProposalView
      → Call RuntimeState Decision
  gate next request_id none =
      return (plain indeterminate (just_id request_id) "" ("PROPOSAL_NOT_FOUND" ∷ []) none)
  gate next request_id (some v) = do
    current ← reads (λ s. decision_state p x request_id s.ledger)
    if is_waiting current
        then next v
        else deny_transition (as_request x.python (stored_request v)) request_id current

  unfoldable pub human_approve : String → String → Call RuntimeState Decision
  unfolding gate approve
  human_approve request_id operator = do
    found ← reads (λ s. proposal p request_id s.ledger)
    gate (λ v. approve v request_id operator) request_id found

  unfoldable pub human_deny : String → String → Call RuntimeState Decision
  unfolding gate refuse
  human_deny request_id operator = do
    found ← reads (λ s. proposal p request_id s.ledger)
    gate (λ v. refuse v request_id operator) request_id found
