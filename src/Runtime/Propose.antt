-- ===== src/Runtime/Propose.antt =====
-- runtime/decision.py: `propose`, from a request to a decision, and the execution of what is allowed.
pub mod Reports
pub mod Passive
pub mod Answers
pub mod Authority
use mgk_governance_kernel.Prelude.{
  Bool, true, false, Option, none, some, List, [], ◌∷◌, ◌++◌, String, str_eq, if◌then◌else◌,
}
use mgk_governance_kernel.Errors.{Error, Result, ok, err}
use mgk_governance_kernel.Json.{Value, Fields, texts}
use mgk_governance_kernel.Platform.{Bytes, Platform}
use mgk_governance_kernel.Models.{
  ActionRequest, SaxpContext, SaxpDecision, IssueResult, ExecutionResult, request_payload,
  request_digest,
}
use mgk_governance_kernel.Saxp.{evaluate}
use mgk_governance_kernel.Authority.{issue}
use mgk_governance_kernel.Executor.{World, execute}
use mgk_governance_kernel.Runtime.Policy.{context_for}
use mgk_governance_kernel.Runtime.Store.{store_proposal}
use mgk_governance_kernel.Runtime.Calls.{Call, return, lift, ◌>>=◌, ◌>>◌, try_then, recover}
use mgk_governance_kernel.Runtime.Decision.{
  DecisionState, allow, deny, require_human, indeterminate, Decision, plain, optional_text,
  optional_value, DecisionPipeline, RuntimeState, as_request, text_at, is_bad_value, is_mgk,
  code_or_unexpected, now, record_flight, write_ledger, save_decision,
}

-- `{"request_id": …, "reason_codes": …}` and what follows.
abbrev pub decided : String → List String → Fields → Fields
decided request_id codes last =
    Fields.field "request_id" (Value.str request_id)
      (Fields.field "reason_codes" (Value.arr (texts codes)) last)

abbrev pub issued_data : ActionRequest → Option String → Fields
issued_data r capability_id = Fields.field "request_id" (Value.str r.request_id) (
    Fields.field "capability_id" (optional_text capability_id) (
      Fields.field "action" (Value.str r.action)
        (Fields.field "resource" (Value.str r.resource) Fields.end)))

abbrev pub allowed_data : ActionRequest → Option String → Option Value → Fields
allowed_data r capability_id output_digest = Fields.field "request_id" (Value.str r.request_id) (
    Fields.field "capability_id" (optional_text capability_id)
      (Fields.field "output_digest" (optional_value output_digest) Fields.end))

-- `flight_hash or ""`.
abbrev pub or_empty : Option String → String
or_empty none = ""
or_empty (some s) = s

module _ (p : Platform) (x : DecisionPipeline) where
  -- The decision that a request comes to, with `bound.to_payload()` and `bound.digest()`.
  abbrev pub concludes :
      DecisionState → ActionRequest → List String → Option String → Call RuntimeState Decision
  concludes state r codes flight_hash = do
    request_sha ← lift (request_digest p r)
    return (plain state (request_payload r) request_sha codes flight_hash)

  -- The flight record, the row and the decision of a request that is not granted.
  unfoldable pub decline :
      String → DecisionState → ActionRequest → List String → Fields → Call RuntimeState Decision
  decline event_type state r codes data' = do
    flight_hash ← record_flight p x event_type data'
    save_decision p x r.request_id state codes none false none flight_hash
    concludes state r codes (some flight_hash)

  unfoldable pub deny_issue_failure :
      ActionRequest → List String → Error → Call RuntimeState Decision
  unfolding decline
  deny_issue_failure r codes e =
      decline "DECISION_DENY" deny r (codes ++ code_or_unexpected e ∷ []) (
        decided r.request_id (codes ++ code_or_unexpected e ∷ [])
          (Fields.field "reason" (Value.str (x.python.message e)) Fields.end))

  -- `except MGKError as exc: return self._deny_issue_failure(bound, codes, exc)`; what is no MGKError
  -- passes.
  abbrev pub refuse_issue : ActionRequest → List String → Error → Call RuntimeState Decision
  refuse_issue r codes e = if is_mgk e then deny_issue_failure r codes e else lift (err e)

  -- `authority.issue`: it reads the kernel.
  abbrev pub issue_for : ActionRequest → Option SaxpContext → Call RuntimeState IssueResult
  issue_for r context s =
      (issue p x.authority r none context x.issued_at x.nonce s.world.state s.world.files, s)

  abbrev pub put_world :
      RuntimeState → ExecutionResult × World → Result ExecutionResult × RuntimeState
  put_world s (result, w) = (ok result, record s { world = w })

  -- `executor.execute`.
  abbrev pub run_execution : Bytes → ActionRequest → Call RuntimeState ExecutionResult
  run_execution envelope r s = put_world s (execute p x.executor x.surroundings envelope r s.world)

  -- After the execution.
  unfoldable pub report_success :
      ActionRequest → List String → IssueResult → ExecutionResult → Call RuntimeState Decision
  report_success r codes issued result = do
    flight_hash ←
        record_flight p x "DECISION_ALLOW"
          (allowed_data r issued.capability_id result.output_digest)
    save_decision p x r.request_id allow codes issued.capability_id true result.output_digest
        flight_hash
    request_sha ← lift (request_digest p r)
    return (record (plain allow (request_payload r) request_sha codes (some flight_hash)) {
      capability_id = issued.capability_id;
      executed = true;
      output_digest = result.output_digest;
    })

  unfoldable pub report_failure :
      ActionRequest → List String → IssueResult → ExecutionResult → Call RuntimeState Decision
  report_failure r codes issued result = do
    flight_hash ← record_flight p x "DECISION_DENY" (
        decided r.request_id codes
          (Fields.field "reason" (Value.str result.reason_code) Fields.end))
    save_decision p x r.request_id deny codes issued.capability_id false none flight_hash
    request_sha ← lift (request_digest p r)
    return (record (plain deny (request_payload r) request_sha codes (some flight_hash)) {
      capability_id = issued.capability_id;
    })

  unfoldable pub report :
      ActionRequest → List String → IssueResult → ExecutionResult → Call RuntimeState Decision
  unfolding report_success report_failure
  report r codes issued result =
      if result.success
      then report_success r codes issued result
      else report_failure r codes issued result

  -- After the capability is issued.
  unfoldable pub use_capability :
      ActionRequest → List String → IssueResult → Option Bytes → Call RuntimeState Decision
  unfolding decline
  use_capability r codes issued none =
      decline "DECISION_DENY" deny r codes (decided r.request_id codes Fields.end)
  use_capability r codes issued (some envelope) = do
    flight_hash ← record_flight p x "CAPABILITY_ISSUED" (issued_data r issued.capability_id)
    result ← run_execution envelope r
    report r codes issued result

  -- `_issue_and_execute`.
  unfoldable pub issue_and_execute : ActionRequest → List String → Call RuntimeState Decision
  unfolding use_capability
  issue_and_execute r codes =
      try_then (issue_for r none) (refuse_issue r codes)
        (λ issued. use_capability r codes issued issued.envelope)

  -- `_record`: the time is read first; the digest is an argument of the call.
  unfoldable pub record_proposal : ActionRequest → Call RuntimeState (Unit {0})
  record_proposal r = do
    at ← now p x
    request_sha ← lift (request_digest p r)
    write_ledger p x (store_proposal p r request_sha at)

  -- The branches on the result of the evaluation.
  unfoldable pub act_on : ActionRequest → SaxpDecision → Call RuntimeState Decision
  unfolding issue_and_execute
  act_on r decision =
      if str_eq decision.result "NON_TEN_XEITO"
      then decline "DECISION_DENY" deny r decision.reason_codes
          (decided r.request_id decision.reason_codes Fields.end)
      else if str_eq decision.result "REQUIRE_XEITO"
      then decline "DECISION_REQUIRE_HUMAN" require_human r decision.reason_codes
          (decided r.request_id decision.reason_codes Fields.end)
      else issue_and_execute r decision.reason_codes

  -- The statements of `propose` in its second try.
  unfoldable pub decide : ActionRequest → Call RuntimeState Decision
  unfolding act_on
  decide r = do
    record_proposal r
    decision ← lift (evaluate p x.saxp r (context_for x.policy r))
    act_on r decision

  -- `try: flight_hash = self._flight(…) except BaseException: flight_hash = None`.
  abbrev pub try_flight : String → Fields → Call RuntimeState (Option String)
  try_flight event_type data' =
      try_then (record_flight p x event_type data') (λ e. return none)
        (λ flight_hash. return (some flight_hash))

  -- `_indeterminate`: what recording raises is dropped.
  unfoldable pub settle_indeterminate : String → Error → Call RuntimeState Decision
  settle_indeterminate request_id e = do
    flight_hash ← try_flight "DECISION_INDETERMINATE" (
        Fields.field "request_id" (Value.str request_id) (
          Fields.field "code" (Value.str (code_or_unexpected e))
            (Fields.field "reason" (Value.str (x.python.message e)) Fields.end)))
    recover
        (save_decision p x request_id indeterminate (code_or_unexpected e ∷ []) none false none
          (or_empty flight_hash))
        (λ dropped. return tt)
    return (
        plain indeterminate
          (Value.obj (Fields.field "request_id" (Value.str request_id) Fields.end)) ""
          (code_or_unexpected e ∷ []) flight_hash)

  -- `except (KeyError, TypeError, ValueError) as exc: return self._indeterminate(…)`.
  abbrev pub refuse_request : String → Error → Call RuntimeState Decision
  refuse_request request_id e =
      if is_bad_value e then settle_indeterminate request_id e else lift (err e)

  -- `propose`. The read of the request's identifier is outside of both tries.
  unfoldable pub propose : Fields → Call RuntimeState Decision
  unfolding decide settle_indeterminate
  propose request = do
    request_id ← lift (text_at x.python request "request_id")
    try_then (lift (as_request x.python request)) (refuse_request request_id)
        (λ bound. recover (decide bound) (settle_indeterminate request_id))
