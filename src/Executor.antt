-- ===== src/Executor.antt =====
-- src/mgk/executor.py: the capability-only executor. A call runs over the state of the kernel: the
-- security state, the two ledgers and the files. Clocks, what other processes write to the security
-- state before the commit, and what `os.write` does are arguments.
pub mod Authorization
pub mod Effects
pub mod Replays
pub mod Reads
use mgk_governance_kernel.Prelude.{
  ℕ, Bool, true, false, ◌||◌, not, Option, none, some, List, [], ◌∷◌, String, str_eq, member,
  if◌then◌else◌,
}
use mgk_governance_kernel.Prelude.Int.{ℤ, pos, eqb_ℤ}
use mgk_governance_kernel.Errors.{
  Error, Result, ok, err, code_of, value_error, type_error, epoch, signature, ◌>>=◌, ◌>>◌, raise_if,
}
use mgk_governance_kernel.Json.{Value, Fields, put_last}
use mgk_governance_kernel.Json.Access.{index, integer, members}
use mgk_governance_kernel.Platform.{Bytes, Platform}
use mgk_governance_kernel.Crypto.{b64u_decode}
use mgk_governance_kernel.Models.{ActionRequest, ExecutionResult}
use mgk_governance_kernel.State.{Store, SecurityState, integrity_check, current_epoch}
use mgk_governance_kernel.Ledger.{AuditLedger, verify_integrity, append, record_failure}
use mgk_governance_kernel.Verifier.{CapabilityVerifier, verify}
use mgk_governance_kernel.Resource.{
  read_bound, create_bound, write_bound, append_bound, remove_created,
}
use mgk_governance_kernel.Resource.Files.{FileSystem, Outcome}

pub record CapabilityExecutor : Type 0 where
  pub executor_id : String
  pub verifier : CapabilityVerifier

pub record World : Type 0 where
  pub state : SecurityState
  pub audit : AuditLedger
  pub failure : AuditLedger
  pub files : FileSystem

-- What the environment answers in one call: a reading for each call of a clock, what other processes
-- make of the security state before the commit, and the outcomes of `os.write`.
pub record Surroundings : Type 0 where
  pub verify_at : ℤ
  pub authorized_at : ℤ
  pub completed_at : ℤ
  pub denial_data_at : ℤ
  pub denied_at : ℤ
  pub others : Store → Store
  pub outcomes : List Outcome

-- `_code`.
abbrev pub reason_of : Error → String
reason_of e = elim (code_of e) [ none ↦ "UNEXPECTED_EXCEPTION" | some code ↦ code ]

abbrev pub optional : Option Value → Value
optional none = Value.null
optional (some v) = v

-- The second half of the record of a denial.
abbrev pub denial_rest : ActionRequest → String → ℤ → Fields
denial_rest r code timestamp = Fields.field "model_provider" Value.null (
    Fields.field "patch_sha256" Value.null (
      Fields.field "phase" (Value.str "RUNTIME_EXECUTION") (
        Fields.field "reason_code" (Value.str code) (
          Fields.field "remediation"
            (Value.str "preserve evidence and require a fresh valid capability")
            (Fields.field "request_id" (Value.str r.request_id) (
              Fields.field "resource" (Value.str r.resource) (
                Fields.field "result" (Value.str "DENIED") (
                  Fields.field "run_id" (Value.str r.request_id)
                    (Fields.field "timestamp" (Value.int timestamp) Fields.end)))))))))

-- The record of a denial.
abbrev pub denial_data : ActionRequest → String → Option Value → ℤ → Fields
denial_data r code capability_id timestamp =
    Fields.field "agent" (Value.str "capability-executor") (
      Fields.field "action" (Value.str r.action) (
        Fields.field "attempt" (Value.int (pos 1)) (
          Fields.field "base_sha" Value.null (
            Fields.field "capability_id" (optional capability_id) (
              Fields.field "code" (Value.str code) (
                Fields.field "command" (Value.str "CapabilityExecutor.execute") (
                  Fields.field "diagnosis"
                    (Value.str
                      "authority boundary rejected or could not safely complete the request")
                    (Fields.field "evidence" (Value.str code) (
                      Fields.field "exit_code" (Value.int (pos 1)) (
                        Fields.field "failing_gate" (Value.str "EXECUTION_AUTHORITY") (
                          Fields.field "failure_class"
                            (Value.str (
                              if str_eq code "UNEXPECTED_EXCEPTION"
                              then "UNKNOWN"
                              else "SECURITY_VIOLATION"))
                            (denial_rest r code timestamp))))))))))))

abbrev pub intent_data : ActionRequest → Value → Fields
intent_data r capability_id = Fields.field "action" (Value.str r.action) (
    Fields.field "capability_id" capability_id (
      Fields.field "request_id" (Value.str r.request_id)
        (Fields.field "resource" (Value.str r.resource) Fields.end)))

-- What an operation gives: the digest of the output, and the output of a read.
abbrev pub Output : Type 0
Output = Value × Option Bytes

abbrev pub as_text : Result String × FileSystem → Result Output × FileSystem
as_text (ok digest, fs) = (ok (Value.str digest, none), fs)
as_text (err e, fs) = (err e, fs)

abbrev pub as_value : Result Value × FileSystem → Result Output × FileSystem
as_value (ok digest, fs) = (ok (digest, none), fs)
as_value (err e, fs) = (err e, fs)

module _ (p : Platform) where
  -- `b64u_decode(dict(request.parameters)["content_b64"])`.
  abbrev pub decode_text : Value → Result Bytes
  decode_text (Value.str s) = b64u_decode p s none
  decode_text _ = err signature

  unfoldable pub request_content : ActionRequest → Result Bytes
  request_content r = do v ← index r.parameters "content_b64"; decode_text v

  -- Up to and with the verification: its payload, the capability's identifier, and the state in
  -- which the nonce is consumed.
  unfoldable pub authorize :
      CapabilityExecutor → ℤ → Bytes → ActionRequest → World → Result (Fields × SecurityState)
  authorize x now envelope r w = do
    raise_if (not (str_eq r.audience x.executor_id)) value_error
    audited ← verify_integrity p w.audit
    failures ← verify_integrity p w.failure
    integrity_check w.state
    verify p x.verifier now envelope r true w.state

  -- `payload["authorization_epoch"] != self.verifier.state.current_epoch()`.
  unfoldable pub recheck_epoch : Fields → SecurityState → Result (Unit {0})
  recheck_epoch payload s = do
    number ← index payload "authorization_epoch"
    n ← integer epoch number
    current ← current_epoch p s
    raise_if (not (eqb_ℤ n current)) epoch

  abbrev pub read_output : Result Bytes → FileSystem → Result Output × FileSystem
  read_output (ok output) fs = (ok (Value.str (p.sha256 output), some output), fs)
  read_output (err e) fs = (err e, fs)

  abbrev pub with_content :
      Result Bytes → (Bytes → Result Output × FileSystem) → FileSystem → Result Output × FileSystem
  with_content (ok contents) run fs = run contents
  with_content (err e) run fs = (err e, fs)

  -- The branches on the action.
  unfoldable pub run_action :
      List Outcome → ActionRequest → Fields → FileSystem → Result Output × FileSystem
  run_action outcomes r binding fs =
      if str_eq r.action "resource.read"
      then read_output (read_bound p binding fs) fs
      else if str_eq r.action "resource.create"
      then with_content (request_content r) (λ c. as_text (create_bound p outcomes binding c fs)) fs
      else if str_eq r.action "sandbox.read_file" || str_eq r.action "sandbox.read_record"
      then read_output (read_bound p binding fs) fs
      else if str_eq r.action "sandbox.write_file"
      then with_content (request_content r) (λ c. as_text (write_bound p outcomes binding c fs)) fs
      else if str_eq r.action "sandbox.append_file"
      then with_content (request_content r) (λ c. as_value (append_bound p outcomes binding c fs))
          fs
      else if str_eq r.action "sandbox.create_record"
      then with_content (request_content r) (λ c. as_text (create_bound p outcomes binding c fs)) fs
      else (err value_error, fs)

  abbrev pub is_create : ActionRequest → Bool
  is_create r = str_eq r.action "resource.create" || str_eq r.action "sandbox.create_record"

  -- The rollback where the completion cannot be recorded: an exception of `remove_created` takes the
  -- place of the one that is handled.
  abbrev pub after_removal : Error → Result Bool × FileSystem → Error × FileSystem
  after_removal e (ok _, fs) = (e, fs)
  after_removal e (err x, fs) = (x, fs)

  abbrev pub roll_back : Bool → Error → Fields → Value → FileSystem → Error × FileSystem
  roll_back true e binding (Value.str digest) fs =
      after_removal e (remove_created p binding digest fs)
  roll_back _ e binding digest fs = (e, fs)

  -- After the record of the completion, or its failure.
  unfoldable pub complete :
      Result String × AuditLedger → ActionRequest → Fields → Output → World → Result Output × World
  complete (ok _, audit) r binding output w = (ok output, record w { audit = audit })
  complete (err e, audit) r binding output w =
      let (x, fs) = roll_back (is_create r) e binding output.0 w.files in
      (err x, record w { audit = audit; files = fs })

  -- After the operation.
  unfoldable pub finish :
      Result Output × FileSystem
      → Surroundings
      → ActionRequest
      → Value
      → Fields
      → World
      → Result Output × World
  finish (err e, fs) env r id binding w = (err e, record w { files = fs })
  finish (ok output, fs) env r id binding w =
      let completed = put_last "output_digest" output.0 (intent_data r id) in
      complete (append p "EXECUTION_COMPLETED" completed env.completed_at w.audit) r binding output
        (record w { files = fs })

  -- The binding of a validated payload.
  abbrev pub binding_of : Fields → Result Fields
  binding_of payload = index payload "resource_binding" >>= λ v. members type_error v

  unfoldable pub perform :
      Result Fields → Surroundings → ActionRequest → Value → World → Result Output × World
  perform (err e) env r id w = (err e, w)
  perform (ok binding) env r id w =
      finish (run_action env.outcomes r binding w.files) env r id binding w

  -- After the record of the authorization: the epoch is read again, from what other processes have
  -- made of the security state.
  unfoldable pub commit :
      Result String × AuditLedger
      → Surroundings
      → ActionRequest
      → Value
      → Fields
      → World
      → Result Output × World
  commit (err e, audit) env r id payload w = (err e, record w { audit = audit })
  commit (ok _, audit) env r id payload w =
      let now = record w.state { store = env.others w.state.store } in
      perform (recheck_epoch payload now >>= λ _. binding_of payload) env r id
        (record w { audit = audit; state = now })

  -- `_record_denial`: what the two appends raise is dropped.
  unfoldable pub record_denial :
      Surroundings → ActionRequest → String → Option Value → World → World
  record_denial env r code capability_id w =
      let details = denial_data r code capability_id env.denial_data_at in
      record w {
        failure = (record_failure p details env.denied_at w.failure).1;
        audit = (append p "EXECUTION_DENIED" details env.denied_at w.audit).1;
      }

  -- The result of a call, and the world after it. The identifier is `none` until the verification has
  -- returned.
  unfoldable pub conclude :
      Surroundings → ActionRequest → Option Value → Result Output × World → ExecutionResult × World
  conclude env r id (ok (digest, output), w) = (
    record {
      success = true;
      status = "EXECUTED";
      reason_code = "TEN_XEITO_AUTHORIZED";
      execution_authority = 1;
      capability_id = id;
      output_digest = some digest;
      output = output;
    },
    w,
  )
  conclude env r id (err e, w) = (
    record {
      success = false;
      status = "DENIED";
      reason_code = reason_of e;
      execution_authority = 0;
      capability_id = id;
      output_digest = none;
      output = none;
    },
    record_denial env r (reason_of e) id w,
  )

  unfoldable pub with_id :
      Result Value → Fields → Surroundings → ActionRequest → World → ExecutionResult × World
  with_id (err e) payload env r w = conclude env r none (err e, w)
  with_id (ok id) payload env r w = conclude env r (some id) (
      commit (append p "EXECUTION_AUTHORIZED" (intent_data r id) env.authorized_at w.audit) env r id
        payload w)

  unfoldable pub proceed :
      Result (Fields × SecurityState)
      → Surroundings
      → ActionRequest
      → World
      → ExecutionResult × World
  proceed (err e) env r w = conclude env r none (err e, w)
  proceed (ok (payload, s)) env r w =
      with_id (index payload "capability_id") payload env r (record w { state = s })

  -- `CapabilityExecutor.execute`.
  unfoldable pub execute :
      CapabilityExecutor → Surroundings → Bytes → ActionRequest → World → ExecutionResult × World
  execute x env envelope r w = proceed (authorize x env.verify_at envelope r w) env r w
