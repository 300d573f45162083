-- ===== src/Executor/Authorization.antt =====
-- What stands between a request and an operation on the files in `execute` of src/mgk/executor.py.
use mgk_governance_kernel.Prelude.{
  ℕ, ◌≡◌, refl, sym, ◌∙◌, ap, true, false, not, Option, some, none, String, str_eq, eq_iff, arith,
  ◌⊎◌, inl, inr,
}
use mgk_governance_kernel.Prelude.Int.{ℤ, eqb_ℤ, eqb_ℤ_iff}
use mgk_governance_kernel.Errors.{
  Error, Result, ok, err, bind_ok, guard_ok, raise_if-eq-ok, value_error, epoch, ◌>>=◌,
}
use mgk_governance_kernel.Json.{Value, Fields, get}
use mgk_governance_kernel.Json.Access.{index, index-ok, integer, integer-ok}
use mgk_governance_kernel.Platform.{Bytes, Platform}
use mgk_governance_kernel.Models.{ActionRequest, ExecutionResult}
use mgk_governance_kernel.State.{SecurityState, integrity_check, current_epoch}
use mgk_governance_kernel.Ledger.{AuditLedger, verify_integrity, append}
use mgk_governance_kernel.Verifier.{verify}
use mgk_governance_kernel.Executor.{
  CapabilityExecutor, World, Surroundings, intent_data, authorize, recheck_epoch, run_action,
  binding_of, finish, perform, commit, conclude, with_id, proceed, execute, record_denial,
}

-- The one shape of a denial, and of a success.
pub record IsDenied (res : ExecutionResult) : Type 0 where
  pub failed : res.success ≡ false
  pub status : res.status ≡ "DENIED"
  pub no_authority : res.execution_authority ≡ 0
  pub no_digest : res.output_digest ≡ none
  pub no_output : res.output ≡ none

pub record IsExecuted (res : ExecutionResult) : Type 0 where
  pub succeeded : res.success ≡ true
  pub status : res.status ≡ "EXECUTED"
  pub authority : res.execution_authority ≡ 1
  pub identified : (id : Value) × (res.capability_id ≡ some id)
  pub digested : (digest : Value) × (res.output_digest ≡ some digest)

module _ (p : Platform) (x : CapabilityExecutor) (env : Surroundings) (envelope : Bytes)
    (r : ActionRequest) (w : World) where
  -- The security state at the commit, where the verification has left `s`.
  abbrev pub at_commit : SecurityState → SecurityState
  at_commit s = record s { store = env.others s.store }

  -- What has succeeded, in this order, before an operation runs.
  pub record IsCommitted (binding : Fields) (id : Value) (w' : World) : Type 0 where
    pub payload : Fields
    pub spent : SecurityState
    pub audit : AuditLedger
    pub hash : String
    pub number : ℤ
    pub addressed : r.audience ≡ x.executor_id
    pub audited : (seen : ℕ × String) × (verify_integrity p w.audit ≡ ok seen)
    pub failures : (seen : ℕ × String) × (verify_integrity p w.failure ≡ ok seen)
    pub sound : integrity_check w.state ≡ ok tt
    pub verified : verify p x.verifier env.verify_at envelope r true w.state ≡ ok (payload, spent)
    pub identified : get "capability_id" payload ≡ some id
    pub recorded :
        append p "EXECUTION_AUTHORIZED" (intent_data r id) env.authorized_at w.audit
        ≡ (ok hash, audit)
    pub has_epoch : get "authorization_epoch" payload ≡ some (Value.int number)
    pub unchanged : current_epoch p (at_commit spent) ≡ ok number
    pub bound : binding_of p payload ≡ ok binding
    pub world : w' ≡ record w { state = at_commit spent; audit = audit }

  -- Of a call: it has denied, and the files are as they were; or all of `IsCommitted` holds, and
  -- the call is the operation with the binding of the payload, its record and the conclusion.
  abbrev pub Guarded : ExecutionResult × World → Type 0
  Guarded out =
      (IsDenied out.0 × (out.1.files ≡ w.files))
      ⊎ ((binding : Fields) × (id : Value) × (w' : World) × IsCommitted binding id w'
          × (out
              ≡ conclude p env r (some id)
                  (finish p (run_action p env.outcomes r binding w.files) env r id binding w')))

  conclude-err :
      (id : Option Value) (e : Error) (w' : World)
      → w'.files ≡ w.files
      → Guarded (conclude p env r id (err e, w'))
  unfolding conclude record_denial
  conclude-err id e w' same = inl (
    record {
      failed = refl;
      status = refl;
      no_authority = refl;
      no_digest = refl;
      no_output = refl;
    },
    same,
  )

  -- `authorize` and `recheck_epoch`, where they have succeeded.
  authorize-ok :
      (payload : Fields) (s : SecurityState)
      → authorize p x env.verify_at envelope r w ≡ ok (payload, s)
      → (r.audience ≡ x.executor_id)
        × ((a : ℕ × String) × (verify_integrity p w.audit ≡ ok a))
        × ((b : ℕ × String) × (verify_integrity p w.failure ≡ ok b))
        × (integrity_check w.state ≡ ok tt)
        × (verify p x.verifier env.verify_at envelope r true w.state ≡ ok (payload, s))
  unfolding authorize
  authorize-ok payload s h =
      guard_ok (not (str_eq r.audience x.executor_id)) value_error _ h λ audience h1.
        bind_ok (verify_integrity p w.audit) _ h1 λ a audited h2.
          bind_ok (verify_integrity p w.failure) _ h2 λ b failures h3.
            bind_ok (integrity_check w.state) _ h3 λ _ sound h4. (
              (eq_iff r.audience x.executor_id).0 (ground arith),
              (a, audited),
              (b, failures),
              sound,
              h4,
            )

  recheck_epoch-ok :
      (payload : Fields) (s : SecurityState)
      → recheck_epoch p payload s ≡ ok tt
      → (n : ℤ) × (get "authorization_epoch" payload ≡ some (Value.int n))
        × (current_epoch p s ≡ ok n)
  unfolding recheck_epoch
  recheck_epoch-ok payload s h = bind_ok (index payload "authorization_epoch") _ h λ nv at_n h1.
      bind_ok (integer epoch nv) _ h1 λ n is_n h2.
        bind_ok (current_epoch p s) _ h2 λ current read h3.
          let same =
            (eqb_ℤ_iff n current).0
              (ground (arith, raise_if-eq-ok (not (eqb_ℤ n current)) epoch h3)) in
          (
            n,
            index-ok payload "authorization_epoch" at_n ∙ ap some (integer-ok epoch nv is_n),
            read ∙ ap (λ (y : ℤ). ok y) (sym same),
          )

  abbrev before : AuditLedger → SecurityState → World
  before audit s = record w { state = at_commit s; audit = audit }

  perform-Guarded :
      (m : Result Fields) (payload : Fields) (s : SecurityState) (audit : AuditLedger) (id : Value)
      → ((binding : Fields) → m ≡ ok binding → IsCommitted binding id (before audit s))
      → Guarded (conclude p env r (some id) (perform p m env r id (before audit s)))
  unfolding perform
  perform-Guarded (err e) payload s audit id committed =
      conclude-err (some id) e (before audit s) refl
  perform-Guarded (ok binding) payload s audit id committed =
      inr (binding, id, before audit s, committed binding refl, refl)

  commit-Guarded :
      (m : Result String × AuditLedger) (payload : Fields) (s : SecurityState) (id : Value)
      → authorize p x env.verify_at envelope r w ≡ ok (payload, s)
      → index payload "capability_id" ≡ ok id
      → append p "EXECUTION_AUTHORIZED" (intent_data r id) env.authorized_at w.audit ≡ m
      → Guarded (conclude p env r (some id) (commit p m env r id payload (record w { state = s })))
  unfolding commit
  commit-Guarded (err e, audit) payload s id authorized at_id recorded =
      conclude-err (some id) e _ refl
  commit-Guarded (ok hash, audit) payload s id authorized at_id recorded =
      perform-Guarded (recheck_epoch p payload (at_commit s) >>= λ _. binding_of p payload) payload
        s audit id
        λ binding h. bind_ok (recheck_epoch p payload (at_commit s)) _ h λ _ rechecked bound.
          let (addressed, audited, failures, sound, verified) = authorize-ok payload s authorized in
          let (n, has_epoch, unchanged) = recheck_epoch-ok payload (at_commit s) rechecked in
          record {
            payload = payload;
            spent = s;
            audit = audit;
            hash = hash;
            number = n;
            addressed = addressed;
            audited = audited;
            failures = failures;
            sound = sound;
            verified = verified;
            identified = index-ok payload "capability_id" at_id;
            recorded = recorded;
            has_epoch = has_epoch;
            unchanged = unchanged;
            bound = bound;
            world = refl;
          }

  with_id-Guarded :
      (m : Result Value) (payload : Fields) (s : SecurityState)
      → authorize p x env.verify_at envelope r w ≡ ok (payload, s)
      → index payload "capability_id" ≡ m
      → Guarded (with_id p m payload env r (record w { state = s }))
  unfolding with_id
  with_id-Guarded (err e) payload s authorized at_id = conclude-err none e _ refl
  with_id-Guarded (ok id) payload s authorized at_id =
      commit-Guarded (append p "EXECUTION_AUTHORIZED" (intent_data r id) env.authorized_at w.audit)
        payload s id authorized at_id refl

  proceed-Guarded :
      (m : Result (Fields × SecurityState))
      → authorize p x env.verify_at envelope r w ≡ m
      → Guarded (proceed p m env r w)
  unfolding proceed
  proceed-Guarded (err e) h = conclude-err none e w refl
  proceed-Guarded (ok (payload, s)) h =
      with_id-Guarded (index payload "capability_id") payload s h refl

  -- No operation without authority. A call of `execute` has either denied, with the files as they were;
  -- or, in this order, the request is addressed to the executor, both ledgers and the security state
  -- have passed their integrity checks, the verifier has accepted the envelope for the request, the
  -- audit ledger has recorded the authorization, and the epoch of the capability is still the current
  -- one at the commit, and then the call is the operation with the binding that was signed.
  pub execute-Guarded : Guarded (execute p x env envelope r w)
  unfolding execute
  execute-Guarded = proceed-Guarded (authorize p x env.verify_at envelope r w) refl
