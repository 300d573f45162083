-- ===== src/Executor/Replays.antt =====
-- A capability is executed once (`execute` of src/mgk/executor.py).
use mgk_governance_kernel.Prelude.{◌≡◌, refl, ◌∙◌, ap, subst, true, some, String, inl, inr}
use mgk_governance_kernel.Errors.{Result, ok, err}
use mgk_governance_kernel.Json.{Value, Fields, put_last}
use mgk_governance_kernel.Platform.{Bytes, Platform}
use mgk_governance_kernel.Models.{ActionRequest, ExecutionResult}
use mgk_governance_kernel.State.{SecurityState, Store}
use mgk_governance_kernel.State.Replay.{Reach, Reach-join}
use mgk_governance_kernel.Ledger.{AuditLedger, append}
use mgk_governance_kernel.Verifier.Spending.{verify_once}
use mgk_governance_kernel.Resource.Files.{FileSystem}
use mgk_governance_kernel.Executor.{
  CapabilityExecutor, World, Surroundings, Output, intent_data, run_action, complete, finish,
  record_denial, conclude, execute,
}
use mgk_governance_kernel.Executor.Authorization.{IsDenied, execute-Guarded}

module _ (p : Platform) (env : Surroundings) (r : ActionRequest) where
  conclude-state :
      (id : Value) (m : Result Output) (w : World)
      → (conclude p env r (some id) (m, w)).1.state ≡ w.state
  unfolding conclude record_denial
  conclude-state id (ok output) w = refl
  conclude-state id (err e) w = refl

  complete-state :
      (m : Result String × AuditLedger) (id : Value) (b : Fields) (output : Output) (w : World)
      → (conclude p env r (some id) (complete p m r b output w)).1.state ≡ w.state
  unfolding complete conclude record_denial
  complete-state (ok _, audit) id b output w = refl
  complete-state (err e, audit) id b output w = refl

  finish-state :
      (run : Result Output × FileSystem) (id : Value) (b : Fields) (w : World)
      → (conclude p env r (some id) (finish p run env r id b w)).1.state ≡ w.state
  unfolding finish
  finish-state (err e, fs) id b w = conclude-state id (err e) (record w { files = fs })
  finish-state (ok output, fs) id b w =
      complete-state
        (append p "EXECUTION_COMPLETED" (put_last "output_digest" output.0 (intent_data r id))
          env.completed_at w.audit)
        id b output (record w { files = fs })

module _ (p : Platform) where
  -- One envelope is executed at most once. If what other processes write to the security state during
  -- a call are transactions, and the call succeeds, then whatever transactions are committed after it,
  -- each later call with the same envelope, by any executor on that state and for any request, is denied
  -- and leaves the files as they are.
  pub execute_once :
      (x y : CapabilityExecutor) (env later : Surroundings) (envelope : Bytes) (r q : ActionRequest)
      (w v : World)
      → ((s : Store) → Reach p s (env.others s))
      → (execute p x env envelope r w).0.success ≡ true
      → Reach p (execute p x env envelope r w).1.state.store v.state.store
      → IsDenied (execute p y later envelope q v).0
        × ((execute p y later envelope q v).1.files ≡ v.files)
  execute_once x y env later envelope r q w v steps done reach =
      elim (execute-Guarded p x env envelope r w) [
        | inl (d, same) ↦ let failed = d.failed in cc
        | inr (b, id, w', c, e) ↦ elim (execute-Guarded p y later envelope q v) [
          | inl out ↦ out
          | inr (b', id', v', c', e') ↦
              let left =
                ap (λ (o : ExecutionResult × World). o.1.state) e
                ∙ finish-state p env r (run_action p env.outcomes r b w.files) id b w' in
              let state = left ∙ ap (λ (o : World). o.state) c.world in
              let from = subst (λ (s : SecurityState). Reach p s.store v.state.store) state reach in
              let all =
                Reach-join p c.spent.store (env.others c.spent.store) v.state.store
                  (steps c.spent.store) from in
              let (consumed, _) =
                verify_once p x.verifier y.verifier env.verify_at later.verify_at envelope r q true
                  w.state c.spent v.state c'.spent c.payload c'.payload c.verified all
                  c'.verified in
              absurd (cc)
        ]
      ]
