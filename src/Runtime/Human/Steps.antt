-- ===== src/Runtime/Human/Steps.antt =====
-- The steps of an approval at the human gate of runtime/decision.py: its record, then its execution.
use mgk_governance_kernel.Prelude.{
  ◌≡◌, refl, sym, subst, true, false, Option, none, some, List, String, arith, eq_iff,
}
use mgk_governance_kernel.Prelude.Int.{ℤ}
use mgk_governance_kernel.Errors.{Result, ok, err}
use mgk_governance_kernel.Platform.{Bytes, Platform}
use mgk_governance_kernel.Models.{ActionRequest, IssueResult, request_digest}
use mgk_governance_kernel.Saxp.{evaluate}
use mgk_governance_kernel.Authority.{issue}
use mgk_governance_kernel.Executor.{World, execute}
use mgk_governance_kernel.Runtime.Policy.{resolved_context}
use mgk_governance_kernel.Runtime.Store.{
  RuntimeLedger, ProposalView, HumanRow, is_taken, store_human_action,
}
use mgk_governance_kernel.Runtime.Store.Rows.{is_taken-append, store_human_action-ok}
use mgk_governance_kernel.Runtime.Calls.{continue, settle, return}
use mgk_governance_kernel.Runtime.Calls.Frame.{
  Keeps, Meets, lift-Keeps, return-Keeps, bind-Keeps, try_then-Keeps, return-Leaves, bind-Leaves,
  bind-Meets,
}
use mgk_governance_kernel.Runtime.Decision.{Decision, DecisionPipeline, RuntimeState, put_ledger}
use mgk_governance_kernel.Runtime.Decision.Frames.{
  kernel, human_rows, kernel-Books, humans-Books, write_ledger-kernel, Withholds, Outcome,
  untouched, executed, spare-Meets, deny≢allow,
}
use mgk_governance_kernel.Runtime.Propose.{run_execution, issue_for}
use mgk_governance_kernel.Runtime.Human.{
  action_id_of, human_row, record_human, use_human_capability, issue_and_execute_human,
  refuse_human, execute_approved,
}
use mgk_governance_kernel.Runtime.Human.Reports.{
  sign_human-Keeps, refuse_human-Leaves, report_human-Leaves,
}

-- The action of a human for the request is new in the table, and there afterwards.
abbrev pub Enters : {A : Type 0} → String → List HumanRow → Result A → List HumanRow → Type 0
Enters id rows (ok a) rows' =
    (is_taken (action_id_of id) rows ≡ false) × (is_taken (action_id_of id) rows' ≡ true)
Enters id rows (err e) rows' = rows' ≡ rows

module _ (p : Platform) (x : DecisionPipeline) where
  pub record_human-kernel :
      (v : ProposalView) (id operator decision : String)
      → Keeps kernel (record_human p x v id operator decision)
  unfolding record_human
  record_human-kernel v id operator decision =
      bind-Keeps kernel _ _ (sign_human-Keeps p x kernel (kernel-Books p x) v decision operator)
        λ signature. bind-Keeps kernel _ _ (kernel-Books p x).time λ at.
          bind-Keeps kernel _ _ ((kernel-Books p x).flight _ _) λ hash.
            bind-Keeps kernel _ _
              (write_ledger-kernel p x
                (store_human_action (human_row id operator decision signature hash at)))
              λ done. return-Keeps kernel _

  stored-Enters :
      (id operator decision signature hash : String) (at : ℤ) (s : RuntimeState)
      (r : Result RuntimeLedger)
      → store_human_action (human_row id operator decision signature hash at) s.ledger ≡ r
      → Enters {A = String × String × ℤ} id
          (human_rows s)
          (continue {B = String × String × ℤ}
            (λ done. return (signature, hash, at))
            (put_ledger p x s r)).0
          (human_rows
            (continue {B = String × String × ℤ}
              (λ done. return (signature, hash, at))
              (put_ledger p x s r)).1)
  stored-Enters id operator decision signature hash at s (err e) h = refl
  stored-Enters id operator decision signature hash at s (ok l) h =
      let row = human_row id operator decision signature hash at in
      let (free, rows) = store_human_action-ok row s.ledger l h in
      (
        free,
        subst (λ (rs : List HumanRow). is_taken (action_id_of id) rs ≡ true) (sym rows)
            (ground (
              arith,
              is_taken-append (action_id_of id) (human_rows s) row,
              eq_iff (action_id_of id) (action_id_of id),
            )),
      )

  pub record_human-Enters :
      (v : ProposalView) (id operator decision : String)
      → Meets human_rows (Enters id) (record_human p x v id operator decision)
  unfolding record_human
  record_human-Enters v id operator decision =
      let b = humans-Books p x in
      bind-Meets human_rows (Enters id) _ _ (sign_human-Keeps p x human_rows b v decision operator)
        (λ e rows. refl)
        λ signature.
          bind-Meets human_rows (Enters id) _ _ b.time (λ e rows. refl)
            λ at.
              bind-Meets human_rows (Enters id) _ _ (b.flight _ _) (λ e rows. refl)
                λ hash. record {
                  met = λ s. stored-Enters id operator decision signature hash at s _ refl;
                }

  pub run_execution-humans :
      (envelope : Bytes) (r : ActionRequest) → Keeps human_rows (run_execution p x envelope r)
  run_execution-humans envelope r = record { same = λ s. refl }

  use_human_capability-humans :
      (r : ActionRequest) (codes : List String) (operator signature : String) (issued : IssueResult)
      (e : Option Bytes)
      → Keeps human_rows (use_human_capability p x r codes operator signature issued e)
  unfolding use_human_capability
  use_human_capability-humans r codes operator signature issued none =
      bind-Keeps human_rows _ _ (lift-Keeps human_rows (request_digest p r))
        λ sha. return-Keeps human_rows _
  use_human_capability-humans r codes operator signature issued (some envelope) =
      bind-Keeps human_rows _ _ (run_execution-humans envelope r) λ result.
        (report_human-Leaves p x human_rows (humans-Books p x) r codes operator signature issued
          result).kept

  pub execute_approved-humans :
      (r : ActionRequest) (operator signature : String)
      → Keeps human_rows (execute_approved p x r operator signature)
  unfolding execute_approved issue_and_execute_human
  execute_approved-humans r operator signature =
      bind-Keeps human_rows _ _
        (lift-Keeps human_rows (evaluate p x.saxp r (resolved_context x.policy)))
        λ d.
          try_then-Keeps human_rows (issue_for p x r (some (resolved_context x.policy))) _ _
            (record { same = λ s. refl })
            (λ e.
              (refuse_human-Leaves p x human_rows (humans-Books p x) r d.reason_codes operator
                signature e).kept)
            λ issued.
              use_human_capability-humans r d.reason_codes operator signature issued issued.envelope

  module _ (r : ActionRequest) (codes : List String) (operator signature : String) where
    abbrev P : World → Result Decision → World → Type 0
    P = Outcome p x (ok r) (some (resolved_context x.policy))

    use_human_capability-Outcome :
        (issued : IssueResult) (s : RuntimeState) (e : Option Bytes)
        → issue p x.authority r none
            (some (resolved_context x.policy))
            x.issued_at
            x.nonce
            s.world.state
            s.world.files
          ≡ ok issued
        → issued.envelope ≡ e
        → P s.world
            (use_human_capability p x r codes operator signature issued e s).0
            (use_human_capability p x r codes operator signature issued e s).1.world
    unfolding use_human_capability
    use_human_capability-Outcome issued s none here h =
        (spare-Meets p x (ok r) _ _ (
            bind-Leaves kernel Withholds _ _ (lift-Keeps kernel (request_digest p r)) (λ e. tt)
              λ sha. return-Leaves kernel Withholds _ (deny≢allow, refl))).met
          s
    use_human_capability-Outcome issued s (some envelope) here h =
        let after = execute p x.executor x.surroundings envelope r s.world in
        let l =
          report_human-Leaves p x kernel (kernel-Books p x) r codes operator signature issued
            after.0 in
        let s' : RuntimeState = record s { world = after.1 } in
        executed r issued envelope refl here h (l.kept.same s') (l.yielded s')

    issued-Outcome :
        (s : RuntimeState) (o : Result IssueResult)
        → issue p x.authority r none
            (some (resolved_context x.policy))
            x.issued_at
            x.nonce
            s.world.state
            s.world.files
          ≡ o
        → P s.world
            (settle
              (refuse_human p x r codes operator signature)
              (λ issued. use_human_capability p x r codes operator signature issued issued.envelope)
              (o, s)).0
            (settle
              (refuse_human p x r codes operator signature)
              (λ issued. use_human_capability p x r codes operator signature issued issued.envelope)
              (o, s)).1.world
    issued-Outcome s (err e) here =
        (spare-Meets p x (ok r) _ _
            (refuse_human-Leaves p x kernel (kernel-Books p x) r codes operator signature e)).met
          s
    issued-Outcome s (ok issued) here =
        use_human_capability-Outcome issued s issued.envelope here refl

    issue_and_execute_human-Meets :
        Meets kernel P (issue_and_execute_human p x r codes operator signature)
    unfolding issue_and_execute_human
    issue_and_execute_human-Meets = record { met = λ s. issued-Outcome s _ refl }

  pub execute_approved-Meets :
      (r : ActionRequest) (operator signature : String)
      → Meets kernel
          (Outcome p x (ok r) (some (resolved_context x.policy)))
          (execute_approved p x r operator signature)
  unfolding execute_approved
  execute_approved-Meets r operator signature =
      bind-Meets kernel (Outcome p x (ok r) (some (resolved_context x.policy))) _ _
        (lift-Keeps kernel (evaluate p x.saxp r (resolved_context x.policy)))
        (λ e w. untouched refl tt)
        λ d. issue_and_execute_human-Meets r d.reason_codes operator signature
