-- ===== src/Runtime/Human/Gate.antt =====
-- The human gate of runtime/decision.py: what an operator's approval or denial can do to the kernel.
use mgk_governance_kernel.Prelude.{
  ◌≡◌, refl, sym, subst, Bool, true, false, Option, none, some, List, String, eq_iff, if◌then◌else◌,
}
use mgk_governance_kernel.Prelude.Int.{ℤ}
use mgk_governance_kernel.Errors.{Result, ok, err}
use mgk_governance_kernel.Platform.{Platform}
use mgk_governance_kernel.Models.{ActionRequest}
use mgk_governance_kernel.Executor.{World}
use mgk_governance_kernel.Runtime.Policy.{resolved_context}
use mgk_governance_kernel.Runtime.Store.{ProposalView, HumanRow, is_taken, proposal}
use mgk_governance_kernel.Runtime.Calls.{continue, ◌>>=◌}
use mgk_governance_kernel.Runtime.Decision.{
  Decision, DecisionPipeline, RuntimeState, as_request, decision_state,
}
use mgk_governance_kernel.Runtime.Decision.Frames.{
  kernel, human_rows, kernel-Books, Withholds, Outcome,
}
use mgk_governance_kernel.Runtime.Human.{
  stored_request, is_waiting, action_id_of, record_human, execute_approved, approve, gate,
  human_approve, deny_transition,
}
use mgk_governance_kernel.Runtime.Human.Steps.{
  Enters, record_human-kernel, record_human-Enters, execute_approved-humans, execute_approved-Meets,
}
use mgk_governance_kernel.Runtime.Human.Reports.{deny_transition-Leaves}

module _ (p : Platform) (x : DecisionPipeline) where
  -- What one approval has done: nothing to the kernel; or the request that is stored waited for a human
  -- and had no action of one, it has one now, and the outcome is that of an issuance for the stored
  -- request with the context of an approval.
  pub data Approval (id : String) (s : RuntimeState) (o : Result Decision) (s' : RuntimeState)
      : Type 0 where
    nothing : s'.world ≡ s.world → Withholds o → Approval id s o s'
    approved :
        (v : ProposalView)
        → proposal p id s.ledger ≡ ok (some v)
        → decision_state p x id s.ledger ≡ ok (some "REQUIRE_HUMAN")
        → is_taken (action_id_of id) (human_rows s) ≡ false
        → is_taken (action_id_of id) (human_rows s') ≡ true
        → Outcome p x
            (as_request x.python (stored_request v))
            (some (resolved_context x.policy))
            s.world
            o
            s'.world
        → Approval id s o s'

  module _ (id operator : String) (s : RuntimeState) (v : ProposalView)
      (stored : proposal p id s.ledger ≡ ok (some v))
      (waits : decision_state p x id s.ledger ≡ ok (some "REQUIRE_HUMAN")) where
    recorded-Approval :
        (r : ActionRequest)
        → as_request x.python (stored_request v) ≡ ok r
        → (o : Result (String × String × ℤ) × RuntimeState) → o.1.world ≡ s.world
        → Enters id (human_rows s) o.0 (human_rows o.1)
        → Approval id s
            (continue (λ a. execute_approved p x r operator a.0) o).0
            (continue (λ a. execute_approved p x r operator a.0) o).1
    recorded-Approval r from (err e, t) same entered = nothing same tt
    recorded-Approval r from (ok (signature, hash, at), t) same (free, taken) =
        approved v stored waits free
          (subst (λ (rows : List HumanRow). is_taken (action_id_of id) rows ≡ true)
            (sym ((execute_approved-humans p x r operator signature).same t)) taken)
          (subst
            (λ (w : World).
              Outcome p x (as_request x.python (stored_request v))
                (some (resolved_context x.policy)) w (execute_approved p x r operator signature t).0
                (execute_approved p x r operator signature t).1.world)
            same
            (subst
              (λ (source : Result ActionRequest).
                Outcome p x source (some (resolved_context x.policy)) t.world
                  (execute_approved p x r operator signature t).0
                  (execute_approved p x r operator signature t).1.world)
              (sym from) ((execute_approved-Meets p x r operator signature).met t)))

    bound-Approval :
        (source : Result ActionRequest)
        → as_request x.python (stored_request v) ≡ source
        → Approval id s
            (continue
              (λ r. record_human p x v id operator "APPROVE" >>= λ a.
                execute_approved p x r operator a.0)
              (source, s)).0
            (continue
              (λ r. record_human p x v id operator "APPROVE" >>= λ a.
                execute_approved p x r operator a.0)
              (source, s)).1
    bound-Approval (err e) from = nothing refl tt
    bound-Approval (ok r) from =
        recorded-Approval r from (record_human p x v id operator "APPROVE" s)
          ((record_human-kernel p x v id operator "APPROVE").same s)
          ((record_human-Enters p x v id operator "APPROVE").met s)

    pub approve-Approval :
        Approval id s (approve p x v id operator s).0 (approve p x v id operator s).1
    unfolding approve
    approve-Approval = bound-Approval (as_request x.python (stored_request v)) refl

  module _ (id operator : String) (s : RuntimeState) where
    transition-Approval :
        (source : Result ActionRequest) (current : Option String)
        → Approval id s
            (deny_transition p x source id current s).0
            (deny_transition p x source id current s).1
    transition-Approval source current =
        let l = deny_transition-Leaves p x kernel (kernel-Books p x) source id current in
        nothing (l.kept.same s) (l.yielded s)

    waiting-Approval :
        (v : ProposalView) (current : Option String) (b : Bool)
        → proposal p id s.ledger ≡ ok (some v)
        → decision_state p x id s.ledger ≡ ok current
        → is_waiting current ≡ b
        → Approval id s
            ((if b
                then approve p x v id operator
                else deny_transition p x (as_request x.python (stored_request v)) id current)
              s).0
            ((if b
                then approve p x v id operator
                else deny_transition p x (as_request x.python (stored_request v)) id current)
              s).1
    waiting-Approval v current false stored state h = transition-Approval _ current
    waiting-Approval v none true stored state h = cc
    waiting-Approval v (some now') true stored state h = approve-Approval id operator s v stored (
        subst (λ (k : String). decision_state p x id s.ledger ≡ ok (some k))
          ((eq_iff now' "REQUIRE_HUMAN").0 h) state)

    current-Approval :
        (v : ProposalView) (current : Result (Option String))
        → proposal p id s.ledger ≡ ok (some v)
        → decision_state p x id s.ledger ≡ current
        → Approval id s
            (continue
              (λ c.
                if is_waiting c
                then approve p x v id operator
                else deny_transition p x (as_request x.python (stored_request v)) id c)
              (current, s)).0
            (continue
              (λ c.
                if is_waiting c
                then approve p x v id operator
                else deny_transition p x (as_request x.python (stored_request v)) id c)
              (current, s)).1
    current-Approval v (err e) stored state = nothing refl tt
    current-Approval v (ok c) stored state = waiting-Approval v c (is_waiting c) stored state refl

    gate-Approval :
        (found : Result (Option ProposalView))
        → proposal p id s.ledger ≡ found
        → Approval id s
            (continue (λ o. gate p x (λ v. approve p x v id operator) id o) (found, s)).0
            (continue (λ o. gate p x (λ v. approve p x v id operator) id o) (found, s)).1
    unfolding gate
    gate-Approval (err e) stored = nothing refl tt
    gate-Approval (ok none) stored = nothing refl ((λ h. cc), refl)
    gate-Approval (ok (some v)) stored =
        current-Approval v (decision_state p x id s.ledger) stored refl

    -- An approval acts only on what waits for it, and once. A call of `human_approve` leaves the kernel as
    -- it is and answers neither ALLOW nor executed; or the stored decision for the request is
    -- REQUIRE_HUMAN, no action of a human is stored for it before and one is afterwards, and the outcome
    -- is that of at most one issuance and execution, for the request that was stored with the proposal
    -- and with the context that the policy resolves an approval to.
    pub human_approve-Approval :
        Approval id s (human_approve p x id operator s).0 (human_approve p x id operator s).1
    unfolding human_approve
    human_approve-Approval = gate-Approval (proposal p id s.ledger) refl
