-- ===== src/Runtime/Human/Forward.antt =====
-- No call at the human gate of runtime/decision.py loses a stored action of a human.
use mgk_governance_kernel.Prelude.{
  ◌≡◌, refl, sym, subst, true, false, Option, none, some, List, [], ◌∷◌, String, arith,
}
use mgk_governance_kernel.Errors.{Result, ok, err}
use mgk_governance_kernel.Platform.{Platform}
use mgk_governance_kernel.Models.{request_digest}
use mgk_governance_kernel.Runtime.Store.{
  RuntimeLedger, ProposalView, HumanRow, is_taken, proposal, store_human_action,
}
use mgk_governance_kernel.Runtime.Store.Rows.{is_taken-append, store_human_action-ok}
use mgk_governance_kernel.Runtime.Calls.{Call}
use mgk_governance_kernel.Runtime.Calls.Frame.{
  Keeps, lift-Keeps, return-Keeps, reads-Keeps, bind-Keeps,
}
use mgk_governance_kernel.Runtime.Calls.Order.{Moves, keeps-Moves, if-Moves, bind-Moves}
use mgk_governance_kernel.Runtime.Decision.{
  deny, Decision, DecisionPipeline, RuntimeState, as_request, put_ledger, write_ledger,
  decision_state,
}
use mgk_governance_kernel.Runtime.Decision.Frames.{human_rows, humans-Books}
use mgk_governance_kernel.Runtime.Human.{
  stored_request, is_waiting, human_row, record_human, approve, refuse, gate, human_approve,
  human_deny,
}
use mgk_governance_kernel.Runtime.Human.Steps.{execute_approved-humans}
use mgk_governance_kernel.Runtime.Human.Reports.{sign_human-Keeps, deny_transition-Leaves}

-- No action of a human is lost.
abbrev pub Grows : List HumanRow → List HumanRow → Type 0
Grows rows rows' = (k : String) → is_taken k rows ≡ true → is_taken k rows' ≡ true

pub Grows-refl : (rows : List HumanRow) → Grows rows rows
Grows-refl rows k h = h

pub Grows-trans : (a b c : List HumanRow) → Grows a b → Grows b c → Grows a c
Grows-trans a b c f g k h = g k (f k h)

module _ (p : Platform) (x : DecisionPipeline) where
  put-Grows :
      (row : HumanRow) (s : RuntimeState) (r : Result RuntimeLedger)
      → store_human_action row s.ledger ≡ r
      → Grows (human_rows s) (human_rows (put_ledger p x s r).1)
  put-Grows row s (err e) h = Grows-refl (human_rows s)
  put-Grows row s (ok l) h = λ k taken.
      let rows = (store_human_action-ok row s.ledger l h).1 in
      subst (λ (rs : List HumanRow). is_taken k rs ≡ true) (sym rows)
        (ground (arith, is_taken-append k (human_rows s) row))

  -- The call loses no action of a human.
  abbrev pub Forward : {A : Type 0} → Call RuntimeState A → Type 0
  Forward m = Moves human_rows Grows Grows-refl Grows-trans m

  abbrev pub still : {A : Type 0} (m : Call RuntimeState A) → Keeps human_rows m → Forward m
  still m k = keeps-Moves human_rows Grows Grows-refl Grows-trans m k

  record_human-Forward :
      (v : ProposalView) (id operator decision : String)
      → Forward (record_human p x v id operator decision)
  unfolding record_human
  record_human-Forward v id operator decision =
      let b = humans-Books p x in
      bind-Moves human_rows Grows Grows-refl Grows-trans _ _
        (still _ (sign_human-Keeps p x human_rows b v decision operator))
        λ signature. bind-Moves human_rows Grows Grows-refl Grows-trans _ _ (still _ b.time) λ at.
          bind-Moves human_rows Grows Grows-refl Grows-trans _ _ (still _ (b.flight _ _)) λ hash.
            bind-Moves human_rows Grows Grows-refl Grows-trans
              (write_ledger p x
                (store_human_action (human_row id operator decision signature hash at)))
              _
              (record {
                moved = λ s. put-Grows (human_row id operator decision signature hash at) s _ refl;
              })
              λ done. still _ (return-Keeps human_rows (signature, hash, at))

  gate-Forward :
      (next : ProposalView → Call RuntimeState Decision) (id : String) (found : Option ProposalView)
      → ((v : ProposalView) → Forward (next v))
      → Forward (gate p x next id found)
  unfolding gate
  gate-Forward next id none n = still _ (return-Keeps human_rows _)
  gate-Forward next id (some v) n =
      bind-Moves human_rows Grows Grows-refl Grows-trans _ _
        (still _ (reads-Keeps human_rows (λ s. decision_state p x id s.ledger)))
        λ c.
          if-Moves human_rows Grows Grows-refl Grows-trans (is_waiting c) _ _ (n v)
            (still _ (deny_transition-Leaves p x human_rows (humans-Books p x) _ id c).kept)

  approve-Forward : (v : ProposalView) (id operator : String) → Forward (approve p x v id operator)
  unfolding approve
  approve-Forward v id operator =
      bind-Moves human_rows Grows Grows-refl Grows-trans _ _
        (still _ (lift-Keeps human_rows (as_request x.python (stored_request v))))
        λ r.
          bind-Moves human_rows Grows Grows-refl Grows-trans _ _
            (record_human-Forward v id operator "APPROVE")
            λ a. still _ (execute_approved-humans p x r operator a.0)

  refuse-Forward : (v : ProposalView) (id operator : String) → Forward (refuse p x v id operator)
  unfolding refuse
  refuse-Forward v id operator =
      bind-Moves human_rows Grows Grows-refl Grows-trans _ _
        (still _ (lift-Keeps human_rows (as_request x.python (stored_request v))))
        λ r.
          bind-Moves human_rows Grows Grows-refl Grows-trans _ _
            (record_human-Forward v id operator "DENY")
            λ a. still _ (
              bind-Keeps human_rows _ _
                ((humans-Books p x).decision_at a.2 id deny ("HUMAN_DENIED" ∷ []) none false none
                  a.1)
                λ done.
                  bind-Keeps human_rows _ _ (lift-Keeps human_rows (request_digest p r))
                    λ sha. return-Keeps human_rows _)

  pub human_approve-Forward : (id operator : String) → Forward (human_approve p x id operator)
  unfolding human_approve
  human_approve-Forward id operator =
      bind-Moves human_rows Grows Grows-refl Grows-trans _ _
        (still _ (reads-Keeps human_rows (λ s. proposal p id s.ledger)))
        λ found. gate-Forward _ id found (λ v. approve-Forward v id operator)

  pub human_deny-Forward : (id operator : String) → Forward (human_deny p x id operator)
  unfolding human_deny
  human_deny-Forward id operator =
      bind-Moves human_rows Grows Grows-refl Grows-trans _ _
        (still _ (reads-Keeps human_rows (λ s. proposal p id s.ledger)))
        λ found. gate-Forward _ id found (λ v. refuse-Forward v id operator)
