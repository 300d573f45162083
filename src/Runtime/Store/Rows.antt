-- ===== src/Runtime/Store/Rows.antt =====
-- What the methods of runtime/runtime_ledger.py that write do to the tables.
use mgk_governance_kernel.Prelude.{
  ◌≡◌, ap, sym, Bool, false, not, ◌||◌, str_eq, arith, Option, List, [], ◌∷◌, ◌++◌, String,
}
use mgk_governance_kernel.Prelude.Int.{ℤ}
use mgk_governance_kernel.Errors.{Result, ok, state_integrity, ok_inj, bind_ok, guard_ok}
use mgk_governance_kernel.Json.{Value, texts}
use mgk_governance_kernel.Platform.{Platform}
use mgk_governance_kernel.Canonical.{canonicalize}
use mgk_governance_kernel.Models.{ActionRequest}
use mgk_governance_kernel.Runtime.Store.{
  DecisionRow, HumanRow, RuntimeLedger, insert_decision, clashes, store_proposal, store_decision,
  store_human_action, is_taken,
}

pub is_taken-append :
    (id : String) (rows : List HumanRow) (new : HumanRow)
    → is_taken id (rows ++ new ∷ []) ≡ (is_taken id rows || str_eq new.action_id id)
is_taken-append id [] new = ground arith
is_taken-append id (r ∷ rows) new = ground (arith, is_taken-append id rows new)

pub store_human_action-ok :
    (new : HumanRow) (l l' : RuntimeLedger)
    → store_human_action new l ≡ ok l'
    → (is_taken new.action_id l.human_rows ≡ false) × (l'.human_rows ≡ l.human_rows ++ new ∷ [])
unfolding store_human_action
store_human_action-ok new l l' h = guard_ok (not l.readable) state_integrity _ h λ _ h1.
    guard_ok (is_taken new.action_id l.human_rows) state_integrity _ h1
      λ free h2. (free, ap (λ (k : RuntimeLedger). k.human_rows) (sym (ok_inj h2)))

-- The method leaves the actions of humans as they are.
abbrev pub KeepsHumans : (RuntimeLedger → Result RuntimeLedger) → Type 0
KeepsHumans f = (l l' : RuntimeLedger) → f l ≡ ok l' → l'.human_rows ≡ l.human_rows

insert_decision-KeepsHumans : (new : DecisionRow) → KeepsHumans (insert_decision new)
unfolding insert_decision
insert_decision-KeepsHumans new l l' h =
    guard_ok (clashes new l.decision_rows) state_integrity _ h
      λ _ h1. ap (λ (k : RuntimeLedger). k.human_rows) (sym (ok_inj h1))

module _ (p : Platform) where
  pub store_proposal-KeepsHumans :
      (r : ActionRequest) (sha : String) (at : ℤ) → KeepsHumans (store_proposal p r sha at)
  unfolding store_proposal
  store_proposal-KeepsHumans r sha at l l' h =
      bind_ok (canonicalize p (Value.obj r.parameters)) _ h λ parameters encoded h1.
        guard_ok (not l.readable) state_integrity _ h1
          λ _ h2. ap (λ (k : RuntimeLedger). k.human_rows) (sym (ok_inj h2))

  pub store_decision-KeepsHumans :
      (id request_id state : String) (codes : List String) (c : Option String) (b : Bool)
      (o : Option Value) (h : String) (at : ℤ)
      → KeepsHumans (store_decision p id request_id state codes c b o h at)
  unfolding store_decision
  store_decision-KeepsHumans id request_id state codes c b o hash at l l' h =
      guard_ok (not l.readable) state_integrity _ h λ _ h1.
        bind_ok (canonicalize p (Value.arr (texts codes))) _ h1
          λ encoded canon h2. insert_decision-KeepsHumans _ l l' h2
