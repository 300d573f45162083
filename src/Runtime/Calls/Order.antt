-- ===== src/Runtime/Calls/Order.antt =====
-- Calls that only move a view of the state forward in a preorder.
use mgk_governance_kernel.Prelude.{sym, subst, Bool, true, false, if◌then◌else◌}
use mgk_governance_kernel.Errors.{Result, ok, err}
use mgk_governance_kernel.Runtime.Calls.{Call, continue, ◌>>=◌}
use mgk_governance_kernel.Runtime.Calls.Frame.{Keeps}

module _ {S : Type 0} {V : Type 0} (view : S → V) (R : V → V → Type 0) (reflexive : (v : V) → R v v)
    (transitive : (a b c : V) → R a b → R b c → R a c) where
  pub record Moves {A : Type 0} (m : Call S A) : Type 0 where
    pub moved : (s : S) → R (view s) (view (m s).1)

  pub keeps-Moves : {A : Type 0} (m : Call S A) → Keeps view m → Moves m
  keeps-Moves m k = record {
    moved = λ s. subst (λ (v : V). R (view s) v) (sym (k.same s)) (reflexive (view s));
  }

  pub if-Moves :
      {A : Type 0} (b : Bool) (m n : Call S A) → Moves m → Moves n → Moves (if b then m else n)
  if-Moves true m n k l = k
  if-Moves false m n k l = l

  continue-Moves :
      {A : Type 0} {B : Type 0} (next : A → Call S B)
      → ((a : A) → Moves (next a))
      → (o : Result A × S) → R (view o.1) (view (continue next o).1)
  continue-Moves next n (ok a, s) = (n a).moved s
  continue-Moves next n (err e, s) = reflexive (view s)

  pub bind-Moves :
      {A : Type 0} {B : Type 0} (m : Call S A) (next : A → Call S B)
      → Moves m
      → ((a : A) → Moves (next a))
      → Moves (m >>= next)
  bind-Moves m next k n = record {
    moved = λ s. transitive (view s) (view (m s).1) _ (k.moved s) (continue-Moves next n (m s));
  }
