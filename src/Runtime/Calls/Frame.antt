-- ===== src/Runtime/Calls/Frame.antt =====
-- Which part of the state a call leaves alone, and how that passes through the statements of a method.
use mgk_governance_kernel.Prelude.{◌≡◌, refl, ◌∙◌, subst, Bool, true, false, if◌then◌else◌}
use mgk_governance_kernel.Errors.{Error, Result, ok, err}
use mgk_governance_kernel.Runtime.Calls.{
  Call, return, reads, lift, continue, settle, ◌>>=◌, try_then,
}

module _ {S : Type 0} {V : Type 0} (view : S → V) where
  -- The call leaves the view of the state as it was.
  pub record Keeps {A : Type 0} (m : Call S A) : Type 0 where
    pub same : (s : S) → view (m s).1 ≡ view s

  module _ {A : Type 0} where
    pub lift-Keeps : (r : Result A) → Keeps (lift r)
    lift-Keeps r = record { same = λ s. refl }

    pub return-Keeps : (a : A) → Keeps {A = A} (return a)
    return-Keeps a = record { same = λ s. refl }

    pub reads-Keeps : (f : S → Result A) → Keeps (reads f)
    reads-Keeps f = record { same = λ s. refl }

    pub if-Keeps : (b : Bool) (m n : Call S A) → Keeps m → Keeps n → Keeps (if b then m else n)
    if-Keeps true m n k l = k
    if-Keeps false m n k l = l

  module _ {A : Type 0} {B : Type 0} where
    settle-Keeps :
        (handler : Error → Call S B) (next : A → Call S B)
        → ((e : Error) → Keeps (handler e))
        → ((a : A) → Keeps (next a))
        → (o : Result A × S) → view (settle handler next o).1 ≡ view o.1
    settle-Keeps handler next h n (ok a, s) = (n a).same s
    settle-Keeps handler next h n (err e, s) = (h e).same s

    pub try_then-Keeps :
        (m : Call S A) (handler : Error → Call S B) (next : A → Call S B)
        → Keeps m
        → ((e : Error) → Keeps (handler e))
        → ((a : A) → Keeps (next a))
        → Keeps (try_then m handler next)
    try_then-Keeps m handler next k h n = record {
      same = λ s. settle-Keeps handler next h n (m s) ∙ k.same s;
    }

    continue-Keeps :
        (next : A → Call S B)
        → ((a : A) → Keeps (next a))
        → (o : Result A × S) → view (continue next o).1 ≡ view o.1
    continue-Keeps next n (ok a, s) = (n a).same s
    continue-Keeps next n (err e, s) = refl

    pub bind-Keeps :
        (m : Call S A) (next : A → Call S B)
        → Keeps m
        → ((a : A) → Keeps (next a))
        → Keeps (m >>= next)
    bind-Keeps m next k n = record { same = λ s. continue-Keeps next n (m s) ∙ k.same s }

  -- The view before, what the call returns or raises, and the view after are in the relation.
  pub record Meets {A : Type 0} (P : V → Result A → V → Type 0) (m : Call S A) : Type 0 where
    pub met : (s : S) → P (view s) (m s).0 (view (m s).1)

  pub if-Meets :
      {A : Type 0} (P : V → Result A → V → Type 0) (b : Bool) (m n : Call S A)
      → Meets P m
      → Meets P n
      → Meets P (if b then m else n)
  if-Meets P true m n k l = k
  if-Meets P false m n k l = l

  module _ {A : Type 0} {B : Type 0} (P : V → Result B → V → Type 0) where
    settle-Meets :
        (handler : Error → Call S B) (next : A → Call S B)
        → ((e : Error) → Meets P (handler e))
        → ((a : A) → Meets P (next a))
        → (o : Result A × S)
        → P (view o.1) (settle handler next o).0 (view (settle handler next o).1)
    settle-Meets handler next h n (ok a, s) = (n a).met s
    settle-Meets handler next h n (err e, s) = (h e).met s

    -- A first call that leaves the view as it was.
    pub try_then-Meets :
        (m : Call S A) (handler : Error → Call S B) (next : A → Call S B)
        → Keeps m
        → ((e : Error) → Meets P (handler e))
        → ((a : A) → Meets P (next a))
        → Meets P (try_then m handler next)
    try_then-Meets m handler next k h n = record {
      met = λ s.
          subst (λ (v : V). P v (settle handler next (m s)).0 (view (settle handler next (m s)).1))
            (k.same s) (settle-Meets handler next h n (m s));
    }

    continue-Meets :
        (next : A → Call S B)
        → ((e : Error) (v : V) → P v (err e) v)
        → ((a : A) → Meets P (next a))
        → (o : Result A × S) → P (view o.1) (continue next o).0 (view (continue next o).1)
    continue-Meets next r n (ok a, s) = (n a).met s
    continue-Meets next r n (err e, s) = r e (view s)

    pub bind-Meets :
        (m : Call S A) (next : A → Call S B)
        → Keeps m
        → ((e : Error) (v : V) → P v (err e) v)
        → ((a : A) → Meets P (next a))
        → Meets P (m >>= next)
    bind-Meets m next k r n = record {
      met = λ s.
          subst (λ (v : V). P v (continue next (m s)).0 (view (continue next (m s)).1)) (k.same s)
            (continue-Meets next r n (m s));
    }

module _ {S : Type 0} {V : Type 0} (view : S → V) where
  -- Both: the view stays, and what the call returns or raises has the property.
  pub record Leaves {A : Type 0} (Q : Result A → Type 0) (m : Call S A) : Type 0 where
    pub kept : Keeps view m
    pub yielded : (s : S) → Q (m s).0

  module _ {A : Type 0} (Q : Result A → Type 0) where
    pub lift-Leaves : (r : Result A) → Q r → Leaves Q (lift r)
    lift-Leaves r q = record { kept = lift-Keeps view r; yielded = λ s. q }

    pub return-Leaves : (a : A) → Q (ok a) → Leaves Q (return a)
    return-Leaves a q = record { kept = return-Keeps view a; yielded = λ s. q }

    pub if-Leaves :
        (b : Bool) (m n : Call S A)
        → (b ≡ true → Leaves Q m)
        → (b ≡ false → Leaves Q n)
        → Leaves Q (if b then m else n)
    if-Leaves true m n k l = k refl
    if-Leaves false m n k l = l refl

  module _ {A : Type 0} {B : Type 0} (Q : Result B → Type 0) where
    continue-Leaves :
        (next : A → Call S B)
        → ((e : Error) → Q (err e))
        → ((a : A) → Leaves Q (next a))
        → (o : Result A × S) → Q (continue next o).0
    continue-Leaves next r n (ok a, s) = (n a).yielded s
    continue-Leaves next r n (err e, s) = r e

    pub bind-Leaves :
        (m : Call S A) (next : A → Call S B)
        → Keeps view m
        → ((e : Error) → Q (err e))
        → ((a : A) → Leaves Q (next a))
        → Leaves Q (m >>= next)
    bind-Leaves m next k r n = record {
      kept = bind-Keeps view m next k (λ a. (n a).kept);
      yielded = λ s. continue-Leaves next r n (m s);
    }
