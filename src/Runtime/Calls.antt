-- ===== src/Runtime/Calls.antt =====
-- Methods of runtime/ as computations: a call runs over a state that it may change, and returns or
-- raises. What was changed before an exception stays changed. Calls are made one after the other; the
-- threads of the server are not modelled.
pub mod Frame
pub mod Order
use mgk_governance_kernel.Errors.{Error, Result, ok, err}

abbrev pub Call : Type 0 → Type 0 → Type 0
Call S A = S → Result A × S

module _ {S : Type 0} {A : Type 0} where
  abbrev pub return : A → Call S A
  return a s = (ok a, s)

  -- A call that reads the state, or that raises whatever the state is.
  abbrev pub reads : (S → Result A) → Call S A
  reads f s = (f s, s)

  abbrev pub lift : Result A → Call S A
  lift r s = (r, s)

module _ {S : Type 0} {A : Type 0} {B : Type 0} where
  abbrev pub continue : (A → Call S B) → Result A × S → Result B × S
  continue next (ok a, s) = next a s
  continue next (err e, s) = (err e, s)

  infixl 5 ◌>>=◌
  abbrev pub ◌>>=◌ : Call S A → (A → Call S B) → Call S B
  (first >>= next) s = continue next (first s)

  -- `try: a = first() except …: return handler(e)`, then `next(a)` outside the try.
  abbrev pub settle : (Error → Call S B) → (A → Call S B) → Result A × S → Result B × S
  settle handler next (ok a, s) = next a s
  settle handler next (err e, s) = handler e s

  abbrev pub try_then : Call S A → (Error → Call S B) → (A → Call S B) → Call S B
  try_then first handler next s = settle handler next (first s)

infixl 5 ◌>>◌
abbrev pub ◌>>◌ : {S : Type 0} {B : Type 0} → Call S (Unit {0}) → Call S B → Call S B
first >> next = first >>= λ done. next

module _ {S : Type 0} {A : Type 0} where
  -- `try: return first() except BaseException as exc: return handler(exc)`.
  abbrev pub recover : Call S A → (Error → Call S A) → Call S A
  recover first handler = try_then first handler return
