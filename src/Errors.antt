-- ===== src/Errors.antt =====
-- src/mgk/errors.py: the closed error taxonomy, and computations that may raise.
use mgk_governance_kernel.Prelude.{◌≡◌, refl, Bool, true, false, Option, none, some, String}

-- The subclasses of `MGKError`, in the source's order, then Python's own exceptions that the
-- kernel raises or lets pass. Messages are not modelled, only classes.
pub data Error : Type 0 where
  mgk_error canonicalization schema authorization_denied signature epoch time_window replay scope :
      Error
  resource state_integrity audit_integrity execution_denied : Error
  value_error type_error key_error os_error runtime_error : Error

-- The class attribute `code`.
abbrev pub code_of : Error → Option String
code_of mgk_error = some "MGK_ERROR"
code_of canonicalization = some "CANONICALIZATION_ERROR"
code_of schema = some "SCHEMA_ERROR"
code_of authorization_denied = some "AUTHORIZATION_DENIED"
code_of signature = some "SIGNATURE_ERROR"
code_of epoch = some "EPOCH_ERROR"
code_of time_window = some "TIME_WINDOW_ERROR"
code_of replay = some "REPLAY_ERROR"
code_of scope = some "SCOPE_ERROR"
code_of resource = some "RESOURCE_ERROR"
code_of state_integrity = some "STATE_INTEGRITY_ERROR"
code_of audit_integrity = some "AUDIT_INTEGRITY_ERROR"
code_of execution_denied = some "EXECUTION_DENIED"
code_of _ = none

-- A call that returns a value, or raises.
pub data Result {μ} (R : Type μ) : Type μ where
  err : Error → Result R
  ok : R → Result R

-- `if test: raise e`.
abbrev pub raise_if : Bool → Error → Result (Unit {0})
raise_if true e = err e
raise_if false e = ok tt

abbrev pub or_raise {ℓ} : {A : Type ℓ} → Option A → Error → Result A
or_raise none e = err e
or_raise (some a) e = ok a

-- `except Exception as exc: raise e`.
abbrev pub rethrow {ℓ} : {A : Type ℓ} → Error → Result A → Result A
rethrow e (ok a) = ok a
rethrow e (err _) = err e

infixl 5 ◌>>=◌
-- The statements after one that may raise.
abbrev pub ◌>>=◌ {μ ν} :
    {R : Type μ} {S : Type ν} (first : Result R) (next : R → Result S) → Result S
err raised >>= next = err raised
ok value >>= next = next value

infixl 5 ◌>>◌
abbrev pub ◌>>◌ {ν} : {S : Type ν} (first : Result (Unit {0})) (next : Result S) → Result S
first >> next = first >>= λ done. next

-- What has happened where a sequence of statements returns.
pub >>=-eq-ok {μ ν} :
    {S : Type ν} {R : Type μ} {s : S} (first : Result R) (next : R → Result S)
    (returns : (first >>= next) ≡ ok s)
    → (value : R) × (first ≡ ok value) × (next value ≡ ok s)
>>=-eq-ok (err raised) next returns = cc
>>=-eq-ok (ok value) next returns = (value, refl, returns)

pub raise_if-eq-ok : (b : Bool) (e : Error) {u : Unit {0}} → raise_if b e ≡ ok u → b ≡ false
raise_if-eq-ok true e h = cc
raise_if-eq-ok false e h = refl

pub ok_inj {ℓ} : {A : Type ℓ} {a b : A} → ok a ≡ ok b → a ≡ b
ok_inj h = cc

-- The same inversions in continuation form, with the value that was bound as a variable.
pub bind_ok {ℓ κ μ} :
    {A : Type ℓ} {B : Type κ} {C : Type μ} (m : Result A) (f : A → Result B) {b : B}
    → (m >>= f) ≡ ok b
    → ((a : A) → m ≡ ok a → f a ≡ ok b → C)
    → C
bind_ok (ok a) f h k = k a refl h
bind_ok (err e) f h k = absurd (cc)

pub guard_ok {ℓ κ} :
    {B : Type ℓ} {C : Type κ} (t : Bool) (e : Error) (m : Result B) {b : B}
    → (raise_if t e >> m) ≡ ok b
    → (t ≡ false → m ≡ ok b → C)
    → C
guard_ok true e m h k = absurd (cc)
guard_ok false e m h k = k refl h

pub or_raise_ok {ℓ κ} :
    {A : Type ℓ} {C : Type κ} (o : Option A) (e : Error) {a : A}
    → or_raise o e ≡ ok a
    → (o ≡ some a → C)
    → C
or_raise_ok none e h k = absurd (cc)
or_raise_ok (some a) e h k = k (cc)

pub rethrow_ok {ℓ} : {A : Type ℓ} (e : Error) (m : Result A) {a : A} → rethrow e m ≡ ok a → m ≡ ok a
rethrow_ok e (ok b) h = h
rethrow_ok e (err x) h = cc
