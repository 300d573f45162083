-- ===== src/Json.antt =====
-- The values that the canonical JSON format speaks of: what Python's `Any` is in src/mgk/canonical.py.
-- A `dict` is its items in insertion order. `String` holds Unicode scalar values only, so a `str`
-- with surrogate code points is a constructor of its own; `unsupported` is a value of any other type
-- (a float, bytes, a tuple, a dict with a key that is no such text).
pub mod Access
use mgk_governance_kernel.Prelude.{
  ℕ, ◌≡◌, Bool, true, false, ◌&&◌, not, Option, none, some, List, [], ◌∷◌, String, str_eq, member,
  all, any, if◌then◌else◌, eq_iff, arith, ◌==◌,
}
use mgk_governance_kernel.Prelude.Int.{ℤ, pos, eqb_ℤ}

mutual
  pub data Value : Type 0 where
    null : Value
    bool : Bool → Value
    int : ℤ → Value
    str : String → Value
    surrogates : List ℕ → Value
    arr : Items → Value
    obj : Fields → Value
    unsupported : Value

  pub data Items : Type 0 where
    nil : Items
    cons : Value → Items → Items

  pub data Fields : Type 0 where
    end : Fields
    field : String → Value → Fields → Fields

-- `d.get(key)`.
unfoldable pub get : String → Fields → Option Value
get k end = none
get k (field j v fs) = if str_eq j k then some v else get k fs

-- `key in d`.
abbrev pub contains : String → Fields → Bool
contains k fs = elim (get k fs) [ none ↦ false | some _ ↦ true ]

abbrev pub keys : Fields → List String
keys end = []
keys (field k v fs) = k ∷ keys fs

-- `d[key] = value` for a key that is not there yet.
unfoldable pub put_last : String → Value → Fields → Fields
put_last k v end = field k v end
put_last k v (field j w fs) = field j w (put_last k v fs)

-- `d.pop(key)`.
unfoldable pub without : String → Fields → Fields
without k end = end
without k (field j v fs) = if str_eq j k then fs else field j v (without k fs)

-- `set(d) == {…}`.
unfoldable pub has_exactly : List String → Fields → Bool
has_exactly ks fs = all (λ k. contains k fs) ks && all (λ k. member k ks) (keys fs)

-- `[text, …]` as a value.
abbrev pub texts : List String → Items
texts [] = nil
texts (s ∷ ss) = cons (str s) (texts ss)

-- Python's `==` between a value and a text or an integer; `True` equals 1 and `False` equals 0.
abbrev pub is_str : String → Value → Bool
is_str s (str t) = str_eq t s
is_str s _ = false

abbrev pub is_int : ℤ → Value → Bool
is_int i (int j) = eqb_ℤ j i
is_int i (bool true) = eqb_ℤ (pos 1) i
is_int i (bool false) = eqb_ℤ (pos 0) i
is_int i _ = false

pub is_str→eq : (s : String) (v : Value) → is_str s v ≡ true → v ≡ str s
is_str→eq s (str t) h = ground (arith, eq_iff t s)
is_str→eq s null h = cc
is_str→eq s (bool b) h = cc
is_str→eq s (int i) h = cc
is_str→eq s (surrogates cs) h = cc
is_str→eq s (arr xs) h = cc
is_str→eq s (obj fs) h = cc
is_str→eq s unsupported h = cc

pub get-put_last :
    (k j : String) (v : Value) (fs : Fields)
    → get k fs ≡ none
    → get j (put_last k v fs) ≡ (if str_eq k j then some v else get j fs)
unfolding get put_last
get-put_last k j v end h = ground (arith, eq_iff k j)
get-put_last k j v (field i w fs) h =
    ground (arith, eq_iff i k, eq_iff i j, eq_iff k j, get-put_last k j v fs)
