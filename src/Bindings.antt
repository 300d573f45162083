-- ===== src/Bindings.antt =====
-- The shapes of a resource binding, which src/mgk/verifier.py and src/mgk/resource.py both test.
use mgk_governance_kernel.Prelude.{
  ℕ, ◌≡◌, Bool, true, false, ◌&&◌, ◌||◌, not, Option, none, some, List, [], ◌∷◌, String, ◌==◌, leb,
  codes, length, all, ap, arith,
}
use mgk_governance_kernel.Errors.{Error, Result, err, type_error, raise_if}
use mgk_governance_kernel.Json.{Value, Fields, get, has_exactly, is_str, is_str→eq}

-- `[0-9a-f]`
abbrev pub is_hex : ℕ → Bool
is_hex c = (leb b'0' c && leb c b'9') || (leb b'a' c && leb c b'f')

-- `re.compile(r"^[0-9a-f]{n}$").fullmatch(text)`
unfoldable pub is_hex_of : ℕ → String → Bool
is_hex_of n s = all is_hex (codes s) && length (codes s) == n

abbrev pub present_keys : List String
present_keys = "path" ∷ "sha256" ∷ "size" ∷ "state" ∷ []

abbrev pub absent_keys : List String
absent_keys = "path" ∷ "post_sha256" ∷ "post_size" ∷ "state" ∷ []

abbrev pub write_keys : List String
write_keys =
    "path" ∷ "post_sha256" ∷ "post_size" ∷ "pre_sha256" ∷ "pre_size" ∷ "pre_state" ∷ "state" ∷ []

abbrev pub append_keys : List String
append_keys = "path" ∷ "post_sha256" ∷ "post_size" ∷ "pre_sha256" ∷ "pre_size" ∷ "state" ∷ []

-- `d.get(key) == text`, and `d[key] == text` where the key is known to be there.
abbrev pub at_is : Fields → String → String → Bool
at_is d k s = elim (get k d) [ none ↦ false | some v ↦ is_str s v ]

-- `set(binding) != keys or binding["state"] != state`, denied.
abbrev pub is_binding : List String → String → Fields → Bool
is_binding ks state b = has_exactly ks b && at_is b "state" state

-- `value not in {"present", "absent"}`: a list or a dict has no hash, which is a TypeError.
abbrev pub in_states : Error → Value → Result (Unit {0})
in_states e (Value.arr xs) = err type_error
in_states e (Value.obj fs) = err type_error
in_states e v = raise_if (not (is_str "present" v || is_str "absent" v)) e

found :
    (o : Option Value) (s : String)
    → (let b : Bool = elim o [ none ↦ false | some v ↦ is_str s v ] in b) ≡ true
    → o ≡ some (Value.str s)
found none s h = cc
found (some v) s h = ap some (is_str→eq s v h)

pub at_is→get : (d : Fields) (k s : String) → at_is d k s ≡ true → get k d ≡ some (Value.str s)
at_is→get d k s h = found (get k d) s h

pub at : (d : Fields) (k s : String) → not (at_is d k s) ≡ false → get k d ≡ some (Value.str s)
at d k s h = at_is→get d k s (ground arith)

pub both_at :
    (d e : Fields) (k s j t : String)
    → not (at_is d k s && at_is e j t) ≡ false
    → (get k d ≡ some (Value.str s)) × (get j e ≡ some (Value.str t))
both_at d e k s j t h = (at_is→get d k s (ground arith), at_is→get e j t (ground arith))
