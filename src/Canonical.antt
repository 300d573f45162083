-- ===== src/Canonical.antt =====
-- src/mgk/canonical.py: MGK Canonical JSON v1. Every error of this file is a CanonicalizationError.
pub mod Limits
pub mod Keys
pub mod Wire
use mgk_governance_kernel.Prelude.{
  ℕ, ◌+◌, ◌-◌, ◌*◌, ◌^◌, ◌≡◌, Bool, true, false, ◌&&◌, ◌||◌, not, Option, none, some, List, [], ◌∷◌,
  String, ltb, ◌==◌, if◌then◌else◌, length, is_empty, arith, ==_iff, suc,
}
use mgk_governance_kernel.Prelude.Int.{ℤ, pos, negsuc, leb_ℤ}
use mgk_governance_kernel.Errors.{Result, ok, err, canonicalization, ◌>>=◌, ◌>>◌, raise_if}
use mgk_governance_kernel.Json.{Value, Items, Fields, contains, put_last}
use mgk_governance_kernel.Platform.{
  Bytes, Raw, RawItems, RawFields, Loaded, read, malformed, raised, Platform,
}

abbrev pub max_canonical_bytes : ℕ
max_canonical_bytes = 256 * 1024

abbrev pub max_depth : ℕ
max_depth = 32

abbrev pub max_items : ℕ
max_items = 4096

abbrev pub max_integer : ℤ
max_integer = pos (2 ^ 53 - 1)

-- -(2 ^ 53) + 1.
abbrev pub min_integer : ℤ
min_integer = negsuc (2 ^ 53 - 2)

abbrev pub eq_bytes : Bytes → Bytes → Bool
eq_bytes [] [] = true
eq_bytes (a ∷ as') (b ∷ bs) = a == b && eq_bytes as' bs
eq_bytes _ _ = false

pub eq_bytes→eq : (a b : Bytes) → eq_bytes a b ≡ true → a ≡ b
eq_bytes→eq [] [] h = ground arith
eq_bytes→eq [] (y ∷ b) h = cc
eq_bytes→eq (x ∷ a) [] h = cc
eq_bytes→eq (x ∷ a) (y ∷ b) h = ground (arith, eq_bytes→eq a b)

-- `_pairs`: a key that is there already is an error. The first argument is `result` so far.
unfoldable pub pairs : Fields → Fields → Result Fields
pairs result Fields.end = ok result
pairs result (Fields.field k v fs) =
    raise_if (contains k result) canonicalization >>= λ _. pairs (put_last k v result) fs

-- The hooks of `parse_canonical` in the order in which `json.loads` calls them, from the inside out.
unfoldable mutual
  pub hooks : Raw → Result Value
  hooks Raw.null = ok Value.null
  hooks (Raw.bool b) = ok (Value.bool b)
  hooks (Raw.int i) = ok (Value.int i)
  hooks Raw.float = err canonicalization
  hooks Raw.constant = err canonicalization
  hooks (Raw.str s) = ok (Value.str s)
  hooks (Raw.surrogates cs) = ok (Value.surrogates cs)
  hooks (Raw.arr xs) = hooks_items xs >>= λ ys. ok (Value.arr ys)
  hooks (Raw.obj fs) = hooks_fields fs >>= λ gs. pairs Fields.end gs >>= λ ds. ok (Value.obj ds)

  pub hooks_items : RawItems → Result Items
  hooks_items RawItems.nil = ok Items.nil
  hooks_items (RawItems.cons x xs) = hooks x >>= λ y. hooks_items xs >>= λ ys. ok (Items.cons y ys)

  pub hooks_fields : RawFields → Result Fields
  hooks_fields RawFields.end = ok Fields.end
  hooks_fields (RawFields.field k x fs) =
      hooks x >>= λ y. hooks_fields fs >>= λ gs. ok (Fields.field k y gs)

-- The head of `_validate`: one item off the budget, then the depth test. `budget[0] -= 1` goes below
-- 0 exactly if it was 0. The result is the budget that is left.
unfoldable pub enter : ℕ → ℕ → Result ℕ
enter depth budget =
    raise_if (budget == 0) canonicalization
    >> (raise_if (ltb max_depth depth) canonicalization >> ok (budget - 1))

abbrev pub in_range : ℤ → Bool
in_range i = leb_ℤ min_integer i && leb_ℤ i max_integer

-- `_validate`, with the budget as state.
unfoldable mutual
  pub validate : Value → ℕ → ℕ → Result ℕ
  validate Value.null depth budget = enter depth budget
  validate (Value.bool b) depth budget = enter depth budget
  validate (Value.int i) depth budget =
      enter depth budget >>= λ left. raise_if (not (in_range i)) canonicalization >> ok left
  validate (Value.str s) depth budget = enter depth budget
  validate (Value.surrogates cs) depth budget = enter depth budget >>= λ left. err canonicalization
  validate (Value.arr xs) depth budget =
      enter depth budget >>= λ left. validate_items xs (suc depth) left
  validate (Value.obj fs) depth budget =
      enter depth budget >>= λ left. validate_fields fs (suc depth) left
  validate Value.unsupported depth budget = enter depth budget >>= λ left. err canonicalization

  pub validate_items : Items → ℕ → ℕ → Result ℕ
  validate_items Items.nil depth budget = ok budget
  validate_items (Items.cons x xs) depth budget =
      validate x depth budget >>= λ left. validate_items xs depth left

  -- A key is a text: only the head of its `_validate` can raise.
  pub validate_fields : Fields → ℕ → ℕ → Result ℕ
  validate_fields Fields.end depth budget = ok budget
  validate_fields (Fields.field k v fs) depth budget = enter depth budget >>= λ left.
      validate v depth left >>= λ left'. validate_fields fs depth left'

-- `except (UnicodeError, json.JSONDecodeError)`: any other exception is passed on.
abbrev pub loaded : Loaded → Result Raw
loaded (read r) = ok r
loaded malformed = err canonicalization
loaded (raised e) = err e

module _ (p : Platform) where
  -- `_normalize`; the second argument of `normalize_fields` is `result` so far.
  unfoldable mutual
    pub normalize : Value → Result Value
    normalize Value.null = ok Value.null
    normalize (Value.bool b) = ok (Value.bool b)
    normalize (Value.int i) = ok (Value.int i)
    normalize (Value.str s) = ok (Value.str (p.nfc s))
    normalize (Value.surrogates cs) = ok (Value.surrogates cs)
    normalize (Value.arr xs) = normalize_items xs >>= λ ys. ok (Value.arr ys)
    normalize (Value.obj fs) = normalize_fields fs Fields.end >>= λ gs. ok (Value.obj gs)
    normalize Value.unsupported = ok Value.unsupported

    pub normalize_items : Items → Result Items
    normalize_items Items.nil = ok Items.nil
    normalize_items (Items.cons x xs) =
        normalize x >>= λ y. normalize_items xs >>= λ ys. ok (Items.cons y ys)

    pub normalize_fields : Fields → Fields → Result Fields
    normalize_fields Fields.end result = ok result
    normalize_fields (Fields.field k v fs) result =
        raise_if (contains (p.nfc k) result) canonicalization >>= λ _.
        normalize v >>= λ w. normalize_fields fs (put_last (p.nfc k) w result)

  unfoldable pub canonicalize : Value → Result Bytes
  canonicalize value = do
    normalized ← normalize value
    left ← validate normalized 0 max_items
    raise_if (ltb max_canonical_bytes (length (p.dumps normalized))) canonicalization
    ok (p.dumps normalized)

  unfoldable pub parse_canonical : Bytes → Result Value
  parse_canonical document = do
    raise_if (is_empty document || ltb max_canonical_bytes (length document)) canonicalization
    raw ← loaded (p.loads document)
    value ← hooks raw
    left ← validate value 0 max_items
    encoded ← canonicalize value
    raise_if (not (eq_bytes encoded document)) canonicalization
    ok value

  unfoldable pub digest : Value → Result String
  digest value = do encoded ← canonicalize value; ok (p.sha256 encoded)
