-- ===== src/Canonical/Limits.antt =====
-- What `_validate` of src/mgk/canonical.py accepts, against a description of the limits.
use Prim.Native.Nat.{max}
use mgk_governance_kernel.Prelude.{
  ℕ, suc, ◌+◌, ◌≤◌, ◌≡◌, refl, sym, ◌↔◌, arith, inl, inr, Bool-cases,
}
use mgk_governance_kernel.Prelude.Int.{ℤ, ◌≤ℤ◌}
use mgk_governance_kernel.Errors.{ok, >>=-eq-ok}
use mgk_governance_kernel.Json.{Value, Items, Fields}
use mgk_governance_kernel.Canonical.{
  max_depth, max_items, max_integer, min_integer, in_range, enter, validate, validate_items,
  validate_fields,
}

-- The items that a document has: every value and every key.
unfoldable mutual
  pub items : Value → ℕ
  items (Value.arr xs) = suc (items_of xs)
  items (Value.obj fs) = suc (items_in fs)
  items _ = 1

  pub items_of : Items → ℕ
  items_of Items.nil = 0
  items_of (Items.cons x xs) = items x + items_of xs

  pub items_in : Fields → ℕ
  items_in Fields.end = 0
  items_in (Fields.field k v fs) = suc (items v + items_in fs)

-- How deep it is nested, its own level not counted; a container's members stand one level down.
unfoldable mutual
  pub nesting : Value → ℕ
  nesting (Value.arr xs) = nesting_of xs
  nesting (Value.obj fs) = nesting_in fs
  nesting _ = 0

  pub nesting_of : Items → ℕ
  nesting_of Items.nil = 0
  nesting_of (Items.cons x xs) = max (suc (nesting x)) (nesting_of xs)

  pub nesting_in : Fields → ℕ
  nesting_in Fields.end = 0
  nesting_in (Fields.field k v fs) = max (suc (nesting v)) (nesting_in fs)

-- Integers in the interoperable range, no surrogates, no value of another type.
unfoldable mutual
  pub IsInteroperable : Value → Type 0
  IsInteroperable (Value.int i) = (min_integer ≤ℤ i) × (i ≤ℤ max_integer)
  IsInteroperable (Value.surrogates cs) = ⊥
  IsInteroperable (Value.arr xs) = AreInteroperable xs
  IsInteroperable (Value.obj fs) = HasInteroperable fs
  IsInteroperable Value.unsupported = ⊥
  IsInteroperable _ = Unit

  pub AreInteroperable : Items → Type 0
  AreInteroperable Items.nil = Unit
  AreInteroperable (Items.cons x xs) = IsInteroperable x × AreInteroperable xs

  pub HasInteroperable : Fields → Type 0
  HasInteroperable Fields.end = Unit
  HasInteroperable (Fields.field k v fs) = IsInteroperable v × HasInteroperable fs

enter-ok :
    (depth budget left : ℕ)
    → enter depth budget ≡ ok left
    → (budget ≡ suc left) × (depth ≤ max_depth)
unfolding enter
enter-ok depth budget left h = ground arith

enter_runs :
    (depth budget left : ℕ) → budget ≡ suc left → depth ≤ max_depth → enter depth budget ≡ ok left
unfolding enter
enter_runs depth budget left e h = ground arith

int-ok :
    (i : ℤ) (depth budget left : ℕ)
    → validate (Value.int i) depth budget ≡ ok left
    → (enter depth budget ≡ ok left) × (min_integer ≤ℤ i) × (i ≤ℤ max_integer)
unfolding validate
int-ok i depth budget left h = elim (Bool-cases (in_range i)) [
  | inl fits ↦
      let (l, entered, rest) = >>=-eq-ok (enter depth budget) _ h in
      (ground arith, ground arith, ground arith)
  | inr bad ↦ let (l, entered, rest) = >>=-eq-ok (enter depth budget) _ h in ground arith
]

mutual
  unfolding validate items nesting IsInteroperable

  pub validate-ok :
      (v : Value) (depth budget left : ℕ)
      → validate v depth budget ≡ ok left
      → IsInteroperable v × (budget ≡ items v + left) × (depth + nesting v ≤ max_depth)
  validate-ok Value.null depth budget left h =
      let e = enter-ok depth budget left h in (tt, omega arith, omega arith)
  validate-ok (Value.bool b) depth budget left h =
      let e = enter-ok depth budget left h in (tt, omega arith, omega arith)
  validate-ok (Value.int i) depth budget left h =
      let f = int-ok i depth budget left h in
      let e = enter-ok depth budget left f.0 in ((f.1, f.2), omega arith, omega arith)
  validate-ok (Value.str s) depth budget left h =
      let e = enter-ok depth budget left h in (tt, omega arith, omega arith)
  validate-ok (Value.surrogates cs) depth budget left h =
      let (l, entered, rest) = >>=-eq-ok (enter depth budget) _ h in cc
  validate-ok (Value.arr xs) depth budget left h =
      let (l, entered, rest) = >>=-eq-ok (enter depth budget) _ h in
      let e = enter-ok depth budget l entered in
      let f = validate_items-ok xs depth l left e.1 rest in (f.0, omega arith, f.2)
  validate-ok (Value.obj fs) depth budget left h =
      let (l, entered, rest) = >>=-eq-ok (enter depth budget) _ h in
      let e = enter-ok depth budget l entered in
      let f = validate_fields-ok fs depth l left e.1 rest in (f.0, omega arith, f.2)
  validate-ok Value.unsupported depth budget left h =
      let (l, entered, rest) = >>=-eq-ok (enter depth budget) _ h in cc

  validate_items-ok :
      (xs : Items) (depth budget left : ℕ)
      → depth ≤ max_depth
      → validate_items xs (suc depth) budget ≡ ok left
      → AreInteroperable xs × (budget ≡ items_of xs + left) × (depth + nesting_of xs ≤ max_depth)
  validate_items-ok Items.nil depth budget left d h = (tt, ground arith, omega arith)
  validate_items-ok (Items.cons x xs) depth budget left d h =
      let (l, first, rest) = >>=-eq-ok (validate x (suc depth) budget) _ h in
      let e = validate-ok x (suc depth) budget l first in
      let f = validate_items-ok xs depth l left d rest in ((e.0, f.0), omega arith, omega arith)

  validate_fields-ok :
      (fs : Fields) (depth budget left : ℕ)
      → depth ≤ max_depth
      → validate_fields fs (suc depth) budget ≡ ok left
      → HasInteroperable fs × (budget ≡ items_in fs + left) × (depth + nesting_in fs ≤ max_depth)
  validate_fields-ok Fields.end depth budget left d h = (tt, ground arith, omega arith)
  validate_fields-ok (Fields.field k v fs) depth budget left d h =
      let (l, key, rest) = >>=-eq-ok (enter (suc depth) budget) _ h in
      let (l', first, rest') = >>=-eq-ok (validate v (suc depth) l) _ rest in
      let a = enter-ok (suc depth) budget l key in
      let e = validate-ok v (suc depth) l l' first in
      let f = validate_fields-ok fs depth l' left d rest' in ((e.0, f.0), omega arith, omega arith)

mutual
  unfolding validate items nesting IsInteroperable

  pub validate_runs :
      (v : Value) (depth budget left : ℕ)
      → IsInteroperable v
      → budget ≡ items v + left
      → depth + nesting v ≤ max_depth
      → validate v depth budget ≡ ok left
  validate_runs Value.null depth budget left i b d =
      enter_runs depth budget left (omega arith) (omega arith)
  validate_runs (Value.bool _) depth budget left i b d =
      enter_runs depth budget left (omega arith) (omega arith)
  validate_runs (Value.int n) depth budget left i b d =
      rw (enter_runs depth budget left (omega arith) (omega arith)) (ground arith)
  validate_runs (Value.str s) depth budget left i b d =
      enter_runs depth budget left (omega arith) (omega arith)
  validate_runs (Value.surrogates cs) depth budget left i b d = absurd i
  validate_runs (Value.arr xs) depth budget left i b d =
      rw (enter_runs depth budget (items_of xs + left) (omega arith) (omega arith))
        (validate_items_runs xs depth (items_of xs + left) left i refl d)
  validate_runs (Value.obj fs) depth budget left i b d =
      rw (enter_runs depth budget (items_in fs + left) (omega arith) (omega arith))
        (validate_fields_runs fs depth (items_in fs + left) left i refl d)
  validate_runs Value.unsupported depth budget left i b d = absurd i

  validate_items_runs :
      (xs : Items) (depth budget left : ℕ)
      → AreInteroperable xs
      → budget ≡ items_of xs + left
      → depth + nesting_of xs ≤ max_depth
      → validate_items xs (suc depth) budget ≡ ok left
  validate_items_runs Items.nil depth budget left i b d = ground arith
  validate_items_runs (Items.cons x xs) depth budget left i b d =
      let rest = items_of xs + left in
      rw (validate_runs x (suc depth) budget rest i.0 (omega arith) (omega arith))
        (validate_items_runs xs depth rest left i.1 refl (omega arith))

  validate_fields_runs :
      (fs : Fields) (depth budget left : ℕ)
      → HasInteroperable fs
      → budget ≡ items_in fs + left
      → depth + nesting_in fs ≤ max_depth
      → validate_fields fs (suc depth) budget ≡ ok left
  validate_fields_runs Fields.end depth budget left i b d = ground arith
  validate_fields_runs (Fields.field k v fs) depth budget left i b d =
      let rest = items_in fs + left in
      rw (enter_runs (suc depth) budget (items v + rest) (omega arith) (omega arith)) (
        rw (validate_runs v (suc depth) (items v + rest) rest i.0 refl (omega arith))
          (validate_fields_runs fs depth rest left i.1 refl (omega arith)))

-- `_validate` accepts a document exactly if it has at most 4096 items (values and keys), is nested
-- at most 32 deep, its integers lie in the signed 53-bit range, and it holds no surrogates and no
-- value of an unsupported type; the budget that is left is 4096 less the number of items.
pub validate_exact :
    (v : Value) (left : ℕ)
    → (validate v 0 max_items ≡ ok left)
      ↔ (IsInteroperable v × (items v + left ≡ max_items) × (nesting v ≤ max_depth))
validate_exact v left = (
  λ h. let (i, b, d) = validate-ok v 0 max_items left h in (i, sym b, omega arith),
  λ h. validate_runs v 0 max_items left h.0 (omega arith) (omega arith),
)
