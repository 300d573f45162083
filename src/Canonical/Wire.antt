-- ===== src/Canonical/Wire.antt =====
-- The wire form of src/mgk/canonical.py: what `parse_canonical` returns, and what it accepts.
use mgk_governance_kernel.Prelude.{
  ◌≡◌, sym, subst, false, ◌||◌, not, arith, is_empty, ltb, length, ◌≤◌,
}
use mgk_governance_kernel.Errors.{ok, ok_inj, >>=-eq-ok, bind_ok, guard_ok, canonicalization}
use mgk_governance_kernel.Json.{Value, Items, Fields}
use mgk_governance_kernel.Platform.{Bytes, Raw, RawItems, RawFields, Platform}
use mgk_governance_kernel.Canonical.{
  hooks, hooks_items, hooks_fields, pairs, validate, canonicalize, parse_canonical, eq_bytes,
  eq_bytes→eq, max_items, max_depth, max_canonical_bytes, loaded,
}
use mgk_governance_kernel.Canonical.Limits.{IsInteroperable, nesting, items, validate-ok}
use mgk_governance_kernel.Canonical.Keys.{Fresh, append, pairs-Fresh}

-- No object of the document has a key twice.
unfoldable mutual
  pub HasUniqueKeys : Value → Type 0
  HasUniqueKeys (Value.arr xs) = UniqueItems xs
  HasUniqueKeys (Value.obj fs) = Fresh Fields.end fs × UniqueFields fs
  HasUniqueKeys _ = Unit

  pub UniqueItems : Items → Type 0
  UniqueItems Items.nil = Unit
  UniqueItems (Items.cons x xs) = HasUniqueKeys x × UniqueItems xs

  pub UniqueFields : Fields → Type 0
  UniqueFields Fields.end = Unit
  UniqueFields (Fields.field k v fs) = HasUniqueKeys v × UniqueFields fs

mutual
  unfolding hooks HasUniqueKeys append

  hooks-HasUniqueKeys : (r : Raw) (v : Value) → hooks r ≡ ok v → HasUniqueKeys v
  hooks-HasUniqueKeys Raw.null v h = subst HasUniqueKeys (ok_inj h) tt
  hooks-HasUniqueKeys (Raw.bool b) v h = subst HasUniqueKeys (ok_inj h) tt
  hooks-HasUniqueKeys (Raw.int i) v h = subst HasUniqueKeys (ok_inj h) tt
  hooks-HasUniqueKeys Raw.float v h = cc
  hooks-HasUniqueKeys Raw.constant v h = cc
  hooks-HasUniqueKeys (Raw.str s) v h = subst HasUniqueKeys (ok_inj h) tt
  hooks-HasUniqueKeys (Raw.surrogates cs) v h = subst HasUniqueKeys (ok_inj h) tt
  hooks-HasUniqueKeys (Raw.arr xs) v h =
      let (ys, first, rest) = >>=-eq-ok (hooks_items xs) _ h in
      subst HasUniqueKeys (ok_inj rest) (hooks_items-UniqueItems xs ys first)
  hooks-HasUniqueKeys (Raw.obj fs) v h =
      let (gs, first, rest) = >>=-eq-ok (hooks_fields fs) _ h in
      let (ds, paired, last) = >>=-eq-ok (pairs Fields.end gs) _ rest in
      let (fresh, same) = pairs-Fresh Fields.end gs ds paired in
      subst HasUniqueKeys (ok_inj last) (
        subst (λ (d : Fields). Fresh Fields.end d × UniqueFields d) (sym same)
          (fresh, hooks_fields-UniqueFields fs gs first))

  hooks_items-UniqueItems : (xs : RawItems) (ys : Items) → hooks_items xs ≡ ok ys → UniqueItems ys
  hooks_items-UniqueItems RawItems.nil ys h = subst UniqueItems (ok_inj h) tt
  hooks_items-UniqueItems (RawItems.cons x xs) ys h =
      let (z, first, rest) = >>=-eq-ok (hooks x) _ h in
      let (zs, second, last) = >>=-eq-ok (hooks_items xs) _ rest in
      subst UniqueItems (ok_inj last)
        (hooks-HasUniqueKeys x z first, hooks_items-UniqueItems xs zs second)

  hooks_fields-UniqueFields :
      (fs : RawFields) (gs : Fields) → hooks_fields fs ≡ ok gs → UniqueFields gs
  hooks_fields-UniqueFields RawFields.end gs h = subst UniqueFields (ok_inj h) tt
  hooks_fields-UniqueFields (RawFields.field k x fs) gs h =
      let (z, first, rest) = >>=-eq-ok (hooks x) _ h in
      let (zs, second, last) = >>=-eq-ok (hooks_fields fs) _ rest in
      subst UniqueFields (ok_inj last)
        (hooks-HasUniqueKeys x z first, hooks_fields-UniqueFields fs zs second)

-- A byte document that `parse_canonical` accepts is the canonical encoding of the value that it
-- returns, so that value has no other accepted document; the document is not empty and within the
-- size limit, the value is within the limits of `_validate`, and no object has a key twice.
pub parse_canonical-ok :
    (p : Platform) (b : Bytes) (v : Value)
    → parse_canonical p b ≡ ok v
    → (canonicalize p v ≡ ok b)
      × (is_empty b ≡ false)
      × (length b ≤ max_canonical_bytes)
      × IsInteroperable v
      × (nesting v ≤ max_depth)
      × (items v ≤ max_items)
      × HasUniqueKeys v
unfolding parse_canonical
parse_canonical-ok p b v h =
    guard_ok (is_empty b || ltb max_canonical_bytes (length b)) canonicalization _ h λ size h1.
      bind_ok (loaded (p.loads b)) _ h1 λ r read h2. bind_ok (hooks r) _ h2 λ w hooked h3.
        bind_ok (validate w 0 max_items) _ h3 λ left valid h4.
          bind_ok (canonicalize p w) _ h4 λ e encoded h5.
            guard_ok (not (eq_bytes e b)) canonicalization _ h5 λ same h6.
              let (i, n, d) = validate-ok w 0 max_items left valid in
              subst
                (λ (x : Value).
                  (canonicalize p x ≡ ok b)
                  × (is_empty b ≡ false)
                  × (length b ≤ max_canonical_bytes)
                  × IsInteroperable x
                  × (nesting x ≤ max_depth)
                  × (items x ≤ max_items)
                  × HasUniqueKeys x)
                (ok_inj h6)
                (
                  subst (λ (x : Bytes). canonicalize p w ≡ ok x) (eq_bytes→eq e b (ground arith))
                      encoded,
                  ground arith,
                  ground arith,
                  i,
                  omega arith,
                  omega arith,
                  hooks-HasUniqueKeys r w hooked,
                )
