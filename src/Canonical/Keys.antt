-- ===== src/Canonical/Keys.antt =====
-- Objects whose keys differ, and what `_pairs` of src/mgk/canonical.py makes of a list of pairs.
use mgk_governance_kernel.Prelude.{◌≡◌, refl, ◌∙◌, false, none, String, arith}
use mgk_governance_kernel.Errors.{ok, canonicalization, guard_ok}
use mgk_governance_kernel.Json.{Value, Fields, get, contains, put_last}
use mgk_governance_kernel.Canonical.{pairs}

unfoldable pub append : Fields → Fields → Fields
append Fields.end gs = gs
append (Fields.field k v fs) gs = Fields.field k v (append fs gs)

pub append-end : (fs : Fields) → append fs Fields.end ≡ fs
unfolding append
append-end Fields.end = refl
append-end (Fields.field k v fs) = cc (append-end fs)

pub append-put_last :
    (k : String) (v : Value) (fs gs : Fields)
    → append (put_last k v fs) gs ≡ append fs (Fields.field k v gs)
unfolding append put_last
append-put_last k v Fields.end gs = refl
append-put_last k v (Fields.field j w fs) gs = cc (append-put_last k v fs gs)

-- Each key of the second object differs from the keys of the first and from those before it.
abbrev pub Fresh : Fields → Fields → Type 0
Fresh seen Fields.end = Unit
Fresh seen (Fields.field k v fs) = (get k seen ≡ none) × Fresh (put_last k v seen) fs

-- One more new key at the end.
pub Fresh-put_last :
    (k : String) (v : Value) (seen fs : Fields)
    → Fresh seen fs
    → get k (append seen fs) ≡ none
    → Fresh seen (put_last k v fs)
unfolding put_last
Fresh-put_last k v seen Fields.end h g = (rw append-end at g, tt)
Fresh-put_last k v seen (Fields.field j w fs) h g =
    (h.0, Fresh-put_last k v (put_last j w seen) fs h.1 (rw append-put_last g))

get-none : (k : String) (fs : Fields) → contains k fs ≡ false → get k fs ≡ none
get-none k fs h = ground arith

-- `_pairs` keeps every pair, in order, and accepts exactly the keys that differ.
pub pairs-append : (seen fs : Fields) → Fresh seen fs → pairs seen fs ≡ ok (append seen fs)
unfolding pairs
pairs-append seen Fields.end h = rw append-end refl
pairs-append seen (Fields.field k v fs) h =
    ground (arith, pairs-append (put_last k v seen) fs h.1, append-put_last k v seen fs)

pub pairs-Fresh :
    (seen fs gs : Fields) → pairs seen fs ≡ ok gs → Fresh seen fs × (gs ≡ append seen fs)
unfolding pairs
pairs-Fresh seen Fields.end gs h = (tt, ground (arith, append-end seen))
pairs-Fresh seen (Fields.field k v fs) gs h =
    guard_ok (contains k seen) canonicalization (pairs (put_last k v seen) fs) h λ new rest.
      let (f, e) = pairs-Fresh (put_last k v seen) fs gs rest in
      ((get-none k seen new, f), e ∙ append-put_last k v seen fs)
