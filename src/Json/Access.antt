-- ===== src/Json/Access.antt =====
-- How the kernel reads a decoded document: `d[key]`, `type(v) is …`, and what a success shows.
use mgk_governance_kernel.Prelude.{◌≡◌, false, not, some, String, arith, ap, ◌∙◌}
use mgk_governance_kernel.Prelude.Int.{ℤ}
use mgk_governance_kernel.Errors.{Error, Result, ok, err, key_error, or_raise, or_raise_ok}
use mgk_governance_kernel.Json.{Value, Fields, get, is_str, is_str→eq}

-- The members of an object; any other value is no dict.
abbrev pub members : Error → Value → Result Fields
members e (Value.obj fs) = ok fs
members e _ = err e

-- `d[key]`.
abbrev pub index : Fields → String → Result Value
index d k = or_raise (get k d) key_error

abbrev pub integer : Error → Value → Result ℤ
integer e (Value.int i) = ok i
integer e _ = err e

abbrev pub text : Error → Value → Result String
text e (Value.str s) = ok s
text e _ = err e

pub index-ok : (d : Fields) (k : String) {v : Value} → index d k ≡ ok v → get k d ≡ some v
index-ok d k h = or_raise_ok (get k d) key_error h (λ e. e)

pub members-ok : (e : Error) (v : Value) {fs : Fields} → members e v ≡ ok fs → v ≡ Value.obj fs
members-ok e (Value.obj gs) h = cc
members-ok e Value.null h = cc
members-ok e (Value.bool b) h = cc
members-ok e (Value.int i) h = cc
members-ok e (Value.str s) h = cc
members-ok e (Value.surrogates cs) h = cc
members-ok e (Value.arr xs) h = cc
members-ok e Value.unsupported h = cc

pub integer-ok : (e : Error) (v : Value) {i : ℤ} → integer e v ≡ ok i → v ≡ Value.int i
integer-ok e (Value.int j) h = cc
integer-ok e Value.null h = cc
integer-ok e (Value.bool b) h = cc
integer-ok e (Value.obj fs) h = cc
integer-ok e (Value.str s) h = cc
integer-ok e (Value.surrogates cs) h = cc
integer-ok e (Value.arr xs) h = cc
integer-ok e Value.unsupported h = cc

pub text-ok : (e : Error) (v : Value) {s : String} → text e v ≡ ok s → v ≡ Value.str s
text-ok e (Value.str t) h = cc
text-ok e Value.null h = cc
text-ok e (Value.bool b) h = cc
text-ok e (Value.int i) h = cc
text-ok e (Value.obj fs) h = cc
text-ok e (Value.surrogates cs) h = cc
text-ok e (Value.arr xs) h = cc
text-ok e Value.unsupported h = cc

pub tested_str : (s : String) (v : Value) → not (is_str s v) ≡ false → v ≡ Value.str s
tested_str s v h = is_str→eq s v (ground arith)

-- `d[key] != text` was false.
pub has_str :
    (d : Fields) (k s : String) {v : Value}
    → index d k ≡ ok v
    → not (is_str s v) ≡ false
    → get k d ≡ some (Value.str s)
has_str d k s {v} at same = index-ok d k at ∙ ap some (tested_str s v same)
