-- ===== src/Resource/Paths.antt =====
-- Relative paths: `ResourceGuard._parts` of src/mgk/resource.py. A name is its code points.
use Prim.Native.String.{len}
use mgk_governance_kernel.Prelude.{
  ℕ, ◌≤◌, ◌≡◌, ◌≢◌, refl, subst, ap, ◌∙◌, Bool, true, false, ◌||◌, ◌&&◌, List, [], ◌∷◌, ◌++◌,
  String, str_eq, ◌==◌, ltb, length, if◌then◌else◌, codes, any, All, arith, Bool-cases, inl, inr,
  ==_iff,
}
use mgk_governance_kernel.Errors.{Result, ok, err, resource, ◌>>◌, raise_if, guard_ok, ok_inj}
use mgk_governance_kernel.Json.{Value}

abbrev pub Name : Type 0
Name = List ℕ

-- The first part grows by a character that is no separator.
abbrev pub grow : ℕ → List Name → List Name
grow c [] = (c ∷ []) ∷ []
grow c (n ∷ ns) = (c ∷ n) ∷ ns

-- `text.split(sep)`: the parts between the separators, one more than there are separators.
unfoldable pub split : ℕ → List ℕ → List Name
split sep [] = [] ∷ []
split sep (c ∷ cs) = let rest = split sep cs in if c == sep then [] ∷ rest else grow c rest

-- `part in {"", ".", ".."}`.
abbrev pub is_special : Name → Bool
is_special [] = true
is_special (c ∷ []) = c == b'.'
is_special (c ∷ d ∷ []) = c == b'.' && d == b'.'
is_special _ = false

-- The parts of a path that has no such part are those of `PurePosixPath`, and it is not absolute.
unfoldable pub parts : String → Result (List Name)
unfolding split
parts relative = do
  raise_if (str_eq relative "" || ltb 4096 (len relative)) resource
  raise_if (any (λ c. c == 92 || c == 0) (codes relative)) resource
  let raw_parts = split b'/' (codes relative)
  raise_if (any is_special raw_parts) resource
  raise_if (ltb 32 (length raw_parts)) resource
  ok raw_parts

-- `type(relative) is not str` is a ResourceError.
unfoldable pub parts_of : Value → Result (List Name)
unfolding parts
parts_of (Value.str s) = parts s
parts_of _ = err resource

-- `"/".join(parts)`.
abbrev pub join : ℕ → List Name → List ℕ
join sep [] = []
join sep (n ∷ []) = n
join sep (n ∷ m ∷ ns) = n ++ sep ∷ join sep (m ∷ ns)

-- A name that a path may hold: not empty, not `.` or `..`, with no separator in it.
pub record IsSafe (n : Name) : Type 0 where
  pub ordinary : is_special n ≡ false
  pub whole : any (λ c. c == b'/') n ≡ false

join-grow : (sep c : ℕ) (ns : List Name) → join sep (grow c ns) ≡ c ∷ join sep ns
join-grow sep c [] = refl
join-grow sep c (n ∷ []) = refl
join-grow sep c (n ∷ m ∷ ns) = refl

split-cons :
    (sep c : ℕ) (cs : List ℕ) → (c == sep) ≡ false → split sep (c ∷ cs) ≡ grow c (split sep cs)
unfolding split
split-cons sep c cs h = ground arith

split-sep : (sep c : ℕ) (cs : List ℕ) → (c == sep) ≡ true → split sep (c ∷ cs) ≡ [] ∷ split sep cs
unfolding split
split-sep sep c cs h = ground arith

split-ne-nil : (sep : ℕ) (cs : List ℕ) → split sep cs ≢ []
unfolding split
split-ne-nil sep [] h = cc
split-ne-nil sep (c ∷ cs) h = ground (arith, split-ne-nil sep cs)

join-nil : (sep : ℕ) (ns : List Name) → ns ≢ [] → join sep ([] ∷ ns) ≡ sep ∷ join sep ns
join-nil sep [] h = absurd (h refl)
join-nil sep (n ∷ ns) h = refl

-- Joining the parts of a text gives the text.
pub join-split : (sep : ℕ) (cs : List ℕ) → join sep (split sep cs) ≡ cs
unfolding split
join-split sep [] = refl
join-split sep (c ∷ cs) = elim (Bool-cases (c == sep)) [
  | inl here ↦
      ap (join sep) (split-sep sep c cs here)
      ∙ join-nil sep (split sep cs) (split-ne-nil sep cs)
      ∙ cc ((==_iff c sep).0 here, join-split sep cs)
  | inr not_here ↦
      ap (join sep) (split-cons sep c cs not_here)
      ∙ join-grow sep c (split sep cs)
      ∙ cc (join-split sep cs)
]

grow-whole :
    (sep c : ℕ) (ns : List Name)
    → (c == sep) ≡ false
    → All (λ n. any (λ d. d == sep) n ≡ false) ns
    → All (λ n. any (λ d. d == sep) n ≡ false) (grow c ns)
grow-whole sep c [] h a = ground arith
grow-whole sep c (n ∷ ns) h a = (ground arith, a.1)

-- No part of a split holds the separator.
pub split-whole : (sep : ℕ) (cs : List ℕ) → All (λ n. any (λ d. d == sep) n ≡ false) (split sep cs)
unfolding split
split-whole sep [] = (refl, tt)
split-whole sep (c ∷ cs) = elim (Bool-cases (c == sep)) [
  | inl here ↦ rw (split-sep sep c cs here) (refl, split-whole sep cs)
  | inr other ↦
      rw (split-cons sep c cs other) (grow-whole sep c (split sep cs) other (split-whole sep cs))
]

All-ordinary :
    (ns : List Name)
    → any is_special ns ≡ false
    → All (λ n. any (λ d. d == b'/') n ≡ false) ns
    → All IsSafe ns
All-ordinary [] h a = tt
All-ordinary (n ∷ ns) h a =
    (record { ordinary = ground arith; whole = a.0 }, All-ordinary ns (ground arith) a.1)

-- A path that `_parts` accepts has at most 32 parts, none of them empty, `.` or `..`, none with a
-- slash in it, and they are the path cut at its slashes: joined, they give the path again.
pub parts-ok :
    (relative : String) (ns : List Name)
    → parts relative ≡ ok ns
    → All IsSafe ns × (length ns ≤ 32) × (join b'/' ns ≡ codes relative)
unfolding parts
parts-ok relative ns h =
    guard_ok (str_eq relative "" || ltb 4096 (len relative)) resource _ h λ _ h1.
      guard_ok (any (λ c. c == 92 || c == 0) (codes relative)) resource _ h1 λ _ h2.
        guard_ok (any is_special (split b'/' (codes relative))) resource _ h2 λ ordinary h3.
          guard_ok (ltb 32 (length (split b'/' (codes relative)))) resource _ h3 λ short h4.
            subst
              (λ (x : List Name). All IsSafe x × (length x ≤ 32) × (join b'/' x ≡ codes relative))
              (ok_inj h4)
              (
                All-ordinary (split b'/' (codes relative)) ordinary
                    (split-whole b'/' (codes relative)),
                ground arith,
                join-split b'/' (codes relative),
              )
