-- ===== src/Tcb/Texts.antt =====
-- Texts as code points, with the methods of Python's `str` that orchestrator/tcb/ uses.
use mgk_governance_kernel.Prelude.{
  ℕ, Bool, true, false, ◌&&◌, ◌||◌, not, Option, none, some, List, [], ◌∷◌, ◌==◌, ltb, leb, any,
  all, length, if◌then◌else◌,
}
use mgk_governance_kernel.Crypto.{is_space}
use mgk_governance_kernel.Canonical.{eq_bytes}

abbrev pub Text : Type 0
Text = List ℕ

-- The translation of line ends in text mode.
unfoldable pub translate : Text → Text
translate [] = []
translate (c ∷ []) = (if c == 13 then 10 else c) ∷ []
translate (c ∷ d ∷ cs) =
    let rest = translate (d ∷ cs) in
    if c == 13 then (if d == 10 then rest else 10 ∷ rest) else c ∷ rest

-- The characters at which `splitlines` splits; after the translation no carriage return is left.
abbrev pub is_break : ℕ → Bool
is_break c = any (λ d. d == c) (10 ∷ 11 ∷ 12 ∷ 13 ∷ 28 ∷ 29 ∷ 30 ∷ 133 ∷ 8232 ∷ 8233 ∷ [])

-- The pieces between the characters of a class; one piece more than there are such characters.
unfoldable pub split_at : (ℕ → Bool) → Text → List Text
split_at p [] = [] ∷ []
split_at p (c ∷ cs) =
    let rest = split_at p cs in
    if p c then [] ∷ rest else elim rest [ [] ↦ (c ∷ []) ∷ [] | l ∷ ls ↦ (c ∷ l) ∷ ls ]

-- A last piece that is empty is no line.
abbrev pub drop_last_empty : List Text → List Text
drop_last_empty [] = []
drop_last_empty ([] ∷ []) = []
drop_last_empty (l ∷ ls) = l ∷ drop_last_empty ls

unfoldable pub splitlines : Text → List Text
unfolding split_at
splitlines t = drop_last_empty (split_at is_break t)

-- `text.startswith(prefix)`.
unfoldable pub has_start : Text → Text → Bool
has_start [] t = true
has_start (c ∷ cs) [] = false
has_start (c ∷ cs) (d ∷ ds) = c == d && has_start cs ds

unfoldable pub lstrip : Text → Text
lstrip [] = []
lstrip (c ∷ cs) = let rest = lstrip cs in if is_space c then rest else c ∷ cs

unfoldable pub rstrip : Text → Text
rstrip [] = []
rstrip (c ∷ cs) = elim (rstrip cs) [ [] ↦ if is_space c then [] else c ∷ [] | d ∷ ds ↦ c ∷ d ∷ ds ]

abbrev pub strip : Text → Text
strip t = lstrip (rstrip t)

-- `text.split(c, 1)` where the character occurs.
unfoldable pub split_once : ℕ → Text → Option (Text × Text)
split_once sep [] = none
split_once sep (c ∷ cs) =
    let rest = split_once sep cs in
    if c == sep then some ([], cs) else elim rest [ none ↦ none | some (a, b) ↦ some (c ∷ a, b) ]

-- `a < b`, by code points.
unfoldable pub text_lt : Text → Text → Bool
text_lt [] [] = false
text_lt [] (d ∷ ds) = true
text_lt (c ∷ cs) [] = false
text_lt (c ∷ cs) (d ∷ ds) = ltb c d || (c == d && text_lt cs ds)

abbrev pub is_among : Text → List Text → Bool
is_among t ts = any (λ u. eq_bytes u t) ts

-- `len(items) == len(set(items))`.
unfoldable pub distinct : List Text → Bool
distinct [] = true
distinct (t ∷ ts) = not (is_among t ts) && distinct ts

abbrev pub is_lower_hex : ℕ → Bool
is_lower_hex c = (leb 48 c && leb c 57) || (leb 97 c && leb c 102)

-- `_SHA256.fullmatch`.
abbrev pub is_sha256 : Text → Bool
is_sha256 t = all is_lower_hex t && length t == 64

-- The parts of a PurePosixPath: it drops empty parts and the part `.`; `/` alone is the root.
abbrev pub is_kept : Text → Bool
is_kept [] = false
is_kept (c ∷ []) = not (c == 46)
is_kept (c ∷ d ∷ cs) = true

abbrev pub filter_kept : List Text → List Text
filter_kept [] = []
filter_kept (t ∷ ts) = if is_kept t then t ∷ filter_kept ts else filter_kept ts

unfoldable pub path_parts : Text → List Text
unfolding split_at
path_parts t = filter_kept (split_at (λ c. c == 47) t)

abbrev pub is_absolute : Text → Bool
is_absolute [] = false
is_absolute (c ∷ cs) = c == 47

abbrev pub dot_dot : Text
dot_dot = 46 ∷ 46 ∷ []
