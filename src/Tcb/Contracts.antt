-- ===== src/Tcb/Contracts.antt =====
-- orchestrator/tcb/contracts.py: the phases and the acceptance contract, in a small part of YAML.
use mgk_governance_kernel.Prelude.{
  ℕ, Bool, true, false, ◌&&◌, ◌||◌, not, Option, none, some, List, [], ◌∷◌, ◌++◌, ◌==◌, leb, all,
  any, codes, is_empty, map, if◌then◌else◌,
}
use mgk_governance_kernel.Prelude.Int.{ℤ, pos, eqb_ℤ}
use mgk_governance_kernel.Errors.{
  Result, ok, err, runtime_error, value_error, type_error, key_error, ◌>>=◌, ◌>>◌, raise_if,
  or_raise,
}
use mgk_governance_kernel.Platform.{Bytes}
use mgk_governance_kernel.Canonical.{eq_bytes}
use mgk_governance_kernel.Tcb.Texts.{
  Text, translate, splitlines, has_start, lstrip, strip, split_once, is_among,
}
use mgk_governance_kernel.Tcb.Trust.{Tree, content_at}

-- What Python itself answers: the decoding of UTF-8, `ast.literal_eval` of a quoted value (`none` for
-- a result that is no text), `text.isdigit()` and `int(text)`.
pub record Reader : Type 0 where
  pub utf8 : Bytes → Option Text
  pub literal : Text → Result (Option Text)
  pub is_digits : Text → Bool
  pub int_of : Text → Result ℤ

pub data Scalar : Type 0 where
  null : Scalar
  bool : Bool → Scalar
  int : ℤ → Scalar
  text : Text → Scalar

-- A field is a value or a list of values.
pub data Entry : Type 0 where
  one : Scalar → Entry
  many : List Scalar → Entry

pub record Field : Type 0 where
  pub key : Text
  pub entry : Entry

abbrev pub int_of_bool : Bool → ℤ
int_of_bool true = pos 1
int_of_bool false = pos 0

-- Python's `==`: `True` equals 1 and `False` equals 0.
abbrev pub eq_scalar : Scalar → Scalar → Bool
eq_scalar null null = true
eq_scalar (bool a) (bool b) = eqb_ℤ (int_of_bool a) (int_of_bool b)
eq_scalar (bool a) (int j) = eqb_ℤ (int_of_bool a) j
eq_scalar (int i) (bool b) = eqb_ℤ i (int_of_bool b)
eq_scalar (int i) (int j) = eqb_ℤ i j
eq_scalar (text t) (text u) = eq_bytes t u
eq_scalar _ _ = false

-- `len(values) == len(set(values))`.
unfoldable pub all_distinct : List Scalar → Bool
all_distinct [] = true
all_distinct (v ∷ vs) = not (any (λ w. eq_scalar w v) vs) && all_distinct vs

-- `_ID.fullmatch`.
abbrev pub is_upper : ℕ → Bool
is_upper c = leb 65 c && leb c 90

unfoldable pub is_id : Text → Bool
is_id [] = false
is_id (c ∷ cs) = is_upper c && all (λ d. is_upper d || ((leb 48 d && leb d 57) || d == 95)) cs

abbrev pub find_field : Text → List Field → Option Entry
find_field k [] = none
find_field k (f ∷ fs) = if eq_bytes f.key k then some f.entry else find_field k fs

abbrev pub has_field : Text → List Field → Bool
has_field k fs = elim (find_field k fs) [ none ↦ false | some _ ↦ true ]

-- `set(result) == {…}`.
unfoldable pub has_keys : List Text → List Field → Bool
has_keys ks fs = all (λ k. has_field k fs) ks && all (λ (f : Field). is_among f.key ks) fs

-- The members of a field that is iterated: those of a list, the characters of a text.
abbrev pub members_of : Entry → Result (List Scalar)
members_of (many vs) = ok vs
members_of (one (text t)) = ok (map (λ c. text (c ∷ [])) t)
members_of (one _) = err type_error

abbrev pub check_id : Scalar → Result (Unit {0})
check_id (text t) = raise_if (not (is_id t)) runtime_error
check_id _ = err type_error

abbrev pub check_ids : List Scalar → Result (Unit {0})
check_ids [] = ok tt
check_ids (v ∷ vs) = check_id v >> check_ids vs

-- `result[key]`.
abbrev pub field_at : Text → List Field → Result Entry
field_at k fs = or_raise (find_field k fs) key_error

-- A comment or a line of white space.
abbrev pub is_content : Text → Bool
is_content line = not (is_empty (strip line)) && not (has_start (codes "#") (lstrip line))

abbrev pub kept_lines : List Text → List Text
kept_lines [] = []
kept_lines (l ∷ ls) = if is_content l then l ∷ kept_lines ls else kept_lines ls

-- `text.split(sep, 1)[1]`, where the character is there.
abbrev pub after : ℕ → Text → Result Text
after sep t = or_raise (split_once sep t) runtime_error >>= λ halves. ok halves.1

module _ (y : Reader) where
  unfoldable pub plain_value : Text → Result Scalar
  plain_value raw =
      if eq_bytes raw (codes "null")
      then ok null
      else if eq_bytes raw (codes "true")
      then ok (bool true)
      else if eq_bytes raw (codes "false")
      then ok (bool false)
      else if y.is_digits raw
      then (y.int_of raw >>= λ i. ok (int i))
      else ok (text raw)

  abbrev pub quoted_value : Text → Result Scalar
  quoted_value raw = y.literal raw >>= λ o. or_raise o runtime_error >>= λ t. ok (text t)

  -- The value of a text that is stripped.
  unfoldable pub stripped_value : Text → Result Scalar
  unfolding plain_value
  stripped_value [] = err runtime_error
  stripped_value (c ∷ cs) =
      if c == 34 || c == 39 then quoted_value (c ∷ cs) else plain_value (c ∷ cs)

  -- `_value`.
  unfoldable pub value_of : Text → Result Scalar
  unfolding stripped_value
  value_of raw = stripped_value (strip raw)

  -- `_lines`: a file without tabs, less comments and lines of white space.
  unfoldable pub lines_of : Tree → Text → Result (List Text)
  lines_of tree path = do
    content ← content_at (tree path)
    decoded ← or_raise (y.utf8 content) value_error
    let t = translate decoded
    raise_if (any (λ c. c == 9 || c == 13) t) runtime_error
    ok (kept_lines (splitlines t))

  -- The two loops over the lines of a block. `pending` is the list that the inner loop is reading: its
  -- key, and its values so far. A line of another kind ends it.
  module _ (item : Text) (is_field : Text → Bool) (trim : Text → Text) where
    abbrev pub Pending : Type 0
    Pending = Option (Text × List Scalar)

    -- `if not values or len(values) != len(set(values))`, then `result[key] = values`.
    abbrev pub close : Pending → List Field → Result (List Field)
    close none fs = ok fs
    close (some (k, vs)) fs =
        raise_if (is_empty vs || not (all_distinct vs)) runtime_error
        >> ok (fs ++ record { key = k; entry = many vs } ∷ [])

    -- A line with a key: the fields, and the list that it opens.
    unfoldable pub open_field : Text → List Field → Result (List Field × Pending)
    unfolding value_of
    open_field line fs = do
      raise_if (not (is_field line)) runtime_error
      halves ← or_raise (split_once 58 (trim line)) runtime_error
      raise_if (has_field halves.0 fs) runtime_error
      if is_empty (strip halves.1)
          then ok (fs, some (halves.0, []))
          else (value_of halves.1 >>= λ v.
              ok (fs ++ record { key = halves.0; entry = one v } ∷ [], none))

    -- One line: an item of the pending list, or the end of it and a line with a key.
    unfoldable pub read_line : Text → List Field × Pending → Result (List Field × Pending)
    unfolding open_field
    read_line line (fs, none) = open_field line fs
    read_line line (fs, some (k, vs)) =
        if has_start item line
        then (after 45 line >>= λ raw. value_of raw >>= λ v. ok (fs, some (k, vs ++ v ∷ [])))
        else (close (some (k, vs)) fs >>= λ gs. open_field line gs)

    unfoldable pub read_fields : List Text → List Field × Pending → Result (List Field)
    unfolding read_line
    read_fields [] (fs, pending) = close pending fs
    read_fields (line ∷ rest) state = read_line line state >>= λ next. read_fields rest next
