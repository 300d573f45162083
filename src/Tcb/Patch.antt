-- ===== src/Tcb/Patch.antt =====
-- orchestrator/tcb/verify_patch.py: which patches may be applied. Git is a record of what its commands
-- answer, with the index that they change.
pub mod Paths
pub mod Admitted
use mgk_governance_kernel.Prelude.{
  ℕ, ◌*◌, Bool, true, false, ◌&&◌, ◌||◌, not, Option, none, some, List, [], ◌∷◌, ◌++◌, String, ◌==◌,
  ltb, any, all, codes, length, is_empty, if◌then◌else◌,
}
use mgk_governance_kernel.Errors.{
  Result, ok, err, runtime_error, value_error, type_error, ◌>>=◌, ◌>>◌, raise_if, or_raise,
}
use mgk_governance_kernel.Json.{Value}
use mgk_governance_kernel.Json.Access.{index, text as text_value}
use mgk_governance_kernel.Platform.{Bytes, Platform}
use mgk_governance_kernel.Canonical.{eq_bytes}
use mgk_governance_kernel.Tcb.Texts.{
  Text, split_at, split_once, distinct, path_parts, is_absolute, dot_dot,
}
use mgk_governance_kernel.Tcb.Trust.{Tree, TreeEntry, regular_at, verify_protected_tree}
use mgk_governance_kernel.Tcb.Contracts.{Reader, Scalar, text, Entry, members_of, field_at}
use mgk_governance_kernel.Tcb.Phases.{load_phase}
use mgk_governance_kernel.Tcb.State.{Json, verify_state}

abbrev pub max_patch_bytes : ℕ
max_patch_bytes = 1024 * 1024

abbrev pub max_changed_paths : ℕ
max_changed_paths = 32

-- What the index of git holds: the tree of HEAD, that tree with a patch applied, or something else.
pub data Index : Type 0 where
  at_head : Index
  patched : Bytes → Index
  unknown : Index

-- The index before the call, and the answers of git: whether it says that the index differs from HEAD,
-- whether a patch applies, whether applying it to the index succeeds, the changed names, the entry of a
-- name in the index, and whether the reset succeeds. A command that fails where the code demands success
-- is an exception. `git apply --cached` changes the index only where it succeeds.
pub record Git : Type 0 where
  pub index_before : Index
  pub is_dirty : Bool
  pub applies : Bytes → Bool
  pub applied : Bytes → Result (Unit {0})
  pub changed : Bytes → Result Bytes
  pub staged : Bytes → Text → Result Bytes
  pub resets : Bool

-- `git reset --mixed --quiet HEAD`: its exit status is not looked at.
abbrev pub reset : Git → Index → Index
reset git i = if git.resets then at_head else i

-- `_safe_path`. PurePosixPath gives no part that is empty or `.`.
unfoldable pub is_safe_path : Text → Bool
is_safe_path t =
    not (is_empty (path_parts t))
    && not (is_absolute t)
    && not (any (λ c. c == 92) t)
    && all (λ part. not (eq_bytes part dot_dot)) (path_parts t)

-- The pieces between NUL bytes that are not empty.
abbrev pub filled : List Bytes → List Bytes
filled [] = []
filled ([] ∷ bs) = filled bs
filled ((c ∷ cs) ∷ bs) = (c ∷ cs) ∷ filled bs

abbrev pub records_of : Bytes → List Bytes
records_of raw = filled (split_at (λ c. c == 0) raw)

abbrev pub regular_mode : Bytes
regular_mode = codes "100644"

module _ (p : Platform) (y : Reader) (js : Json) (matches : Text → Text → Bool) where
  -- `_allowed`; `matches` is `fnmatch.fnmatchcase`. A pattern that is no text is a TypeError.
  unfoldable pub is_allowed : Text → List Scalar → Result Bool
  is_allowed relative [] = ok false
  is_allowed relative (text pattern' ∷ rest) =
      if matches relative pattern' then ok true else is_allowed relative rest
  is_allowed relative (_ ∷ rest) = err type_error

  abbrev pub decode_all : List Bytes → Result (List Text)
  decode_all [] = ok []
  decode_all (b ∷ bs) = or_raise (y.utf8 b) value_error >>= λ t. decode_all bs >>= λ ts. ok (t ∷ ts)

  abbrev pub only_record : List Bytes → Result Bytes
  only_record (b ∷ []) = ok b
  only_record _ = err runtime_error

  -- `header.split(b" ", 1)[0]`.
  abbrev pub first_word : Bytes → Bytes
  first_word b = elim (split_once 32 b) [ none ↦ b | some (a, _) ↦ a ]

  -- What `_staged_mode` reads of the answer of git.
  unfoldable pub mode_in : Text → Bytes → Result (Option Bytes)
  mode_in relative [] = ok none
  mode_in relative (c ∷ cs) = do
    only ← only_record (records_of (c ∷ cs))
    halves ← or_raise (split_once 9 only) value_error
    staged_path ← or_raise (y.utf8 halves.1) value_error
    raise_if (not (eq_bytes staged_path relative)) runtime_error
    raise_if (any (λ d. ltb 127 d) (first_word halves.0)) value_error
    ok (some (first_word halves.0))

  abbrev pub is_forbidden : Option Bytes → Bool
  is_forbidden none = false
  is_forbidden (some mode) = not (eq_bytes mode regular_mode)

  -- One round of the loop over the changed paths.
  unfoldable pub check_path : Git → Bytes → Entry → Text → Result (Unit {0})
  unfolding is_allowed mode_in is_safe_path
  check_path git patch entry relative = do
    raise_if (not (is_safe_path relative)) runtime_error
    patterns ← members_of entry
    allowed ← is_allowed relative patterns
    raise_if (not allowed) runtime_error
    answer ← git.staged patch relative
    mode ← mode_in relative answer
    raise_if (is_forbidden mode) runtime_error

  unfoldable pub check_paths : Git → Bytes → Entry → List Text → Result (Unit {0})
  unfolding check_path
  check_paths git patch entry [] = ok tt
  check_paths git patch entry (t ∷ ts) =
      check_path git patch entry t >> check_paths git patch entry ts

  -- The try after the patch is in the index.
  unfoldable pub check_index : Git → Bytes → Entry → Result (Unit {0})
  unfolding check_paths
  check_index git patch entry = do
    raw ← git.changed patch
    paths ← decode_all (records_of raw)
    raise_if (is_empty paths || (ltb max_changed_paths (length paths) || not (distinct paths)))
        runtime_error
    check_paths git patch entry paths

  -- The rest of the try once `git apply --cached` has answered, with the index that it leaves.
  abbrev pub apply_then : Git → Bytes → Entry → Result (Unit {0}) → Result (Unit {0}) × Index
  apply_then git patch entry (err e) = (err e, git.index_before)
  apply_then git patch entry (ok _) = (check_index git patch entry, patched patch)

  -- The statements of the try.
  abbrev pub try_body : Git → Bytes → Entry → Result (Unit {0}) × Index
  try_body git patch entry =
      if git.applies patch
      then apply_then git patch entry (git.applied patch)
      else (err runtime_error, git.index_before)

  -- The try and its finally.
  unfoldable pub try_patch : Git → Bytes → Entry → Result (Unit {0}) × Index
  unfolding check_index
  try_patch git patch entry = let tried = try_body git patch entry in (tried.0, reset git tried.1)

  -- The statements before the try: the patterns of the phase, and the patch.
  unfoldable pub prepare_patch :
      Text → Tree → Option Bytes → TreeEntry → Git → Result (Entry × Bytes)
  prepare_patch anchor tree state_file patch_entry git = do
    verify_protected_tree p anchor tree
    state ← verify_state p js state_file
    phase_value ← index state "phase"
    phase_id ← text_value runtime_error phase_value
    phase ← load_phase y tree (codes phase_id)
    allowed ← field_at (codes "allowed_paths") phase
    patch ← regular_at patch_entry
    raise_if (is_empty patch) runtime_error
    raise_if (ltb max_patch_bytes (length patch)) runtime_error
    raise_if git.is_dirty runtime_error
    ok (allowed, patch)

  abbrev pub after_preparation : Git → Result (Entry × Bytes) → Result (Unit {0}) × Index
  after_preparation git (err e) = (err e, git.index_before)
  after_preparation git (ok (entry, patch)) = try_patch git patch entry

  -- `verify_patch`: the result or the exception, and the index as it is left.
  unfoldable pub verify_patch :
      Text → Tree → Option Bytes → TreeEntry → Git → Result (Unit {0}) × Index
  unfolding prepare_patch try_patch
  verify_patch anchor tree state_file patch_entry git =
      after_preparation git (prepare_patch anchor tree state_file patch_entry git)
