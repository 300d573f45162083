-- ===== src/Tcb/Trust.antt =====
-- orchestrator/tcb/trust.py: the protected files of the repository against a manifest whose hash the
-- environment anchors. What stands at a path is an entry of the working tree; that a directory on the
-- way is a link is not modelled.
pub mod Protected
use mgk_governance_kernel.Prelude.{
  ℕ, Bool, true, false, ◌&&◌, ◌||◌, not, Option, none, some, List, [], ◌∷◌, all, any, ltb, codes,
  length, is_empty, if◌then◌else◌, ◌==◌,
}
use mgk_governance_kernel.Errors.{
  Result, ok, err, runtime_error, value_error, os_error, ◌>>=◌, ◌>>◌, raise_if, or_raise,
}
use mgk_governance_kernel.Platform.{Bytes, Platform}
use mgk_governance_kernel.Canonical.{eq_bytes}
use mgk_governance_kernel.Tcb.Texts.{
  Text, translate, splitlines, text_lt, is_among, is_sha256, path_parts, is_absolute, dot_dot,
}

-- Nothing, a link (with the content of the file that it leads to, if it leads to one), a regular file,
-- or something else, such as a directory.
pub data TreeEntry : Type 0 where
  absent special : TreeEntry
  link : Option Bytes → TreeEntry
  regular : Bytes → TreeEntry

abbrev pub Tree : Type 0
Tree = Text → TreeEntry

abbrev pub manifest_path : Text
manifest_path = codes "contracts/ROOT_MANIFEST.sha256"

abbrev pub required_protected_paths : List Text
required_protected_paths =
    codes ".github/workflows/bootstrap-core.yml"
    ∷ codes ".github/workflows/mgk-protected-gates.yml"
    ∷ codes "candidate_adapter.py"
    ∷ codes "contracts/FUNCTIONAL_ACCEPTANCE.yaml"
    ∷ codes "contracts/INVARIANTS.yaml"
    ∷ codes "contracts/MGK-FUNCTIONAL-ACCEPTANCE.yaml"
    ∷ codes "contracts/PHASES.yaml"
    ∷ codes "contracts/ROOT_OF_TRUST"
    ∷ codes "exam_hypothesis_profile.py"
    ∷ codes "gates/protected/requirements.lock"
    ∷ codes "gates/protected/run_gates.py"
    ∷ codes "gates/protected/run_mgk_candidate.py"
    ∷ codes "gates/protected/test_f00.py"
    ∷ codes "gates/protected/test_invariants.py"
    ∷ codes "gates/protected/verify_bootstrap_cleanup.py"
    ∷ codes "independent_exam/FROZEN.sha256"
    ∷ codes "independent_exam/tools/check_frozen.py"
    ∷ codes "orchestrator/tcb/check_candidate.py"
    ∷ codes "orchestrator/tcb/check_gates.py"
    ∷ codes "orchestrator/tcb/contracts.py"
    ∷ codes "orchestrator/tcb/core.py"
    ∷ codes "orchestrator/tcb/make_attestation.py"
    ∷ codes "orchestrator/tcb/trust.py"
    ∷ codes "orchestrator/tcb/verify_patch.py"
    ∷ codes "redteam/SHA256SUMS"
    ∷ codes "redteam/candidate_attack_adapter.py"
    ∷ codes "redteam/validate_artifacts.py"
    ∷ []

-- A line of the manifest: the path and the digest of its content.
pub record ManifestEntry : Type 0 where
  pub path : Text
  pub digest : Text

abbrev pub paths_of : List ManifestEntry → List Text
paths_of [] = []
paths_of (e ∷ es) = e.path ∷ paths_of es

-- `path.open("rb")` and its content.
abbrev pub content_at : TreeEntry → Result Bytes
content_at (regular b) = ok b
content_at (link (some b)) = ok b
content_at _ = err os_error

-- `path.is_symlink() or not path.is_file()` is an error; else the content.
abbrev pub regular_at : TreeEntry → Result Bytes
regular_at (regular b) = ok b
regular_at _ = err runtime_error

abbrev pub is_unsafe : Text → Bool
is_unsafe t =
    is_absolute t || is_empty (path_parts t) || any (λ part. eq_bytes part dot_dot) (path_parts t)

-- `previous is not None and relative <= previous`.
abbrev pub follows : Option Text → Text → Bool
follows none t = true
follows (some previous) t = text_lt previous t

-- `line.split("  ", 1)`, where two spaces stand next to each other.
unfoldable pub split_spaces : Text → Option (Text × Text)
split_spaces [] = none
split_spaces (c ∷ []) = none
split_spaces (c ∷ d ∷ cs) =
    let rest = split_spaces (d ∷ cs) in
    if c == 32 && d == 32
    then some ([], cs)
    else elim rest [ none ↦ none | some (a, b) ↦ some (c ∷ a, b) ]

abbrev pub entry_of : Text × Text → ManifestEntry
entry_of (digest, path) = record { path = path; digest = digest }

-- One round of the loop of `_load_manifest`, with the paths before.
unfoldable pub manifest_entry : List Text → Option Text → Text → Result ManifestEntry
manifest_entry seen previous line = do
  halves ← or_raise (split_spaces line) runtime_error
  raise_if (not (is_sha256 halves.0)) runtime_error
  raise_if (is_unsafe halves.1) runtime_error
  raise_if (is_among halves.1 seen || not (follows previous halves.1)) runtime_error
  ok (entry_of halves)

unfoldable pub manifest_entries : List Text → Option Text → List Text → Result (List ManifestEntry)
unfolding manifest_entry
manifest_entries seen previous [] = ok []
manifest_entries seen previous (line ∷ rest) = do
  e ← manifest_entry seen previous line
  es ← manifest_entries (e.path ∷ seen) (some e.path) rest
  ok (e ∷ es)

-- Every text of the second list is in the first.
unfoldable pub includes : List Text → List Text → Bool
includes ts us = all (λ u. is_among u ts) us

-- `set(entries) == REQUIRED_PROTECTED_PATHS`.
unfoldable pub covers : List ManifestEntry → Bool
unfolding includes
covers es =
    includes (paths_of es) required_protected_paths
    && includes required_protected_paths (paths_of es)

-- `_load_manifest`; a byte over 127 is a UnicodeDecodeError.
unfoldable pub load_manifest : Tree → Result (List ManifestEntry)
unfolding manifest_entries covers
load_manifest tree = do
  content ← regular_at (tree manifest_path)
  raise_if (any (λ c. ltb 127 c) content) value_error
  es ← manifest_entries [] none (splitlines (translate content))
  raise_if (not (covers es)) runtime_error
  ok es

module _ (p : Platform) where
  -- `sha256_file`: the chunks of a file are its content.
  unfoldable pub sha256_file : TreeEntry → Result Text
  sha256_file e = content_at e >>= λ content. ok (codes (p.sha256 content))

  -- One round of the loop of `verify_protected_tree`.
  unfoldable pub check_entry : Tree → ManifestEntry → Result (Unit {0})
  check_entry tree e = do
    content ← regular_at (tree e.path)
    raise_if (not (eq_bytes (codes (p.sha256 content)) e.digest)) runtime_error

  unfoldable pub check_entries : Tree → List ManifestEntry → Result (Unit {0})
  unfolding check_entry
  check_entries tree [] = ok tt
  check_entries tree (e ∷ es) = check_entry tree e >> check_entries tree es

  -- `verify_protected_tree`, with the variable of the environment, which is empty where it is not set.
  unfoldable pub verify_protected_tree : Text → Tree → Result (Unit {0})
  unfolding load_manifest check_entries
  verify_protected_tree anchor tree = do
    raise_if (not (is_sha256 anchor)) runtime_error
    actual ← sha256_file (tree manifest_path)
    raise_if (not (eq_bytes actual anchor)) runtime_error
    es ← load_manifest tree
    check_entries tree es
