-- ===== src/Tcb/Phases.antt =====
-- orchestrator/tcb/contracts.py: `load_phase` and `load_acceptance`.
use mgk_governance_kernel.Prelude.{
  Bool, true, false, ◌&&◌, not, none, List, [], ◌∷◌, ◌==◌, any, codes, is_empty, if◌then◌else◌,
}
use mgk_governance_kernel.Errors.{Result, ok, err, runtime_error, ◌>>=◌, ◌>>◌, raise_if}
use mgk_governance_kernel.Tcb.Texts.{Text, has_start, strip}
use mgk_governance_kernel.Canonical.{eq_bytes}
use mgk_governance_kernel.Tcb.Trust.{Tree}
use mgk_governance_kernel.Tcb.Contracts.{
  Reader, Scalar, bool, text, Entry, one, Field, has_keys, members_of, check_ids, field_at, after,
  value_of, lines_of, read_fields, check_id,
}

abbrev pub phases_path : Text
phases_path = codes "contracts/PHASES.yaml"

abbrev pub acceptance_path : Text
acceptance_path = codes "contracts/FUNCTIONAL_ACCEPTANCE.yaml"

abbrev pub phase_keys : List Text
phase_keys =
    codes "id"
    ∷ codes "name"
    ∷ codes "next"
    ∷ codes "max_attempts"
    ∷ codes "agent"
    ∷ codes "prompt"
    ∷ codes "required_gates"
    ∷ codes "allowed_paths"
    ∷ []

abbrev pub acceptance_keys : List Text
acceptance_keys = codes "version" ∷ codes "required_gates" ∷ codes "all_required" ∷ []

abbrev pub is_phase_start : Text → Bool
is_phase_start line = has_start (codes "  - id: ") line

-- The lines before the first phase, and the blocks of the phases, each with its first line.
abbrev pub Block : Type 0
Block = Text × List Text

abbrev pub put_line : Text → List Text × List Block → List Text × List Block
put_line line (before, blocks) =
    if is_phase_start line then ([], (line, before) ∷ blocks) else (line ∷ before, blocks)

unfoldable pub cut : List Text → List Text × List Block
cut [] = ([], [])
cut (line ∷ rest) = put_line line (cut rest)

abbrev pub is_text : Text → Scalar → Bool
is_text t (text u) = eq_bytes u t
is_text t _ = false

-- A line of a phase: four spaces before a key, and no more.
abbrev pub is_phase_field : Text → Bool
is_phase_field line =
    has_start (codes "    ") line
    && not (has_start (codes "      ") line)
    && any (λ c. c == 58) line

abbrev pub is_acceptance_field : Text → Bool
is_acceptance_field line = not (has_start (codes " ") line) && any (λ c. c == 58) line

abbrev pub is_true : Entry → Bool
is_true (one (bool true)) = true
is_true _ = false

module _ (y : Reader) where
  -- The blocks whose identifier is that of the phase.
  unfoldable pub matching : Text → List Block → Result (List Block)
  matching phase_id [] = ok []
  matching phase_id (b ∷ bs) = do
    raw ← after 58 b.0
    current ← value_of y raw
    rest ← matching phase_id bs
    ok (if is_text phase_id current then b ∷ rest else rest)

  abbrev pub only_block : List Block → Result Block
  only_block (b ∷ []) = ok b
  only_block _ = err runtime_error

  unfoldable pub load_phase : Tree → Text → Result (List Field)
  unfolding matching cut
  load_phase tree phase_id = do
    lines ← lines_of y tree phases_path
    raise_if (is_empty (cut lines).1) runtime_error
    found ← matching phase_id (cut lines).1
    block ← only_block found
    result ←
        read_fields y (codes "      - ") is_phase_field strip block.1
          (record { key = codes "id"; entry = one (text phase_id) } ∷ [], none)
    raise_if (not (has_keys phase_keys result)) runtime_error
    check_id (text phase_id)
    gates ← field_at (codes "required_gates") result
    ids ← members_of gates
    check_ids ids
    ok result

  unfoldable pub load_acceptance : Tree → Result (List Field)
  load_acceptance tree = do
    lines ← lines_of y tree acceptance_path
    result ← read_fields y (codes "  - ") is_acceptance_field (λ t. t) lines ([], none)
    raise_if (not (has_keys acceptance_keys result)) runtime_error
    all_required ← field_at (codes "all_required") result
    raise_if (not (is_true all_required)) runtime_error
    gates ← field_at (codes "required_gates") result
    ids ← members_of gates
    check_ids ids
    ok result
