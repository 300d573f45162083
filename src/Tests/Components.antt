-- ===== src/Tests/Components.antt =====
-- The theorems on the components, each at one small input.
use mgk_governance_kernel.Canonical.{
  canonicalize, digest, enter, hooks, hooks_fields, hooks_items, max_canonical_bytes, max_depth,
  max_items, normalize, normalize_fields, normalize_items, pairs, parse_canonical, validate,
  validate_fields, validate_items,
}
use mgk_governance_kernel.Canonical.Limits.{IsInteroperable, items, nesting, validate_exact}
use mgk_governance_kernel.Canonical.Wire.{HasUniqueKeys, parse_canonical-ok}
use mgk_governance_kernel.Crypto.{
  b64u_decode, b64u_encode, key_id, sign, verify as crypto_verify, verify_value,
}
use mgk_governance_kernel.Errors.{err, ok, os_error}
use mgk_governance_kernel.Executor.{intent_data}
use mgk_governance_kernel.Feedback.{make_engine, record_event}
use mgk_governance_kernel.Feedback.Bounds.{
  IsValid, Recorded, make_engine-IsValid, record_event-Recorded,
}
use mgk_governance_kernel.Json.{Value, get, has_exactly, put_last, without}
use mgk_governance_kernel.Ledger.{
  append, check_checkpoint, check_record, genesis_hash, lines, load_checkpoint, scan, scan_line,
  scan_lines, strip_newline, verify_integrity,
}
use mgk_governance_kernel.Ledger.Appending.{Appends, append-Appends}
use mgk_governance_kernel.Ledger.Chain.{IsChain}
use mgk_governance_kernel.Ledger.Integrity.{IsSigned, verify_integrity-ok}
use mgk_governance_kernel.Platform.{Bytes}
use mgk_governance_kernel.Prelude.{
  All, [], codes, false, is_empty, length, refl, some, true, ℕ, ◌+◌, ◌↔◌, ◌∷◌, ◌≡◌, ◌≤◌,
}
use mgk_governance_kernel.Prelude.Int.{pos, ℤ, ◌+ℤ◌, ◌≤ℤ◌}
use mgk_governance_kernel.Resource.{
  append_bound, bind_present, check_append, check_create, check_write, create_bound, create_file,
  int_at, max_resource_bytes, open_bound, open_file, open_node, open_parent, present_binding,
  read_bound, remove_created, write_bound,
}
use mgk_governance_kernel.Resource.Creating.{
  Creates, SameTree, create_bound-Creates, create_then_remove,
}
use mgk_governance_kernel.Resource.Extending.{Extends, append_bound-Extends}
use mgk_governance_kernel.Resource.Files.{
  FilePath, FileSystem, drop, failed, file, leads, node_at, put_node, take, write_all, wrote,
}
use mgk_governance_kernel.Resource.Paths.{IsSafe, join, parts, parts-ok, parts_of, split}
use mgk_governance_kernel.Resource.Reading.{read_bound-bind_present, read_bound-ok}
use mgk_governance_kernel.Resource.Rewriting.{Writes, write_bound-Writes}
use mgk_governance_kernel.Saxp.{non_ten_xeito, require_xeito, ten_xeito, verdict}
use mgk_governance_kernel.Saxp.Gates.{IsAdmissible, IsSettled, verdict_exact}
use mgk_governance_kernel.State.{
  bump_epoch, check_document, consume_nonce, current_epoch, decode_epoch, integrity_check,
  make_envelope, stored_epoch,
}
use mgk_governance_kernel.State.Epoch.{
  IsAuthentic, IsSealed, bump_epoch-ok, bump_epoch_no_rollback, current_epoch-ok,
}
use mgk_governance_kernel.State.Replay.{Keeps, Reach-Keeps, consumes, here, next}
use mgk_governance_kernel.Tests.Toy.{
  authority, binding, bumped, capability, contents, context, engine, extending, files, ledger,
  nonce, path, raw, raw_fields, raw_items, reading, recorded, request, rewriting, sha, spent, state,
  toy,
}

abbrev content_a : Bytes
content_a = 7 ∷ []

abbrev document : Bytes
document = 1 ∷ []

parses : parse_canonical toy (1 ∷ []) ≡ ok capability
unfolding parse_canonical canonicalize normalize normalize_items normalize_fields validate
    validate_items validate_fields enter hooks hooks_items hooks_fields pairs get put_last raw
    raw_items raw_fields
parses = refl

parse_canonical-ok_example :
    (canonicalize toy capability ≡ ok (1 ∷ []))
    × (is_empty document ≡ false)
    × (length document ≤ max_canonical_bytes)
    × IsInteroperable capability
    × (nesting capability ≤ max_depth)
    × (items capability ≤ max_items)
    × HasUniqueKeys capability
parse_canonical-ok_example = parse_canonical-ok toy (1 ∷ []) capability parses

validate_exact_example : (validate capability 0 max_items ≡ ok 4000) ↔ (
    IsInteroperable capability
    × (items capability + 4000 ≡ max_items)
    × (nesting capability ≤ max_depth))
validate_exact_example = validate_exact capability 4000

verdict_exact_example :
    (((verdict authority.saxp context).0 ≡ ten_xeito)
      ↔ (IsAdmissible context × IsSettled authority.saxp context))
    × (((verdict authority.saxp context).0 ≡ require_xeito)
        ↔ (IsAdmissible context × ¬ IsSettled authority.saxp context))
    × (((verdict authority.saxp context).0 ≡ non_ten_xeito) ↔ (¬ IsAdmissible context))
verdict_exact_example = verdict_exact authority.saxp context

makes_engine : make_engine (pos 4000 ∷ pos 3000 ∷ pos 3000 ∷ []) ≡ ok engine
unfolding make_engine
makes_engine = refl

engine-IsValid : IsValid engine
engine-IsValid = make_engine-IsValid (pos 4000 ∷ pos 3000 ∷ pos 3000 ∷ []) engine makes_engine

record_event-Recorded_example : Recorded engine (record_event "TEN_XEITO" true "OK" engine)
record_event-Recorded_example = record_event-Recorded "TEN_XEITO" true "OK" engine engine-IsValid

consumed : consume_nonce nonce sha (pos 110) state ≡ ok spent
unfolding consume_nonce integrity_check
consumed = refl

Reach-Keeps_example : Keeps state.store spent.store
Reach-Keeps_example =
    Reach-Keeps toy state.store spent.store
      (next here (consumes nonce sha (pos 110) state spent consumed refl refl))

reads_epoch : current_epoch toy state ≡ ok (pos 1)
unfolding current_epoch stored_epoch decode_epoch check_document integrity_check parse_canonical
    canonicalize normalize normalize_items normalize_fields validate validate_items validate_fields
    enter hooks hooks_items hooks_fields pairs get put_last raw raw_items raw_fields has_exactly
    key_id b64u_encode b64u_decode crypto_verify verify_value
reads_epoch = refl

reads_bumped : current_epoch toy bumped ≡ ok (pos 2)
unfolding current_epoch stored_epoch decode_epoch check_document integrity_check parse_canonical
    canonicalize normalize normalize_items normalize_fields validate validate_items validate_fields
    enter hooks hooks_items hooks_fields pairs get put_last raw raw_items raw_fields has_exactly
    key_id b64u_encode b64u_decode crypto_verify verify_value
reads_bumped = refl

makes_envelope : make_envelope toy (pos 3) (9 ∷ []) ≡ ok (2 ∷ 3 ∷ [])
unfolding make_envelope canonicalize normalize normalize_items normalize_fields validate
    validate_items validate_fields enter get put_last key_id sign b64u_encode
makes_envelope = refl

bumps_epoch : bump_epoch toy (λ s. s) (9 ∷ []) state ≡ ok (pos 2, bumped)
unfolding bump_epoch make_envelope sign current_epoch stored_epoch decode_epoch check_document
    integrity_check parse_canonical canonicalize normalize normalize_items normalize_fields validate
    validate_items validate_fields enter hooks hooks_items hooks_fields pairs get put_last raw
    raw_items raw_fields has_exactly key_id b64u_encode b64u_decode crypto_verify verify_value ◌+ℤ◌
bumps_epoch = refl

current_epoch-ok_example :
    (integrity_check state ≡ ok tt)
    × ((envelope : Bytes) × (state.store.epoch_envelope ≡ some envelope)
        × IsAuthentic toy state envelope (pos 1))
current_epoch-ok_example = current_epoch-ok toy state (pos 1) reads_epoch

bump_epoch-ok_example :
    (current : ℤ) × (envelope : Bytes) × (row : Bytes) × (current_epoch toy state ≡ ok current)
    × (pos 2 ≡ current +ℤ pos 1)
    × ((make_envelope toy (pos 2) (9 ∷ []) ≡ ok envelope) × IsSealed toy (pos 2) (9 ∷ []) envelope)
    × (state.store.epoch_envelope ≡ some row)
    × (decode_epoch toy state row ≡ ok current)
    × (bumped.store ≡ record state.store { epoch_envelope = some envelope })
    × (bumped.expected_minimum_epoch ≡ pos 2)
    × (bumped.epoch_public_key ≡ state.epoch_public_key)
bump_epoch-ok_example = bump_epoch-ok toy (λ s. s) (9 ∷ []) state bumped (pos 2) bumps_epoch

bump_epoch_no_rollback_example : pos 2 ≤ℤ pos 2
bump_epoch_no_rollback_example =
    bump_epoch_no_rollback toy (λ s. s) (9 ∷ []) state bumped (pos 2) bumped.store (pos 2)
      bumps_epoch reads_bumped

ledger_sound : verify_integrity toy recorded ≡ ok (1, sha)
unfolding verify_integrity load_checkpoint check_checkpoint scan scan_lines scan_line check_record
    lines strip_newline digest without parse_canonical canonicalize normalize normalize_items
    normalize_fields validate validate_items validate_fields enter hooks hooks_items hooks_fields
    pairs get put_last raw raw_items raw_fields has_exactly key_id b64u_encode b64u_decode
    crypto_verify verify_value
ledger_sound = refl

verify_integrity-ok_example :
    (content : Bytes) × (recorded.ledger_file ≡ some content)
    × IsChain toy (lines content) 0 genesis_hash 1 sha
    × (1 ≡ length (lines content))
    × (load_checkpoint toy recorded ≡ ok (record { count = pos 1; head_hash = sha }))
    × IsSigned toy recorded (record { count = pos 1; head_hash = sha })
verify_integrity-ok_example = verify_integrity-ok toy recorded 1 sha ledger_sound

abbrev one : ℕ
one = 1

append-Appends_example :
    Appends toy "EXECUTION_AUTHORIZED"
      (intent_data request (Value.str sha))
      (pos 111)
      ledger
      (append toy "EXECUTION_AUTHORIZED" (intent_data request (Value.str sha)) (pos 111) ledger)
append-Appends_example =
    append-Appends toy "EXECUTION_AUTHORIZED" (intent_data request (Value.str sha)) (pos 111) ledger

splits : parts "workspace/b" ≡ ok path
unfolding parts split
splits = refl

parts-ok_example : All IsSafe path × (length path ≤ 32) × (join b'/' path ≡ codes "workspace/b")
parts-ok_example = parts-ok "workspace/b" path splits

creates :
    create_bound toy (wrote 2 ∷ wrote 8 ∷ []) binding contents files
    ≡ (ok sha, put_node path (file contents) files)
unfolding create_bound create_file write_all check_create open_parent parts parts_of node_at
    put_node leads take drop get has_exactly split
creates = refl

create_bound-Creates_example :
    Creates toy binding contents files
      (create_bound toy (wrote 2 ∷ wrote 8 ∷ []) binding contents files)
create_bound-Creates_example =
    create_bound-Creates toy (wrote 2 ∷ wrote 8 ∷ []) binding contents files

create_then_remove_example :
    (fs : FileSystem) × (remove_created toy binding sha (put_node path (file contents) files)
      ≡ (ok true, fs))
    × SameTree files fs
create_then_remove_example =
    create_then_remove toy (wrote 2 ∷ wrote 8 ∷ []) binding contents files
      (put_node path (file contents) files) sha creates

write_bound-Writes_example :
    Writes toy rewriting contents files (write_bound toy (wrote 8 ∷ []) rewriting contents files)
write_bound-Writes_example = write_bound-Writes toy (wrote 8 ∷ []) rewriting contents files

-- The first write fails after the file was truncated.
loses_content :
    write_bound toy (failed ∷ []) rewriting contents files
    ≡ (err os_error, put_node (codes "workspace" ∷ codes "a" ∷ []) (file []) files)
unfolding write_bound write_all check_write open_bound open_parent parts parts_of node_at leads get
    has_exactly split
loses_content = refl

reads : read_bound toy reading files ≡ ok (7 ∷ [])
unfolding read_bound open_file open_parent parts parts_of node_at leads get has_exactly split
    open_node
reads = refl

binds : bind_present toy "workspace/a" files ≡ ok reading
unfolding bind_present open_file open_parent parts parts_of node_at leads get has_exactly split
    open_node
binds = refl

read_bound-ok_example :
    (at : Value) × (q : FilePath) × (get "path" reading ≡ some at)
    × (parts_of at ≡ ok q)
    × (leads [] q files ≡ true)
    × (node_at q files ≡ some (file (7 ∷ [])))
    × (length content_a ≤ max_resource_bytes)
    × (get "sha256" reading ≡ some (Value.str sha))
    × (int_at reading "size" (length content_a) ≡ true)
read_bound-ok_example = read_bound-ok toy reading files (7 ∷ []) reads

read_bound-bind_present_example :
    (c : Bytes) × (reading ≡ present_binding toy "workspace/a" c)
    × (read_bound toy reading files ≡ ok c)
read_bound-bind_present_example = read_bound-bind_present toy "workspace/a" files reading binds

appends : (append_bound toy (wrote 1 ∷ []) extending contents files).0 ≡ ok (Value.str sha)
unfolding append_bound check_append open_bound open_parent parts parts_of node_at leads get
    has_exactly split write_all take drop put_node
appends = refl

append_bound-Extends_example :
    Extends toy extending contents files (append_bound toy (wrote 1 ∷ []) extending contents files)
append_bound-Extends_example = append_bound-Extends toy (wrote 1 ∷ []) extending contents files
