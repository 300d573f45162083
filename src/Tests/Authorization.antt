-- ===== src/Tests/Authorization.antt =====
-- The theorems on the path from a request to an operation, at one capability.
use mgk_governance_kernel.Authority.{
  bind_resource, bind_resource_dispatch, content_parameter, is_identifier, issue, mint,
  validate_request,
}
use mgk_governance_kernel.Authority.Issuance.{IsCapability, IsPermitted, issue-ok}
use mgk_governance_kernel.Bindings.{is_hex_of}
use mgk_governance_kernel.Canonical.{
  canonicalize, digest, enter, hooks, hooks_fields, hooks_items, normalize, normalize_fields,
  normalize_items, pairs, parse_canonical, validate, validate_fields, validate_items,
}
use mgk_governance_kernel.Crypto.{
  b64u_decode, b64u_encode, key_id, sign, verify as crypto_verify, verify_value,
}
use mgk_governance_kernel.Errors.{ok}
use mgk_governance_kernel.Executor.{
  World, authorize, commit, complete, conclude, execute, finish, perform, proceed, recheck_epoch,
  request_content, run_action, with_id,
}
use mgk_governance_kernel.Executor.Authorization.{
  Guarded, IsCommitted, IsDenied, IsExecuted, execute-Guarded,
}
use mgk_governance_kernel.Executor.Effects.{IsCreated, execute-create}
use mgk_governance_kernel.Executor.Reads.{IsRead, execute-IsRead}
use mgk_governance_kernel.Executor.Replays.{execute_once}
use mgk_governance_kernel.Json.{Fields, Value, get, has_exactly, put_last, without}
use mgk_governance_kernel.Ledger.{
  append, check_checkpoint, check_record, lines, load_checkpoint, make_checkpoint, make_record,
  prepare, scan, scan_line, scan_lines, strip_newline, verify_integrity, write_record,
}
use mgk_governance_kernel.Models.{ActionRequest, SaxpDecision, request_digest}
use mgk_governance_kernel.Platform.{Bytes}
use mgk_governance_kernel.Prelude.{String, [], false, none, refl, some, true, ◌∷◌, ◌≡◌, ◌⊎◌}
use mgk_governance_kernel.Prelude.Int.{pos, ◌+ℤ◌, ◌-ℤ◌}
use mgk_governance_kernel.Resource.{
  bind_absent, check_create, create_bound, create_file, open_parent,
}
use mgk_governance_kernel.Resource.Creating.{SameTree}
use mgk_governance_kernel.Resource.Files.{drop, leads, node_at, put_node, take, write_all}
use mgk_governance_kernel.Resource.Paths.{parts, parts_of}
use mgk_governance_kernel.Saxp.{
  blocking_reasons, evaluate, pending_reasons, sorted, validate_context, verdict,
}
use mgk_governance_kernel.Saxp.Gates.{IsAdmissible, IsSettled}
use mgk_governance_kernel.State.{
  check_document, consume_nonce, current_epoch, decode_epoch, integrity_check, is_consumed,
  stored_epoch,
}
use mgk_governance_kernel.State.Replay.{here}
use mgk_governance_kernel.Tests.Toy.{
  authority, context, executor, files, issued, nonce, payload, raw, raw_fields, raw_items, request,
  spent, state, surroundings, toy, verifier, world,
}
use mgk_governance_kernel.Verifier.{
  check_binding, check_envelope, check_epoch, check_saxp, check_scope, check_texts, check_window,
  consume_payload, require_key, require_string, validate_payload, verify,
}
use mgk_governance_kernel.Verifier.Soundness.{IsAuthorized, check_envelope-IsAuthorized}
use mgk_governance_kernel.Verifier.Spending.{verify-ok, verify_once}

checks : check_envelope toy verifier (pos 110) (1 ∷ []) request state ≡ ok payload
unfolding check_envelope parse_canonical canonicalize normalize normalize_items normalize_fields
    validate validate_items validate_fields enter hooks hooks_items hooks_fields pairs get put_last
    without has_exactly raw raw_items raw_fields digest key_id b64u_encode b64u_decode crypto_verify
    verify_value validate_payload check_texts require_key require_string is_hex_of check_scope
    check_saxp check_binding check_window check_epoch current_epoch stored_epoch decode_epoch
    check_document integrity_check request_digest ◌-ℤ◌ ◌+ℤ◌
checks = refl

checks_again : check_envelope toy verifier (pos 120) (1 ∷ []) request spent ≡ ok payload
unfolding check_envelope parse_canonical canonicalize normalize normalize_items normalize_fields
    validate validate_items validate_fields enter hooks hooks_items hooks_fields pairs get put_last
    without has_exactly raw raw_items raw_fields digest key_id b64u_encode b64u_decode crypto_verify
    verify_value validate_payload check_texts require_key require_string is_hex_of check_scope
    check_saxp check_binding check_window check_epoch current_epoch stored_epoch decode_epoch
    check_document integrity_check request_digest ◌-ℤ◌ ◌+ℤ◌
checks_again = refl

looks_again : verify toy verifier (pos 120) (1 ∷ []) request false spent ≡ ok (payload, spent)
unfolding verify
looks_again = rw checks_again refl

verifies : verify toy verifier (pos 110) (1 ∷ []) request true state ≡ ok (payload, spent)
unfolding verify consume_payload consume_nonce integrity_check get
verifies = rw checks refl

issues : issue toy authority request none none (pos 100) nonce state files ≡ ok issued
unfolding issue validate_request is_identifier evaluate verdict validate_context blocking_reasons
    pending_reasons sorted mint bind_resource bind_resource_dispatch content_parameter
    parse_canonical canonicalize normalize normalize_items normalize_fields validate validate_items
    validate_fields enter hooks hooks_items hooks_fields pairs get put_last without has_exactly raw
    raw_items raw_fields digest key_id b64u_encode b64u_decode crypto_verify verify_value
    current_epoch stored_epoch decode_epoch check_document integrity_check request_digest ◌-ℤ◌ ◌+ℤ◌
    bind_absent sign is_hex_of open_parent parts_of leads node_at
issues = refl

executes : (execute toy executor surroundings (1 ∷ []) request world).0.success ≡ true
unfolding execute authorize proceed with_id conclude commit perform finish complete run_action
    request_content recheck_epoch verify consume_payload consume_nonce check_envelope
    parse_canonical canonicalize normalize normalize_items normalize_fields validate validate_items
    validate_fields enter hooks hooks_items hooks_fields pairs get put_last without has_exactly raw
    raw_items raw_fields digest key_id b64u_encode b64u_decode crypto_verify verify_value
    validate_payload check_texts require_key require_string is_hex_of check_scope check_saxp
    check_binding check_window check_epoch current_epoch stored_epoch decode_epoch check_document
    integrity_check request_digest ◌-ℤ◌ ◌+ℤ◌ verify_integrity load_checkpoint check_checkpoint scan
    scan_lines scan_line check_record lines strip_newline append make_record prepare write_record
    make_checkpoint sign create_bound create_file write_all check_create open_parent parts parts_of
    node_at put_node leads take drop
executes = refl

execute-Guarded_example :
    Guarded toy executor surroundings
      (1 ∷ [])
      request
      world
      (execute toy executor surroundings (1 ∷ []) request world)
execute-Guarded_example = execute-Guarded toy executor surroundings (1 ∷ []) request world

execute_once_example :
    IsDenied
      (execute toy executor surroundings
        (1 ∷ [])
        request
        (execute toy executor surroundings (1 ∷ []) request world).1).0
    × ((execute toy executor surroundings
          (1 ∷ [])
          request
          (execute toy executor surroundings (1 ∷ []) request world).1).1.files
        ≡ (execute toy executor surroundings (1 ∷ []) request world).1.files)
execute_once_example =
    execute_once toy executor executor surroundings surroundings (1 ∷ []) request request world
      (execute toy executor surroundings (1 ∷ []) request world).1 (λ s. here) executes here

execute-create_example :
    (IsDenied (execute toy executor surroundings (1 ∷ []) request world).0
      × SameTree files (execute toy executor surroundings (1 ∷ []) request world).1.files)
    ⊎ ((b : Fields) × (id : Value) × (w' : World) × IsCommitted toy executor surroundings
          (1 ∷ [])
          request
          world
          b
          id
          w'
        × IsExecuted (execute toy executor surroundings (1 ∷ []) request world).0
        × IsCreated toy surroundings request b files
            (execute toy executor surroundings (1 ∷ []) request world).1.files
            (execute toy executor surroundings (1 ∷ []) request world).0)
execute-create_example = execute-create toy surroundings request executor (1 ∷ []) world refl

check_envelope-IsAuthorized_example :
    IsAuthorized toy verifier (pos 110) (1 ∷ []) request state payload
check_envelope-IsAuthorized_example =
    check_envelope-IsAuthorized toy verifier (pos 110) (1 ∷ []) request state payload checks

verify-ok_example :
    IsAuthorized toy verifier (pos 110) (1 ∷ []) request state payload
    × ((n : String) × (id : String) × (get "nonce" payload ≡ some (Value.str n))
        × (consume_nonce n id (pos 110) state ≡ ok spent)
        × (is_consumed n [] ≡ false)
        × (is_consumed n spent.store.consumed_nonces ≡ true))
verify-ok_example = verify-ok toy verifier (pos 110) (1 ∷ []) request state spent payload verifies

verify_once_example : (false ≡ false) × (spent ≡ spent)
verify_once_example =
    verify_once toy verifier verifier (pos 110) (pos 120) (1 ∷ []) request request false state spent
      spent spent payload payload verifies here looks_again

issue-ok_example :
    IsPermitted toy authority request
    × ((d : SaxpDecision) × (evaluate toy authority.saxp request context ≡ ok d)
        × (((issued ≡ record { envelope = none; decision = d; capability_id = none })
              × ¬ (IsAdmissible context × IsSettled authority.saxp context))
            ⊎ ((envelope : Bytes) × (capability_id : String) × (issued ≡ record {
              envelope = some envelope;
              decision = d;
              capability_id = some capability_id;
            })
                × IsCapability toy authority request
                    (pos 60)
                    context
                    (pos 100)
                    nonce
                    state
                    files
                    d
                    envelope
                    capability_id)))
issue-ok_example =
    issue-ok toy authority request none none (pos 100) nonce state files issued issues

abbrev read_request : ActionRequest
read_request = record request {
  action = "resource.read";
  resource = "workspace/a";
  parameters = Fields.end;
}

execute-IsRead_example :
    ((execute toy executor surroundings (1 ∷ []) read_request world).1.files ≡ files)
    × (IsDenied (execute toy executor surroundings (1 ∷ []) read_request world).0
        ⊎ ((b : Fields) × (id : Value) × (w' : World) × IsCommitted toy executor surroundings
              (1 ∷ [])
              read_request
              world
              b
              id
              w'
            × IsExecuted (execute toy executor surroundings (1 ∷ []) read_request world).0
            × IsRead toy surroundings read_request b files
                (execute toy executor surroundings (1 ∷ []) read_request world).0))
execute-IsRead_example = execute-IsRead toy surroundings read_request executor (1 ∷ []) world refl
