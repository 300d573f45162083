-- ===== src/Tests/Services.antt =====
-- The runtime services on small inputs: the theorems applied to them.
use mgk_governance_kernel.Authority.{
  bind_resource, bind_resource_dispatch, content_parameter, is_identifier, issue, mint,
  validate_request,
}
use mgk_governance_kernel.Bindings.{is_hex_of}
use mgk_governance_kernel.Canonical.{
  canonicalize, digest, enter, hooks, hooks_fields, hooks_items, normalize, normalize_fields,
  normalize_items, pairs, parse_canonical, validate, validate_fields, validate_items,
}
use mgk_governance_kernel.Crypto.{
  b64u_decode, b64u_encode, key_id, sign, verify as crypto_verify, verify_value,
}
use mgk_governance_kernel.Errors.{ok}
use mgk_governance_kernel.Executor.{
  authorize, commit, complete, conclude, execute, finish, perform, proceed, recheck_epoch,
  request_content, run_action, with_id,
}
use mgk_governance_kernel.Json.{Value, get, has_exactly, put_last, without}
use mgk_governance_kernel.Ledger.{
  append, check_checkpoint, check_record, lines, load_checkpoint, make_checkpoint, make_record,
  prepare, scan, scan_line, scan_lines, strip_newline, verify_integrity, write_record,
}
use mgk_governance_kernel.Models.{request_digest, request_payload}
use mgk_governance_kernel.Prelude.{
  String, [], arith, false, member, none, refl, some, true, ℕ, ◌↔◌, ◌∷◌, ◌≡◌, ◌⊎◌,
}
use mgk_governance_kernel.Prelude.Int.{◌+ℤ◌, ◌-ℤ◌}
use mgk_governance_kernel.Resource.{
  bind_absent, check_create, create_bound, create_file, open_parent,
}
use mgk_governance_kernel.Resource.Files.{drop, leads, node_at, put_node, take, write_all}
use mgk_governance_kernel.Resource.Paths.{parts, parts_of}
use mgk_governance_kernel.Runtime.Decision.{
  Decision, RuntimeState, allow, as_request, decision_state, now, plain, record_flight,
  save_decision, save_decision_at,
}
use mgk_governance_kernel.Runtime.Decision.Frames.{Outcome, Withholds}
use mgk_governance_kernel.Runtime.Flight.{
  append as flight_append, check_record as flight_check_record,
  load_checkpoint as flight_load_checkpoint, make_checkpoint as flight_make_checkpoint,
  make_record as flight_make_record, prepare as flight_prepare, scan as flight_scan,
  scan_line as flight_scan_line, scan_lines as flight_scan_lines,
  verify_integrity as flight_verify_integrity, write_record as flight_write_record,
}
use mgk_governance_kernel.Runtime.Human.{
  approve, execute_approved, gate, human_approve, human_deny, issue_and_execute_human, record_human,
  report_human, sign_human, sign_with, signed_by, use_human_capability,
}
use mgk_governance_kernel.Runtime.Human.Gate.{Approval, human_approve-Approval}
use mgk_governance_kernel.Runtime.Human.Once.{
  denial, here, human_approve_once, human_deny_spares, proposed, then_,
}
use mgk_governance_kernel.Runtime.Policy.{allows, context_for, make_policy}
use mgk_governance_kernel.Runtime.Policy.Closed.{context_for-verdict}
use mgk_governance_kernel.Runtime.Propose.{propose}
use mgk_governance_kernel.Runtime.Propose.Answers.{propose_answers}
use mgk_governance_kernel.Runtime.Propose.Authority.{propose-Outcome}
use mgk_governance_kernel.Runtime.Service.{Bundle, doctor, doctor_findings}
use mgk_governance_kernel.Runtime.Service.Healthy.{doctor-IsHealthy}
use mgk_governance_kernel.Runtime.Store.{
  decisions, insert_decision, newest_first, proposal, store_decision, store_human_action, upsert,
}
use mgk_governance_kernel.Saxp.{
  blocking_reasons, evaluate, non_ten_xeito, pending_reasons, require_xeito, sorted, ten_xeito,
  validate_context, verdict,
}
use mgk_governance_kernel.State.{
  check_document, consume_nonce, current_epoch, decode_epoch, integrity_check, stored_epoch,
}
use mgk_governance_kernel.Tests.Runs.{
  fresh, new_recorder, pipeline, request_dict, run_platform, run_policy, waiting,
}
use mgk_governance_kernel.Tests.Toy.{
  authority, ledger, raw, raw_fields, raw_items, request, sha, state,
}
use mgk_governance_kernel.Verifier.{
  check_binding, check_envelope, check_epoch, check_saxp, check_scope, check_texts, check_window,
  consume_payload, require_key, require_string, validate_payload, verify,
}

context_for-verdict_example :
    (((verdict authority.saxp (context_for run_policy request)).0 ≡ ten_xeito) ↔ (
      (run_policy.mode ≡ "allow_safe")
      × (allows run_policy request.action request.resource ≡ true)
      × (member request.action run_policy.sensitive_actions ≡ false)))
    × (((verdict authority.saxp (context_for run_policy request)).0 ≡ require_xeito) ↔ (
        (run_policy.mode ≡ "require_human")
        ⊎ ((run_policy.mode ≡ "allow_safe")
            × (allows run_policy request.action request.resource ≡ true)
            × (member request.action run_policy.sensitive_actions ≡ true))))
    × (((verdict authority.saxp (context_for run_policy request)).0 ≡ non_ten_xeito) ↔ (
        (run_policy.mode ≡ "deny_all")
        ⊎ ((run_policy.mode ≡ "allow_safe")
            × (allows run_policy request.action request.resource ≡ false))))
unfolding make_policy
context_for-verdict_example =
    context_for-verdict run_policy authority.saxp request refl (ground arith)

propose-Outcome_example :
    Outcome run_platform pipeline
      (as_request pipeline.python request_dict)
      none
      fresh.world
      (propose run_platform pipeline request_dict fresh).0
      (propose run_platform pipeline request_dict fresh).1.world
propose-Outcome_example = propose-Outcome run_platform pipeline request_dict fresh

propose_answers_example :
    (d : Decision) × ((propose run_platform pipeline request_dict fresh).0 ≡ ok d)
unfolding as_request get
propose_answers_example = propose_answers run_platform pipeline request_dict "req-1" fresh refl tt

human_approve-Approval_example :
    Approval run_platform pipeline "req-1" waiting
      (human_approve run_platform pipeline "req-1" "ana" waiting).0
      (human_approve run_platform pipeline "req-1" "ana" waiting).1
human_approve-Approval_example = human_approve-Approval run_platform pipeline "req-1" "ana" waiting

human_deny_spares_example :
    ((human_deny run_platform pipeline "req-1" "ana" waiting).1.world ≡ waiting.world)
    × Withholds (human_deny run_platform pipeline "req-1" "ana" waiting).0
human_deny_spares_example = human_deny_spares run_platform pipeline "req-1" "ana" waiting

abbrev after_approval : RuntimeState
after_approval = (human_approve run_platform pipeline "req-1" "ana" waiting).1

abbrev later : RuntimeState
later =
    (human_deny run_platform pipeline "req-1" "eva"
      (propose run_platform pipeline request_dict after_approval).1).1

abbrev granted : Decision
granted =
    record (signed_by "ana" "APPROVE" "sig"
      (plain allow (request_payload request) sha ("COHERENCE_GATE_SATISFIED" ∷ []) (some sha))) {
        capability_id = some sha;
        executed = true;
        output_digest = some (Value.str sha);
      }

approves : (human_approve run_platform pipeline "req-1" "ana" waiting).0 ≡ ok granted
unfolding human_approve gate approve proposal decision_state decisions newest_first as_request
    record_human sign_human sign_with now record_flight flight_append flight_prepare
    flight_verify_integrity flight_scan flight_scan_lines flight_scan_line flight_check_record
    flight_load_checkpoint flight_make_record flight_write_record flight_make_checkpoint
    store_human_action execute_approved issue_and_execute_human use_human_capability report_human
    save_decision save_decision_at store_decision insert_decision upsert execute authorize proceed
    with_id conclude commit perform finish complete run_action request_content recheck_epoch verify
    consume_payload consume_nonce check_envelope parse_canonical canonicalize normalize
    normalize_items normalize_fields validate validate_items validate_fields enter hooks hooks_items
    hooks_fields pairs get put_last without has_exactly raw raw_items raw_fields digest key_id
    b64u_encode b64u_decode crypto_verify verify_value validate_payload check_texts require_key
    require_string is_hex_of check_scope check_saxp check_binding check_window check_epoch
    current_epoch stored_epoch decode_epoch check_document integrity_check request_digest ◌-ℤ◌ ◌+ℤ◌
    verify_integrity load_checkpoint check_checkpoint scan scan_lines scan_line check_record lines
    strip_newline append make_record prepare write_record make_checkpoint sign create_bound
    create_file write_all check_create open_parent parts parts_of node_at put_node leads take drop
    issue validate_request is_identifier evaluate verdict validate_context blocking_reasons
    pending_reasons sorted mint bind_resource bind_resource_dispatch content_parameter bind_absent
approves = refl

human_approve_once_example :
    ((human_approve run_platform pipeline "req-1" "leo" later).1.world ≡ later.world)
    × Withholds (human_approve run_platform pipeline "req-1" "leo" later).0
human_approve_once_example =
    human_approve_once run_platform pipeline pipeline "req-1" "ana" "leo" waiting later granted
      approves refl
      (then_ (proposed pipeline request_dict after_approval) (
        then_
          (denial pipeline "req-1" "eva"
            (propose run_platform pipeline request_dict after_approval).1)
          here))

abbrev bundle : Bundle run_platform
bundle = record { audit = ledger; failures = ledger; flight = new_recorder; state = state }

healthy : doctor run_platform true (ok bundle) ≡ true
unfolding doctor doctor_findings verify_integrity load_checkpoint check_checkpoint scan scan_lines
    lines strip_newline flight_verify_integrity flight_scan flight_scan_lines flight_load_checkpoint
    integrity_check parse_canonical canonicalize normalize normalize_items normalize_fields validate
    validate_items validate_fields enter hooks hooks_items hooks_fields pairs get put_last without
    has_exactly raw raw_items raw_fields key_id b64u_encode b64u_decode crypto_verify verify_value
healthy = refl

doctor-IsHealthy_example :
    (b : Bundle run_platform) × (true ≡ true)
    × (ok bundle ≡ ok b)
    × ((a : ℕ × String) × (verify_integrity run_platform b.audit ≡ ok a))
    × ((f : ℕ × String) × (verify_integrity run_platform b.failures ≡ ok f))
    × ((r : ℕ × String) × (flight_verify_integrity run_platform b.flight ≡ ok r))
    × ((u : Unit {0}) × (integrity_check b.state ≡ ok u))
doctor-IsHealthy_example = doctor-IsHealthy run_platform true (ok bundle) healthy
