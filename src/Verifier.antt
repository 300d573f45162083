-- ===== src/Verifier.antt =====
-- src/mgk/verifier.py: fail-closed verification of a capability, and the consumption of its nonce.
pub mod Bound
pub mod Soundness
pub mod Spending
use mgk_governance_kernel.Prelude.{
  ℕ, ◌+◌, ◌≡◌, Bool, true, false, ◌&&◌, ◌||◌, not, Option, none, some, List, [], ◌∷◌, String, ◌==◌,
  leb, ltb, str_eq, codes, length, all, if◌then◌else◌, member,
}
use Prim.Native.String.{len}
use mgk_governance_kernel.Prelude.Int.{ℤ, pos, ◌+ℤ◌, ◌-ℤ◌, leb_ℤ, ltb_ℤ, eqb_ℤ}
use mgk_governance_kernel.Errors.{
  Result, ok, err, schema, scope, time_window, epoch, ◌>>=◌, ◌>>◌, raise_if, or_raise,
}
use mgk_governance_kernel.Json.{Value, Items, Fields, get, without, has_exactly, is_str}
use mgk_governance_kernel.Bindings.{
  is_hex_of, present_keys, absent_keys, write_keys, append_keys, at_is, is_binding, in_states,
}
use mgk_governance_kernel.Json.Access.{members, index, integer, text}
use mgk_governance_kernel.Platform.{Bytes, Platform}
use mgk_governance_kernel.Canonical.{canonicalize, parse_canonical, digest}
use mgk_governance_kernel.Crypto.{capability_domain, key_id, verify_value}
use mgk_governance_kernel.Models.{ActionRequest, request_digest}
use mgk_governance_kernel.State.{SecurityState, current_epoch, consume_nonce}

pub record CapabilityVerifier : Type 0 where
  pub public_key : Bytes
  pub maximum_ttl_seconds : ℤ
  pub clock_skew_seconds : ℤ

abbrev pub payload_keys : List String
payload_keys =
    "audience" ∷ "authorization_epoch" ∷ "capability_id" ∷ "expires_at" ∷ "issued_at" ∷ "issuer"
    ∷ "nonce" ∷ "request_digest" ∷ "resource_binding" ∷ "saxp" ∷ "schema" ∷ "scope" ∷ "subject" ∷ []

abbrev pub saxp_keys : List String
saxp_keys = "context_digest" ∷ "policy_id" ∷ "reason_codes" ∷ "request_digest" ∷ "result" ∷ []

-- `_require_string`; `len` counts the bytes of the UTF-8.
unfoldable pub require_string : Value → Result String
require_string v = do s ← text schema v; raise_if (str_eq s "" || ltb 4096 (len s)) schema; ok s

unfoldable pub require_key : Fields → String → Result String
unfolding require_string
require_key payload name = do v ← index payload name; require_string v

-- `type(saxp["reason_codes"]) is not list or not saxp["reason_codes"]`.
abbrev pub nonempty_list : Value → Bool
nonempty_list (Value.arr (Items.cons x xs)) = true
nonempty_list _ = false

abbrev pub read_actions : List String
read_actions = "resource.read" ∷ "sandbox.read_file" ∷ "sandbox.read_record" ∷ []

abbrev pub create_actions : List String
create_actions = "resource.create" ∷ "sandbox.create_record" ∷ []

-- The branches on the action in `_validate_payload`.
unfoldable pub check_binding : String → Fields → Result (Unit {0})
check_binding action b =
    if member action read_actions
    then raise_if (not (is_binding present_keys "present" b)) scope
    else if member action create_actions
    then raise_if (not (is_binding absent_keys "absent" b)) scope
    else if str_eq action "sandbox.write_file"
    then (raise_if (not (is_binding write_keys "write" b)) scope
        >> (index b "pre_state" >>= λ pre. in_states scope pre))
    else if str_eq action "sandbox.append_file"
    then raise_if (not (is_binding append_keys "append" b)) scope
    else err scope

-- The part of `_validate_payload` on the SAXP evidence.
unfoldable pub check_saxp : Value → String → Result (Unit {0})
check_saxp saxp_value request_sha = do
  saxp ← members schema saxp_value
  raise_if (not (has_exactly saxp_keys saxp)) schema
  raise_if (not (at_is saxp "result" "TEN_XEITO")) scope
  raise_if (not (at_is saxp "request_digest" request_sha)) scope
  reasons ← index saxp "reason_codes"
  raise_if (not (nonempty_list reasons)) schema

-- The part on the scope, the subject and the audience.
unfoldable pub check_scope : Fields → ActionRequest → Result (Unit {0})
check_scope payload request = do
  scope_value ← index payload "scope"
  scope_fields ← members scope scope_value
  raise_if (not (has_exactly ("action" ∷ "resource" ∷ []) scope_fields)) scope
  raise_if
      (not (
        at_is scope_fields "action" request.action
        && at_is scope_fields "resource" request.resource))
      scope
  raise_if
      (not (at_is payload "subject" request.principal && at_is payload "audience" request.audience))
      scope

-- The part on the texts of the payload.
unfoldable pub check_texts : Fields → Result String
check_texts payload = do
  issuer ← require_key payload "issuer"
  subject ← require_key payload "subject"
  audience ← require_key payload "audience"
  capability_id ← require_key payload "capability_id"
  request_sha ← require_key payload "request_digest"
  nonce ← require_key payload "nonce"
  raise_if (not (is_hex_of 32 nonce)) schema
  raise_if (not (is_hex_of 64 capability_id && is_hex_of 64 request_sha)) schema
  ok capability_id

-- `self.state.consume_nonce(payload["nonce"], payload["capability_id"], now)`.
unfoldable pub consume_payload : ℤ → Fields → SecurityState → Result SecurityState
consume_payload now payload s = do
  nonce_value ← index payload "nonce"
  nonce ← text schema nonce_value
  id_value ← index payload "capability_id"
  capability_id ← text schema id_value
  consume_nonce nonce capability_id now s

module _ (p : Platform) where
  unfoldable pub validate_payload : Value → ActionRequest → Result Fields
  validate_payload value request = do
    payload ← members schema value
    raise_if (not (has_exactly payload_keys payload)) schema
    raise_if (not (at_is payload "schema" "mgk-capability/v1")) schema
    capability_id ← check_texts payload
    expected ← digest p (Value.obj (without "capability_id" payload))
    raise_if (not (str_eq expected capability_id)) schema
    check_scope payload request
    request_sha ← request_digest p request
    raise_if (not (at_is payload "request_digest" request_sha)) scope
    saxp_value ← index payload "saxp"
    check_saxp saxp_value request_sha
    binding_value ← index payload "resource_binding"
    binding ← members scope binding_value
    raise_if (not (at_is binding "path" request.resource)) scope
    check_binding request.action binding
    ok payload

  -- The time window: `now` is what the clock says at the one call of `self.clock.now()`.
  unfoldable pub check_window : CapabilityVerifier → ℤ → Fields → Result (Unit {0})
  check_window v now payload = do
    issued_value ← index payload "issued_at"
    expires_value ← index payload "expires_at"
    issued_at ← integer time_window issued_value
    expires_at ← integer time_window expires_value
    raise_if (leb_ℤ expires_at issued_at || ltb_ℤ v.maximum_ttl_seconds (expires_at -ℤ issued_at))
        time_window
    raise_if (ltb_ℤ (now +ℤ v.clock_skew_seconds) issued_at || leb_ℤ expires_at now) time_window

  unfoldable pub check_epoch : SecurityState → Fields → Result (Unit {0})
  check_epoch s payload = do
    epoch_value ← index payload "authorization_epoch"
    number ← integer epoch epoch_value
    current ← current_epoch p s
    raise_if (not (eqb_ℤ number current)) epoch

  -- `verify` up to the consumption of the nonce: the payload that it returns.
  unfoldable pub check_envelope :
      CapabilityVerifier → ℤ → Bytes → ActionRequest → SecurityState → Result Fields
  check_envelope v now envelope_bytes request s = do
    envelope ← parse_canonical p envelope_bytes
    fields ← members schema envelope
    raise_if (not (has_exactly ("algorithm" ∷ "key_id" ∷ "payload" ∷ "signature" ∷ []) fields))
        schema
    raise_if
        (not (at_is fields "algorithm" "Ed25519" && at_is fields "key_id" (key_id p v.public_key)))
        schema
    payload_value ← index fields "payload"
    payload ← validate_payload payload_value request
    encoded ← canonicalize p (Value.obj payload)
    signature ← index fields "signature"
    verify_value p v.public_key capability_domain encoded signature
    check_window v now payload
    check_epoch s payload
    ok payload

  -- `CapabilityVerifier.verify`, with the state that it leaves.
  unfoldable pub verify :
      CapabilityVerifier
      → ℤ
      → Bytes
      → ActionRequest
      → Bool
      → SecurityState
      → Result (Fields × SecurityState)
  verify v now envelope_bytes request consume s = do
    payload ← check_envelope v now envelope_bytes request s
    if consume then (consume_payload now payload s >>= λ t. ok (payload, t)) else ok (payload, s)
