-- ===== src/Authority.antt =====
-- src/mgk/authority.py: capability issuance. Sets of names are lists here, since the code only tests
-- membership; the clock, the nonce (`secrets.token_hex(16)`) and the context provider are arguments.
pub mod Payload
pub mod Issuance
use Prim.Native.String.{String}
use mgk_governance_kernel.Prelude.{starts_with}
use mgk_governance_kernel.Prelude.{
  ℕ, Bool, true, false, ◌&&◌, ◌||◌, not, Option, none, some, List, [], ◌∷◌, ◌==◌, leb, ltb, str_eq,
  codes, length, all, any, member, is_empty, if◌then◌else◌,
}
use mgk_governance_kernel.Prelude.Int.{ℤ, pos, ◌+ℤ◌, leb_ℤ}
use mgk_governance_kernel.Errors.{
  Error, Result, ok, err, schema, authorization_denied, resource, os_error, value_error, ◌>>=◌,
  ◌>>◌, raise_if,
}
use mgk_governance_kernel.Json.{Value, Fields, put_last, has_exactly}
use mgk_governance_kernel.Json.Access.{index, text}
use mgk_governance_kernel.Platform.{Bytes, Platform}
use mgk_governance_kernel.Canonical.{canonicalize, digest}
use mgk_governance_kernel.Crypto.{capability_domain, key_id, sign, b64u_decode}
use mgk_governance_kernel.Models.{
  ActionRequest, SaxpContext, SaxpDecision, IssueResult, request_digest, decision_payload,
}
use mgk_governance_kernel.Saxp.{SaxpEvaluator, evaluate}
use mgk_governance_kernel.State.{SecurityState, current_epoch}
use mgk_governance_kernel.Resource.{
  max_resource_bytes, bind_present, bind_absent, bind_write, bind_append,
}
use mgk_governance_kernel.Resource.Files.{FileSystem}

abbrev is_alphanumeric : ℕ → Bool
is_alphanumeric c =
    (leb b'A' c && leb c b'Z') || ((leb b'a' c && leb c b'z') || (leb b'0' c && leb c b'9'))

abbrev is_identifier_char : ℕ → Bool
is_identifier_char c =
    is_alphanumeric c || any (λ d. d == c) (b'.' ∷ b'_' ∷ b':' ∷ b'@' ∷ b'/' ∷ b'-' ∷ [])

-- `_IDENTIFIER.fullmatch`: one letter or digit, then at most 127 of the class.
abbrev matches_identifier : List ℕ → Bool
matches_identifier [] = false
matches_identifier (c ∷ cs) = is_alphanumeric c && all is_identifier_char cs && leb (length cs) 127

unfoldable pub is_identifier : String → Bool
is_identifier s = matches_identifier (codes s)

abbrev pub sandbox_actions : List String
sandbox_actions =
    "sandbox.read_file" ∷ "sandbox.write_file" ∷ "sandbox.append_file" ∷ "sandbox.create_record"
    ∷ "sandbox.read_record" ∷ []

pub record AuthorityPolicy : Type 0 where
  pub policy_id : String
  pub allowed_actions : List String
  pub allowed_principals : List String
  pub allowed_audiences : List String
  pub allowed_resource_prefixes : List String
  pub default_ttl_seconds : ℤ
  pub maximum_ttl_seconds : ℤ

-- The defaults of the dataclass.
abbrev pub default_policy : AuthorityPolicy
default_policy = record {
  policy_id = "mgk-authority-v1";
  allowed_actions = "resource.read" ∷ "resource.create" ∷ [];
  allowed_principals = "planner" ∷ [];
  allowed_audiences = "executor" ∷ [];
  allowed_resource_prefixes = "workspace/" ∷ [];
  default_ttl_seconds = pos 60;
  maximum_ttl_seconds = pos 300;
}

-- `AuthorityPolicy.validate`.
unfoldable pub validate_policy : AuthorityPolicy → Result (Unit {0})
validate_policy q = do
  raise_if (str_eq q.policy_id "" || is_empty q.allowed_actions) value_error
  raise_if (is_empty q.allowed_principals || is_empty q.allowed_audiences) value_error
  raise_if (is_empty q.allowed_resource_prefixes) value_error
  raise_if
      (not (
        leb_ℤ (pos 1) q.default_ttl_seconds
        && (leb_ℤ q.default_ttl_seconds q.maximum_ttl_seconds
            && leb_ℤ q.maximum_ttl_seconds (pos 3600))))
      value_error

pub record CapabilityAuthority : Type 0 where
  pub issuer : String
  pub private_key : Bytes
  pub saxp : SaxpEvaluator
  pub policy : AuthorityPolicy
  pub context_provider : ActionRequest → SaxpContext

-- The tests of `CapabilityAuthority.__init__`.
unfoldable pub make_authority : CapabilityAuthority → Result CapabilityAuthority
unfolding validate_policy
make_authority a = do
  raise_if (not (is_identifier a.issuer)) value_error
  validate_policy a.policy
  ok a

-- `any(resource.startswith(prefix) for prefix in prefixes)`.
abbrev pub has_prefix : String → List String → Bool
has_prefix s prefixes = any (λ (q : String). starts_with s q) prefixes

-- `except OSError as exc: raise ResourceError`.
abbrev pub os_to_resource {ℓ} : {A : Type ℓ} → Result A → Result A
os_to_resource (ok a) = ok a
os_to_resource (err os_error) = err resource
os_to_resource (err e) = err e

module _ (p : Platform) where
  -- The four identifiers, the digest of the request, and the policy.
  unfoldable pub validate_request : CapabilityAuthority → ActionRequest → Result (Unit {0})
  validate_request a r = do
    raise_if
        (not (
          is_identifier r.request_id
          && (is_identifier r.principal && (is_identifier r.audience && is_identifier r.action))))
        schema
    request_sha ← request_digest p r
    raise_if (not (member r.action a.policy.allowed_actions)) authorization_denied
    raise_if (not (member r.principal a.policy.allowed_principals)) authorization_denied
    raise_if (not (member r.audience a.policy.allowed_audiences)) authorization_denied
    raise_if (not (has_prefix r.resource a.policy.allowed_resource_prefixes)) authorization_denied

  -- `set(parameters) != {"content_b64"} or type(…) is not str`, and the decoded content.
  unfoldable pub content_parameter : Fields → Result Bytes
  content_parameter parameters = do
    raise_if (not (has_exactly ("content_b64" ∷ []) parameters)) schema
    value ← index parameters "content_b64"
    content_b64 ← text schema value
    b64u_decode p content_b64 none

  abbrev pub is_end : Fields → Bool
  is_end Fields.end = true
  is_end (Fields.field k v fs) = false

  abbrev bind_read : ActionRequest → FileSystem → Result Fields
  bind_read r fs = raise_if (not (is_end r.parameters)) schema >> bind_present p r.resource fs

  -- `resource.create` and `sandbox.create_record`; the first one alone tests the size here.
  abbrev bind_create : Bool → ActionRequest → FileSystem → Result Fields
  bind_create sized r fs = content_parameter r.parameters >>= λ contents.
      raise_if (sized && ltb max_resource_bytes (length contents)) schema
      >> bind_absent p r.resource (p.sha256 contents) (length contents) fs

  unfoldable pub bind_resource_dispatch : ActionRequest → FileSystem → Result Fields
  bind_resource_dispatch r fs =
      if str_eq r.action "resource.read"
      then bind_read r fs
      else if str_eq r.action "resource.create"
      then bind_create true r fs
      else if str_eq r.action "sandbox.read_file" || str_eq r.action "sandbox.read_record"
      then bind_read r fs
      else if str_eq r.action "sandbox.write_file"
      then (content_parameter r.parameters >>= λ contents. bind_write p r.resource contents fs)
      else if str_eq r.action "sandbox.append_file"
      then (content_parameter r.parameters >>= λ contents. bind_append p r.resource contents fs)
      else if str_eq r.action "sandbox.create_record"
      then bind_create false r fs
      else err authorization_denied

  unfoldable pub bind_resource : ActionRequest → FileSystem → Result Fields
  bind_resource r fs = os_to_resource (bind_resource_dispatch r fs)

  -- The members of the capability payload but its identifier.
  abbrev pub base_payload :
      CapabilityAuthority
      → ActionRequest
      → SaxpDecision
      → Fields
      → ℤ
      → ℤ
      → ℤ
      → String
      → String
      → Fields
  base_payload a r decision binding now ttl epoch nonce request_sha =
      Fields.field "audience" (Value.str r.audience) (
        Fields.field "authorization_epoch" (Value.int epoch) (
          Fields.field "expires_at" (Value.int (now +ℤ ttl)) (
            Fields.field "issued_at" (Value.int now) (
              Fields.field "issuer" (Value.str a.issuer) (
                Fields.field "nonce" (Value.str nonce) (
                  Fields.field "request_digest" (Value.str request_sha) (
                    Fields.field "resource_binding" (Value.obj binding) (
                      Fields.field "saxp" (decision_payload decision) (
                        Fields.field "schema" (Value.str "mgk-capability/v1") (
                          Fields.field "scope"
                            (Value.obj (
                              Fields.field "action" (Value.str r.action)
                                (Fields.field "resource" (Value.str r.resource) Fields.end)))
                            (Fields.field "subject" (Value.str r.principal) Fields.end)))))))))))

  abbrev pub envelope_value : CapabilityAuthority → Fields → Bytes → Value
  envelope_value a payload payload_bytes = Value.obj (
      Fields.field "algorithm" (Value.str "Ed25519") (
        Fields.field "key_id" (Value.str (key_id p (p.public_of a.private_key))) (
          Fields.field "payload" (Value.obj payload) (
            Fields.field "signature"
              (Value.str (sign p a.private_key capability_domain payload_bytes)) Fields.end))))

  -- `self.policy.default_ttl_seconds if ttl_seconds is None else ttl_seconds`, and its bounds.
  abbrev pub chosen_ttl : AuthorityPolicy → Option ℤ → ℤ
  chosen_ttl q none = q.default_ttl_seconds
  chosen_ttl q (some ttl) = ttl

  abbrev pub chosen_context : CapabilityAuthority → ActionRequest → Option SaxpContext → SaxpContext
  chosen_context a r none = a.context_provider r
  chosen_context a r (some context) = context

  -- `issue` once the decision is TEN_XEITO.
  unfoldable pub mint :
      CapabilityAuthority
      → ActionRequest
      → SaxpDecision
      → ℤ
      → ℤ
      → String
      → SecurityState
      → FileSystem
      → Result IssueResult
  mint a r decision ttl now nonce s fs = do
    raise_if (not (leb_ℤ (pos 1) ttl && leb_ℤ ttl a.policy.maximum_ttl_seconds))
        authorization_denied
    binding ← bind_resource r fs
    epoch ← current_epoch p s
    request_sha ← request_digest p r
    let base = base_payload a r decision binding now ttl epoch nonce request_sha
    capability_id ← digest p (Value.obj base)
    let payload = put_last "capability_id" (Value.str capability_id) base
    payload_bytes ← canonicalize p (Value.obj payload)
    envelope ← canonicalize p (envelope_value a payload payload_bytes)
    ok (record {
      envelope = some envelope;
      decision = decision;
      capability_id = some capability_id;
    })

  -- `CapabilityAuthority.issue`, at the time `now` and with the nonce that was drawn.
  unfoldable pub issue :
      CapabilityAuthority
      → ActionRequest
      → Option ℤ
      → Option SaxpContext
      → ℤ
      → String
      → SecurityState
      → FileSystem
      → Result IssueResult
  issue a r ttl_seconds context now nonce s fs = do
    validate_request a r
    decision ← evaluate p a.saxp r (chosen_context a r context)
    if str_eq decision.result "TEN_XEITO"
        then mint a r decision (chosen_ttl a.policy ttl_seconds) now nonce s fs
        else ok (record { envelope = none; decision = decision; capability_id = none })
