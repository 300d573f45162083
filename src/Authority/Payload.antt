-- ===== src/Authority/Payload.antt =====
-- What stands in a capability that `issue` of src/mgk/authority.py makes, member by member.
use mgk_governance_kernel.Prelude.{◌≡◌, refl, ap, true, some, String, [], ◌∷◌}
use mgk_governance_kernel.Prelude.Int.{ℤ, ◌+ℤ◌}
use mgk_governance_kernel.Errors.{ok}
use mgk_governance_kernel.Json.{Value, Fields, get, put_last, without, has_exactly}
use mgk_governance_kernel.Platform.{Bytes, Platform}
use mgk_governance_kernel.Canonical.{canonicalize, digest}
use mgk_governance_kernel.Crypto.{capability_domain, key_id, sign}
use mgk_governance_kernel.Models.{ActionRequest, SaxpDecision}
use mgk_governance_kernel.Authority.{CapabilityAuthority, base_payload, envelope_value}

-- The payload is for the request, issued at `now` for `ttl` seconds in the given epoch, and carries the
-- binding, the nonce, the digest of the request and a decision that grants.
pub record IsPayload (a : CapabilityAuthority) (r : ActionRequest) (d : SaxpDecision)
    (now ttl epoch : ℤ) (nonce request_sha : String) (binding : Fields) (payload : Fields)
    : Type 0 where
  pub inner : Fields
  pub saxp : Fields
  pub exact :
      has_exactly
        ("audience" ∷ "authorization_epoch" ∷ "capability_id" ∷ "expires_at" ∷ "issued_at"
          ∷ "issuer" ∷ "nonce" ∷ "request_digest" ∷ "resource_binding" ∷ "saxp" ∷ "schema" ∷ "scope"
          ∷ "subject" ∷ [])
        payload
      ≡ true
  pub tagged : get "schema" payload ≡ some (Value.str "mgk-capability/v1")
  pub issuer : get "issuer" payload ≡ some (Value.str a.issuer)
  pub issued_at : get "issued_at" payload ≡ some (Value.int now)
  pub expires_at : get "expires_at" payload ≡ some (Value.int (now +ℤ ttl))
  pub has_epoch : get "authorization_epoch" payload ≡ some (Value.int epoch)
  pub has_nonce : get "nonce" payload ≡ some (Value.str nonce)
  pub for_request : get "request_digest" payload ≡ some (Value.str request_sha)
  pub has_binding : get "resource_binding" payload ≡ some (Value.obj binding)
  pub subject : get "subject" payload ≡ some (Value.str r.principal)
  pub audience : get "audience" payload ≡ some (Value.str r.audience)
  pub has_scope : get "scope" payload ≡ some (Value.obj inner)
  pub action : get "action" inner ≡ some (Value.str r.action)
  pub resource : get "resource" inner ≡ some (Value.str r.resource)
  pub has_saxp : get "saxp" payload ≡ some (Value.obj saxp)
  pub result : get "result" saxp ≡ some (Value.str "TEN_XEITO")
  pub of_request : get "request_digest" saxp ≡ some (Value.str d.request_digest)
  pub of_context : get "context_digest" saxp ≡ some (Value.str d.context_digest)
  pub of_policy : get "policy_id" saxp ≡ some (Value.str d.policy_id)

module _ (p : Platform) where
  -- The envelope is the canonical form of the payload with its identifier, which is the digest of the
  -- other members, and the authority's signature over the canonical bytes of the payload.
  pub record IsEnvelope (a : CapabilityAuthority) (payload : Fields) (capability_id : String)
      (envelope : Bytes) : Type 0 where
    pub fields : Fields
    pub payload_bytes : Bytes
    pub has_id : get "capability_id" payload ≡ some (Value.str capability_id)
    pub identified : digest p (Value.obj (without "capability_id" payload)) ≡ ok capability_id
    pub exact : has_exactly ("algorithm" ∷ "key_id" ∷ "payload" ∷ "signature" ∷ []) fields ≡ true
    pub algorithm : get "algorithm" fields ≡ some (Value.str "Ed25519")
    pub signer : get "key_id" fields ≡ some (Value.str (key_id p (p.public_of a.private_key)))
    pub has_payload : get "payload" fields ≡ some (Value.obj payload)
    pub to_sign : canonicalize p (Value.obj payload) ≡ ok payload_bytes
    pub signature :
        get "signature" fields
        ≡ some (Value.str (sign p a.private_key capability_domain payload_bytes))
    pub canonical : canonicalize p (Value.obj fields) ≡ ok envelope

  pub base_payload-IsPayload :
      (a : CapabilityAuthority) (r : ActionRequest) (d : SaxpDecision) (now ttl epoch : ℤ)
      (nonce request_sha capability_id : String) (binding : Fields)
      → d.result ≡ "TEN_XEITO"
      → IsPayload a r d now ttl epoch nonce request_sha binding (
          put_last "capability_id"
            (Value.str capability_id)
            (base_payload p a r d binding now ttl epoch nonce request_sha))
  unfolding get put_last has_exactly
  base_payload-IsPayload a r d now ttl epoch nonce request_sha capability_id binding granted =
      record {
        inner = _;
        saxp = _;
        exact = refl;
        tagged = refl;
        issuer = refl;
        issued_at = refl;
        expires_at = refl;
        has_epoch = refl;
        has_nonce = refl;
        for_request = refl;
        has_binding = refl;
        subject = refl;
        audience = refl;
        has_scope = refl;
        action = refl;
        resource = refl;
        has_saxp = refl;
        of_request = refl;
        of_context = refl;
        of_policy = refl;
        result = ap (λ (x : String). some (Value.str x)) granted;
      }

  pub envelope_value-IsEnvelope :
      (a : CapabilityAuthority) (r : ActionRequest) (d : SaxpDecision) (now ttl epoch : ℤ)
      (nonce request_sha capability_id : String) (binding : Fields) (bytes envelope : Bytes)
      → digest p (Value.obj (base_payload p a r d binding now ttl epoch nonce request_sha))
        ≡ ok capability_id
      → canonicalize p (
          Value.obj (
            put_last "capability_id"
              (Value.str capability_id)
              (base_payload p a r d binding now ttl epoch nonce request_sha)))
        ≡ ok bytes
      → canonicalize p (
          envelope_value p a
            (put_last "capability_id"
              (Value.str capability_id)
              (base_payload p a r d binding now ttl epoch nonce request_sha))
            bytes)
        ≡ ok envelope
      → IsEnvelope a
          (put_last "capability_id"
            (Value.str capability_id)
            (base_payload p a r d binding now ttl epoch nonce request_sha))
          capability_id
          envelope
  unfolding get put_last without has_exactly
  envelope_value-IsEnvelope a r d now ttl epoch nonce request_sha capability_id binding bytes
        envelope identified encoded signed =
      record {
        fields = _;
        payload_bytes = bytes;
        has_id = refl;
        identified = identified;
        exact = refl;
        algorithm = refl;
        signer = refl;
        has_payload = refl;
        to_sign = encoded;
        signature = refl;
        canonical = signed;
      }
