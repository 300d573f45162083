-- ===== src/Authority/Issuance.antt =====
-- When `issue` of src/mgk/authority.py gives a capability, and what the capability says.
use mgk_governance_kernel.Prelude.{
  ◌≡◌, refl, sym, ◌∙◌, ap, Bool, true, false, not, ◌&&◌, Option, some, none, String, str_eq, eq_iff,
  arith, ◌⊎◌, inl, inr, member, if◌then◌else◌,
}
use mgk_governance_kernel.Prelude.Int.{ℤ, pos, ◌≤ℤ◌, leb_ℤ}
use mgk_governance_kernel.Errors.{
  ok, schema, authorization_denied, ok_inj, bind_ok, guard_ok, raise_if-eq-ok,
}
use mgk_governance_kernel.Json.{Value, Fields, put_last}
use mgk_governance_kernel.Platform.{Bytes, Platform}
use mgk_governance_kernel.Canonical.{canonicalize, digest}
use mgk_governance_kernel.Models.{
  ActionRequest, SaxpContext, SaxpDecision, IssueResult, request_digest, context_payload,
}
use mgk_governance_kernel.Saxp.{
  SaxpResult, ten_xeito, require_xeito, non_ten_xeito, value_of, verdict, validate_context,
  evaluate,
}
use mgk_governance_kernel.Saxp.Gates.{IsAdmissible, IsSettled, verdict_exact}
use mgk_governance_kernel.State.{SecurityState, current_epoch}
use mgk_governance_kernel.Resource.Files.{FileSystem}
use mgk_governance_kernel.Authority.Payload.{
  IsPayload, IsEnvelope, base_payload-IsPayload, envelope_value-IsEnvelope,
}
use mgk_governance_kernel.Authority.{
  CapabilityAuthority, is_identifier, has_prefix, validate_request, bind_resource, base_payload,
  envelope_value, chosen_ttl, chosen_context, mint, issue,
}

value_of-ten_xeito : (r : SaxpResult) → str_eq (value_of r) "TEN_XEITO" ≡ true → r ≡ ten_xeito
value_of-ten_xeito ten_xeito h = refl
value_of-ten_xeito require_xeito h = cc
value_of-ten_xeito non_ten_xeito h = cc

module _ (p : Platform) (a : CapabilityAuthority) (r : ActionRequest) where
  abbrev are_identifiers : Bool
  are_identifiers =
      is_identifier r.request_id
      && (is_identifier r.principal && (is_identifier r.audience && is_identifier r.action))

  -- The request lies inside the policy of the authority.
  pub record IsPermitted : Type 0 where
    pub named : are_identifiers ≡ true
    pub action : member r.action a.policy.allowed_actions ≡ true
    pub principal : member r.principal a.policy.allowed_principals ≡ true
    pub audience : member r.audience a.policy.allowed_audiences ≡ true
    pub prefixed : has_prefix r.resource a.policy.allowed_resource_prefixes ≡ true

  -- A capability: the gates have passed, the time to live is in the bounds of the policy, the payload
  -- says what was decided, with the binding of the resource as it is and the epoch of the security state,
  -- and the envelope is the payload, identified and signed.
  pub record IsCapability (ttl : ℤ) (c : SaxpContext) (now : ℤ) (nonce : String) (s : SecurityState)
      (fs : FileSystem) (decision : SaxpDecision) (envelope : Bytes) (capability_id : String)
      : Type 0 where
    pub admissible : IsAdmissible c
    pub settled : IsSettled a.saxp c
    pub positive : pos 1 ≤ℤ ttl
    pub bounded : ttl ≤ℤ a.policy.maximum_ttl_seconds
    pub binding : Fields
    pub epoch : ℤ
    pub request_sha : String
    pub payload : Fields
    pub bound : bind_resource p r fs ≡ ok binding
    pub current : current_epoch p s ≡ ok epoch
    pub hashed : request_digest p r ≡ ok request_sha
    pub says : IsPayload a r decision now ttl epoch nonce request_sha binding payload
    pub sealed : IsEnvelope p a payload capability_id envelope

  validate_request-ok : validate_request p a r ≡ ok tt → IsPermitted
  unfolding validate_request
  validate_request-ok h = guard_ok (not are_identifiers) schema _ h λ named h1.
      bind_ok (request_digest p r) _ h1 λ sha hashed h2.
        guard_ok (not (member r.action a.policy.allowed_actions)) authorization_denied _ h2
          λ action h3.
            guard_ok (not (member r.principal a.policy.allowed_principals)) authorization_denied _
              h3
              λ principal h4.
                guard_ok (not (member r.audience a.policy.allowed_audiences)) authorization_denied _
                  h4
                  λ audience h5.
                    let prefixed =
                      raise_if-eq-ok
                        (not (has_prefix r.resource a.policy.allowed_resource_prefixes))
                        authorization_denied h5 in
                    record {
                      named = ground (arith, named);
                      action = ground (arith, action);
                      principal = ground (arith, principal);
                      audience = ground (arith, audience);
                      prefixed = ground (arith, prefixed);
                    }

  evaluate-result :
      (c : SaxpContext) (d : SaxpDecision)
      → evaluate p a.saxp r c ≡ ok d
      → d.result ≡ value_of (verdict a.saxp c).0
  unfolding evaluate
  evaluate-result c d h = bind_ok (validate_context c) _ h λ _ _ h1.
      bind_ok (request_digest p r) _ h1 λ _ _ h2.
        bind_ok (digest p (context_payload c)) _ h2
          λ _ _ h3. ap (λ (x : SaxpDecision). x.result) (sym (ok_inj h3))

  granted-gates :
      (c : SaxpContext) (d : SaxpDecision)
      → evaluate p a.saxp r c ≡ ok d
      → str_eq d.result "TEN_XEITO" ≡ true
      → IsAdmissible c × IsSettled a.saxp c
  granted-gates c d h granted =
      let same = ap (λ (x : String). str_eq x "TEN_XEITO") (sym (evaluate-result c d h)) in
      (verdict_exact a.saxp c).0.0 (value_of-ten_xeito (verdict a.saxp c).0 (same ∙ granted))

  refused-gates :
      (c : SaxpContext) (d : SaxpDecision)
      → evaluate p a.saxp r c ≡ ok d
      → str_eq d.result "TEN_XEITO" ≡ false
      → ¬ (IsAdmissible c × IsSettled a.saxp c)
  refused-gates c d h refused gates =
      let result = evaluate-result c d h ∙ ap value_of ((verdict_exact a.saxp c).0.1 gates) in
      let same : str_eq d.result "TEN_XEITO" ≡ true =
        ap (λ (x : String). str_eq x "TEN_XEITO") result in
      cc

  -- A result without a capability.
  abbrev refused : SaxpDecision → IssueResult
  refused d = record { envelope = none; decision = d; capability_id = none }

  abbrev granted : SaxpDecision → Bytes → String → IssueResult
  granted d envelope capability_id = record {
    envelope = some envelope;
    decision = d;
    capability_id = some capability_id;
  }

  mint-IsCapability :
      (d : SaxpDecision) (ttl : ℤ) (c : SaxpContext) (now : ℤ) (nonce : String) (s : SecurityState)
      (fs : FileSystem) (res : IssueResult)
      → IsAdmissible c × IsSettled a.saxp c
      → d.result ≡ "TEN_XEITO"
      → mint p a r d ttl now nonce s fs ≡ ok res
      → (envelope : Bytes) × (capability_id : String) × (res ≡ granted d envelope capability_id)
        × IsCapability ttl c now nonce s fs d envelope capability_id
  unfolding mint
  mint-IsCapability d ttl c now nonce s fs res (admissible, settled) result h =
      guard_ok (not (leb_ℤ (pos 1) ttl && leb_ℤ ttl a.policy.maximum_ttl_seconds))
        authorization_denied _ h
        λ short h1. bind_ok (bind_resource p r fs) _ h1 λ binding bound h2.
          bind_ok (current_epoch p s) _ h2 λ epoch current h3.
            bind_ok (request_digest p r) _ h3 λ sha hashed h4.
              bind_ok (digest p (Value.obj (base_payload p a r d binding now ttl epoch nonce sha)))
                _ h4
                λ id identified h5.
                  bind_ok
                    (canonicalize p (
                      Value.obj (
                        put_last "capability_id" (Value.str id)
                          (base_payload p a r d binding now ttl epoch nonce sha))))
                    _ h5
                    λ bytes canonical h6.
                      bind_ok
                        (canonicalize p (
                          envelope_value p a
                            (put_last "capability_id" (Value.str id)
                              (base_payload p a r d binding now ttl epoch nonce sha))
                            bytes))
                        _ h6
                        λ envelope signed h7. (
                          envelope,
                          id,
                          sym (ok_inj h7),
                          record {
                            admissible = admissible;
                            settled = settled;
                            positive = ground (arith, short);
                            bounded = ground (arith, short);
                            binding = binding;
                            epoch = epoch;
                            request_sha = sha;
                            payload =
                                put_last "capability_id" (Value.str id)
                                  (base_payload p a r d binding now ttl epoch nonce sha);
                            bound = bound;
                            current = current;
                            hashed = hashed;
                            says =
                                base_payload-IsPayload p a r d now ttl epoch nonce sha id binding
                                  result;
                            sealed =
                                envelope_value-IsEnvelope p a r d now ttl epoch nonce sha id binding
                                  bytes envelope identified canonical signed;
                          },
                        )

  decided :
      (t : Bool) (d : SaxpDecision) (ttl : ℤ) (c : SaxpContext) (now : ℤ) (nonce : String)
      (s : SecurityState) (fs : FileSystem) (res : IssueResult)
      → str_eq d.result "TEN_XEITO" ≡ t
      → (t ≡ true → IsAdmissible c × IsSettled a.saxp c)
      → (t ≡ false → ¬ (IsAdmissible c × IsSettled a.saxp c))
      → (if t then mint p a r d ttl now nonce s fs else ok (refused d)) ≡ ok res
      → ((res ≡ refused d) × ¬ (IsAdmissible c × IsSettled a.saxp c))
        ⊎ ((envelope : Bytes) × (capability_id : String) × (res ≡ granted d envelope capability_id)
            × IsCapability ttl c now nonce s fs d envelope capability_id)
  decided true d ttl c now nonce s fs res e gates fails h = inr (
      mint-IsCapability d ttl c now nonce s fs res (gates refl) ((eq_iff d.result "TEN_XEITO").0 e)
        h)
  decided false d ttl c now nonce s fs res e gates fails h = inl (sym (ok_inj h), fails refl)

  -- If `issue` returns, the request lies inside the policy, and the result has either neither an envelope
  -- nor an identifier, where one of the seven gates of the evaluation of the context fails, or both those
  -- of a capability: all seven gates have passed, and the time to live is at least 1 and at most the
  -- maximum of the policy. Its payload has exactly the members of a capability: the issuer, the time of
  -- issue, that time plus the time to live as the end, the current epoch of the security state, the nonce,
  -- the digest, principal, audience, action and resource of the request, the binding of the resource as
  -- it is, and as evidence the result TEN_XEITO, the digests and the policy of the decision. Its identifier is the digest of the other members, and
  -- the envelope is the canonical form of the payload with the signature of its canonical bytes.
  pub issue-ok :
      (ttl : Option ℤ) (context : Option SaxpContext) (now : ℤ) (nonce : String) (s : SecurityState)
      (fs : FileSystem) (res : IssueResult)
      → issue p a r ttl context now nonce s fs ≡ ok res
      → IsPermitted
        × ((d : SaxpDecision) × (evaluate p a.saxp r (chosen_context p a r context) ≡ ok d)
            × (((res ≡ refused d)
                  × ¬ (
                      IsAdmissible (chosen_context p a r context)
                      × IsSettled a.saxp (chosen_context p a r context)))
                ⊎ ((envelope : Bytes) × (capability_id : String) × (res
                      ≡ granted d envelope capability_id)
                    × IsCapability
                        (chosen_ttl p a.policy ttl)
                        (chosen_context p a r context)
                        now
                        nonce
                        s
                        fs
                        d
                        envelope
                        capability_id)))
  unfolding issue
  issue-ok ttl context now nonce s fs res h = bind_ok (validate_request p a r) _ h λ _ permitted h1.
      bind_ok (evaluate p a.saxp r (chosen_context p a r context)) _ h1 λ d evaluated h2. (
        validate_request-ok permitted,
        (
          d,
          evaluated,
          decided (str_eq d.result "TEN_XEITO") d (chosen_ttl p a.policy ttl)
              (chosen_context p a r context) now nonce s fs res refl
              (granted-gates (chosen_context p a r context) d evaluated)
              (refused-gates (chosen_context p a r context) d evaluated) h2,
        ),
      )
