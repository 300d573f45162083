-- ===== src/Verifier/Soundness.antt =====
-- What a capability that `verify` of src/mgk/verifier.py accepts is: signed, bound to the request,
-- within its time and epoch, and fresh.
use mgk_governance_kernel.Prelude.{◌≡◌, sym, ◌∙◌, ap, subst, not, ◌&&◌, ◌||◌, some, arith, ◌∷◌, []}
use mgk_governance_kernel.Prelude.Int.{ℤ, ◌+ℤ◌, ◌-ℤ◌, ◌≤ℤ◌, ◌<ℤ◌, leb_ℤ, ltb_ℤ, eqb_ℤ, eqb_ℤ_iff}
use mgk_governance_kernel.Errors.{
  ok, schema, time_window, epoch, ok_inj, bind_ok, guard_ok, raise_if-eq-ok,
}
use mgk_governance_kernel.Json.{Value, Fields, get, has_exactly}
use mgk_governance_kernel.Json.Access.{members, index, integer, members-ok, index-ok, integer-ok}
use mgk_governance_kernel.Bindings.{at_is, both_at}
use mgk_governance_kernel.Platform.{Bytes, Platform}
use mgk_governance_kernel.Canonical.{canonicalize, parse_canonical}
use mgk_governance_kernel.Crypto.{capability_domain, key_id, verify_value}
use mgk_governance_kernel.Models.{ActionRequest}
use mgk_governance_kernel.State.{SecurityState, current_epoch}
use mgk_governance_kernel.Verifier.Bound.{IsBound, validate_payload-ok}
use mgk_governance_kernel.Verifier.{
  CapabilityVerifier, validate_payload, check_window, check_epoch, check_envelope,
}

module _ (p : Platform) where
  -- A capability that is accepted at the time `now`: the envelope is a canonical document signed with
  -- the verifier's key over the canonical bytes of the payload, the payload is bound to the request,
  -- the time lies in its window, and its epoch is the current one.
  pub record IsAuthorized (v : CapabilityVerifier) (now : ℤ) (envelope : Bytes) (r : ActionRequest)
      (s : SecurityState) (payload : Fields) : Type 0 where
    pub fields : Fields
    pub encoded : Bytes
    pub signature : Value
    pub issued_at : ℤ
    pub expires_at : ℤ
    pub number : ℤ
    pub parsed : parse_canonical p envelope ≡ ok (Value.obj fields)
    pub signer : get "key_id" fields ≡ some (Value.str (key_id p v.public_key))
    pub has_payload : get "payload" fields ≡ some (Value.obj payload)
    pub has_signature : get "signature" fields ≡ some signature
    pub canonical : canonicalize p (Value.obj payload) ≡ ok encoded
    pub verified : verify_value p v.public_key capability_domain encoded signature ≡ ok tt
    pub bound : IsBound p payload r
    pub has_issued : get "issued_at" payload ≡ some (Value.int issued_at)
    pub has_expires : get "expires_at" payload ≡ some (Value.int expires_at)
    pub lasts : issued_at <ℤ expires_at
    pub bounded : expires_at -ℤ issued_at ≤ℤ v.maximum_ttl_seconds
    pub begun : issued_at ≤ℤ now +ℤ v.clock_skew_seconds
    pub not_expired : now <ℤ expires_at
    pub has_epoch : get "authorization_epoch" payload ≡ some (Value.int number)
    pub current : current_epoch p s ≡ ok number

  check_window-ok :
      (v : CapabilityVerifier) (now : ℤ) (payload : Fields)
      → check_window p v now payload ≡ ok tt
      → (issued_at : ℤ) × (expires_at : ℤ) × (get "issued_at" payload ≡ some (Value.int issued_at))
        × (get "expires_at" payload ≡ some (Value.int expires_at))
        × (issued_at <ℤ expires_at)
        × (expires_at -ℤ issued_at ≤ℤ v.maximum_ttl_seconds)
        × (issued_at ≤ℤ now +ℤ v.clock_skew_seconds)
        × (now <ℤ expires_at)
  unfolding check_window
  check_window-ok v now payload h = bind_ok (index payload "issued_at") _ h λ iv at_i h1.
      bind_ok (index payload "expires_at") _ h1 λ ev at_e h2.
        bind_ok (integer time_window iv) _ h2 λ i is_i h3.
          bind_ok (integer time_window ev) _ h3 λ x is_x h4.
            guard_ok (leb_ℤ x i || ltb_ℤ v.maximum_ttl_seconds (x -ℤ i)) time_window _ h4
              λ window h5.
                let inside =
                  raise_if-eq-ok (ltb_ℤ (now +ℤ v.clock_skew_seconds) i || leb_ℤ x now) time_window
                    h5 in
                (
                  i,
                  x,
                  index-ok payload "issued_at" at_i ∙ ap some (integer-ok time_window iv is_i),
                  index-ok payload "expires_at" at_e ∙ ap some (integer-ok time_window ev is_x),
                  ground arith,
                  ground arith,
                  ground arith,
                  ground arith,
                )

  check_epoch-ok :
      (s : SecurityState) (payload : Fields)
      → check_epoch p s payload ≡ ok tt
      → (n : ℤ) × (get "authorization_epoch" payload ≡ some (Value.int n))
        × (current_epoch p s ≡ ok n)
  unfolding check_epoch
  check_epoch-ok s payload h = bind_ok (index payload "authorization_epoch") _ h λ nv at_n h1.
      bind_ok (integer epoch nv) _ h1 λ n is_n h2.
        bind_ok (current_epoch p s) _ h2 λ current read h3.
          let same =
            (eqb_ℤ_iff n current).0
              (ground (arith, raise_if-eq-ok (not (eqb_ℤ n current)) epoch h3)) in
          (
            n,
            index-ok payload "authorization_epoch" at_n ∙ ap some (integer-ok epoch nv is_n),
            read ∙ ap (λ (x : ℤ). ok x) (sym same),
          )

  -- An envelope that passes every check of `verify` is a canonical document that names the key of the
  -- verifier and holds that payload, signed with the key over the canonical bytes of the payload. The
  -- payload is bound to the request: its identifier is the digest of its other members, it names the
  -- digest, action, resource, principal and audience of the request, evidence that grants, and a resource
  -- binding for the path with the keys and the state that belong to the action. The time lies in its
  -- window, which is not longer than the verifier allows, and its epoch is the current one of the
  -- security state.
  pub check_envelope-IsAuthorized :
      (v : CapabilityVerifier) (now : ℤ) (envelope : Bytes) (r : ActionRequest) (s : SecurityState)
      (payload : Fields)
      → check_envelope p v now envelope r s ≡ ok payload
      → IsAuthorized v now envelope r s payload
  unfolding check_envelope
  check_envelope-IsAuthorized v now envelope r s payload h =
      bind_ok (parse_canonical p envelope) _ h λ ev parsed h1.
        bind_ok (members schema ev) _ h1 λ fs dict h2.
          guard_ok (not (has_exactly ("algorithm" ∷ "key_id" ∷ "payload" ∷ "signature" ∷ []) fs))
            schema _ h2
            λ _ h3.
              guard_ok
                (not (at_is fs "algorithm" "Ed25519" && at_is fs "key_id" (key_id p v.public_key)))
                schema _ h3
                λ header h4. bind_ok (index fs "payload") _ h4 λ pv at_p h5.
                  bind_ok (validate_payload p pv r) _ h5 λ q validated h6.
                    bind_ok (canonicalize p (Value.obj q)) _ h6 λ encoded canon h7.
                      bind_ok (index fs "signature") _ h7 λ sig at_sig h8.
                        bind_ok (verify_value p v.public_key capability_domain encoded sig) _ h8
                          λ _ verified h9. bind_ok (check_window p v now q) _ h9 λ _ window h10.
                            bind_ok (check_epoch p s q) _ h10 λ _ epoch_ok h11.
                              let (_, signer) =
                                both_at fs fs "algorithm" "Ed25519" "key_id" (key_id p v.public_key)
                                  header in
                              let (same, bound) = validate_payload-ok p pv r q validated in
                              let (i, x, has_i, has_x, lasts, bounded, begun, fresh) =
                                check_window-ok v now q window in
                              let (n, has_n, current) = check_epoch-ok s q epoch_ok in
                              let authorized : IsAuthorized v now envelope r s q = record {
                                fields = fs;
                                encoded = encoded;
                                signature = sig;
                                issued_at = i;
                                expires_at = x;
                                number = n;
                                parsed =
                                    parsed ∙ ap (λ (y : Value). ok y) (members-ok schema ev dict);
                                signer = signer;
                                has_payload = index-ok fs "payload" at_p ∙ ap some same;
                                has_signature = index-ok fs "signature" at_sig;
                                canonical = canon;
                                verified = verified;
                                bound = bound;
                                has_issued = has_i;
                                has_expires = has_x;
                                lasts = lasts;
                                bounded = bounded;
                                begun = begun;
                                not_expired = fresh;
                                has_epoch = has_n;
                                current = current;
                              } in
                              subst (λ (y : Fields). IsAuthorized v now envelope r s y) (ok_inj h11)
                                authorized
