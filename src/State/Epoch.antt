-- ===== src/State/Epoch.antt =====
-- The authorization epoch of src/mgk/state.py: authenticity, no rollback, one step at a time.
use mgk_governance_kernel.Prelude.{◌≡◌, refl, sym, ◌∙◌, ap, subst, not, some, arith, ◌∷◌, []}
use mgk_governance_kernel.Prelude.Int.{ℤ, pos, ◌+ℤ◌, ◌≤ℤ◌, ltb_ℤ, eqb_ℤ, eqb_ℤ_iff}
use mgk_governance_kernel.Errors.{
  ok, epoch, state_integrity, ok_inj, bind_ok, guard_ok, or_raise_ok, or_raise, raise_if-eq-ok,
}
use mgk_governance_kernel.Json.{Value, Fields, get, has_exactly, is_str}
use mgk_governance_kernel.Json.Access.{
  members, index, integer, members-ok, index-ok, integer-ok, has_str,
}
use mgk_governance_kernel.Platform.{Bytes, Platform}
use mgk_governance_kernel.Canonical.{canonicalize, parse_canonical}
use mgk_governance_kernel.Crypto.{epoch_domain, key_id, sign, verify_value}
use mgk_governance_kernel.State.{
  Store, SecurityState, integrity_check, check_document, decode_epoch, current_epoch, make_envelope,
  epoch_document, bump_epoch,
}

module _ (p : Platform) where
  -- What an accepted epoch envelope shows: a canonical document that names this signer and the
  -- epoch, with a signature of its canonical bytes that verifies under the key of the state.
  pub record IsAuthentic (s : SecurityState) (envelope : Bytes) (n : ℤ) : Type 0 where
    pub fields : Fields
    pub document : Fields
    pub encoded : Bytes
    pub signature : Value
    pub parsed : parse_canonical p envelope ≡ ok (Value.obj fields)
    pub has_document : get "document" fields ≡ some (Value.obj document)
    pub has_signature : get "signature" fields ≡ some signature
    pub number : get "epoch" document ≡ some (Value.int n)
    pub signer : get "key_id" document ≡ some (Value.str (key_id p s.epoch_public_key))
    pub schema : get "schema" document ≡ some (Value.str "mgk-epoch/v1")
    pub canonical : canonicalize p (Value.obj document) ≡ ok encoded
    pub verified : verify_value p s.epoch_public_key epoch_domain encoded signature ≡ ok tt
    pub not_rolled_back : s.expected_minimum_epoch ≤ℤ n

  -- The envelope that is written for an epoch: the canonical form of the document of the epoch and the
  -- key, with the signature of its canonical bytes by the signer.
  pub record IsSealed (n : ℤ) (signer envelope : Bytes) : Type 0 where
    pub fields : Fields
    pub document : Fields
    pub encoded : Bytes
    pub has_document : get "document" fields ≡ some (Value.obj document)
    pub number : get "epoch" document ≡ some (Value.int n)
    pub key : get "key_id" document ≡ some (Value.str (key_id p (p.public_of signer)))
    pub schema : get "schema" document ≡ some (Value.str "mgk-epoch/v1")
    pub to_sign : canonicalize p (Value.obj document) ≡ ok encoded
    pub signature : get "signature" fields ≡ some (Value.str (sign p signer epoch_domain encoded))
    pub canonical : canonicalize p (Value.obj fields) ≡ ok envelope

  make_envelope-IsSealed :
      (n : ℤ) (signer envelope : Bytes)
      → make_envelope p n signer ≡ ok envelope
      → IsSealed n signer envelope
  unfolding make_envelope get
  make_envelope-IsSealed n signer envelope h =
      bind_ok (canonicalize p (epoch_document n (key_id p (p.public_of signer)))) _ h
        λ encoded to_sign h1. record {
          fields = _;
          document = _;
          encoded = encoded;
          has_document = refl;
          number = refl;
          key = refl;
          schema = refl;
          to_sign = to_sign;
          signature = refl;
          canonical = h1;
        }

  check_document-ok :
      (s : SecurityState) (d : Fields)
      → check_document p s d ≡ ok tt
      → (get "key_id" d ≡ some (Value.str (key_id p s.epoch_public_key)))
        × (get "schema" d ≡ some (Value.str "mgk-epoch/v1"))
  unfolding check_document
  check_document-ok s d h = bind_ok (index d "schema") _ h λ v at h1.
      guard_ok (not (is_str "mgk-epoch/v1" v)) epoch _ h1 λ good h2.
        bind_ok (index d "key_id") _ h2 λ w at' h3.
          (has_str d "key_id" _ at' (raise_if-eq-ok _ epoch h3), has_str d "schema" _ at good)

  -- An epoch that is decoded from an envelope was signed with the key of the state, over the
  -- canonical bytes of a document that names that key, and is not below the expected minimum.
  pub decode_epoch-IsAuthentic :
      (s : SecurityState) (envelope : Bytes) (n : ℤ)
      → decode_epoch p s envelope ≡ ok n
      → IsAuthentic s envelope n
  unfolding decode_epoch
  decode_epoch-IsAuthentic s envelope n h = bind_ok (parse_canonical p envelope) _ h λ v parsed h1.
      bind_ok (members epoch v) _ h1 λ fs dict h2.
        guard_ok (not (has_exactly ("document" ∷ "signature" ∷ []) fs)) epoch _ h2 λ _ h3.
          bind_ok (index fs "document") _ h3 λ inner at h4.
            bind_ok (members epoch inner) _ h4 λ d dict' h5.
              guard_ok (not (has_exactly ("epoch" ∷ "key_id" ∷ "schema" ∷ []) d)) epoch _ h5 λ _ h6.
                bind_ok (check_document p s d) _ h6 λ _ checked h7.
                  bind_ok (canonicalize p inner) _ h7 λ encoded canon h8.
                    bind_ok (index fs "signature") _ h8 λ sig at_sig h9.
                      bind_ok (verify_value p s.epoch_public_key epoch_domain encoded sig) _ h9
                        λ _ verified h10. bind_ok (index d "epoch") _ h10 λ number at_n h11.
                          bind_ok (integer epoch number) _ h11 λ m int_n h12.
                            guard_ok (ltb_ℤ m s.expected_minimum_epoch) epoch _ h12 λ low h13.
                              record {
                                fields = fs;
                                document = d;
                                encoded = encoded;
                                signature = sig;
                                parsed =
                                    subst (λ (x : Value). parse_canonical p envelope ≡ ok x)
                                      (members-ok epoch v dict) parsed;
                                has_document =
                                    subst (λ (x : Value). get "document" fs ≡ some x)
                                      (members-ok epoch inner dict') (index-ok fs "document" at);
                                has_signature = index-ok fs "signature" at_sig;
                                number = cc (
                                  index-ok d "epoch" at_n,
                                  integer-ok epoch number int_n,
                                  ok_inj h13,
                                );
                                signer = (check_document-ok s d checked).0;
                                schema = (check_document-ok s d checked).1;
                                canonical =
                                    subst (λ (x : Value). canonicalize p x ≡ ok encoded)
                                      (members-ok epoch inner dict') canon;
                                verified = verified;
                                not_rolled_back =
                                    subst (λ (x : ℤ). s.expected_minimum_epoch ≤ℤ x) (ok_inj h13)
                                      (ground arith);
                              }

  -- `current_epoch` returns only an authentic epoch of the stored envelope, from a file that passes
  -- the integrity check.
  pub current_epoch-ok :
      (s : SecurityState) (n : ℤ)
      → current_epoch p s ≡ ok n
      → (integrity_check s ≡ ok tt)
        × ((envelope : Bytes) × (s.store.epoch_envelope ≡ some envelope) × IsAuthentic s envelope n)
  unfolding current_epoch
  current_epoch-ok s n h = bind_ok (integrity_check s) _ h λ _ sound h1.
      guard_ok (not s.store.readable) state_integrity _ h1 λ _ h2.
        bind_ok (or_raise s.store.epoch_envelope epoch) _ h2 λ envelope row h3. (
          sound,
          (
            envelope,
            or_raise_ok s.store.epoch_envelope epoch row (λ e. e),
            decode_epoch-IsAuthentic s envelope n h3,
          ),
        )

  -- A bump goes from the current epoch to the next one, and only if the row that it overwrites still
  -- holds that epoch after whatever other connections did. It writes the envelope of the new epoch and
  -- nothing else, the canonical form of a document of that epoch and of the signer's key, with the
  -- signature of the document in the domain of epochs, and raises the expected minimum to the new epoch.
  pub bump_epoch-ok :
      (others : Store → Store) (signer : Bytes) (s s' : SecurityState) (n : ℤ)
      → bump_epoch p others signer s ≡ ok (n, s')
      → (current : ℤ) × (envelope : Bytes) × (row : Bytes) × (current_epoch p s ≡ ok current)
        × (n ≡ current +ℤ pos 1)
        × ((make_envelope p n signer ≡ ok envelope) × IsSealed n signer envelope)
        × ((others s.store).epoch_envelope ≡ some row)
        × (decode_epoch p (record s { store = others s.store }) row ≡ ok current)
        × (s'.store ≡ record (others s.store) { epoch_envelope = some envelope })
        × (s'.expected_minimum_epoch ≡ n)
        × (s'.epoch_public_key ≡ s.epoch_public_key)
  unfolding bump_epoch
  bump_epoch-ok others signer s s' n h = bind_ok (current_epoch p s) _ h λ current read h1.
      bind_ok (make_envelope p (current +ℤ pos 1) signer) _ h1 λ envelope made h2.
        guard_ok (not (others s.store).readable) state_integrity _ h2 λ _ h3.
          bind_ok (or_raise (others s.store).epoch_envelope epoch) _ h3 λ row found h4.
            bind_ok (decode_epoch p (record s { store = others s.store }) row) _ h4
              λ now decoded h5. guard_ok (not (eqb_ℤ now current)) epoch _ h5 λ same h6.
                let e = ok_inj h6 in
                let number : (current +ℤ pos 1) ≡ n = ap (λ (x : ℤ × SecurityState). x.0) e in
                let state = ap (λ (x : ℤ × SecurityState). x.1) e in
                let made' = subst (λ (x : ℤ). make_envelope p x signer ≡ ok envelope) number made in
                (
                  current,
                  envelope,
                  row,
                  read,
                  sym number,
                  (made', make_envelope-IsSealed n signer envelope made'),
                  or_raise_ok (others s.store).epoch_envelope epoch found (λ q. q),
                  subst (λ (x : ℤ). decode_epoch p (record s { store = others s.store }) row ≡ ok x)
                      ((eqb_ℤ_iff now current).0 (ground arith)) decoded,
                  sym (ap (λ (x : SecurityState). x.store) state),
                  sym (ap (λ (x : SecurityState). x.expected_minimum_epoch) state) ∙ number,
                  sym (ap (λ (x : SecurityState). x.epoch_public_key) state),
                )

  -- After a bump to `n`, whatever file the process is given, it never reads an epoch below `n`: an
  -- old file, put back, is refused.
  pub bump_epoch_no_rollback :
      (others : Store → Store) (signer : Bytes) (s s' : SecurityState) (n : ℤ) (old : Store) (k : ℤ)
      → bump_epoch p others signer s ≡ ok (n, s')
      → current_epoch p (record s' { store = old }) ≡ ok k
      → n ≤ℤ k
  bump_epoch_no_rollback others signer s s' n old k bumped read =
      let (_, _, _, _, _, _, _, _, _, minimum, _) = bump_epoch-ok others signer s s' n bumped in
      let (_, (_, _, authentic)) = current_epoch-ok (record s' { store = old }) k read in
      subst (λ (x : ℤ). x ≤ℤ k) minimum authentic.not_rolled_back
