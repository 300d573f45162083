-- ===== src/Verifier/Spending.antt =====
-- A capability is spent once (src/mgk/verifier.py, `verify` with `consume_nonce`).
use mgk_governance_kernel.Prelude.{◌≡◌, Bool, refl, sym, ◌∙◌, ap, subst, true, false, some, String}
use mgk_governance_kernel.Prelude.Int.{ℤ}
use mgk_governance_kernel.Errors.{ok, schema, ok_inj, bind_ok}
use mgk_governance_kernel.Json.{Value, Fields, get}
use mgk_governance_kernel.Json.Access.{index, text, index-ok, text-ok}
use mgk_governance_kernel.Platform.{Bytes, Platform}
use mgk_governance_kernel.Models.{ActionRequest}
use mgk_governance_kernel.State.{SecurityState, is_consumed, consume_nonce}
use mgk_governance_kernel.State.Replay.{consume_nonce-ok, consumed_last, Reach, Reach-Keeps}
use mgk_governance_kernel.Verifier.{CapabilityVerifier, check_envelope, consume_payload, verify}
use mgk_governance_kernel.Verifier.Soundness.{IsAuthorized, check_envelope-IsAuthorized}

obj_inj : {a b : Fields} → Value.obj a ≡ Value.obj b → a ≡ b
obj_inj h = cc

str_inj : {a b : String} → Value.str a ≡ Value.str b → a ≡ b
str_inj h = cc

some_inj : {a b : Value} → some a ≡ some b → a ≡ b
some_inj h = cc

consume_payload-ok :
    (now : ℤ) (payload : Fields) (s s' : SecurityState)
    → consume_payload now payload s ≡ ok s'
    → (nonce id : String) × (get "nonce" payload ≡ some (Value.str nonce))
      × (consume_nonce nonce id now s ≡ ok s')
unfolding consume_payload
consume_payload-ok now payload s s' h = bind_ok (index payload "nonce") _ h λ nv at_n h1.
    bind_ok (text schema nv) _ h1 λ n is_n h2.
      bind_ok (index payload "capability_id") _ h2 λ iv at_i h3.
        bind_ok (text schema iv) _ h3
          λ i is_i h4. (n, i, index-ok payload "nonce" at_n ∙ ap some (text-ok schema nv is_n), h4)

module _ (p : Platform) where
  -- `verify` with consumption returns the payload of an authorized capability and the state in which
  -- the nonce of that payload, which was new, is consumed.
  pub verify-ok :
      (v : CapabilityVerifier) (now : ℤ) (envelope : Bytes) (r : ActionRequest)
      (s s' : SecurityState) (payload : Fields)
      → verify p v now envelope r true s ≡ ok (payload, s')
      → IsAuthorized p v now envelope r s payload
        × ((nonce id : String) × (get "nonce" payload ≡ some (Value.str nonce))
            × (consume_nonce nonce id now s ≡ ok s')
            × (is_consumed nonce s.store.consumed_nonces ≡ false)
            × (is_consumed nonce s'.store.consumed_nonces ≡ true))
  unfolding verify
  verify-ok v now envelope r s s' payload h =
      bind_ok (check_envelope p v now envelope r s) _ h λ q checked h1.
        bind_ok (consume_payload now q s) _ h1 λ t consumed h2.
          let e = ok_inj h2 in
          let pay : q ≡ payload = ap (λ (x : Fields × SecurityState). x.0) e in
          let state : t ≡ s' = ap (λ (x : Fields × SecurityState). x.1) e in
          let (n, i, at_n, spent) = consume_payload-ok now q s t consumed in
          let spent' = spent ∙ ap (λ (x : SecurityState). ok x) state in
          let (_, new, shape) = consume_nonce-ok n i now s s' spent' in
          (
            subst (λ (x : Fields). IsAuthorized p v now envelope r s x) pay
                (check_envelope-IsAuthorized p v now envelope r s q checked),
            (
              n,
              i,
              subst (λ (x : Fields). get "nonce" x ≡ some (Value.str n)) pay at_n,
              spent',
              new,
              subst (λ (x : SecurityState). is_consumed n x.store.consumed_nonces ≡ true)
                  (sym shape) (consumed_last n i now s.store.consumed_nonces),
            ),
          )

  same_payload :
      (v w : CapabilityVerifier) (now later : ℤ) (envelope : Bytes) (r q : ActionRequest)
      (s t : SecurityState) (a b : Fields)
      → IsAuthorized p v now envelope r s a
      → IsAuthorized p w later envelope q t b
      → a ≡ b
  same_payload v w now later envelope r q s t a b ha hb =
      let fields = obj_inj (ok_inj (sym ha.parsed ∙ hb.parsed)) in
      obj_inj (some_inj (sym ha.has_payload ∙ ap (get "payload") fields ∙ hb.has_payload))

  unconsumed :
      (v : CapabilityVerifier) (now : ℤ) (envelope : Bytes) (r : ActionRequest)
      (s s' : SecurityState) (payload : Fields)
      → verify p v now envelope r false s ≡ ok (payload, s')
      → s' ≡ s
  unfolding verify
  unconsumed v now envelope r s s' payload h =
      bind_ok (check_envelope p v now envelope r s) _ h
        λ q checked h1. sym (ap (λ (x : Fields × SecurityState). x.1) (ok_inj h1))

  -- Once a call with `consume_nonce=True` has accepted a capability, its nonce is spent: whatever
  -- transactions other processes commit on the file afterwards, if any verifier accepts the capability on
  -- that file again, at any time and for any request, the call was made with `consume_nonce=False`, and it
  -- leaves the security state as it is.
  pub verify_once :
      (v w : CapabilityVerifier) (now later : ℤ) (envelope : Bytes) (r q : ActionRequest)
      (consume : Bool) (s s' t t' : SecurityState) (a b : Fields)
      → verify p v now envelope r true s ≡ ok (a, s')
      → Reach p s'.store t.store
      → verify p w later envelope q consume t ≡ ok (b, t')
      → (consume ≡ false) × (t' ≡ t)
  verify_once v w now later envelope r q false s s' t t' a b first reach second =
      (refl, unconsumed w later envelope q t t' b second)
  verify_once v w now later envelope r q true s s' t t' a b first reach second =
      let (auth, (n, _, at_n, _, _, spent)) = verify-ok v now envelope r s s' a first in
      let (auth', (m, _, at_m, _, new, _)) = verify-ok w later envelope q t t' b second in
      let e = same_payload v w now later envelope r q s t a b auth auth' in
      let same = str_inj (some_inj (sym at_n ∙ ap (get "nonce") e ∙ at_m)) in
      let remembered = (Reach-Keeps p s'.store t.store reach).remembers n spent in
      cc (subst (λ (x : String). is_consumed x t.store.consumed_nonces ≡ true) same remembered, new)
