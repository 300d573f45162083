-- ===== src/Verifier/Bound.antt =====
-- What `_validate_payload` of src/mgk/verifier.py establishes: a payload that is bound to the request.
use Prim.Native.String.{len}
use mgk_governance_kernel.Prelude.{
  ◌≡◌, ◌∙◌, ap, subst, true, not, ◌&&◌, ◌||◌, some, String, str_eq, eq_iff, arith, List, ◌∷◌, [],
  ltb, member, false, ◌⊎◌, inl, inr, Bool-cases,
}
use mgk_governance_kernel.Errors.{ok, schema, scope, ok_inj, bind_ok, guard_ok, raise_if-eq-ok}
use mgk_governance_kernel.Json.{Value, Fields, get, without, has_exactly, is_str}
use mgk_governance_kernel.Json.Access.{members, index, text, members-ok, index-ok, text-ok}
use mgk_governance_kernel.Bindings.{
  at_is, at, at_is→get, both_at, is_hex_of, is_binding, in_states, present_keys, absent_keys,
  write_keys, append_keys,
}
use mgk_governance_kernel.Platform.{Platform}
use mgk_governance_kernel.Canonical.{digest}
use mgk_governance_kernel.Models.{ActionRequest, request_digest}
use mgk_governance_kernel.Verifier.{
  read_actions, create_actions, payload_keys, saxp_keys, require_key, check_binding, check_saxp,
  check_scope, check_texts, validate_payload,
}

-- The action and the resource are the request's, and so are the principal and the audience.
pub record IsScoped (payload : Fields) (r : ActionRequest) : Type 0 where
  pub inner : Fields
  pub has_scope : get "scope" payload ≡ some (Value.obj inner)
  pub action : get "action" inner ≡ some (Value.str r.action)
  pub resource : get "resource" inner ≡ some (Value.str r.resource)
  pub subject : get "subject" payload ≡ some (Value.str r.principal)
  pub audience : get "audience" payload ≡ some (Value.str r.audience)

check_scope-IsScoped :
    (payload : Fields) (r : ActionRequest) → check_scope payload r ≡ ok tt → IsScoped payload r
unfolding check_scope
check_scope-IsScoped payload r h = bind_ok (index payload "scope") _ h λ v at_v h1.
    bind_ok (members scope v) _ h1 λ fs dict h2.
      guard_ok (not (has_exactly ("action" ∷ "resource" ∷ []) fs)) scope _ h2 λ _ h3.
        guard_ok (not (at_is fs "action" r.action && at_is fs "resource" r.resource)) scope _ h3
          λ in_scope h4.
            let (a, b) = both_at fs fs "action" r.action "resource" r.resource in_scope in
            let (c, d) =
              both_at payload payload "subject" r.principal "audience" r.audience
                (raise_if-eq-ok _ scope h4) in
            record {
              inner = fs;
              has_scope = index-ok payload "scope" at_v ∙ ap some (members-ok scope v dict);
              action = a;
              resource = b;
              subject = c;
              audience = d;
            }

-- The evidence says TEN_XEITO, for this request.
pub record HasEvidence (v : Value) (request_sha : String) : Type 0 where
  pub saxp : Fields
  pub dict : v ≡ Value.obj saxp
  pub granted : get "result" saxp ≡ some (Value.str "TEN_XEITO")
  pub bound : get "request_digest" saxp ≡ some (Value.str request_sha)

check_saxp-HasEvidence :
    (v : Value) (request_sha : String)
    → check_saxp v request_sha ≡ ok tt
    → HasEvidence v request_sha
unfolding check_saxp
check_saxp-HasEvidence v sha h = bind_ok (members schema v) _ h λ saxp dict h1.
    guard_ok (not (has_exactly saxp_keys saxp)) schema _ h1 λ _ h2.
      guard_ok (not (at_is saxp "result" "TEN_XEITO")) scope _ h2 λ granted h3.
        guard_ok (not (at_is saxp "request_digest" sha)) scope _ h3 λ bound h4. record {
          saxp = saxp;
          dict = members-ok schema v dict;
          granted = at saxp "result" "TEN_XEITO" granted;
          bound = at saxp "request_digest" sha bound;
        }

-- A resource binding of the form that belongs to the action: its keys, its state, and for a write the
-- state before.
pub data IsBindingFor (action : String) (b : Fields) : Type 0 where
  to_read :
      member action ("resource.read" ∷ "sandbox.read_file" ∷ "sandbox.read_record" ∷ []) ≡ true
      → has_exactly ("path" ∷ "sha256" ∷ "size" ∷ "state" ∷ []) b ≡ true
      → get "state" b ≡ some (Value.str "present")
      → IsBindingFor action b
  to_create :
      member action ("resource.create" ∷ "sandbox.create_record" ∷ []) ≡ true
      → has_exactly ("path" ∷ "post_sha256" ∷ "post_size" ∷ "state" ∷ []) b ≡ true
      → get "state" b ≡ some (Value.str "absent")
      → IsBindingFor action b
  to_write :
      action ≡ "sandbox.write_file"
      → has_exactly
          ("path" ∷ "post_sha256" ∷ "post_size" ∷ "pre_sha256" ∷ "pre_size" ∷ "pre_state" ∷ "state"
            ∷ [])
          b
        ≡ true
      → get "state" b ≡ some (Value.str "write")
      → (get "pre_state" b ≡ some (Value.str "present"))
        ⊎ (get "pre_state" b ≡ some (Value.str "absent"))
      → IsBindingFor action b
  to_append :
      action ≡ "sandbox.append_file"
      → has_exactly
          ("path" ∷ "post_sha256" ∷ "post_size" ∷ "pre_sha256" ∷ "pre_size" ∷ "state" ∷ [])
          b
        ≡ true
      → get "state" b ≡ some (Value.str "append")
      → IsBindingFor action b

is_binding-ok :
    (ks : List String) (state : String) (b : Fields)
    → not (is_binding ks state b) ≡ false
    → (has_exactly ks b ≡ true) × (get "state" b ≡ some (Value.str state))
is_binding-ok ks state b h = (ground arith, at_is→get b "state" state (ground arith))

in_states-ok :
    (v : Value) → in_states scope v ≡ ok tt → (v ≡ Value.str "present") ⊎ (v ≡ Value.str "absent")
in_states-ok (Value.str s) h = ground (
  arith,
  raise_if-eq-ok (not (is_str "present" (Value.str s) || is_str "absent" (Value.str s))) scope h,
  eq_iff s "present",
  eq_iff s "absent",
  eq_iff "present" s,
  eq_iff "absent" s,
)
in_states-ok Value.null h = cc
in_states-ok (Value.bool b) h = cc
in_states-ok (Value.int i) h = cc
in_states-ok (Value.obj fs) h = cc
in_states-ok (Value.surrogates cs) h = cc
in_states-ok (Value.arr xs) h = cc
in_states-ok Value.unsupported h = cc

pre_state-ok :
    (b : Fields) (pre : Value)
    → get "pre_state" b ≡ some pre
    → (pre ≡ Value.str "present") ⊎ (pre ≡ Value.str "absent")
    → (get "pre_state" b ≡ some (Value.str "present"))
      ⊎ (get "pre_state" b ≡ some (Value.str "absent"))
pre_state-ok b pre there (inl e) = inl (there ∙ ap some e)
pre_state-ok b pre there (inr e) = inr (there ∙ ap some e)

check_binding-IsBindingFor :
    (action : String) (b : Fields) → check_binding action b ≡ ok tt → IsBindingFor action b
unfolding check_binding
check_binding-IsBindingFor action b h = elim (Bool-cases (member action read_actions)) [
  | inl reads ↦
      let (ks, st) =
        is_binding-ok present_keys "present" b (raise_if-eq-ok _ scope (rw reads at h)) in
      to_read reads ks st
  | inr not_read ↦ elim (Bool-cases (member action create_actions)) [
    | inl creates ↦
        let (ks, st) =
          is_binding-ok absent_keys "absent" b
            (raise_if-eq-ok _ scope (rw (not_read, creates) at h)) in
        to_create creates ks st
    | inr not_create ↦ elim (Bool-cases (str_eq action "sandbox.write_file")) [
      | inl writes ↦
          guard_ok (not (is_binding write_keys "write" b)) scope _
            (rw (not_read, not_create, writes) at h)
            λ shaped h1. bind_ok (index b "pre_state") _ h1 λ pre at_pre h2.
              let (ks, st) = is_binding-ok write_keys "write" b shaped in
              to_write ((eq_iff action "sandbox.write_file").0 writes) ks st
                (pre_state-ok b pre (index-ok b "pre_state" at_pre) (in_states-ok pre h2))
      | inr not_write ↦ elim (Bool-cases (str_eq action "sandbox.append_file")) [
        | inl appends ↦
            let (ks, st) =
              is_binding-ok append_keys "append" b
                (raise_if-eq-ok _ scope (rw (not_read, not_create, not_write, appends) at h)) in
            to_append ((eq_iff action "sandbox.append_file").0 appends) ks st
        | inr other ↦ absurd (cc (rw (not_read, not_create, not_write, other) at h))
      ]
    ]
  ]
]

require_key-ok :
    (d : Fields) (k : String) {s : String} → require_key d k ≡ ok s → get k d ≡ some (Value.str s)
unfolding require_key
require_key-ok d k h = bind_ok (index d k) _ h λ v at_v h1.
    bind_ok (text schema v) _ h1 λ s is_text h2.
      guard_ok (str_eq s "" || ltb 4096 (len s)) schema _ h2 λ _ h3.
        index-ok d k at_v
        ∙ ap some (text-ok schema v is_text)
        ∙ ap (λ (x : String). some (Value.str x)) (ok_inj h3)

-- The identifier and the nonce are lower-case hexadecimal texts of the right length.
check_texts-ok :
    (d : Fields) (id : String)
    → check_texts d ≡ ok id
    → (get "capability_id" d ≡ some (Value.str id))
      × (is_hex_of 64 id ≡ true)
      × ((nonce : String) × (get "nonce" d ≡ some (Value.str nonce)) × (is_hex_of 32 nonce ≡ true))
unfolding check_texts
check_texts-ok d id h = bind_ok (require_key d "issuer") _ h λ _ _ h1.
    bind_ok (require_key d "subject") _ h1 λ _ _ h2.
      bind_ok (require_key d "audience") _ h2 λ _ _ h3.
        bind_ok (require_key d "capability_id") _ h3 λ i has_id h4.
          bind_ok (require_key d "request_digest") _ h4 λ sha _ h5.
            bind_ok (require_key d "nonce") _ h5 λ n has_nonce h6.
              guard_ok (not (is_hex_of 32 n)) schema _ h6 λ hex h7.
                guard_ok (not (is_hex_of 64 i && is_hex_of 64 sha)) schema _ h7 λ hex' h8.
                  let e = ok_inj h8 in
                  (
                    require_key-ok d "capability_id" has_id
                        ∙ ap (λ (x : String). some (Value.str x)) e,
                    subst (λ (x : String). is_hex_of 64 x ≡ true) e (ground arith),
                    (n, require_key-ok d "nonce" has_nonce, ground arith),
                  )

module _ (p : Platform) where
  -- What `_validate_payload` has established: the digest of the request and the identifier are those
  -- that the payload names, and its scope, evidence and resource binding belong to the request.
  pub record IsBound (payload : Fields) (r : ActionRequest) : Type 0 where
    pub request_sha : String
    pub capability_id : String
    pub saxp : Value
    pub binding : Fields
    pub request_hashed : request_digest p r ≡ ok request_sha
    pub request_bound : get "request_digest" payload ≡ some (Value.str request_sha)
    pub nonce : String
    pub has_nonce : get "nonce" payload ≡ some (Value.str nonce)
    pub nonce_hex : is_hex_of 32 nonce ≡ true
    pub has_id : get "capability_id" payload ≡ some (Value.str capability_id)
    pub identified : digest p (Value.obj (without "capability_id" payload)) ≡ ok capability_id
    pub scoped : IsScoped payload r
    pub has_saxp : get "saxp" payload ≡ some saxp
    pub evidence : HasEvidence saxp request_sha
    pub has_binding : get "resource_binding" payload ≡ some (Value.obj binding)
    pub path : get "path" binding ≡ some (Value.str r.resource)
    pub checked : check_binding r.action binding ≡ ok tt
    pub shaped : IsBindingFor r.action binding

  -- A payload that is accepted is the dict that was given, and is bound to the request: its identifier
  -- is the digest of its other members, its scope, subject and audience are those of the request, it and
  -- its SAXP evidence, which grants, carry the digest of the request, and its resource binding is one for
  -- the path and the action of the request.
  pub validate_payload-ok :
      (v : Value) (r : ActionRequest) (payload : Fields)
      → validate_payload p v r ≡ ok payload
      → (v ≡ Value.obj payload) × IsBound payload r
  unfolding validate_payload
  validate_payload-ok v r payload h = bind_ok (members schema v) _ h λ fs dict h1.
      guard_ok (not (has_exactly payload_keys fs)) schema _ h1 λ _ h2.
        guard_ok (not (at_is fs "schema" "mgk-capability/v1")) schema _ h2 λ _ h3.
          bind_ok (check_texts fs) _ h3 λ id texts h4.
            bind_ok (digest p (Value.obj (without "capability_id" fs))) _ h4 λ expected hashed h5.
              guard_ok (not (str_eq expected id)) schema _ h5 λ same h6.
                bind_ok (check_scope fs r) _ h6 λ _ scoped h7.
                  bind_ok (request_digest p r) _ h7 λ sha request h8.
                    guard_ok (not (at_is fs "request_digest" sha)) scope _ h8 λ bound h9.
                      bind_ok (index fs "saxp") _ h9 λ saxp at_saxp h10.
                        bind_ok (check_saxp saxp sha) _ h10 λ _ evidence h11.
                          bind_ok (index fs "resource_binding") _ h11 λ bv at_b h12.
                            bind_ok (members scope bv) _ h12 λ b dict' h13.
                              guard_ok (not (at_is b "path" r.resource)) scope _ h13 λ path h14.
                                bind_ok (check_binding r.action b) _ h14 λ _ checked h15.
                                  let e = ok_inj h15 in
                                  let (has_id, _, (nonce, has_nonce, hex)) =
                                    check_texts-ok fs id texts in
                                  let id_eq : expected ≡ id =
                                    (eq_iff expected id).0 (ground arith) in
                                  let bound_fs : IsBound fs r = record {
                                    request_sha = sha;
                                    capability_id = id;
                                    nonce = nonce;
                                    has_nonce = has_nonce;
                                    nonce_hex = hex;
                                    has_id = has_id;
                                    saxp = saxp;
                                    binding = b;
                                    request_hashed = request;
                                    request_bound = at fs "request_digest" sha bound;
                                    identified = hashed ∙ ap (λ (x : String). ok x) id_eq;
                                    scoped = check_scope-IsScoped fs r scoped;
                                    has_saxp = index-ok fs "saxp" at_saxp;
                                    evidence = check_saxp-HasEvidence saxp sha evidence;
                                    has_binding =
                                        index-ok fs "resource_binding" at_b
                                        ∙ ap some (members-ok scope bv dict');
                                    path = at b "path" r.resource path;
                                    checked = checked;
                                    shaped = check_binding-IsBindingFor r.action b checked;
                                  } in
                                  (
                                    members-ok schema v dict ∙ ap Value.obj e,
                                    subst (λ (x : Fields). IsBound x r) e bound_fs,
                                  )
