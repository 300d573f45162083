-- ===== src/Ledger/Integrity.antt =====
-- What `verify_integrity` of src/mgk/ledger.py establishes: an authentic checkpoint that the chain
-- of records meets.
use mgk_governance_kernel.Prelude.{
  ℕ, ◌≡◌, ◌∙◌, refl, sym, ap, subst, false, not, some, [], ◌∷◌, String, eq_iff, arith, length,
  codes, ◌==◌,
}
use mgk_governance_kernel.Prelude.Int.{ℤ, pos, ltb_ℤ, eqb_ℤ_iff}
use mgk_governance_kernel.Errors.{
  ok, audit_integrity, ok_inj, bind_ok, guard_ok, or_raise, or_raise_ok, rethrow, rethrow_ok,
}
use mgk_governance_kernel.Json.{Value, Fields, get, has_exactly, is_str}
use mgk_governance_kernel.Json.Access.{
  members, index, integer, text, members-ok, index-ok, text-ok, integer-ok, has_str,
}
use mgk_governance_kernel.Platform.{Bytes, Platform}
use mgk_governance_kernel.Canonical.{canonicalize, parse_canonical}
use mgk_governance_kernel.Crypto.{audit_domain, key_id, verify_value}
use mgk_governance_kernel.Ledger.{
  AuditLedger, Checkpoint, checkpoint_keys, genesis_hash, lines, natural, strip_newline,
  check_checkpoint, load_checkpoint, matches, scan, scan_lines, verify_integrity,
}
use mgk_governance_kernel.Ledger.Chain.{IsChain, IsChain-length, scan_lines-IsChain}

module _ (p : Platform) where
  -- A checkpoint file whose document names the ledger's key, the count and the head, under a
  -- signature of its canonical bytes that verifies with that key.
  pub record IsSigned (l : AuditLedger) (c : Checkpoint) : Type 0 where
    pub line : Bytes
    pub fields : Fields
    pub document : Fields
    pub encoded : Bytes
    pub signature : Value
    pub parsed : parse_canonical p line ≡ ok (Value.obj fields)
    pub has_document : get "document" fields ≡ some (Value.obj document)
    pub has_signature : get "signature" fields ≡ some signature
    pub signer : get "key_id" document ≡ some (Value.str (key_id p l.public_key))
    pub count : get "count" document ≡ some (Value.int c.count)
    pub head_hash : get "head_hash" document ≡ some (Value.str c.head_hash)
    pub canonical : canonicalize p (Value.obj document) ≡ ok encoded
    pub verified : verify_value p l.public_key audit_domain encoded signature ≡ ok tt

  natural-ok : (v : Value) {i : ℤ} → natural v ≡ ok i → v ≡ Value.int i
  natural-ok v h = bind_ok (integer audit_integrity v) _ h λ i read h1.
      guard_ok (ltb_ℤ i (pos 0)) audit_integrity _ h1
        λ _ h2. integer-ok audit_integrity v read ∙ ap Value.int (ok_inj h2)

  check_checkpoint-ok :
      (l : AuditLedger) (d : Fields) (c : Checkpoint)
      → check_checkpoint p l d ≡ ok c
      → (get "key_id" d ≡ some (Value.str (key_id p l.public_key)))
        × (get "count" d ≡ some (Value.int c.count))
        × (get "head_hash" d ≡ some (Value.str c.head_hash))
  unfolding check_checkpoint
  check_checkpoint-ok l d c h = bind_ok (index d "schema") _ h λ schema _ h1.
      guard_ok (not (is_str "mgk-ledger-checkpoint/v1" schema)) audit_integrity _ h1 λ _ h2.
        bind_ok (index d "key_id") _ h2 λ signer at_signer h3.
          guard_ok (not (is_str (key_id p l.public_key) signer)) audit_integrity _ h3 λ same h4.
            bind_ok (index d "count") _ h4 λ count_value at_count h5.
              bind_ok (natural count_value) _ h5 λ count counted h6.
                bind_ok (index d "updated_at") _ h6 λ time_value _ h7.
                  bind_ok (natural time_value) _ h7 λ time _ h8.
                    bind_ok (index d "head_hash") _ h8 λ head_value at_head h9.
                      bind_ok (text audit_integrity head_value) _ h9 λ head headed h10.
                        guard_ok (not (length (codes head) == 64)) audit_integrity _ h10 λ _ h11.
                          let e = ok_inj h11 in
                          (
                            has_str d "key_id" (key_id p l.public_key) at_signer same,
                            index-ok d "count" at_count
                                ∙ ap some (natural-ok count_value counted)
                                ∙ ap (λ (x : Checkpoint). some (Value.int x.count)) e,
                            index-ok d "head_hash" at_head
                                ∙ ap some (text-ok audit_integrity head_value headed)
                                ∙ ap (λ (x : Checkpoint). some (Value.str x.head_hash)) e,
                          )

  pub load_checkpoint-IsSigned :
      (l : AuditLedger) (c : Checkpoint) → load_checkpoint p l ≡ ok c → IsSigned l c
  unfolding load_checkpoint
  load_checkpoint-IsSigned l c h =
      bind_ok (or_raise l.checkpoint_file audit_integrity) _ h λ raw _ h1.
        bind_ok (or_raise (strip_newline raw) audit_integrity) _ h1 λ line _ h2.
          bind_ok (rethrow audit_integrity (parse_canonical p line)) _ h2 λ envelope parsed h3.
            bind_ok (members audit_integrity envelope) _ h3 λ fs dict h4.
              guard_ok (not (has_exactly ("document" ∷ "signature" ∷ []) fs)) audit_integrity _ h4
                λ _ h5. bind_ok (index fs "document") _ h5 λ inner at_doc h6.
                  bind_ok (members audit_integrity inner) _ h6 λ d dict' h7.
                    guard_ok (not (has_exactly checkpoint_keys d)) audit_integrity _ h7 λ _ h8.
                      bind_ok (check_checkpoint p l d) _ h8 λ c' checked h9.
                        bind_ok (rethrow audit_integrity (canonicalize p inner)) _ h9
                          λ encoded canon h10.
                            bind_ok (index fs "signature") _ h10 λ sig at_sig h11.
                              bind_ok
                                (rethrow audit_integrity
                                  (verify_value p l.public_key audit_domain encoded sig))
                                _ h11
                                λ _ verified h12.
                                  let d_eq = members-ok audit_integrity inner dict' in
                                  let facts =
                                    subst (λ (x : Checkpoint). check_checkpoint p l d ≡ ok x)
                                      (ok_inj h12) checked in
                                  let (signer, count, head) = check_checkpoint-ok l d c facts in
                                  record {
                                    line = line;
                                    fields = fs;
                                    document = d;
                                    encoded = encoded;
                                    signature = sig;
                                    parsed =
                                        subst (λ (x : Value). parse_canonical p line ≡ ok x)
                                          (members-ok audit_integrity envelope dict)
                                          (rethrow_ok audit_integrity _ parsed);
                                    has_document =
                                        subst (λ (x : Value). get "document" fs ≡ some x) d_eq
                                          (index-ok fs "document" at_doc);
                                    has_signature = index-ok fs "signature" at_sig;
                                    signer = signer;
                                    count = count;
                                    head_hash = head;
                                    canonical =
                                        subst (λ (x : Value). canonicalize p x ≡ ok encoded) d_eq
                                          (rethrow_ok audit_integrity _ canon);
                                    verified = rethrow_ok audit_integrity _ verified;
                                  }

  pos_inj : {a b : ℕ} → pos a ≡ pos b → a ≡ b
  pos_inj h = cc

  matches-eq :
      (c : Checkpoint) (n : ℕ) (head : String)
      → not (matches p c (n, head)) ≡ false
      → c ≡ record { count = pos n; head_hash = head }
  matches-eq c n head h = ground (arith, eqb_ℤ_iff c.count (pos n), eq_iff c.head_hash head)

  load_checkpoint-same :
      (l k : AuditLedger)
      → l.checkpoint_file ≡ k.checkpoint_file
      → l.public_key ≡ k.public_key
      → load_checkpoint p l ≡ load_checkpoint p k
  unfolding load_checkpoint check_checkpoint
  load_checkpoint-same l k files keys = rw (files, keys) refl

  -- A ledger that passes `verify_integrity` has a checkpoint that is signed with its key and names
  -- the count and the head that are returned, and its lines are a chain of records from the genesis
  -- hash to that head, as many as the count.
  pub verify_integrity-ok :
      (l : AuditLedger) (n : ℕ) (head : String)
      → verify_integrity p l ≡ ok (n, head)
      → (content : Bytes) × (l.ledger_file ≡ some content)
        × IsChain p (lines content) 0 genesis_hash n head
        × (n ≡ length (lines content))
        × (load_checkpoint p l ≡ ok (record { count = pos n; head_hash = head }))
        × IsSigned l (record { count = pos n; head_hash = head })
  unfolding verify_integrity scan
  verify_integrity-ok l n head h = bind_ok (load_checkpoint p l) _ h λ c loaded h1.
      bind_ok (scan p l) _ h1 λ scanned scan_ok h2.
        bind_ok (or_raise l.ledger_file audit_integrity) _ scan_ok λ content found chained.
          guard_ok (not (matches p c scanned)) audit_integrity _ h2 λ met h3.
            let e = ok_inj h3 in
            let same =
              matches-eq c n head (subst (λ (x : ℕ × String). not (matches p c x) ≡ false) e met) in
            let chain = scan_lines-IsChain p (lines content) 0 genesis_hash n head (
              subst (λ (x : ℕ × String). scan_lines p (lines content) 0 genesis_hash ≡ ok x) e
                chained) in
            let loaded' = subst (λ (x : Checkpoint). load_checkpoint p l ≡ ok x) same loaded in
            (
              content,
              or_raise_ok l.ledger_file audit_integrity found (λ q. q),
              chain,
              omega (arith, IsChain-length p chain),
              loaded',
              load_checkpoint-IsSigned l _ loaded',
            )

  -- One checkpoint and one key give one count and one head.
  pub verify_integrity-same_head :
      (l k : AuditLedger) (n m : ℕ) (head other : String)
      → l.checkpoint_file ≡ k.checkpoint_file
      → l.public_key ≡ k.public_key
      → verify_integrity p l ≡ ok (n, head)
      → verify_integrity p k ≡ ok (m, other)
      → (n ≡ m) × (head ≡ other)
  verify_integrity-same_head l k n m head other files keys hl hk =
      let (_, _, _, _, loaded, _) = verify_integrity-ok l n head hl in
      let (_, _, _, _, loaded', _) = verify_integrity-ok k m other hk in
      let e = ok_inj (sym loaded ∙ load_checkpoint-same l k files keys ∙ loaded') in
      (pos_inj (ap (λ (x : Checkpoint). x.count) e), ap (λ (x : Checkpoint). x.head_hash) e)
