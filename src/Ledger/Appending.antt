-- ===== src/Ledger/Appending.antt =====
-- What `append` of src/mgk/ledger.py does to the files, on every branch.
use mathlib.Core.List.{append-nil}
use mgk_governance_kernel.Prelude.{
  ℕ, ◌+◌, ◌≡◌, refl, sym, ◌∙◌, ap, subst, some, true, [], ◌∷◌, ◌++◌, String,
}
use mgk_governance_kernel.Prelude.Int.{ℤ, pos}
use mgk_governance_kernel.Errors.{
  Result, ok, err, audit_integrity, ok_inj, bind_ok, or_raise, or_raise_ok,
}
use mgk_governance_kernel.Json.{Value, Fields, get, without, has_exactly}
use mgk_governance_kernel.Platform.{Bytes, Platform}
use mgk_governance_kernel.Canonical.{canonicalize, digest}
use mgk_governance_kernel.Crypto.{audit_domain, key_id, sign}
use mgk_governance_kernel.State.{signed as signed_document}
use mgk_governance_kernel.Ledger.{
  record_keys, checkpoint_keys, body_of, checkpoint_document, AuditLedger, append, check_request,
  content_of, opened, Prepared, prepare, make_record, make_checkpoint, replace_checkpoint,
  write_record, under_lock, verify_integrity,
}

module _ (p : Platform) where
  -- A line of the ledger that holds record number `number` of the event, after the hash `previous`: its
  -- members, its own hash, and its canonical bytes with a newline.
  pub record IsWritten (event_type : String) (data' : Fields) (timestamp : ℤ) (number : ℕ)
      (previous hash : String) (line : Bytes) : Type 0 where
    pub fields : Fields
    pub encoded : Bytes
    pub exact : has_exactly record_keys fields ≡ true
    pub kind : get "event_type" fields ≡ some (Value.str event_type)
    pub content : get "data" fields ≡ some (Value.obj data')
    pub time : get "timestamp" fields ≡ some (Value.int timestamp)
    pub numbered : get "seq" fields ≡ some (Value.int (pos number))
    pub linked : get "prev_hash" fields ≡ some (Value.str previous)
    pub event_hash : get "event_hash" fields ≡ some (Value.str hash)
    pub hashed : digest p (Value.obj (without "event_hash" fields)) ≡ ok hash
    pub canonical : canonicalize p (Value.obj fields) ≡ ok encoded
    pub terminated : line ≡ encoded ++ b'\n' ∷ []

  -- The content of a checkpoint file for `number` records that end at `hash`: its document, signed with
  -- the private key over the canonical bytes, in canonical form with a newline.
  pub record IsCheckpoint (l : AuditLedger) (number : ℕ) (hash : String) (timestamp : ℤ)
      (content : Bytes) : Type 0 where
    pub private : Bytes
    pub document : Fields
    pub signed_bytes : Bytes
    pub fields : Fields
    pub encoded : Bytes
    pub key : l.private_key ≡ some private
    pub exact : has_exactly checkpoint_keys document ≡ true
    pub tagged : get "schema" document ≡ some (Value.str "mgk-ledger-checkpoint/v1")
    pub counted : get "count" document ≡ some (Value.int (pos number))
    pub headed : get "head_hash" document ≡ some (Value.str hash)
    pub signer : get "key_id" document ≡ some (Value.str (key_id p l.public_key))
    pub time : get "updated_at" document ≡ some (Value.int timestamp)
    pub to_sign : canonicalize p (Value.obj document) ≡ ok signed_bytes
    pub has_document : get "document" fields ≡ some (Value.obj document)
    pub has_signature :
        get "signature" fields ≡ some (Value.str (sign p private audit_domain signed_bytes))
    pub canonical : canonicalize p (Value.obj fields) ≡ ok encoded
    pub terminated : content ≡ encoded ++ b'\n' ∷ []

  -- What a successful call has done: the ledger passed with `count` records, one line was added, and
  -- the checkpoint is that of one record more.
  pub record IsAppended (event_type : String) (data' : Fields) (timestamp : ℤ) (hash : String)
      (l l' : AuditLedger) : Type 0 where
    pub count : ℕ
    pub head : String
    pub line : Bytes
    pub envelope : Bytes
    pub verified : verify_integrity p (opened p l) ≡ ok (count, head)
    pub recorded : IsWritten event_type data' timestamp (count + 1) head hash line
    pub signed : IsCheckpoint l (count + 1) hash timestamp envelope
    pub extended : l'.ledger_file ≡ some (content_of p l ++ line)
    pub replaced : l'.checkpoint_file ≡ some envelope

  make_record-IsWritten :
      (t : String) (d : Fields) (ts : ℤ) (count : ℕ) (head hash : String) (line : Bytes)
      → make_record p t d ts (count, head) ≡ ok (hash, line)
      → IsWritten t d ts (count + 1) head hash line
  unfolding make_record get without has_exactly
  make_record-IsWritten t d ts count head hash line h =
      bind_ok (digest p (Value.obj (body_of d t head (count + 1) ts Fields.end))) _ h
        λ own hashed h1.
          bind_ok
            (canonicalize p (
              Value.obj (
                body_of d t head (count + 1) ts
                  (Fields.field "event_hash" (Value.str own) Fields.end))))
            _ h1
            λ bytes canonical h2.
              let e = ok_inj h2 in
              subst (λ (x : String × Bytes). IsWritten t d ts (count + 1) head x.0 x.1) e
                (record {
                  fields =
                      body_of d t head (count + 1) ts
                        (Fields.field "event_hash" (Value.str own) Fields.end);
                  encoded = bytes;
                  exact = refl;
                  kind = refl;
                  content = refl;
                  time = refl;
                  numbered = refl;
                  linked = refl;
                  event_hash = refl;
                  hashed = hashed;
                  canonical = canonical;
                  terminated = refl;
                })

  make_checkpoint-IsCheckpoint :
      (l : AuditLedger) (number : ℕ) (hash : String) (ts : ℤ) (content : Bytes)
      → make_checkpoint p (opened p l) number hash ts ≡ ok content
      → IsCheckpoint l number hash ts content
  unfolding make_checkpoint get has_exactly
  make_checkpoint-IsCheckpoint l number hash ts content h =
      bind_ok (or_raise l.private_key audit_integrity) _ h λ private found h1.
        bind_ok (canonicalize p (checkpoint_document p l.public_key number hash ts)) _ h1
          λ to_sign encoded h2.
            bind_ok
              (canonicalize p (
                signed_document (checkpoint_document p l.public_key number hash ts)
                  (sign p private audit_domain to_sign)))
              _ h2
              λ bytes canonical h3. record {
                private = private;
                document = _;
                signed_bytes = to_sign;
                fields = _;
                encoded = bytes;
                key = or_raise_ok l.private_key audit_integrity found (λ q. q);
                exact = refl;
                tagged = refl;
                counted = refl;
                headed = refl;
                signer = refl;
                time = refl;
                to_sign = encoded;
                has_document = refl;
                has_signature = refl;
                canonical = canonical;
                terminated = sym (ok_inj h3);
              }

  -- A call only adds to the end of the ledger file, by the exception or the result that it has.
  abbrev pub Appends : String → Fields → ℤ → AuditLedger → Result String × AuditLedger → Type 0
  Appends event_type data' timestamp l (ok hash, l') =
      IsAppended event_type data' timestamp hash l l'
  Appends event_type data' timestamp l (err e, l') =
      (l'.checkpoint_file ≡ l.checkpoint_file)
      × ((line : Bytes) × (content_of p l' ≡ content_of p l ++ line))

  replace-Appends :
      (r : Result Bytes) (t : String) (d : Fields) (ts : ℤ) (l : AuditLedger) (count : ℕ)
      (head hash : String) (line : Bytes)
      → verify_integrity p (opened p l) ≡ ok (count, head)
      → make_record p t d ts (count, head) ≡ ok (hash, line)
      → make_checkpoint p (opened p l) (count + 1) hash ts ≡ r
      → Appends t d ts l
          (replace_checkpoint p r hash (record l { ledger_file = some (content_of p l ++ line) }))
  replace-Appends (err e) t d ts l count head hash line v m c = (refl, (line, refl))
  replace-Appends (ok envelope) t d ts l count head hash line v m c = record {
    count = count;
    head = head;
    line = line;
    envelope = envelope;
    verified = v;
    recorded = make_record-IsWritten t d ts count head hash line m;
    signed = make_checkpoint-IsCheckpoint l (count + 1) hash ts envelope c;
    extended = refl;
    replaced = refl;
  }

  prepare-ok :
      (t : String) (d : Fields) (ts : ℤ) (l : AuditLedger) (count : ℕ) (hash : String)
      (line : Bytes)
      → prepare p l t d ts ≡ ok (count, hash, line)
      → (head : String) × (verify_integrity p l ≡ ok (count, head))
        × (make_record p t d ts (count, head) ≡ ok (hash, line))
  unfolding prepare
  prepare-ok t d ts l count hash line h = bind_ok (verify_integrity p l) _ h λ seen verified h1.
      bind_ok (make_record p t d ts seen) _ h1 λ made recorded h2.
        let e = ok_inj h2 in
        let number : seen.0 ≡ count = ap (λ (x : Prepared p). x.0) e in
        let both : made ≡ (hash, line) = ap (λ (x : Prepared p). (x.1, x.2)) e in
        (
          seen.1,
          verified ∙ ap (λ (c : ℕ). ok (c, seen.1)) number,
          subst (λ (c : ℕ). make_record p t d ts (c, seen.1) ≡ ok (hash, line)) number
              (recorded ∙ ap (λ (x : String × Bytes). ok x) both),
        )

  write-Appends :
      (r : Result (Prepared p)) (t : String) (d : Fields) (ts : ℤ) (l : AuditLedger)
      → prepare p (opened p l) t d ts ≡ r
      → Appends t d ts l (write_record p r ts (opened p l))
  unfolding write_record
  write-Appends (err e) t d ts l h = (refl, ([], sym (append-nil (content_of p l))))
  write-Appends (ok (count, hash, line)) t d ts l h =
      let (head, verified, recorded) = prepare-ok t d ts (opened p l) count hash line h in
      replace-Appends (make_checkpoint p (opened p l) (count + 1) hash ts) t d ts l count head hash
        line verified recorded refl

  lock-Appends :
      (r : Result Bytes) (t : String) (d : Fields) (ts : ℤ) (l : AuditLedger)
      → Appends t d ts l (under_lock p r t d ts l)
  lock-Appends (err e) t d ts l = (refl, ([], sym (append-nil (content_of p l))))
  lock-Appends (ok _) t d ts l = write-Appends (prepare p (opened p l) t d ts) t d ts l refl

  -- The ledger is append-only, whatever happens. A call that raises leaves the checkpoint as it was,
  -- and the old content is the beginning of the new. A call that returns a hash found a ledger that
  -- passes `verify_integrity`, and added one line, which ends in a newline and holds the canonical record
  -- of the event type, the data and the time, its number one more than the count, linked to the head, with
  -- the hash of its other members, which is the hash that is returned. The checkpoint file then is the
  -- canonical form of a document that names that number, that hash, the key and the time, with the
  -- signature of the document by the private key.
  pub append-Appends :
      (t : String) (d : Fields) (ts : ℤ) (l : AuditLedger) → Appends t d ts l (append p t d ts l)
  unfolding append
  append-Appends t d ts l = lock-Appends (check_request p l t ts) t d ts l
