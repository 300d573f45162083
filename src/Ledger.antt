-- ===== src/Ledger.antt =====
-- src/mgk/ledger.py: the hash-chained ledger with a signed checkpoint. A ledger is the two files
-- (`none` where a file does not exist) and the keys; `append` runs under the file lock, so a call is
-- one step. That writing, flushing and replacing a file succeed is not modelled.
pub mod Chain
pub mod Integrity
pub mod Tampering
pub mod Appending
use mgk_governance_kernel.Prelude.{
  ℕ, suc, ◌+◌, ◌≡◌, Bool, true, false, ◌&&◌, ◌||◌, not, Option, none, some, List, [], ◌∷◌, ◌++◌,
  String, ◌==◌, str_eq, codes, length, if◌then◌else◌,
}
use mgk_governance_kernel.Prelude.Int.{ℤ, pos, ltb_ℤ, eqb_ℤ}
use mgk_governance_kernel.Errors.{
  Error, Result, ok, err, audit_integrity, ◌>>=◌, ◌>>◌, raise_if, or_raise, rethrow,
}
use mgk_governance_kernel.Json.{Value, Fields, get, without, has_exactly, is_str, is_int}
use mgk_governance_kernel.Json.Access.{members, index, integer, text}
use mgk_governance_kernel.Platform.{Bytes, Platform}
use mgk_governance_kernel.Canonical.{canonicalize, parse_canonical, digest}
use mgk_governance_kernel.Crypto.{audit_domain, key_id, sign, verify_value}
use mgk_governance_kernel.State.{signed}

pub record AuditLedger : Type 0 where
  pub ledger_file : Option Bytes
  pub checkpoint_file : Option Bytes
  pub public_key : Bytes
  pub private_key : Option Bytes

abbrev pub genesis_hash : String
genesis_hash = "0000000000000000000000000000000000000000000000000000000000000000"

abbrev pub newline : ℕ
newline = 10

-- `for line in stream`: each line with its newline, a last line without one as it stands.
unfoldable pub lines : Bytes → List Bytes
lines [] = []
lines (c ∷ cs) =
    let rest = lines cs in
    if c == newline
    then (c ∷ []) ∷ rest
    else elim rest [ [] ↦ (c ∷ []) ∷ [] | l ∷ ls ↦ (c ∷ l) ∷ ls ]

-- `line[:-1]` where `line.endswith(b"\n")`.
unfoldable pub strip_newline : Bytes → Option Bytes
strip_newline [] = none
strip_newline (c ∷ []) = if c == newline then some [] else none
strip_newline (c ∷ d ∷ cs) = elim (strip_newline (d ∷ cs)) [ none ↦ none | some l ↦ some (c ∷ l) ]

-- The part of a checkpoint document that the code reads later.
pub record Checkpoint : Type 0 where
  pub count : ℤ
  pub head_hash : String

-- `type(value) is not int or value < 0`.
abbrev pub natural : Value → Result ℤ
natural v = integer audit_integrity v >>= λ i. raise_if (ltb_ℤ i (pos 0)) audit_integrity >> ok i

abbrev pub record_keys : List String
record_keys = "data" ∷ "event_hash" ∷ "event_type" ∷ "prev_hash" ∷ "seq" ∷ "timestamp" ∷ []

abbrev pub checkpoint_keys : List String
checkpoint_keys = "count" ∷ "head_hash" ∷ "key_id" ∷ "schema" ∷ "updated_at" ∷ []

-- The record that `append` writes; without the last field it is what is hashed.
abbrev pub body_of : Fields → String → String → ℕ → ℤ → Fields → Fields
body_of data' event_type prev_hash seq timestamp last = Fields.field "data" (Value.obj data') (
    Fields.field "event_type" (Value.str event_type) (
      Fields.field "prev_hash" (Value.str prev_hash) (
        Fields.field "seq" (Value.int (pos seq))
          (Fields.field "timestamp" (Value.int timestamp) last))))

module _ (p : Platform) where
  abbrev pub checkpoint_document : Bytes → ℕ → String → ℤ → Value
  checkpoint_document key count head_hash updated_at = Value.obj (
      Fields.field "count" (Value.int (pos count)) (
        Fields.field "head_hash" (Value.str head_hash) (
          Fields.field "key_id" (Value.str (key_id p key)) (
            Fields.field "schema" (Value.str "mgk-ledger-checkpoint/v1")
              (Fields.field "updated_at" (Value.int updated_at) Fields.end)))))

  -- The bytes that `_write_checkpoint` puts in the file.
  unfoldable pub make_checkpoint : AuditLedger → ℕ → String → ℤ → Result Bytes
  make_checkpoint l count head_hash updated_at = do
    private ← or_raise l.private_key audit_integrity
    let document = checkpoint_document l.public_key count head_hash updated_at
    encoded ← canonicalize p document
    envelope ← canonicalize p (signed document (sign p private audit_domain encoded))
    ok (envelope ++ newline ∷ [])

  -- The tests of `_load_checkpoint` on the document.
  unfoldable pub check_checkpoint : AuditLedger → Fields → Result Checkpoint
  check_checkpoint l document = do
    schema ← index document "schema"
    raise_if (not (is_str "mgk-ledger-checkpoint/v1" schema)) audit_integrity
    signer ← index document "key_id"
    raise_if (not (is_str (key_id p l.public_key) signer)) audit_integrity
    count_value ← index document "count"
    count ← natural count_value
    time_value ← index document "updated_at"
    updated_at ← natural time_value
    head_value ← index document "head_hash"
    head_hash ← text audit_integrity head_value
    raise_if (not (length (codes head_hash) == 64)) audit_integrity
    ok (record { count = count; head_hash = head_hash })

  unfoldable pub load_checkpoint : AuditLedger → Result Checkpoint
  load_checkpoint l = do
    raw ← or_raise l.checkpoint_file audit_integrity
    line ← or_raise (strip_newline raw) audit_integrity
    envelope ← rethrow audit_integrity (parse_canonical p line)
    fields ← members audit_integrity envelope
    raise_if (not (has_exactly ("document" ∷ "signature" ∷ []) fields)) audit_integrity
    inner ← index fields "document"
    document ← members audit_integrity inner
    raise_if (not (has_exactly checkpoint_keys document)) audit_integrity
    checkpoint ← check_checkpoint l document
    encoded ← rethrow audit_integrity (canonicalize p inner)
    signature ← index fields "signature"
    rethrow audit_integrity (verify_value p l.public_key audit_domain encoded signature)
    ok checkpoint

  -- The tests of `_scan` on the members of one record; the result is its event hash.
  unfoldable pub check_record : Fields → ℕ → String → Result String
  check_record fields count previous = do
    raise_if (not (has_exactly record_keys fields)) audit_integrity
    event_hash ← index fields "event_hash"
    expected ← rethrow audit_integrity (digest p (Value.obj (without "event_hash" fields)))
    raise_if (not (is_str expected event_hash)) audit_integrity
    seq ← index fields "seq"
    raise_if (not (is_int (pos (suc count)) seq)) audit_integrity
    prev_hash ← index fields "prev_hash"
    raise_if (not (is_str previous prev_hash)) audit_integrity
    timestamp ← index fields "timestamp"
    time ← natural timestamp
    event_type ← index fields "event_type"
    kind ← text audit_integrity event_type
    raise_if (str_eq kind "") audit_integrity
    ok expected

  -- One round of the loop of `_scan`.
  unfoldable pub scan_line : Bytes → ℕ → String → Result String
  scan_line line count previous = do
    raw ← or_raise (strip_newline line) audit_integrity
    value ← rethrow audit_integrity (parse_canonical p raw)
    fields ← members audit_integrity value
    check_record fields count previous

  unfoldable pub scan_lines : List Bytes → ℕ → String → Result (ℕ × String)
  scan_lines [] count previous = ok (count, previous)
  scan_lines (line ∷ rest) count previous =
      scan_line line count previous >>= λ event_hash. scan_lines rest (suc count) event_hash

  unfoldable pub scan : AuditLedger → Result (ℕ × String)
  scan l = do
    content ← or_raise l.ledger_file audit_integrity
    scan_lines (lines content) 0 genesis_hash

  -- `checkpoint["count"] != count or checkpoint["head_hash"] != head`.
  abbrev pub matches : Checkpoint → ℕ × String → Bool
  matches c (count, head) = eqb_ℤ c.count (pos count) && str_eq c.head_hash head

  unfoldable pub verify_integrity : AuditLedger → Result (ℕ × String)
  verify_integrity l = do
    checkpoint ← load_checkpoint l
    scanned ← scan l
    raise_if (not (matches checkpoint scanned)) audit_integrity
    ok scanned

  -- The event hash and the line of a new record.
  unfoldable pub make_record : String → Fields → ℤ → ℕ × String → Result (String × Bytes)
  make_record event_type data' timestamp (count, head) = do
    event_hash ←
        digest p (Value.obj (body_of data' event_type head (count + 1) timestamp Fields.end))
    line ← canonicalize p (
        Value.obj (
          body_of data' event_type head (count + 1) timestamp
            (Fields.field "event_hash" (Value.str event_hash) Fields.end)))
    ok (event_hash, line ++ newline ∷ [])

  -- The tests of `append` before the lock.
  abbrev pub check_request : AuditLedger → String → ℤ → Result Bytes
  check_request l event_type timestamp = or_raise l.private_key audit_integrity >>= λ private.
      raise_if (str_eq event_type "") audit_integrity
      >> (raise_if (ltb_ℤ timestamp (pos 0)) audit_integrity >> ok private)

  abbrev pub content_of : AuditLedger → Bytes
  content_of l = elim l.ledger_file [ none ↦ [] | some c ↦ c ]

  -- `open("ab+")` makes the file if it is not there.
  abbrev pub opened : AuditLedger → AuditLedger
  opened l = record l { ledger_file = some (content_of l) }

  -- What is known when the record is written: the count and the head before it, its hash, its line.
  abbrev pub Prepared : Type 0
  Prepared = ℕ × String × Bytes

  unfoldable pub prepare : AuditLedger → String → Fields → ℤ → Result Prepared
  prepare l event_type data' timestamp = do
    (count, head) ← verify_integrity l
    (event_hash, line) ← make_record event_type data' timestamp (count, head)
    ok (count, event_hash, line)

  -- The checkpoint after the record: where it raises, the record stays written.
  abbrev pub replace_checkpoint : Result Bytes → String → AuditLedger → Result String × AuditLedger
  replace_checkpoint (err e) event_hash l = (err e, l)
  replace_checkpoint (ok envelope) event_hash l =
      (ok event_hash, record l { checkpoint_file = some envelope })

  unfoldable pub write_record : Result Prepared → ℤ → AuditLedger → Result String × AuditLedger
  write_record (err e) timestamp l = (err e, l)
  write_record (ok (count, event_hash, line)) timestamp l =
      replace_checkpoint (make_checkpoint l (count + 1) event_hash timestamp) event_hash
        (record l { ledger_file = some (content_of l ++ line) })

  abbrev pub under_lock :
      Result Bytes → String → Fields → ℤ → AuditLedger → Result String × AuditLedger
  under_lock (err e) event_type data' timestamp l = (err e, l)
  under_lock (ok _) event_type data' timestamp l =
      write_record (prepare (opened l) event_type data' timestamp) timestamp (opened l)

  -- `AuditLedger.append`: the result or the exception, and the files as they are left.
  unfoldable pub append : String → Fields → ℤ → AuditLedger → Result String × AuditLedger
  append event_type data' timestamp l =
      under_lock (check_request l event_type timestamp) event_type data' timestamp l

  -- `FailureLedger.record`.
  unfoldable pub record_failure : Fields → ℤ → AuditLedger → Result String × AuditLedger
  record_failure data' timestamp l = append "FAILURE" data' timestamp l

  -- The files that `__init__` finds or makes: both, or neither with a key to sign the first
  -- checkpoint.
  unfoldable pub found_files : AuditLedger → Option Bytes → Option Bytes → Result AuditLedger
  found_files l (some _) (some _) = ok l
  found_files l none none = do
    private ← or_raise l.private_key audit_integrity
    envelope ← make_checkpoint l 0 genesis_hash (pos 0)
    ok (record l { ledger_file = some []; checkpoint_file = some envelope })
  found_files l _ _ = err audit_integrity

  unfoldable pub open_ledger : AuditLedger → Result AuditLedger
  open_ledger l = do
    m ← found_files l l.ledger_file l.checkpoint_file
    verified ← verify_integrity m
    ok m
