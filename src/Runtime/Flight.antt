-- ===== src/Runtime/Flight.antt =====
-- runtime/flight.py: the flight recorder, a hash-chained log with a checkpoint that is not signed. A
-- recorder is the two files (`none` where one does not exist); `append` runs under the file lock, so a
-- call is one step. That writing, flushing and replacing a file succeed is not modelled.
use mgk_governance_kernel.Prelude.{
  ℕ, suc, ◌+◌, Bool, ◌&&◌, not, Option, none, some, List, [], ◌∷◌, ◌++◌, String, ◌==◌, str_eq,
  codes, length,
}
use mgk_governance_kernel.Prelude.Int.{ℤ, pos, ltb_ℤ, eqb_ℤ}
use mgk_governance_kernel.Errors.{
  Result, ok, err, audit_integrity, ◌>>=◌, ◌>>◌, raise_if, or_raise, rethrow,
}
use mgk_governance_kernel.Json.{Value, Fields, without, has_exactly, is_str, is_int}
use mgk_governance_kernel.Json.Access.{members, index, text}
use mgk_governance_kernel.Platform.{Bytes, Platform}
use mgk_governance_kernel.Canonical.{canonicalize, parse_canonical, digest}
use mgk_governance_kernel.Ledger.{
  Checkpoint, genesis_hash, newline, lines, strip_newline, natural, record_keys, body_of,
}

pub record FlightRecorder : Type 0 where
  pub flight_file : Option Bytes
  pub checkpoint_file : Option Bytes

abbrev pub content_of : FlightRecorder → Bytes
content_of f = elim f.flight_file [ none ↦ [] | some c ↦ c ]

-- `open("ab+")` makes the file if it is not there.
abbrev pub opened : FlightRecorder → FlightRecorder
opened f = record f { flight_file = some (content_of f) }

abbrev pub flight_checkpoint_keys : List String
flight_checkpoint_keys = "count" ∷ "head_hash" ∷ []

-- `checkpoint != (count, head)`.
abbrev pub differs : Checkpoint → ℕ × String → Bool
differs c (count, head) = not (eqb_ℤ c.count (pos count) && str_eq c.head_hash head)

module _ (p : Platform) where
  -- The bytes that `_write_checkpoint` puts in the file.
  unfoldable pub make_checkpoint : ℕ → String → Result Bytes
  make_checkpoint count head_hash = do
    document ← canonicalize p (
        Value.obj (
          Fields.field "count" (Value.int (pos count))
            (Fields.field "head_hash" (Value.str head_hash) Fields.end)))
    ok (document ++ newline ∷ [])

  unfoldable pub load_checkpoint : FlightRecorder → Result Checkpoint
  load_checkpoint f = do
    raw ← or_raise f.checkpoint_file audit_integrity
    line ← or_raise (strip_newline raw) audit_integrity
    value ← rethrow audit_integrity (parse_canonical p line)
    fields ← members audit_integrity value
    raise_if (not (has_exactly flight_checkpoint_keys fields)) audit_integrity
    count_value ← index fields "count"
    head_value ← index fields "head_hash"
    count ← natural count_value
    head_hash ← text audit_integrity head_value
    raise_if (not (length (codes head_hash) == 64)) audit_integrity
    ok (record { count = count; head_hash = head_hash })

  -- The tests of `_scan` on the members of one record; the result is its event hash.
  unfoldable pub check_record : Fields → ℕ → String → Result String
  check_record fields count previous = do
    raise_if (not (has_exactly record_keys fields)) audit_integrity
    event_hash ← index fields "event_hash"
    expected ← rethrow audit_integrity (digest p (Value.obj (without "event_hash" fields)))
    raise_if (not (is_str expected event_hash)) audit_integrity
    seq ← index fields "seq"
    raise_if (not (is_int (pos (suc count)) seq)) audit_integrity
    prev_hash ← index fields "prev_hash"
    raise_if (not (is_str previous prev_hash)) audit_integrity
    timestamp ← index fields "timestamp"
    time ← natural timestamp
    ok expected

  -- One round of the loop of `_scan`.
  unfoldable pub scan_line : Bytes → ℕ → String → Result String
  scan_line line count previous = do
    raw ← or_raise (strip_newline line) audit_integrity
    value ← rethrow audit_integrity (parse_canonical p raw)
    fields ← members audit_integrity value
    check_record fields count previous

  unfoldable pub scan_lines : List Bytes → ℕ → String → Result (ℕ × String)
  scan_lines [] count previous = ok (count, previous)
  scan_lines (line ∷ rest) count previous =
      scan_line line count previous >>= λ event_hash. scan_lines rest (suc count) event_hash

  unfoldable pub scan : FlightRecorder → Result (ℕ × String)
  scan f = do
    content ← or_raise f.flight_file audit_integrity
    scan_lines (lines content) 0 genesis_hash

  unfoldable pub verify_integrity : FlightRecorder → Result (ℕ × String)
  verify_integrity f = do
    scanned ← scan f
    checkpoint ← load_checkpoint f
    raise_if (differs checkpoint scanned) audit_integrity
    ok scanned

  -- The event hash and the line of a new record.
  unfoldable pub make_record : String → Fields → ℤ → ℕ × String → Result (String × Bytes)
  make_record event_type data' timestamp (count, head) = do
    event_hash ←
        digest p (Value.obj (body_of data' event_type head (count + 1) timestamp Fields.end))
    line ← canonicalize p (
        Value.obj (
          body_of data' event_type head (count + 1) timestamp
            (Fields.field "event_hash" (Value.str event_hash) Fields.end)))
    ok (event_hash, line ++ newline ∷ [])

  -- The tests of `append` before the lock.
  abbrev pub check_request : String → ℤ → Result (Unit {0})
  check_request event_type timestamp =
      raise_if (str_eq event_type "") audit_integrity
      >> raise_if (ltb_ℤ timestamp (pos 0)) audit_integrity

  -- What is known when the record is written: the count before it, its hash, its line.
  unfoldable pub prepare : FlightRecorder → String → Fields → ℤ → Result (ℕ × String × Bytes)
  prepare f event_type data' timestamp = do
    (count, head) ← verify_integrity f
    (event_hash, line) ← make_record event_type data' timestamp (count, head)
    ok (count, event_hash, line)

  -- The checkpoint after the record: where it raises, the record stays written.
  abbrev pub replace_checkpoint :
      Result Bytes → String → FlightRecorder → Result String × FlightRecorder
  replace_checkpoint (err e) event_hash f = (err e, f)
  replace_checkpoint (ok document) event_hash f =
      (ok event_hash, record f { checkpoint_file = some document })

  unfoldable pub write_record :
      Result (ℕ × String × Bytes) → FlightRecorder → Result String × FlightRecorder
  write_record (err e) f = (err e, f)
  write_record (ok (count, event_hash, line)) f =
      replace_checkpoint (make_checkpoint (count + 1) event_hash) event_hash
        (record f { flight_file = some (content_of f ++ line) })

  abbrev pub under_lock :
      Result (Unit {0}) → String → Fields → ℤ → FlightRecorder → Result String × FlightRecorder
  under_lock (err e) event_type data' timestamp f = (err e, f)
  under_lock (ok _) event_type data' timestamp f =
      write_record (prepare (opened f) event_type data' timestamp) (opened f)

  -- `FlightRecorder.append`: the result or the exception, and the files as they are left.
  unfoldable pub append : String → Fields → ℤ → FlightRecorder → Result String × FlightRecorder
  append event_type data' timestamp f =
      under_lock (check_request event_type timestamp) event_type data' timestamp f

  -- The files that `__init__` finds or makes: both, or neither.
  unfoldable pub found_files : FlightRecorder → Option Bytes → Option Bytes → Result FlightRecorder
  found_files f (some _) (some _) = ok f
  found_files f none none = make_checkpoint 0 genesis_hash >>= λ document.
      ok (record { flight_file = some []; checkpoint_file = some document })
  found_files f _ _ = err audit_integrity

  unfoldable pub open_recorder : FlightRecorder → Result FlightRecorder
  open_recorder f = do
    g ← found_files f f.flight_file f.checkpoint_file
    verified ← verify_integrity g
    ok g
