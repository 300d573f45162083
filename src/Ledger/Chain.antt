-- ===== src/Ledger/Chain.antt =====
-- What `_scan` of src/mgk/ledger.py accepts: a chain of records, each with its own hash, its number
-- and the hash of the one before.
use mgk_governance_kernel.Prelude.{
  ℕ, suc, ◌+◌, ◌≡◌, ◌≢◌, subst, true, not, some, List, [], ◌∷◌, String, str_eq, eq_iff, arith,
  length,
}
use mgk_governance_kernel.Prelude.Int.{pos}
use mgk_governance_kernel.Errors.{
  ok, audit_integrity, ok_inj, bind_ok, guard_ok, or_raise, or_raise_ok, rethrow, rethrow_ok,
}
use mgk_governance_kernel.Json.{Value, Fields, get, without, has_exactly, is_str, is_int}
use mgk_governance_kernel.Json.Access.{members, index, text, members-ok, index-ok, text-ok, has_str}
use mgk_governance_kernel.Platform.{Bytes, Platform}
use mgk_governance_kernel.Canonical.{parse_canonical, digest}
use mgk_governance_kernel.Ledger.{
  record_keys, strip_newline, natural, check_record, scan_line, scan_lines,
}

module _ (p : Platform) where
  -- A line that holds record number `n + 1` after the hash `previous`, with its own hash.
  pub record IsRecord (line : Bytes) (n : ℕ) (previous hash : String) : Type 0 where
    pub raw : Bytes
    pub fields : Fields
    pub seq : Value
    pub kind : String
    pub terminated : strip_newline line ≡ some raw
    pub parsed : parse_canonical p raw ≡ ok (Value.obj fields)
    pub keys : has_exactly record_keys fields ≡ true
    pub event_hash : get "event_hash" fields ≡ some (Value.str hash)
    pub hashed : digest p (Value.obj (without "event_hash" fields)) ≡ ok hash
    pub has_seq : get "seq" fields ≡ some seq
    pub numbered : is_int (pos (suc n)) seq ≡ true
    pub linked : get "prev_hash" fields ≡ some (Value.str previous)
    pub event_type : get "event_type" fields ≡ some (Value.str kind)
    pub typed : kind ≢ ""

  pub data IsChain : List Bytes → ℕ → String → ℕ → String → Type 0 where
    done : {n : ℕ} {head : String} → IsChain [] n head n head
    link :
        {line : Bytes} {rest : List Bytes} {n m : ℕ} {previous hash head : String}
        → IsRecord line n previous hash
        → IsChain rest (suc n) hash m head
        → IsChain (line ∷ rest) n previous m head

  check_record-IsRecord :
      (line raw : Bytes) (fields : Fields) (n : ℕ) (previous hash : String)
      → strip_newline line ≡ some raw
      → parse_canonical p raw ≡ ok (Value.obj fields)
      → check_record p fields n previous ≡ ok hash
      → IsRecord line n previous hash
  unfolding check_record
  check_record-IsRecord line raw fs n previous hash end parsed h =
      guard_ok (not (has_exactly record_keys fs)) audit_integrity _ h λ keys h1.
        bind_ok (index fs "event_hash") _ h1 λ ev at_ev h2.
          bind_ok (rethrow audit_integrity (digest p (Value.obj (without "event_hash" fs)))) _ h2
            λ expected hashed h3.
              guard_ok (not (is_str expected ev)) audit_integrity _ h3 λ same h4.
                bind_ok (index fs "seq") _ h4 λ seq at_seq h5.
                  guard_ok (not (is_int (pos (suc n)) seq)) audit_integrity _ h5 λ numbered h6.
                    bind_ok (index fs "prev_hash") _ h6 λ prev at_prev h7.
                      guard_ok (not (is_str previous prev)) audit_integrity _ h7 λ linked h8.
                        bind_ok (index fs "timestamp") _ h8 λ ts at_ts h9.
                          bind_ok (natural ts) _ h9 λ time _ h10.
                            bind_ok (index fs "event_type") _ h10 λ kind_value at_kind h11.
                              bind_ok (text audit_integrity kind_value) _ h11 λ kind kinded h12.
                                guard_ok (str_eq kind "") audit_integrity _ h12 λ nonempty h13.
                                  let e = ok_inj h13 in
                                  record {
                                    raw = raw;
                                    fields = fs;
                                    seq = seq;
                                    kind = kind;
                                    terminated = end;
                                    parsed = parsed;
                                    keys = ground arith;
                                    event_hash =
                                        subst
                                          (λ (x : String). get "event_hash" fs ≡ some (Value.str x))
                                          e (has_str fs "event_hash" expected at_ev same);
                                    hashed =
                                        subst
                                          (λ (x : String).
                                            digest p (Value.obj (without "event_hash" fs)) ≡ ok x)
                                          e (rethrow_ok audit_integrity _ hashed);
                                    has_seq = index-ok fs "seq" at_seq;
                                    numbered = ground arith;
                                    linked = has_str fs "prev_hash" previous at_prev linked;
                                    event_type =
                                        subst (λ (x : Value). get "event_type" fs ≡ some x)
                                          (text-ok audit_integrity kind_value kinded)
                                          (index-ok fs "event_type" at_kind);
                                    typed = ground (arith, eq_iff kind "");
                                  }

  scan_line-IsRecord :
      (line : Bytes) (n : ℕ) (previous hash : String)
      → scan_line p line n previous ≡ ok hash
      → IsRecord line n previous hash
  unfolding scan_line
  scan_line-IsRecord line n previous hash h =
      bind_ok (or_raise (strip_newline line) audit_integrity) _ h λ raw end h1.
        bind_ok (rethrow audit_integrity (parse_canonical p raw)) _ h1 λ value parsed h2.
          bind_ok (members audit_integrity value) _ h2 λ fs dict h3.
            check_record-IsRecord line raw fs n previous hash
              (or_raise_ok (strip_newline line) audit_integrity end (λ e. e))
              (subst (λ (x : Value). parse_canonical p raw ≡ ok x)
                (members-ok audit_integrity value dict) (rethrow_ok audit_integrity _ parsed))
              h3

  pub scan_lines-IsChain :
      (ls : List Bytes) (n : ℕ) (previous : String) (m : ℕ) (head : String)
      → scan_lines p ls n previous ≡ ok (m, head)
      → IsChain ls n previous m head
  unfolding scan_lines
  scan_lines-IsChain [] n previous m head h =
      subst (λ (x : ℕ × String). IsChain [] n previous x.0 x.1) (ok_inj h) done
  scan_lines-IsChain (line ∷ rest) n previous m head h =
      bind_ok (scan_line p line n previous) _ h λ hash first h1.
        link (scan_line-IsRecord line n previous hash first)
          (scan_lines-IsChain rest (suc n) hash m head h1)

  -- A chain has as many records as its count says.
  pub IsChain-length :
      {ls : List Bytes} {n m : ℕ} {previous head : String}
      → IsChain ls n previous m head
      → m ≡ n + length ls
  IsChain-length done = omega arith
  IsChain-length (link r c) = omega (arith, IsChain-length c)
