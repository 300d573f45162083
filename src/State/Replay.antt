-- ===== src/State/Replay.antt =====
-- Nonces are consumed once (src/mgk/state.py, `consume_nonce`).
use mgk_governance_kernel.Prelude.{
  Option, none, some, ◌≡◌, refl, sym, subst, ap, true, false, ◌||◌, not, List, [], ◌∷◌, ◌++◌,
  String, str_eq, eq_iff, arith,
}
use mgk_governance_kernel.Prelude.Int.{ℤ, pos, ltb_ℤ, ◌≤ℤ◌}
use mgk_governance_kernel.Errors.{
  ok, err, replay, epoch, value_error, state_integrity, ok_inj, bind_ok, guard_ok, raise_if, ◌>>◌,
}
use mgk_governance_kernel.Canonical.{eq_bytes}
use mgk_governance_kernel.Platform.{Bytes, Platform}
use mgk_governance_kernel.State.Epoch.{bump_epoch-ok}
use mgk_governance_kernel.State.{
  Consumed, Store, SecurityState, is_consumed, integrity_check, consume_nonce, bump_epoch,
  initialize_epoch, insert_envelope, make_envelope, ensure_schema, schema_version_1,
}

is_consumed-append :
    (n : String) (rows : List Consumed) (r : Consumed)
    → is_consumed n (rows ++ r ∷ []) ≡ (is_consumed n rows || str_eq r.nonce n)
is_consumed-append n [] r = ground arith
is_consumed-append n (x ∷ rows) r = ground (arith, is_consumed-append n rows r)

abbrev pub row_of : String → String → ℤ → Consumed
row_of n c t = record { nonce = n; capability_id = c; consumed_at = t }

pub consumed_last :
    (n c : String) (t : ℤ) (rows : List Consumed) → is_consumed n (rows ++ row_of n c t ∷ []) ≡ true
consumed_last n c t rows = ground (arith, is_consumed-append n rows (row_of n c t), eq_iff n n)

-- A call that succeeds found a sound file and a new nonce, and appends one row.
pub consume_nonce-ok :
    (n c : String) (t : ℤ) (s s' : SecurityState)
    → consume_nonce n c t s ≡ ok s'
    → (integrity_check s ≡ ok tt)
      × (is_consumed n s.store.consumed_nonces ≡ false)
      × (s' ≡ record s {
        store = record s.store { consumed_nonces = s.store.consumed_nonces ++ row_of n c t ∷ [] };
      })
unfolding consume_nonce
consume_nonce-ok n c t s s' h = bind_ok (integrity_check s) _ h λ _ sound h1.
    guard_ok (is_consumed n s.store.consumed_nonces) replay _ h1
      λ new h2. (sound, new, sym (ok_inj h2))

-- No nonce stands in two rows.
abbrev pub AreDistinct : List Consumed → Type 0
AreDistinct [] = Unit
AreDistinct (r ∷ rows) = (is_consumed r.nonce rows ≡ false) × AreDistinct rows

integrity-consumed :
    (s : SecurityState) (rows : List Consumed)
    → integrity_check (record s { store = record s.store { consumed_nonces = rows } })
      ≡ integrity_check s
unfolding integrity_check
integrity-consumed s rows = refl

-- Once a nonce has been consumed, every later attempt with it is a ReplayError, whatever capability
-- and time come with it.
pub consume_nonce_twice :
    (n c c' : String) (t t' : ℤ) (s s' : SecurityState)
    → consume_nonce n c t s ≡ ok s'
    → consume_nonce n c' t' s' ≡ err replay
unfolding consume_nonce
consume_nonce_twice n c c' t t' s s' h =
    let (sound, new, e) = consume_nonce-ok n c t s s' h in
    let rows = s.store.consumed_nonces in
    rw e (
      rw (integrity-consumed s (rows ++ row_of n c t ∷ []), sound)
        (rw (consumed_last n c t rows) refl))

AreDistinct-append :
    (rows : List Consumed) (r : Consumed)
    → AreDistinct rows
    → is_consumed r.nonce rows ≡ false
    → AreDistinct (rows ++ r ∷ [])
AreDistinct-append [] r d h = (refl, tt)
AreDistinct-append (x ∷ rows) r d h = (
  ground (arith, is_consumed-append x.nonce rows r, eq_iff x.nonce r.nonce, eq_iff r.nonce x.nonce),
  AreDistinct-append rows r d.1 (ground arith),
)

-- One committed transaction on the file, by any process: the file is opened, which writes the version of
-- the schema where none is there, a nonce is consumed, the first epoch is written, or the epoch is bumped. A bump reads its epoch before its transaction; the transaction
-- begins at what other connections have made of the file by then.
pub data Step (p : Platform) (a b : Store) : Type 0 where
  opens : (s s' : SecurityState) → ensure_schema s ≡ ok s' → a ≡ s.store → b ≡ s'.store → Step p a b
  consumes :
      (n c : String) (t : ℤ) (s s' : SecurityState)
      → consume_nonce n c t s ≡ ok s'
      → a ≡ s.store
      → b ≡ s'.store
      → Step p a b
  initializes :
      (n : ℤ) (signer : Bytes) (s s' : SecurityState)
      → initialize_epoch p n signer s ≡ ok s'
      → a ≡ s.store
      → b ≡ s'.store
      → Step p a b
  bumps :
      (others : Store → Store) (signer : Bytes) (s s' : SecurityState) (n : ℤ)
      → bump_epoch p others signer s ≡ ok (n, s')
      → a ≡ others s.store
      → b ≡ s'.store
      → Step p a b

pub data Reach (p : Platform) (a : Store) : Store → Type 0 where
  here : Reach p a a
  next : {b c : Store} → Reach p a b → Step p b c → Reach p a c

-- What no transaction undoes.
pub record Keeps (a b : Store) : Type 0 where
  pub remembers :
      (n : String) → is_consumed n a.consumed_nonces ≡ true → is_consumed n b.consumed_nonces ≡ true
  pub distinct : AreDistinct a.consumed_nonces → AreDistinct b.consumed_nonces

Keeps-same : (a b : Store) → b.consumed_nonces ≡ a.consumed_nonces → Keeps a b
Keeps-same a b e = record { remembers = λ n h. rw e h; distinct = λ h. subst AreDistinct (sym e) h }

insert_envelope-ok :
    (p : Platform) (row : Option Bytes) (envelope : Bytes) (s s' : SecurityState)
    → insert_envelope p row envelope s ≡ ok s'
    → (row ≡ none) × (s'.store.consumed_nonces ≡ s.store.consumed_nonces)
unfolding insert_envelope
insert_envelope-ok p none envelope s s' h =
    (refl, ap (λ (x : SecurityState). x.store.consumed_nonces) (sym (ok_inj h)))
insert_envelope-ok p (some _) envelope s s' h = cc

initialize_epoch-nonces :
    (p : Platform) (n : ℤ) (signer : Bytes) (s s' : SecurityState)
    → initialize_epoch p n signer s ≡ ok s'
    → s'.store.consumed_nonces ≡ s.store.consumed_nonces
unfolding initialize_epoch
initialize_epoch-nonces p n signer s s' h = guard_ok (ltb_ℤ n (pos 1)) value_error _ h λ _ h1.
    bind_ok (make_envelope p n signer) _ h1 λ envelope _ h2.
      guard_ok (not s.store.readable) state_integrity _ h2
        λ _ h3. (insert_envelope-ok p s.store.epoch_envelope envelope s s' h3).1

-- The epoch is initialized once: on a file that holds an envelope the call raises an EpochError.
pub initialize_epoch_again :
    (p : Platform) (n : ℤ) (signer envelope old : Bytes) (s : SecurityState)
    → pos 1 ≤ℤ n
    → make_envelope p n signer ≡ ok envelope
    → s.store.readable ≡ true
    → s.store.epoch_envelope ≡ some old
    → initialize_epoch p n signer s ≡ err epoch
unfolding initialize_epoch insert_envelope
initialize_epoch_again p n signer envelope old s low made open' row =
    rw (made, open', row) (ground arith)

ensure_schema-nonces :
    (s s' : SecurityState)
    → ensure_schema s ≡ ok s'
    → s'.store.consumed_nonces ≡ s.store.consumed_nonces
unfolding ensure_schema
ensure_schema-nonces s s' h =
    guard_ok (not s.store.readable) state_integrity _ h λ _ h1. versioned s.store.schema_version h1
  where
    versioned :
        (o : Option Bytes)
        → elim o [
          | none ↦
              ok (record s { store = record s.store { schema_version = some schema_version_1 } })
          | some v ↦ raise_if (not (eq_bytes v schema_version_1)) state_integrity >> ok s
        ]
          ≡ ok s'
        → s'.store.consumed_nonces ≡ s.store.consumed_nonces
    versioned none e = ap (λ (x : SecurityState). x.store.consumed_nonces) (sym (ok_inj e))
    versioned (some v) e =
        guard_ok (not (eq_bytes v schema_version_1)) state_integrity _ e
          λ _ same. ap (λ (x : SecurityState). x.store.consumed_nonces) (sym (ok_inj same))

Step-Keeps : (p : Platform) (a b : Store) → Step p a b → Keeps a b
Step-Keeps p a b (opens s s' h ea eb) =
    rw (ea, eb) (Keeps-same s.store s'.store (ensure_schema-nonces s s' h))
Step-Keeps p a b (consumes n c t s s' h ea eb) =
    let (_, new, e) = consume_nonce-ok n c t s s' h in
    let rows = s.store.consumed_nonces in
    rw (ea, eb, e)
      (record {
        remembers = λ m was. ground (arith, is_consumed-append m rows (row_of n c t));
        distinct = λ d. AreDistinct-append rows (row_of n c t) d new;
      })
Step-Keeps p a b (initializes n signer s s' h ea eb) =
    rw (ea, eb) (Keeps-same s.store s'.store (initialize_epoch-nonces p n signer s s' h))
Step-Keeps p a b (bumps others signer s s' n h ea eb) =
    let (_, _, _, _, _, _, _, _, e, _, _) = bump_epoch-ok p others signer s s' n h in
    rw (ea, eb) (Keeps-same (others s.store) s'.store (ap (λ (x : Store). x.consumed_nonces) e))

-- Whatever processes do on the file, in any order: a nonce that was consumed stays consumed, and if
-- no nonce stood in two rows at first, none ever does.
pub Reach-Keeps : (p : Platform) (a b : Store) → Reach p a b → Keeps a b
Reach-Keeps p a b here = record { remembers = λ n h. h; distinct = λ h. h }
Reach-Keeps p a b (next {b = m} r st) =
    let first = Reach-Keeps p a m r in
    let second = Step-Keeps p m b st in
    record {
      remembers = λ n h. second.remembers n (first.remembers n h);
      distinct = λ h. second.distinct (first.distinct h);
    }

pub Reach-join : (p : Platform) (a b c : Store) → Reach p a b → Reach p b c → Reach p a c
Reach-join p a b c r here = r
Reach-join p a b c r (next {b = m} q st) = next (Reach-join p a b m r q) st
