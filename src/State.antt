-- ===== src/State.antt =====
-- src/mgk/state.py: the authorization epoch and the consumed nonces, in a SQLite file.
-- A call runs over the file's content; what raises leaves the content as it was, since `with
-- connection` rolls an open transaction back. A call of SQLite that raises a DatabaseError is
-- a store that is not `readable`; `type(…) is not int` and the like hold by the types here.
pub mod Epoch
pub mod Replay
use mgk_governance_kernel.Prelude.{
  ℕ, ◌≡◌, Bool, true, false, ◌&&◌, ◌||◌, not, Option, none, some, List, [], ◌∷◌, ◌++◌, String,
  str_eq, codes, any, length, if◌then◌else◌, is_empty,
}
use mgk_governance_kernel.Prelude.Int.{ℤ, pos, ◌+ℤ◌, ltb_ℤ, eqb_ℤ}
use mgk_governance_kernel.Errors.{
  Error, Result, ok, err, state_integrity, epoch, replay, value_error, key_error, ◌>>=◌, ◌>>◌,
  raise_if, or_raise,
}
use mgk_governance_kernel.Json.{Value, Fields, has_exactly, is_str}
use mgk_governance_kernel.Json.Access.{members, index, integer}
use mgk_governance_kernel.Platform.{Bytes, Platform}
use mgk_governance_kernel.Canonical.{canonicalize, parse_canonical, eq_bytes}
use mgk_governance_kernel.Crypto.{epoch_domain, key_id, sign, verify_value}

-- A row of `consumed_nonces`.
pub record Consumed : Type 0 where
  pub nonce : String
  pub capability_id : String
  pub consumed_at : ℤ

-- The file: its first 16 bytes (`none` where it cannot be read), what `PRAGMA quick_check` says,
-- the two keys of `metadata` that the code uses, and the rows of `consumed_nonces`.
pub record Store : Type 0 where
  pub header : Option Bytes
  pub readable : Bool
  pub quick_check : String
  pub schema_version : Option Bytes
  pub epoch_envelope : Option Bytes
  pub consumed_nonces : List Consumed

pub record SecurityState : Type 0 where
  pub epoch_public_key : Bytes
  pub expected_minimum_epoch : ℤ
  pub store : Store

abbrev pub sqlite_header : Bytes
sqlite_header = codes "SQLite format 3" ++ 0 ∷ []

abbrev pub schema_version_1 : Bytes
schema_version_1 = b'1' ∷ []

abbrev is_same : Option Bytes → Bytes → Bool
is_same none b = false
is_same (some a) b = eq_bytes a b

-- `_ensure_schema`, after the tables are there.
unfoldable pub ensure_schema : SecurityState → Result SecurityState
ensure_schema s = do
  raise_if (not s.store.readable) state_integrity
  elim s.store.schema_version [
    | none ↦ ok (record s { store = record s.store { schema_version = some schema_version_1 } })
    | some v ↦ raise_if (not (eq_bytes v schema_version_1)) state_integrity >> ok s
  ]

-- `SecurityState.__init__` over the file's content.
unfoldable pub open_state : Store → Bytes → ℤ → Result SecurityState
unfolding ensure_schema
open_state store key expected_minimum_epoch = do
  raise_if (ltb_ℤ expected_minimum_epoch (pos 1)) value_error
  ensure_schema (record {
    epoch_public_key = key;
    expected_minimum_epoch = expected_minimum_epoch;
    store = store;
  })

unfoldable pub integrity_check : SecurityState → Result (Unit {0})
integrity_check s = do
  raise_if (not (is_same s.store.header sqlite_header)) state_integrity
  raise_if (not s.store.readable) state_integrity
  raise_if (not (str_eq s.store.quick_check "ok")) state_integrity
  raise_if (not (is_same s.store.schema_version schema_version_1)) state_integrity

abbrev pub epoch_document : ℤ → String → Value
epoch_document n signer = Value.obj (
    Fields.field "epoch" (Value.int n) (
      Fields.field "key_id" (Value.str signer)
        (Fields.field "schema" (Value.str "mgk-epoch/v1") Fields.end)))

abbrev pub signed : Value → String → Value
signed document signature =
    Value.obj
      (Fields.field "document" document (Fields.field "signature" (Value.str signature) Fields.end))

-- `INSERT` into a table whose primary key is the nonce.
abbrev pub is_consumed : String → List Consumed → Bool
is_consumed n rows = any (λ (r : Consumed). str_eq r.nonce n) rows

unfoldable pub consume_nonce : String → String → ℤ → SecurityState → Result SecurityState
consume_nonce nonce capability_id consumed_at s = do
  integrity_check s
  raise_if (is_consumed nonce s.store.consumed_nonces) replay
  ok (record s {
    store = record s.store {
      consumed_nonces =
          s.store.consumed_nonces
          ++ (record { nonce = nonce; capability_id = capability_id; consumed_at = consumed_at })
            ∷ [];
    };
  })

unfoldable pub nonce_count : SecurityState → Result ℕ
nonce_count s = do integrity_check s; ok (length s.store.consumed_nonces)

module _ (p : Platform) where
  -- The envelope that `initialize_epoch` and `bump_epoch` write.
  unfoldable pub make_envelope : ℤ → Bytes → Result Bytes
  make_envelope n signer = do
    let document = epoch_document n (key_id p (p.public_of signer))
    encoded ← canonicalize p document
    canonicalize p (signed document (sign p signer epoch_domain encoded))

  -- `INSERT` of the first envelope, unless a row is there.
  unfoldable pub insert_envelope : Option Bytes → Bytes → SecurityState → Result SecurityState
  insert_envelope none envelope s =
      ok (record s { store = record s.store { epoch_envelope = some envelope } })
  insert_envelope (some _) envelope s = err epoch

  unfoldable pub initialize_epoch : ℤ → Bytes → SecurityState → Result SecurityState
  unfolding make_envelope
  initialize_epoch n signer s = do
    raise_if (ltb_ℤ n (pos 1)) value_error
    envelope ← make_envelope n signer
    raise_if (not s.store.readable) state_integrity
    insert_envelope s.store.epoch_envelope envelope s

  -- The tests of `_decode_epoch` on the document, up to the signature.
  unfoldable pub check_document : SecurityState → Fields → Result (Unit {0})
  check_document s document = do
    schema ← index document "schema"
    raise_if (not (is_str "mgk-epoch/v1" schema)) epoch
    signer ← index document "key_id"
    raise_if (not (is_str (key_id p s.epoch_public_key) signer)) epoch

  unfoldable pub decode_epoch : SecurityState → Bytes → Result ℤ
  decode_epoch s envelope = do
    value ← parse_canonical p envelope
    fields ← members epoch value
    raise_if (not (has_exactly ("document" ∷ "signature" ∷ []) fields)) epoch
    inner ← index fields "document"
    document ← members epoch inner
    raise_if (not (has_exactly ("epoch" ∷ "key_id" ∷ "schema" ∷ []) document)) epoch
    check_document s document
    encoded ← canonicalize p inner
    signature ← index fields "signature"
    verify_value p s.epoch_public_key epoch_domain encoded signature
    number ← index document "epoch"
    n ← integer epoch number
    raise_if (ltb_ℤ n s.expected_minimum_epoch) epoch
    ok n

  -- The read of `current_epoch` and of `bump_epoch`: `row is None` is an EpochError.
  unfoldable pub stored_epoch : SecurityState → Result ℤ
  stored_epoch s = do
    raise_if (not s.store.readable) state_integrity
    envelope ← or_raise s.store.epoch_envelope epoch
    decode_epoch s envelope

  unfoldable pub current_epoch : SecurityState → Result ℤ
  unfolding stored_epoch
  current_epoch s = do integrity_check s; stored_epoch s

  -- `bump_epoch`. Between the read of the epoch and `BEGIN IMMEDIATE` other connections may write:
  -- `others` is what they make of the store.
  unfoldable pub bump_epoch : (Store → Store) → Bytes → SecurityState → Result (ℤ × SecurityState)
  bump_epoch others signer s = do
    current ← current_epoch s
    let next = current +ℤ pos 1
    envelope ← make_envelope next signer
    let t = record s { store = others s.store }
    raise_if (not t.store.readable) state_integrity
    row ← or_raise t.store.epoch_envelope epoch
    now ← decode_epoch t row
    raise_if (not (eqb_ℤ now current)) epoch
    ok (
      next,
      record t {
        store = record t.store { epoch_envelope = some envelope };
        expected_minimum_epoch = next;
      },
    )
