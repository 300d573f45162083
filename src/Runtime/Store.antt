-- ===== src/Runtime/Store.antt =====
-- runtime/runtime_ledger.py: the tables of proposals, decisions and actions of humans, in a SQLite
-- file. As in src/mgk/state.py a call runs over the content of the file, what raises leaves it as it
-- was, and a call of SQLite that raises a DatabaseError is a store that is not `readable`. That a time
-- fits the 64 bits of SQLite is not modelled.
pub mod Rows
use mgk_governance_kernel.Prelude.{
  Bool, true, false, ◌&&◌, not, Option, none, some, List, [], ◌∷◌, ◌++◌, String, str_eq, any, map,
  if◌then◌else◌,
}
use mgk_governance_kernel.Prelude.Int.{ℤ, leb_ℤ}
use mgk_governance_kernel.Errors.{Result, ok, err, state_integrity, ◌>>=◌, ◌>>◌, raise_if}
use mgk_governance_kernel.Json.{Value, texts}
use mgk_governance_kernel.Platform.{Bytes, Platform}
use mgk_governance_kernel.Canonical.{canonicalize, parse_canonical, eq_bytes}
use mgk_governance_kernel.Models.{ActionRequest}
use mgk_governance_kernel.State.{schema_version_1}

pub record ProposalRow : Type 0 where
  pub request_id : String
  pub principal : String
  pub audience : String
  pub action : String
  pub resource : String
  pub parameters : Bytes
  pub request_digest : String
  pub created_at : ℤ

-- `output_digest` is text or NULL in the table; the values that the code passes are members of a
-- resource binding.
pub record DecisionRow : Type 0 where
  pub decision_id : String
  pub request_id : String
  pub state : String
  pub reason_codes : Bytes
  pub capability_id : Option String
  pub executed : Bool
  pub output_digest : Option Value
  pub flight_hash : String
  pub created_at : ℤ

pub record HumanRow : Type 0 where
  pub action_id : String
  pub request_id : String
  pub operator : String
  pub decision : String
  pub signature : String
  pub flight_hash : String
  pub created_at : ℤ

pub record RuntimeLedger : Type 0 where
  pub readable : Bool
  pub schema_version : Option Bytes
  pub proposal_rows : List ProposalRow
  pub decision_rows : List DecisionRow
  pub human_rows : List HumanRow

-- `_ensure_schema`, after the tables are there.
unfoldable pub ensure_schema : RuntimeLedger → Result RuntimeLedger
ensure_schema l = do
  raise_if (not l.readable) state_integrity
  elim l.schema_version [
    | none ↦ ok (record l { schema_version = some schema_version_1 })
    | some v ↦ raise_if (not (eq_bytes v schema_version_1)) state_integrity >> ok l
  ]

-- What the readers return: a row with its JSON column decoded.
pub record ProposalView : Type 0 where
  pub row : ProposalRow
  pub parameters : Value

pub record DecisionView : Type 0 where
  pub row : DecisionRow
  pub reason_codes : Value

abbrev pub find_proposal : String → List ProposalRow → Option ProposalRow
find_proposal id [] = none
find_proposal id (r ∷ rs) = if str_eq r.request_id id then some r else find_proposal id rs

-- `INSERT … ON CONFLICT(request_id) DO NOTHING`.
unfoldable pub insert_proposal : ProposalRow → List ProposalRow → List ProposalRow
insert_proposal new rows = elim (find_proposal new.request_id rows) [
  | none ↦ rows ++ new ∷ []
  | some _ ↦ rows
]

-- Another request has the primary key of the row.
abbrev pub clashes : DecisionRow → List DecisionRow → Bool
clashes new rows =
    any
      (λ (r : DecisionRow).
        str_eq r.decision_id new.decision_id && not (str_eq r.request_id new.request_id))
      rows

-- `INSERT … ON CONFLICT(request_id) DO UPDATE SET …` of every other column.
unfoldable pub upsert : DecisionRow → List DecisionRow → List DecisionRow
upsert new [] = new ∷ []
upsert new (r ∷ rs) = if str_eq r.request_id new.request_id then new ∷ rs else r ∷ upsert new rs

-- `ORDER BY created_at DESC`; the order of equal times, which SQLite leaves open, is that of the table.
abbrev pub insert_by {ℓ} : {A : Type ℓ} → (A → ℤ) → A → List A → List A
insert_by key a [] = a ∷ []
insert_by key a (b ∷ bs) = if leb_ℤ (key b) (key a) then a ∷ b ∷ bs else b ∷ insert_by key a bs

unfoldable pub newest_first {ℓ} : {A : Type ℓ} → (A → ℤ) → List A → List A
newest_first key [] = []
newest_first key (a ∷ as') = insert_by key a (newest_first key as')

unfoldable pub insert_decision : DecisionRow → RuntimeLedger → Result RuntimeLedger
insert_decision new l = do
  raise_if (clashes new l.decision_rows) state_integrity
  ok (record l { decision_rows = upsert new l.decision_rows })

-- The primary key of the table.
abbrev pub is_taken : String → List HumanRow → Bool
is_taken id rows = any (λ (r : HumanRow). str_eq r.action_id id) rows

unfoldable pub store_human_action : HumanRow → RuntimeLedger → Result RuntimeLedger
store_human_action new l = do
  raise_if (not l.readable) state_integrity
  raise_if (is_taken new.action_id l.human_rows) state_integrity
  ok (record l { human_rows = l.human_rows ++ new ∷ [] })

unfoldable pub human_actions : RuntimeLedger → Result (List HumanRow)
human_actions l = do
  raise_if (not l.readable) state_integrity
  ok (newest_first (λ (r : HumanRow). r.created_at) l.human_rows)

module _ (p : Platform) where
  unfoldable pub store_proposal : ActionRequest → String → ℤ → RuntimeLedger → Result RuntimeLedger
  store_proposal r request_digest created_at l = do
    parameters ← canonicalize p (Value.obj r.parameters)
    raise_if (not l.readable) state_integrity
    let new : ProposalRow = record {
      request_id = r.request_id;
      principal = r.principal;
      audience = r.audience;
      action = r.action;
      resource = r.resource;
      parameters = parameters;
      request_digest = request_digest;
      created_at = created_at;
    }
    ok (record l { proposal_rows = insert_proposal new l.proposal_rows })

  -- The reasons are encoded when the transaction is open.
  unfoldable pub store_decision :
      String
      → String
      → String
      → List String
      → Option String
      → Bool
      → Option Value
      → String
      → ℤ
      → RuntimeLedger
      → Result RuntimeLedger
  store_decision decision_id request_id state codes capability_id executed output_digest flight_hash
        created_at l =
      do
        raise_if (not l.readable) state_integrity
        reason_codes ← canonicalize p (Value.arr (texts codes))
        insert_decision
            (record {
              decision_id = decision_id;
              request_id = request_id;
              state = state;
              reason_codes = reason_codes;
              capability_id = capability_id;
              executed = executed;
              output_digest = output_digest;
              flight_hash = flight_hash;
              created_at = created_at;
            })
            l

  abbrev pub proposal_view : ProposalRow → Result ProposalView
  proposal_view r = parse_canonical p r.parameters >>= λ v. ok (record { row = r; parameters = v })

  abbrev pub decision_view : DecisionRow → Result DecisionView
  decision_view r =
      parse_canonical p r.reason_codes >>= λ v. ok (record { row = r; reason_codes = v })

  abbrev pub collect {ℓ κ} : {A : Type ℓ} {B : Type κ} → (A → Result B) → List A → Result (List B)
  collect f [] = ok []
  collect f (a ∷ as') = f a >>= λ b. collect f as' >>= λ bs. ok (b ∷ bs)

  abbrev pub proposal_of : Option ProposalRow → Result (Option ProposalView)
  proposal_of none = ok none
  proposal_of (some r) = proposal_view r >>= λ v. ok (some v)

  unfoldable pub proposal : String → RuntimeLedger → Result (Option ProposalView)
  proposal request_id l = do
    raise_if (not l.readable) state_integrity
    proposal_of (find_proposal request_id l.proposal_rows)

  unfoldable pub proposals : RuntimeLedger → Result (List ProposalView)
  proposals l = do
    raise_if (not l.readable) state_integrity
    collect proposal_view (newest_first (λ (r : ProposalRow). r.created_at) l.proposal_rows)

  unfoldable pub decisions : RuntimeLedger → Result (List DecisionView)
  decisions l = do
    raise_if (not l.readable) state_integrity
    collect decision_view (newest_first (λ (r : DecisionRow). r.created_at) l.decision_rows)
