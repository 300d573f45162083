-- ===== src/Runtime/Decision.antt =====
-- runtime/decision.py: decisions, the state that the pipeline runs over, and the calls it makes on it.
pub mod Frames
use Prim.Native.String.{◌++◌ as concat}
use mgk_governance_kernel.Prelude.{
  ℕ, suc, Bool, true, false, Option, none, some, List, [], ◌∷◌, String, str_eq, if◌then◌else◌,
}
use mgk_governance_kernel.Prelude.Int.{ℤ}
use mgk_governance_kernel.Errors.{
  Error, Result, ok, err, canonicalization, value_error, type_error, key_error, code_of,
}
use mgk_governance_kernel.Errors.{◌>>=◌ as ◌then◌}
use mgk_governance_kernel.Json.{Value, Fields, texts}
use mgk_governance_kernel.Json.Access.{index}
use mgk_governance_kernel.Platform.{Bytes, Platform}
use mgk_governance_kernel.Models.{ActionRequest}
use mgk_governance_kernel.Saxp.{SaxpEvaluator}
use mgk_governance_kernel.Authority.{CapabilityAuthority}
use mgk_governance_kernel.Executor.{CapabilityExecutor, World, Surroundings}
use mgk_governance_kernel.Runtime.Policy.{RuntimePolicy}
use mgk_governance_kernel.Runtime.Store.{RuntimeLedger, DecisionView, store_decision, decisions}
use mgk_governance_kernel.Runtime.Flight.{FlightRecorder, append}
use mgk_governance_kernel.Runtime.Calls.{Call, return, reads, ◌>>=◌}

pub data DecisionState : Type 0 where
  allow deny require_human indeterminate : DecisionState

-- The values of the StrEnum.
abbrev pub value_of : DecisionState → String
value_of allow = "ALLOW"
value_of deny = "DENY"
value_of require_human = "REQUIRE_HUMAN"
value_of indeterminate = "INDETERMINATE"

pub record Decision : Type 0 where
  pub state : DecisionState
  pub request : Value
  pub request_digest : String
  pub reason_codes : List String
  pub capability_id : Option String
  pub executed : Bool
  pub output_digest : Option Value
  pub flight_hash : Option String
  pub human_decision : Option String
  pub human_signature : Option String
  pub operator : Option String

-- A decision with the defaults of `__init__` for the other members.
abbrev pub plain : DecisionState → Value → String → List String → Option String → Decision
plain state request request_digest codes flight_hash = record {
  state = state;
  request = request;
  request_digest = request_digest;
  reason_codes = codes;
  capability_id = none;
  executed = false;
  output_digest = none;
  flight_hash = flight_hash;
  human_decision = none;
  human_signature = none;
  operator = none;
}

abbrev pub optional_text : Option String → Value
optional_text none = Value.null
optional_text (some s) = Value.str s

abbrev pub optional_value : Option Value → Value
optional_value none = Value.null
optional_value (some v) = v

-- `Decision.to_dict`.
abbrev pub to_dict : Decision → Value
to_dict d = Value.obj (
    Fields.field "state" (Value.str (value_of d.state)) (
      Fields.field "request" d.request (
        Fields.field "request_digest" (Value.str d.request_digest) (
          Fields.field "reason_codes" (Value.arr (texts d.reason_codes)) (
            Fields.field "capability_id" (optional_text d.capability_id) (
              Fields.field "executed" (Value.bool d.executed) (
                Fields.field "output_digest" (optional_value d.output_digest) (
                  Fields.field "flight_hash" (optional_text d.flight_hash) (
                    Fields.field "human_decision" (optional_text d.human_decision) (
                      Fields.field "human_signature" (optional_text d.human_signature)
                        (Fields.field "operator" (optional_text d.operator) Fields.end)))))))))))

-- What Python itself answers: `str(v)` for a value that is no text, `dict(v)` for one that is no
-- object, and `str(exc)`.
pub record Python : Type 0 where
  pub str_of : Value → Result String
  pub dict_of : Value → Result Fields
  pub message : Error → String

-- The members of `DecisionPipeline` that do not change, and what the environment answers during one
-- call: the readings of the pipeline's clock in their order, the time and the nonce of the authority,
-- and the surroundings of the executor.
pub record DecisionPipeline : Type 0 where
  pub authority : CapabilityAuthority
  pub executor : CapabilityExecutor
  pub policy : RuntimePolicy
  pub saxp : SaxpEvaluator
  pub operator_key : Option Bytes
  pub python : Python
  pub readings : ℕ → ℤ
  pub issued_at : ℤ
  pub nonce : String
  pub surroundings : Surroundings

-- What the pipeline changes: the kernel, the flight recorder, the tables; `ticks` counts the readings
-- of the clock.
pub record RuntimeState : Type 0 where
  pub world : World
  pub flight : FlightRecorder
  pub ledger : RuntimeLedger
  pub ticks : ℕ

abbrev pub as_text : Python → Value → Result String
as_text y (Value.str s) = ok s
as_text y v = y.str_of v

abbrev pub as_dict : Python → Value → Result Fields
as_dict y (Value.obj fs) = ok fs
as_dict y v = y.dict_of v

-- `str(request[key])`.
abbrev pub text_at : Python → Fields → String → Result String
text_at y request key = index request key then as_text y

-- `_request`.
unfoldable pub as_request : Python → Fields → Result ActionRequest
as_request y request = text_at y request "request_id" then λ request_id.
    text_at y request "principal" then λ principal. text_at y request "audience" then λ audience.
    text_at y request "action" then λ action. text_at y request "resource" then λ resource.
    (index request "parameters" then as_dict y) then λ parameters. ok (record {
      request_id = request_id;
      principal = principal;
      audience = audience;
      action = action;
      resource = resource;
      parameters = parameters;
    })

-- `except (KeyError, TypeError, ValueError)`: a CanonicalizationError is a ValueError too.
abbrev pub is_bad_value : Error → Bool
is_bad_value key_error = true
is_bad_value type_error = true
is_bad_value value_error = true
is_bad_value canonicalization = true
is_bad_value _ = false

-- `except MGKError`.
abbrev pub is_mgk : Error → Bool
is_mgk e = elim (code_of e) [ none ↦ false | some _ ↦ true ]

-- `exc.code if isinstance(exc, MGKError) else "UNEXPECTED_EXCEPTION"`.
abbrev pub code_or_unexpected : Error → String
code_or_unexpected e = elim (code_of e) [ none ↦ "UNEXPECTED_EXCEPTION" | some code ↦ code ]

module _ (p : Platform) (x : DecisionPipeline) where
  -- `self.clock.now()`.
  unfoldable pub now : Call RuntimeState ℤ
  now s = (ok (x.readings s.ticks), record s { ticks = suc s.ticks })

  abbrev pub put_flight :
      RuntimeState → Result String × FlightRecorder → Result String × RuntimeState
  put_flight s (r, f) = (r, record s { flight = f })

  -- `_flight`.
  unfoldable pub record_flight : String → Fields → Call RuntimeState String
  unfolding now
  record_flight event_type data' = do
    at ← now
    (λ s. put_flight s (append p event_type data' at s.flight))

  abbrev pub put_ledger : RuntimeState → Result RuntimeLedger → Result (Unit {0}) × RuntimeState
  put_ledger s (ok l) = (ok tt, record s { ledger = l })
  put_ledger s (err e) = (err e, s)

  -- A method of the ledger that writes.
  abbrev pub write_ledger : (RuntimeLedger → Result RuntimeLedger) → Call RuntimeState (Unit {0})
  write_ledger f s = put_ledger s (f s.ledger)

  -- `self.ledger.store_decision(…)`. The identifier of a decision is that of its request in every call.
  unfoldable pub save_decision_at :
      ℤ
      → String
      → DecisionState
      → List String
      → Option String
      → Bool
      → Option Value
      → String
      → Call RuntimeState (Unit {0})
  save_decision_at at id state codes capability_id executed output_digest flight_hash =
      write_ledger (
        store_decision p id id (value_of state) codes capability_id executed output_digest
          flight_hash at)

  -- `now = self.clock.now(); self.ledger.store_decision(…)`.
  unfoldable pub save_decision :
      String
      → DecisionState
      → List String
      → Option String
      → Bool
      → Option Value
      → String
      → Call RuntimeState (Unit {0})
  unfolding now save_decision_at
  save_decision id state codes capability_id executed output_digest flight_hash = do
    at ← now
    save_decision_at at id state codes capability_id executed output_digest flight_hash

  abbrev pub state_in : String → List DecisionView → Option String
  state_in id [] = none
  state_in id (d ∷ ds) = if str_eq d.row.request_id id then some d.row.state else state_in id ds

  -- `_decision_state`.
  unfoldable pub decision_state : String → RuntimeLedger → Result (Option String)
  decision_state id l = decisions p l then λ ds. ok (state_in id ds)

  abbrev pub waiting : List DecisionView → List DecisionView
  waiting [] = []
  waiting (d ∷ ds) = if str_eq d.row.state "REQUIRE_HUMAN" then d ∷ waiting ds else waiting ds

  -- `pending`.
  unfoldable pub pending : RuntimeLedger → Result (List DecisionView)
  pending l = decisions p l then λ ds. ok (waiting ds)
