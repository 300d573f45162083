-- ===== src/Tests/Runs.antt =====
-- A platform and states for runs of the runtime services: a request that is to make one file.
use mgk_governance_kernel.Prelude.{
  ℕ, ◌==◌, true, false, leb, none, some, [], ◌∷◌, String, str_eq, head_or, if◌then◌else◌,
}
use mgk_governance_kernel.Prelude.Int.{pos}
use mgk_governance_kernel.Errors.{err, type_error}
use mgk_governance_kernel.Json.{Value, Items, Fields}
use mgk_governance_kernel.Platform.{Bytes, Platform, Loaded, read, malformed}
use mgk_governance_kernel.Ledger.{genesis_hash, body_of}
use mgk_governance_kernel.Runtime.Policy.{RuntimePolicy, default_policy}
use mgk_governance_kernel.Runtime.Store.{ProposalRow, DecisionRow, RuntimeLedger}
use mgk_governance_kernel.Runtime.Flight.{FlightRecorder}
use mgk_governance_kernel.Runtime.Decision.{DecisionPipeline, RuntimeState, Python}
use mgk_governance_kernel.State.{schema_version_1}
use mgk_governance_kernel.Tests.Toy.{
  toy, raw, sha, request, authority, executor, surroundings, nonce, world, loads, dumps,
}

-- Records are named by their number, the checkpoint of the recorder by its count.
abbrev seq_of : Fields → ℕ
seq_of (Fields.field _ _ (Fields.field _ _ (Fields.field _ (Value.int (pos n)) _))) = n
seq_of _ = 0

abbrev run_dumps : Value → Bytes
run_dumps (Value.obj (Fields.field k v fs)) =
    if str_eq k "data"
    then 4 ∷ seq_of fs ∷ []
    else if str_eq k "count"
    then elim v [ Value.int i ↦ elim i [ pos n ↦ 6 ∷ n ∷ [] | _ ↦ [] ] | _ ↦ [] ]
    else if str_eq k "content_b64"
    then 8 ∷ []
    else dumps (Value.obj (Fields.field k v fs))
run_dumps (Value.arr _) = 7 ∷ []
run_dumps v = dumps v

abbrev head_at : ℕ → String
head_at n = if n == 0 then genesis_hash else sha

abbrev run_record : ℕ → Value
run_record n = Value.obj (
    body_of Fields.end "EVENT" (if leb n 1 then genesis_hash else sha) n (pos 5)
      (Fields.field "event_hash" (Value.str sha) Fields.end))

abbrev run_named : ℕ → ℕ → Bytes → Loaded
run_named t n all =
    if t == 4
    then read (raw (run_record n))
    else if t == 6
    then read (
        raw (
          Value.obj (
            Fields.field "count" (Value.int (pos n))
              (Fields.field "head_hash" (Value.str (head_at n)) Fields.end))))
    else if t == 7
    then read (raw (Value.arr Items.nil))
    else if t == 8
    then read (raw (Value.obj request.parameters))
    else loads all

abbrev run_loads : Bytes → Loaded
run_loads [] = malformed
run_loads (t ∷ ns) = run_named t (head_or ns 0) (t ∷ ns)

abbrev pub run_platform : Platform
run_platform = record toy { dumps = run_dumps; loads = run_loads }

abbrev pub run_policy : RuntimePolicy
run_policy = record default_policy { sensitive_actions = [] }

abbrev python : Python
python = record { str_of = λ v. err type_error; dict_of = λ v. err type_error; message = λ e. "" }

abbrev pub pipeline : DecisionPipeline
pipeline = record {
  authority = authority;
  executor = executor;
  policy = run_policy;
  saxp = authority.saxp;
  operator_key = some (9 ∷ []);
  python = python;
  readings = λ n. pos n;
  issued_at = pos 100;
  nonce = nonce;
  surroundings = surroundings;
}

abbrev pub request_dict : Fields
request_dict = Fields.field "request_id" (Value.str request.request_id) (
    Fields.field "principal" (Value.str request.principal) (
      Fields.field "audience" (Value.str request.audience) (
        Fields.field "action" (Value.str request.action) (
          Fields.field "resource" (Value.str request.resource)
            (Fields.field "parameters" (Value.obj request.parameters) Fields.end)))))

abbrev pub new_recorder : FlightRecorder
new_recorder = record { flight_file = some []; checkpoint_file = some (6 ∷ 0 ∷ 10 ∷ []) }

abbrev pub empty_tables : RuntimeLedger
empty_tables = record {
  readable = true;
  schema_version = some schema_version_1;
  proposal_rows = [];
  decision_rows = [];
  human_rows = [];
}

abbrev pub fresh : RuntimeState
fresh = record { world = world; flight = new_recorder; ledger = empty_tables; ticks = 0 }

-- The request is stored and waits for a human.
abbrev proposal_row : ProposalRow
proposal_row = record {
  request_id = "req-1";
  principal = "planner";
  audience = "executor";
  action = "resource.create";
  resource = "workspace/b";
  parameters = 8 ∷ [];
  request_digest = sha;
  created_at = pos 1;
}

abbrev decision_row : DecisionRow
decision_row = record {
  decision_id = "req-1";
  request_id = "req-1";
  state = "REQUIRE_HUMAN";
  reason_codes = 7 ∷ [];
  capability_id = none;
  executed = false;
  output_digest = none;
  flight_hash = sha;
  created_at = pos 1;
}

abbrev pub waiting : RuntimeState
waiting = record fresh {
  ledger = record empty_tables {
    proposal_rows = proposal_row ∷ [];
    decision_rows = decision_row ∷ [];
  };
}
