-- ===== src/Runtime/Sandbox.antt =====
-- runtime/sandbox/__init__.py: the closed registry of the governed actions. The registry is a set; its
-- order is no part of it, and no two of its actuators have the same action.
use mgk_governance_kernel.Prelude.{
  Bool, true, false, ◌&&◌, not, Option, none, some, List, [], ◌∷◌, String, starts_with,
  if◌then◌else◌,
}
use mgk_governance_kernel.Errors.{Result, err, value_error, ◌>>◌, raise_if}
use mgk_governance_kernel.Json.{Value, Fields, get, contains, is_str}

abbrev pub actuator_actions : List String
actuator_actions =
    "sandbox.read_file" ∷ "sandbox.write_file" ∷ "sandbox.append_file" ∷ "sandbox.create_record"
    ∷ "sandbox.read_record" ∷ []

-- The description is a text for the reader.
pub record Actuator : Type 0 where
  pub action : String
  pub namespace : String
  pub needs_content : Bool

abbrev pub actuator : String → String → Bool → Actuator
actuator action namespace needs_content = record {
  action = action;
  namespace = namespace;
  needs_content = needs_content;
}

abbrev pub actuators : List Actuator
actuators =
    actuator "sandbox.read_file" "files/" false
    ∷ actuator "sandbox.write_file" "files/" true
    ∷ actuator "sandbox.append_file" "files/" true
    ∷ actuator "sandbox.create_record" "records/" true
    ∷ actuator "sandbox.read_record" "records/" false
    ∷ []

-- The loop of `actuator_for`.
unfoldable pub find_actuator : Value → List Actuator → Option Actuator
find_actuator action [] = none
find_actuator action (a ∷ rest) =
    if is_str a.action action then some a else find_actuator action rest

-- `request.get(key)`.
abbrev pub get_or_none : String → Fields → Value
get_or_none k fs = elim (get k fs) [ none ↦ Value.null | some v ↦ v ]

unfoldable pub actuator_for : Value → Option Actuator
unfolding find_actuator
actuator_for action = find_actuator action actuators

-- `not isinstance(resource, str) or not resource.startswith(namespace)`.
abbrev pub is_outside : String → Value → Bool
is_outside namespace (Value.str s) = not (starts_with s namespace)
is_outside namespace _ = true

-- The tests on the parameters.
unfoldable pub check_parameters : Actuator → Value → Result (Unit {0})
check_parameters a (Value.obj Fields.end) = raise_if a.needs_content value_error
check_parameters a (Value.obj fs) = do
  raise_if (a.needs_content && not (contains "content_b64" fs)) value_error
  raise_if (not a.needs_content) value_error
check_parameters a _ = err value_error

unfoldable pub validate_actuator : Option Actuator → Fields → Result (Unit {0})
validate_actuator none request = err value_error
validate_actuator (some a) request = do
  raise_if (is_outside a.namespace (get_or_none "resource" request)) value_error
  check_parameters a (get_or_none "parameters" request)

unfoldable pub validate_request : Fields → Result (Unit {0})
validate_request request = validate_actuator (actuator_for (get_or_none "action" request)) request
