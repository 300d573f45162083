-- ===== src/Runtime/Policy.antt =====
-- runtime/policy.py: from a proposal to the context that the SAXP gates evaluate.
pub mod Closed
use mgk_governance_kernel.Prelude.{
  Bool, true, false, ◌&&◌, ◌||◌, not, List, [], ◌∷◌, ◌++◌, String, str_eq, any, member,
  if◌then◌else◌,
}
use mgk_governance_kernel.Prelude.Int.{pos}
use mgk_governance_kernel.Errors.{Result, ok, value_error, ◌>>=◌, ◌>>◌, raise_if}
use mgk_governance_kernel.Models.{ActionRequest, SaxpContext}
use mgk_governance_kernel.Authority.{has_prefix, sandbox_actions}

abbrev pub safe_context : SaxpContext
safe_context = record {
  coherence_delta = pos 100;
  systemic_pressure = pos 10;
  threshold_k = pos 100;
  sentidino = pos 9000;
  information_complete = true;
  critical_uncertainty = false;
  control_risk = false;
  ethical_constraints_satisfied = true;
}

abbrev pub require_human_context : SaxpContext
require_human_context = record {
  coherence_delta = pos 100;
  systemic_pressure = pos 10;
  threshold_k = pos 100;
  sentidino = pos 9000;
  information_complete = false;
  critical_uncertainty = true;
  control_risk = false;
  ethical_constraints_satisfied = true;
}

abbrev pub deny_all_context : SaxpContext
deny_all_context = record {
  coherence_delta = pos 100;
  systemic_pressure = pos 10;
  threshold_k = pos 100;
  sentidino = pos 9000;
  information_complete = true;
  critical_uncertainty = false;
  control_risk = true;
  ethical_constraints_satisfied = true;
}

pub record RuntimePolicy : Type 0 where
  pub mode : String
  pub allowed_actions : List String
  pub allowed_resource_prefixes : List String
  pub sensitive_actions : List String

-- The defaults of the dataclass.
abbrev pub default_policy : RuntimePolicy
default_policy = record {
  mode = "allow_safe";
  allowed_actions = sandbox_actions ++ "resource.read" ∷ "resource.create" ∷ [];
  allowed_resource_prefixes = "files/" ∷ "records/" ∷ "workspace/" ∷ [];
  sensitive_actions = "sandbox.write_file" ∷ "sandbox.append_file" ∷ "sandbox.create_record" ∷ [];
}

abbrev pub modes : List String
modes = "allow_safe" ∷ "deny_all" ∷ "require_human" ∷ []

-- `__post_init__`.
unfoldable pub make_policy : RuntimePolicy → Result RuntimePolicy
make_policy q = do raise_if (not (member q.mode modes)) value_error; ok q

unfoldable pub allows : RuntimePolicy → String → String → Bool
allows q action resource =
    if not (member action q.allowed_actions)
    then false
    else has_prefix resource q.allowed_resource_prefixes

unfoldable pub context_for : RuntimePolicy → ActionRequest → SaxpContext
context_for q r =
    if str_eq q.mode "deny_all"
    then deny_all_context
    else if str_eq q.mode "require_human"
    then require_human_context
    else if not (member r.action q.allowed_actions)
    then deny_all_context
    else if not (has_prefix r.resource q.allowed_resource_prefixes)
    then deny_all_context
    else if member r.action q.sensitive_actions
    then require_human_context
    else safe_context

-- After an approval.
abbrev pub resolved_context : RuntimePolicy → SaxpContext
resolved_context q = safe_context
