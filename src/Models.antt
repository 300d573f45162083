-- ===== src/Models.antt =====
-- src/mgk/models.py: the authority-bound data structures and their payloads.
use mgk_governance_kernel.Prelude.{ℕ, Bool, List, String, Option}
use mgk_governance_kernel.Prelude.Int.{ℤ}
use mgk_governance_kernel.Errors.{Result}
use mgk_governance_kernel.Json.{Value, Fields, texts}
use mgk_governance_kernel.Platform.{Bytes, Platform}
use mgk_governance_kernel.Canonical.{digest}

-- `parameters` is a mapping: its items in order.
pub record ActionRequest : Type 0 where
  pub request_id : String
  pub principal : String
  pub audience : String
  pub action : String
  pub resource : String
  pub parameters : Fields

abbrev pub request_payload : ActionRequest → Value
request_payload r = Value.obj (
    Fields.field "action" (Value.str r.action) (
      Fields.field "audience" (Value.str r.audience) (
        Fields.field "parameters" (Value.obj r.parameters) (
          Fields.field "principal" (Value.str r.principal) (
            Fields.field "request_id" (Value.str r.request_id)
              (Fields.field "resource" (Value.str r.resource) Fields.end))))))

-- `ActionRequest.digest`.
unfoldable pub request_digest : Platform → ActionRequest → Result String
request_digest p r = digest p (request_payload r)

pub record SaxpContext : Type 0 where
  pub coherence_delta : ℤ
  pub systemic_pressure : ℤ
  pub threshold_k : ℤ
  pub sentidino : ℤ
  pub information_complete : Bool
  pub critical_uncertainty : Bool
  pub control_risk : Bool
  pub ethical_constraints_satisfied : Bool

abbrev pub context_payload : SaxpContext → Value
context_payload c = Value.obj (
    Fields.field "coherence_delta" (Value.int c.coherence_delta) (
      Fields.field "control_risk" (Value.bool c.control_risk) (
        Fields.field "critical_uncertainty" (Value.bool c.critical_uncertainty) (
          Fields.field "ethical_constraints_satisfied" (Value.bool c.ethical_constraints_satisfied)
            (Fields.field "information_complete" (Value.bool c.information_complete) (
              Fields.field "sentidino" (Value.int c.sentidino) (
                Fields.field "systemic_pressure" (Value.int c.systemic_pressure)
                  (Fields.field "threshold_k" (Value.int c.threshold_k) Fields.end))))))))

pub record SaxpDecision : Type 0 where
  pub result : String
  pub reason_codes : List String
  pub request_digest : String
  pub context_digest : String
  pub policy_id : String

abbrev pub decision_payload : SaxpDecision → Value
decision_payload d = Value.obj (
    Fields.field "context_digest" (Value.str d.context_digest) (
      Fields.field "policy_id" (Value.str d.policy_id) (
        Fields.field "reason_codes" (Value.arr (texts d.reason_codes)) (
          Fields.field "request_digest" (Value.str d.request_digest)
            (Fields.field "result" (Value.str d.result) Fields.end)))))

pub record IssueResult : Type 0 where
  pub envelope : Option Bytes
  pub decision : SaxpDecision
  pub capability_id : Option String

pub record ExecutionResult : Type 0 where
  pub success : Bool
  pub status : String
  pub reason_code : String
  pub execution_authority : ℕ
  -- `payload["capability_id"]`
  pub capability_id : Option Value
  -- what an operation of the resource guard returned: a text, or a value of the binding
  pub output_digest : Option Value
  pub output : Option Bytes
