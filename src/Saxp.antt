-- ===== src/Saxp.antt =====
-- src/mgk/saxp.py: the binding SAXP evaluation.
pub mod Gates
use Prim.Native.Nat.{Ordering}
use Prim.Native.String.{compare}
use mgk_governance_kernel.Prelude.{
  ◌≡◌, Bool, true, false, ◌&&◌, ◌||◌, not, List, [], ◌∷◌, ◌++◌, String, str_eq, if◌then◌else◌,
  is_empty,
}
use mgk_governance_kernel.Prelude.Int.{ℤ, pos, ltb_ℤ, leb_ℤ}
use mgk_governance_kernel.Errors.{Result, ok, err, schema, value_error, ◌>>=◌, ◌>>◌, raise_if}
use mgk_governance_kernel.Platform.{Platform}
use mgk_governance_kernel.Canonical.{digest}
use mgk_governance_kernel.Models.{
  ActionRequest, SaxpContext, SaxpDecision, request_digest, context_payload,
}

pub data SaxpResult : Type 0 where
  ten_xeito require_xeito non_ten_xeito : SaxpResult

-- The values of the StrEnum.
abbrev pub value_of : SaxpResult → String
value_of ten_xeito = "TEN_XEITO"
value_of require_xeito = "REQUIRE_XEITO"
value_of non_ten_xeito = "NON_TEN_XEITO"

pub record SaxpEvaluator : Type 0 where
  pub policy_id : String
  pub minimum_sentidino : ℤ

unfoldable pub make_evaluator : String → ℤ → Result SaxpEvaluator
make_evaluator policy_id minimum_sentidino = do
  raise_if (str_eq policy_id "") value_error
  raise_if (not (leb_ℤ (pos 0) minimum_sentidino && leb_ℤ minimum_sentidino (pos 10000)))
      value_error
  ok (record { policy_id = policy_id; minimum_sentidino = minimum_sentidino })

unfoldable pub validate_context : SaxpContext → Result (Unit {0})
validate_context c = do
  raise_if (ltb_ℤ c.threshold_k (pos 0) || ltb_ℤ c.systemic_pressure (pos 0)) schema
  raise_if (not (leb_ℤ (pos 0) c.sentidino && leb_ℤ c.sentidino (pos 10000))) schema

-- `if test: reasons.append(code)`.
abbrev pub append_if : Bool → String → List String → List String
append_if test code reasons = if test then reasons ++ code ∷ [] else reasons

unfoldable pub blocking_reasons : SaxpContext → List String
blocking_reasons c = append_if (ltb_ℤ c.threshold_k c.systemic_pressure) "THRESHOLD_K_EXCEEDED" (
    append_if (ltb_ℤ c.coherence_delta (pos 0)) "COHERENCE_DECREASE" (
      append_if (not c.ethical_constraints_satisfied) "ETHICAL_CONSTRAINT_FAILED"
        (append_if c.control_risk "CONTROL_RISK" [])))

unfoldable pub pending_reasons : SaxpEvaluator → SaxpContext → List String
pending_reasons e c =
    append_if (ltb_ℤ c.sentidino e.minimum_sentidino) "SENTIDINO_RECALIBRATION_REQUIRED" (
      append_if (not c.information_complete) "INFORMATION_INCOMPLETE"
        (append_if c.critical_uncertainty "CRITICAL_UNCERTAINTY" []))

-- The result and the reasons before they are sorted.
unfoldable pub verdict : SaxpEvaluator → SaxpContext → SaxpResult × List String
unfolding blocking_reasons pending_reasons
verdict e c =
    if not (is_empty (blocking_reasons c))
    then (non_ten_xeito, blocking_reasons c)
    else if not (is_empty (pending_reasons e c))
    then (require_xeito, pending_reasons e c)
    else (ten_xeito, "COHERENCE_GATE_SATISFIED" ∷ [])

-- `sorted(reasons)`: texts in the order of their code points, equal ones in the order they had.
unfoldable insert_text : String → List String → List String
insert_text s [] = s ∷ []
insert_text s (t ∷ ts) = elim (compare t s) [ Ordering.gt ↦ s ∷ t ∷ ts | _ ↦ t ∷ insert_text s ts ]

unfoldable pub sorted : List String → List String
unfolding insert_text
sorted [] = []
sorted (s ∷ ss) = insert_text s (sorted ss)

-- `SAXPEvaluator.evaluate`.
unfoldable pub evaluate :
    Platform → SaxpEvaluator → ActionRequest → SaxpContext → Result SaxpDecision
unfolding validate_context verdict
evaluate p e request context = do
  validate_context context
  request_sha ← request_digest p request
  context_sha ← digest p (context_payload context)
  ok (record {
    result = value_of (verdict e context).0;
    reason_codes = sorted (verdict e context).1;
    request_digest = request_sha;
    context_digest = context_sha;
    policy_id = e.policy_id;
  })
