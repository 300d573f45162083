-- ===== src/Saxp/Gates.antt =====
-- When the SAXP evaluation of src/mgk/saxp.py grants, asks or refuses.
use mgk_governance_kernel.Prelude.{
  ◌≡◌, refl, Bool, true, false, ◌&&◌, not, List, [], ◌∷◌, ◌↔◌, String, arith, is_empty,
}
use mgk_governance_kernel.Prelude.Int.{pos, ◌≤ℤ◌}
use mgk_governance_kernel.Models.{SaxpContext}
use mgk_governance_kernel.Saxp.{
  SaxpEvaluator, ten_xeito, require_xeito, non_ten_xeito, append_if, blocking_reasons,
  pending_reasons, verdict,
}

-- No blocking gate fails.
pub record IsAdmissible (c : SaxpContext) : Type 0 where
  pub no_control_risk : c.control_risk ≡ false
  pub ethical : c.ethical_constraints_satisfied ≡ true
  pub coherent : pos 0 ≤ℤ c.coherence_delta
  pub below_threshold : c.systemic_pressure ≤ℤ c.threshold_k

-- No gate asks for more.
pub record IsSettled (e : SaxpEvaluator) (c : SaxpContext) : Type 0 where
  pub certain : c.critical_uncertainty ≡ false
  pub complete : c.information_complete ≡ true
  pub recalibrated : e.minimum_sentidino ≤ℤ c.sentidino

is_empty-append_if :
    (t : Bool) (s : String) (r : List String) → is_empty (append_if t s r) ≡ (not t && is_empty r)
is_empty-append_if true s [] = refl
is_empty-append_if true s (x ∷ r) = refl
is_empty-append_if false s r = refl

blocking_iff : (c : SaxpContext) → (is_empty (blocking_reasons c) ≡ true) ↔ IsAdmissible c
unfolding blocking_reasons
blocking_iff c = simp is_empty-append_if (ground arith)

pending_iff :
    (e : SaxpEvaluator) (c : SaxpContext) → (is_empty (pending_reasons e c) ≡ true) ↔ IsSettled e c
unfolding pending_reasons
pending_iff e c = simp is_empty-append_if (ground arith)

module _ (e : SaxpEvaluator) (c : SaxpContext) where
  -- The evaluation grants exactly if all seven gates pass, refuses exactly if one of the four blocking
  -- gates fails, and asks exactly if these pass and one of the other three fails.
  pub verdict_exact :
      (((verdict e c).0 ≡ ten_xeito) ↔ (IsAdmissible c × IsSettled e c))
      × (((verdict e c).0 ≡ require_xeito) ↔ (IsAdmissible c × ¬ IsSettled e c))
      × (((verdict e c).0 ≡ non_ten_xeito) ↔ (¬ IsAdmissible c))
  unfolding verdict
  verdict_exact = ground (arith, blocking_iff c, pending_iff e c)
