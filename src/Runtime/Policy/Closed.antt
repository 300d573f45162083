-- ===== src/Runtime/Policy/Closed.antt =====
-- The policy of runtime/policy.py fails closed: what each request comes to at the gates.
use mgk_governance_kernel.Prelude.{
  ◌≡◌, refl, ◌↔◌, ◌⊎◌, Bool, true, false, not, String, member, arith, eq_iff, inl, inr,
  if◌then◌else◌,
}
use mgk_governance_kernel.Prelude.Int.{pos, ◌≤ℤ◌}
use mgk_governance_kernel.Errors.{ok, guard_ok, value_error}
use mgk_governance_kernel.Authority.{has_prefix}
use mgk_governance_kernel.Models.{ActionRequest, SaxpContext}
use mgk_governance_kernel.Saxp.{SaxpEvaluator, ten_xeito, require_xeito, non_ten_xeito, verdict}
use mgk_governance_kernel.Runtime.Policy.{
  safe_context, deny_all_context, require_human_context, RuntimePolicy, modes, make_policy, allows,
  context_for,
}

module _ (q : RuntimePolicy) (e : SaxpEvaluator) (r : ActionRequest) where
  deny_all_verdict : (verdict e deny_all_context).0 ≡ non_ten_xeito
  unfolding verdict
  deny_all_verdict = ground arith

  require_human_verdict : (verdict e require_human_context).0 ≡ require_xeito
  unfolding verdict
  require_human_verdict = ground arith

  safe_verdict : e.minimum_sentidino ≤ℤ pos 9000 → (verdict e safe_context).0 ≡ ten_xeito
  unfolding verdict
  safe_verdict low = ground arith

  -- The tests of the mode allow_safe: the action, the resource, the sensitivity.
  abbrev cascade : Bool → Bool → Bool → SaxpContext
  cascade known inside sensitive =
      if not known
      then deny_all_context
      else if not inside
      then deny_all_context
      else if sensitive
      then require_human_context
      else safe_context

  modes_differ :
      (m : String)
      → ((m ≡ "allow_safe") → ¬ (m ≡ "deny_all"))
        × ((m ≡ "allow_safe") → ¬ (m ≡ "require_human"))
        × ((m ≡ "deny_all") → ¬ (m ≡ "require_human"))
  modes_differ m = ((λ a b. cc), (λ a b. cc), (λ a b. cc))

  cascade-verdict :
      e.minimum_sentidino ≤ℤ pos 9000
      → (known inside sensitive : Bool) (mode : String) → mode ≡ "allow_safe"
      → (((verdict e (cascade known inside sensitive)).0 ≡ ten_xeito) ↔ (
          (mode ≡ "allow_safe")
          × ((if not known then false else inside) ≡ true)
          × (sensitive ≡ false)))
        × (((verdict e (cascade known inside sensitive)).0 ≡ require_xeito) ↔ (
            (mode ≡ "require_human")
            ⊎ ((mode ≡ "allow_safe")
                × ((if not known then false else inside) ≡ true)
                × (sensitive ≡ true))))
        × (((verdict e (cascade known inside sensitive)).0 ≡ non_ten_xeito) ↔ (
            (mode ≡ "deny_all")
            ⊎ ((mode ≡ "allow_safe") × ((if not known then false else inside) ≡ false))))
  cascade-verdict low false inside sensitive mode m =
      let deny = deny_all_verdict in ground (arith, modes_differ mode)
  cascade-verdict low true false sensitive mode m =
      let deny = deny_all_verdict in ground (arith, modes_differ mode)
  cascade-verdict low true true true mode m =
      let ask = require_human_verdict in ground (arith, modes_differ mode)
  cascade-verdict low true true false mode m =
      let safe = safe_verdict low in ground (arith, modes_differ mode)

  allow_safe-context :
      q.mode ≡ "allow_safe"
      → context_for q r
        ≡ cascade
            (member r.action q.allowed_actions)
            (has_prefix r.resource q.allowed_resource_prefixes)
            (member r.action q.sensitive_actions)
  unfolding context_for
  allow_safe-context mode = rw mode refl

  deny_all-context : q.mode ≡ "deny_all" → context_for q r ≡ deny_all_context
  unfolding context_for
  deny_all-context mode = rw mode refl

  require_human-context : q.mode ≡ "require_human" → context_for q r ≡ require_human_context
  unfolding context_for
  require_human-context mode = rw mode refl

  -- The mode is one of the three.
  mode-cases :
      make_policy q ≡ ok q
      → (q.mode ≡ "allow_safe") ⊎ ((q.mode ≡ "deny_all") ⊎ (q.mode ≡ "require_human"))
  unfolding make_policy
  mode-cases made = guard_ok (not (member q.mode modes)) value_error _ made λ known _.
      ground
        (arith, eq_iff "allow_safe" q.mode, eq_iff "deny_all" q.mode, eq_iff "require_human" q.mode)

  -- The three verdicts of the gates on the context of a request, for a policy that was made and an
  -- evaluator that asks for at most 9000: granted exactly in the mode allow_safe, for an action and a
  -- resource that the policy allows, where the action is not sensitive; put to a human exactly in the
  -- mode require_human, or in allow_safe for an allowed sensitive request; refused otherwise.
  pub context_for-verdict :
      make_policy q ≡ ok q
      → e.minimum_sentidino ≤ℤ pos 9000
      → (((verdict e (context_for q r)).0 ≡ ten_xeito) ↔ (
          (q.mode ≡ "allow_safe")
          × (allows q r.action r.resource ≡ true)
          × (member r.action q.sensitive_actions ≡ false)))
        × (((verdict e (context_for q r)).0 ≡ require_xeito) ↔ (
            (q.mode ≡ "require_human")
            ⊎ ((q.mode ≡ "allow_safe")
                × (allows q r.action r.resource ≡ true)
                × (member r.action q.sensitive_actions ≡ true))))
        × (((verdict e (context_for q r)).0 ≡ non_ten_xeito) ↔ (
            (q.mode ≡ "deny_all")
            ⊎ ((q.mode ≡ "allow_safe") × (allows q r.action r.resource ≡ false))))
  unfolding allows
  context_for-verdict made low =
      let deny = deny_all_verdict in
      let ask = require_human_verdict in
      elim (mode-cases made) [
        | inl mode ↦ rw (allow_safe-context mode) (cascade-verdict low _ _ _ q.mode mode)
        | inr (inl mode) ↦ rw (deny_all-context mode) (ground (arith, modes_differ q.mode))
        | inr (inr mode) ↦ rw (require_human-context mode) (ground (arith, modes_differ q.mode))
      ]
