-- ===== src/Runtime/Human/Reports.antt =====
-- The records and answers at the human gate of runtime/decision.py, for a view of the state that the
-- clock, the recorder and the tables of proposals and decisions leave alone.
use mgk_governance_kernel.Prelude.{
  ◌≡◌, refl, Bool, true, false, Option, none, some, List, [], ◌∷◌, ◌++◌, String,
}
use mgk_governance_kernel.Errors.{Error, Result, ok, err}
use mgk_governance_kernel.Platform.{Bytes, Platform}
use mgk_governance_kernel.Canonical.{canonicalize}
use mgk_governance_kernel.Models.{ActionRequest, IssueResult, ExecutionResult, request_digest}
use mgk_governance_kernel.Runtime.Store.{ProposalView}
use mgk_governance_kernel.Runtime.Calls.Frame.{
  Keeps, Leaves, lift-Keeps, return-Keeps, bind-Keeps, lift-Leaves, return-Leaves, if-Leaves,
  bind-Leaves,
}
use mgk_governance_kernel.Runtime.Decision.{
  allow, deny, DecisionPipeline, RuntimeState, is_bad_value, is_mgk, code_or_unexpected,
}
use mgk_governance_kernel.Runtime.Decision.Frames.{Books, Withholds, Reports}
use mgk_governance_kernel.Runtime.Propose.Reports.{try_flight-Keeps}
use mgk_governance_kernel.Runtime.Human.{
  human_document, sign_with, sign_human, deny_transition, refuse_human, state_of, report_human,
}

module _ (p : Platform) (x : DecisionPipeline) {V : Type 0} (view : RuntimeState → V)
    (b : Books p x view) where
  sign_with-Keeps :
      (key : Option Bytes) (v : ProposalView) (decision operator : String)
      → Keeps view (sign_with p x key v decision operator)
  unfolding sign_with
  sign_with-Keeps none v decision operator = return-Keeps view ""
  sign_with-Keeps (some key) v decision operator = bind-Keeps view _ _ b.time λ at.
      bind-Keeps view _ _
        (lift-Keeps view (canonicalize p (human_document p x v decision operator at)))
        λ document. return-Keeps view _

  pub sign_human-Keeps :
      (v : ProposalView) (decision operator : String)
      → Keeps view (sign_human p x v decision operator)
  unfolding sign_human
  sign_human-Keeps v decision operator = sign_with-Keeps x.operator_key v decision operator

  pub deny_transition-Leaves :
      (source : Result ActionRequest) (id : String) (current : Option String)
      → Leaves view Withholds (deny_transition p x source id current)
  unfolding deny_transition
  deny_transition-Leaves (err e) id current =
      if-Leaves view Withholds (is_bad_value e) _ _
        (λ h. return-Leaves view Withholds _ ((λ h'. cc), refl))
        (λ h. lift-Leaves view Withholds (err e) tt)
  deny_transition-Leaves (ok r) id current =
      bind-Leaves view Withholds _ _ (try_flight-Keeps p x view b _ _) (λ e. tt)
        λ hash.
          bind-Leaves view Withholds _ _ (lift-Keeps view (request_digest p r)) (λ e. tt)
            λ sha. return-Leaves view Withholds _ ((λ h. cc), refl)

  pub refuse_human-Leaves :
      (r : ActionRequest) (codes : List String) (operator signature : String) (e : Error)
      → Leaves view Withholds (refuse_human p x r codes operator signature e)
  unfolding refuse_human
  refuse_human-Leaves r codes operator signature e =
      if-Leaves view Withholds (is_mgk e) _ _
        (λ h.
          bind-Leaves view Withholds _ _ (b.flight _ _) (λ e'. tt)
            λ hash.
              bind-Leaves view Withholds _ _
                (b.decision r.request_id deny (codes ++ code_or_unexpected e ∷ []) none false none
                  hash)
                (λ e'. tt)
                λ done.
                  bind-Leaves view Withholds _ _ (lift-Keeps view (request_digest p r)) (λ e'. tt)
                    λ sha. return-Leaves view Withholds _ ((λ h'. cc), refl))
        (λ h. lift-Leaves view Withholds (err e) tt)

  state_of-allow : (success : Bool) → state_of p x success ≡ allow → success ≡ true
  state_of-allow true h = refl
  state_of-allow false h = cc

  pub report_human-Leaves :
      (r : ActionRequest) (codes : List String) (operator signature : String) (issued : IssueResult)
      (result : ExecutionResult)
      → Leaves view
          (Reports issued result)
          (report_human p x r codes operator signature issued result)
  unfolding report_human
  report_human-Leaves r codes operator signature issued result =
      bind-Leaves view (Reports issued result) _ _ (b.flight _ _) (λ e. tt)
        λ hash.
          bind-Leaves view (Reports issued result) _ _
            (b.decision r.request_id (state_of p x result.success) codes issued.capability_id
              result.success result.output_digest hash)
            (λ e. tt)
            λ done.
              bind-Leaves view (Reports issued result) _ _ (lift-Keeps view (request_digest p r))
                (λ e. tt)
                λ sha. return-Leaves view (Reports issued result) _ (λ allowed. (
                  state_of-allow result.success allowed,
                  state_of-allow result.success allowed,
                  refl,
                  refl,
                ))
