-- ===== src/Runtime/Propose/Reports.antt =====
-- The records and answers of `propose` of runtime/decision.py: none of them touches the kernel.
use mgk_governance_kernel.Prelude.{◌≡◌, ◌≢◌, refl, true, false, none, some, List, [], ◌∷◌, String}
use mgk_governance_kernel.Errors.{Error}
use mgk_governance_kernel.Json.{Fields}
use mgk_governance_kernel.Platform.{Platform}
use mgk_governance_kernel.Models.{ActionRequest, IssueResult, ExecutionResult, request_digest}
use mgk_governance_kernel.Runtime.Calls.Frame.{
  Keeps, Leaves, lift-Keeps, return-Keeps, bind-Keeps, try_then-Keeps, lift-Leaves, return-Leaves,
  if-Leaves, bind-Leaves,
}
use mgk_governance_kernel.Runtime.Decision.{
  DecisionState, allow, deny, indeterminate, DecisionPipeline, RuntimeState, is_mgk,
  code_or_unexpected,
}
use mgk_governance_kernel.Runtime.Decision.Frames.{Books, Withholds, Reports}
use mgk_governance_kernel.Runtime.Propose.{
  or_empty, decline, deny_issue_failure, refuse_issue, report_success, report_failure, report,
  record_proposal, try_flight, settle_indeterminate,
}

module _ (p : Platform) (x : DecisionPipeline) {V : Type 0} (view : RuntimeState → V)
    (b : Books p x view) where
  pub decline-Leaves :
      (t : String) (state : DecisionState) (r : ActionRequest) (codes : List String) (d : Fields)
      → state ≢ allow
      → Leaves view Withholds (decline p x t state r codes d)
  unfolding decline
  decline-Leaves t state r codes d other =
      bind-Leaves view Withholds _ _ (b.flight t d) (λ e. tt)
        λ hash.
          bind-Leaves view Withholds _ _ (b.decision r.request_id state codes none false none hash)
            (λ e. tt)
            λ done.
              bind-Leaves view Withholds _ _ (lift-Keeps view (request_digest p r)) (λ e. tt)
                λ sha. return-Leaves view Withholds _ (other, refl)

  pub refuse_issue-Leaves :
      (r : ActionRequest) (codes : List String) (e : Error)
      → Leaves view Withholds (refuse_issue p x r codes e)
  unfolding deny_issue_failure
  refuse_issue-Leaves r codes e =
      if-Leaves view Withholds (is_mgk e) _ _ (λ h. decline-Leaves _ deny r _ _ (λ h'. cc))
        (λ h. lift-Leaves view Withholds _ tt)

  pub record_proposal-Keeps : (r : ActionRequest) → Keeps view (record_proposal p x r)
  unfolding record_proposal
  record_proposal-Keeps r =
      bind-Keeps view _ _ (b.time)
        λ at. bind-Keeps view _ _ (lift-Keeps view (request_digest p r)) λ sha. b.proposal r sha at

  report_success-Leaves :
      (r : ActionRequest) (codes : List String) (issued : IssueResult) (result : ExecutionResult)
      → result.success ≡ true
      → Leaves view (Reports issued result) (report_success p x r codes issued result)
  unfolding report_success
  report_success-Leaves r codes issued result success =
      bind-Leaves view (Reports issued result) _ _ (b.flight _ _) (λ e. tt)
        λ hash.
          bind-Leaves view (Reports issued result) _ _
            (b.decision r.request_id allow codes issued.capability_id true result.output_digest
              hash)
            (λ e. tt)
            λ done.
              bind-Leaves view (Reports issued result) _ _ (lift-Keeps view (request_digest p r))
                (λ e. tt)
                λ sha.
                  return-Leaves view (Reports issued result) _
                    (λ allowed. (success, refl, refl, refl))

  report_failure-Leaves :
      (r : ActionRequest) (codes : List String) (issued : IssueResult) (result : ExecutionResult)
      → Leaves view (Reports issued result) (report_failure p x r codes issued result)
  unfolding report_failure
  report_failure-Leaves r codes issued result =
      bind-Leaves view (Reports issued result) _ _ (b.flight _ _) (λ e. tt)
        λ hash.
          bind-Leaves view (Reports issued result) _ _
            (b.decision r.request_id deny codes issued.capability_id false none hash) (λ e. tt)
            λ done.
              bind-Leaves view (Reports issued result) _ _ (lift-Keeps view (request_digest p r))
                (λ e. tt)
                λ sha. return-Leaves view (Reports issued result) _ (λ allowed. absurd (cc))

  pub report-Leaves :
      (r : ActionRequest) (codes : List String) (issued : IssueResult) (result : ExecutionResult)
      → Leaves view (Reports issued result) (report p x r codes issued result)
  unfolding report
  report-Leaves r codes issued result =
      if-Leaves view (Reports issued result) result.success _ _
        (report_success-Leaves r codes issued result)
        (λ h. report_failure-Leaves r codes issued result)

  pub try_flight-Keeps : (t : String) (d : Fields) → Keeps view (try_flight p x t d)
  try_flight-Keeps t d =
      try_then-Keeps view _ _ _ (b.flight t d) (λ e. return-Keeps view none)
        λ hash. return-Keeps view (some hash)

  pub settle_indeterminate-Leaves :
      (id : String) (e : Error) → Leaves view Withholds (settle_indeterminate p x id e)
  unfolding settle_indeterminate
  settle_indeterminate-Leaves id e =
      bind-Leaves view Withholds _ _ (try_flight-Keeps _ _) (λ e'. tt)
        λ hash.
          bind-Leaves view Withholds _ _
            (try_then-Keeps view _ _ _
              (b.decision id indeterminate (code_or_unexpected e ∷ []) none false none
                (or_empty hash))
              (λ dropped. return-Keeps view tt) (λ done. return-Keeps view tt))
            (λ e'. tt) λ done. return-Leaves view Withholds _ ((λ h. cc), refl)
