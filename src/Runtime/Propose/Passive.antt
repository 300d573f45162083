-- ===== src/Runtime/Propose/Passive.antt =====
-- What `propose` of runtime/decision.py leaves alone, whatever it decides: a view that the clock, the
-- recorder, the tables of proposals and decisions, and the executor leave alone.
use mgk_governance_kernel.Prelude.{refl, Option, none, some, List, String, str_eq}
use mgk_governance_kernel.Errors.{err}
use mgk_governance_kernel.Json.{Fields}
use mgk_governance_kernel.Platform.{Bytes, Platform}
use mgk_governance_kernel.Models.{ActionRequest, SaxpDecision, IssueResult}
use mgk_governance_kernel.Saxp.{evaluate}
use mgk_governance_kernel.Runtime.Policy.{context_for}
use mgk_governance_kernel.Runtime.Calls.Frame.{
  Keeps, lift-Keeps, return-Keeps, if-Keeps, bind-Keeps, try_then-Keeps,
}
use mgk_governance_kernel.Runtime.Decision.{
  deny, require_human, DecisionPipeline, RuntimeState, as_request, text_at, is_bad_value,
}
use mgk_governance_kernel.Runtime.Decision.Frames.{Books}
use mgk_governance_kernel.Runtime.Propose.Reports.{
  decline-Leaves, refuse_issue-Leaves, record_proposal-Keeps, report-Leaves,
  settle_indeterminate-Leaves,
}
use mgk_governance_kernel.Runtime.Propose.{
  run_execution, issue_for, use_capability, issue_and_execute, act_on, decide, propose,
}

module _ (p : Platform) (x : DecisionPipeline) {V : Type 0} (view : RuntimeState → V)
    (b : Books p x view)
    (run : (envelope : Bytes) (r : ActionRequest) → Keeps view (run_execution p x envelope r)) where
  use_capability-Keeps :
      (r : ActionRequest) (codes : List String) (issued : IssueResult) (e : Option Bytes)
      → Keeps view (use_capability p x r codes issued e)
  unfolding use_capability
  use_capability-Keeps r codes issued none =
      (decline-Leaves p x view b "DECISION_DENY" deny r codes _ (λ h. cc)).kept
  use_capability-Keeps r codes issued (some envelope) = bind-Keeps view _ _ (b.flight _ _) λ hash.
      bind-Keeps view _ _ (run envelope r)
        λ result. (report-Leaves p x view b r codes issued result).kept

  act_on-Keeps : (r : ActionRequest) (d : SaxpDecision) → Keeps view (act_on p x r d)
  unfolding act_on issue_and_execute
  act_on-Keeps r d =
      if-Keeps view (str_eq d.result "NON_TEN_XEITO") _ _
        (decline-Leaves p x view b _ deny r _ _ (λ h. cc)).kept
        (if-Keeps view (str_eq d.result "REQUIRE_XEITO") _ _
          (decline-Leaves p x view b _ require_human r _ _ (λ h. cc)).kept
          (try_then-Keeps view (issue_for p x r none) _ _ (record { same = λ s. refl })
            (λ e. (refuse_issue-Leaves p x view b r d.reason_codes e).kept)
            λ issued. use_capability-Keeps r d.reason_codes issued issued.envelope))

  decide-Keeps : (r : ActionRequest) → Keeps view (decide p x r)
  unfolding decide
  decide-Keeps r = bind-Keeps view _ _ (record_proposal-Keeps p x view b r) λ done.
      bind-Keeps view _ _ (lift-Keeps view (evaluate p x.saxp r (context_for x.policy r)))
        λ d. act_on-Keeps r d

  pub propose-Keeps : (request : Fields) → Keeps view (propose p x request)
  unfolding propose
  propose-Keeps request =
      bind-Keeps view _ _ (lift-Keeps view (text_at x.python request "request_id")) λ id.
        try_then-Keeps view _ _ _ (lift-Keeps view (as_request x.python request))
          (λ e.
            if-Keeps view (is_bad_value e) _ _ (settle_indeterminate-Leaves p x view b id e).kept
              (lift-Keeps view (err e)))
          λ r.
            try_then-Keeps view _ _ _ (decide-Keeps r)
              (λ e. (settle_indeterminate-Leaves p x view b id e).kept) (λ d. return-Keeps view d)
