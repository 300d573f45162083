-- ===== src/Runtime/Propose/Authority.antt =====
-- A proposal is not authority: what `propose` of runtime/decision.py can do to the kernel.
use mgk_governance_kernel.Prelude.{
  ◌≡◌, refl, ◌∙◌, ap, subst, Option, none, some, List, String, str_eq,
}
use mgk_governance_kernel.Errors.{Result, ok, err}
use mgk_governance_kernel.Json.{Fields}
use mgk_governance_kernel.Platform.{Bytes, Platform}
use mgk_governance_kernel.Models.{ActionRequest, SaxpDecision, IssueResult}
use mgk_governance_kernel.Saxp.{evaluate}
use mgk_governance_kernel.Authority.{issue}
use mgk_governance_kernel.Executor.{World, execute}
use mgk_governance_kernel.Runtime.Policy.{context_for}
use mgk_governance_kernel.Runtime.Calls.{lift, return, continue, settle, try_then, recover, ◌>>=◌}
use mgk_governance_kernel.Runtime.Calls.Frame.{
  Meets, lift-Keeps, lift-Leaves, if-Leaves, if-Meets, bind-Meets,
}
use mgk_governance_kernel.Runtime.Decision.{
  deny, require_human, Decision, DecisionPipeline, RuntimeState, as_request, text_at, is_bad_value,
  record_flight,
}
use mgk_governance_kernel.Runtime.Decision.Frames.{
  kernel, kernel-Books, Withholds, Reports, Outcome, untouched, executed, spare-Meets, absorb,
}
use mgk_governance_kernel.Runtime.Propose.Reports.{
  decline-Leaves, refuse_issue-Leaves, record_proposal-Keeps, report-Leaves,
  settle_indeterminate-Leaves,
}
use mgk_governance_kernel.Runtime.Propose.{
  issued_data, run_execution, refuse_issue, report, use_capability, issue_and_execute, act_on,
  decide, settle_indeterminate, refuse_request, propose,
}

module _ (p : Platform) (x : DecisionPipeline) where
  module _ (r : ActionRequest) (codes : List String) (issued : IssueResult) (envelope : Bytes)
      (has_envelope : issued.envelope ≡ some envelope) where
    abbrev P : World → Result Decision → World → Type 0
    P = Outcome p x (ok r) none

    -- After the record of the issuance, in a state with the kernel of the issuance.
    run-Outcome :
        (w : World)
        → issue p x.authority r none none x.issued_at x.nonce w.state w.files ≡ ok issued
        → (o : Result String × RuntimeState) → o.1.world ≡ w
        → P w
            (continue
              (λ hash. run_execution p x envelope r >>= λ result. report p x r codes issued result)
              o).0
            (continue
              (λ hash. run_execution p x envelope r >>= λ result. report p x r codes issued result)
              o).1.world
    run-Outcome w issued_here (err e, s) h = untouched h tt
    run-Outcome w issued_here (ok hash, s) h =
        let result = execute p x.executor x.surroundings envelope r in
        let l = report-Leaves p x kernel (kernel-Books p x) r codes issued (result s.world).0 in
        executed r issued envelope refl issued_here has_envelope
          (l.kept.same (record s { world = (result s.world).1 })
            ∙ ap (λ (v : World). (result v).1) h)
          (subst
            (λ (v : World).
              Reports issued (result v).0
                (report p x r codes issued (result s.world).0
                  (record s { world = (result s.world).1 })).0)
            h (l.yielded (record s { world = (result s.world).1 })))

  use_capability-Outcome :
      (r : ActionRequest) (codes : List String) (issued : IssueResult) (s : RuntimeState)
      (e : Option Bytes)
      → issue p x.authority r none none x.issued_at x.nonce s.world.state s.world.files ≡ ok issued
      → issued.envelope ≡ e
      → Outcome p x
          (ok r)
          none
          s.world
          (use_capability p x r codes issued e s).0
          (use_capability p x r codes issued e s).1.world
  unfolding use_capability
  use_capability-Outcome r codes issued s none here h =
      (spare-Meets p x (ok r) none _ (
          decline-Leaves p x kernel (kernel-Books p x) "DECISION_DENY" deny r codes _
            (λ h'. cc))).met
        s
  use_capability-Outcome r codes issued s (some envelope) here h =
      run-Outcome r codes issued envelope h s.world here
        (record_flight p x "CAPABILITY_ISSUED" (issued_data r issued.capability_id) s)
        (((kernel-Books p x).flight _ _).same s)

  issued-Outcome :
      (r : ActionRequest) (codes : List String) (s : RuntimeState) (o : Result IssueResult)
      → issue p x.authority r none none x.issued_at x.nonce s.world.state s.world.files ≡ o
      → Outcome p x
          (ok r)
          none
          s.world
          (settle
            (refuse_issue p x r codes)
            (λ issued. use_capability p x r codes issued issued.envelope)
            (o, s)).0
          (settle
            (refuse_issue p x r codes)
            (λ issued. use_capability p x r codes issued issued.envelope)
            (o, s)).1.world
  issued-Outcome r codes s (err e) here =
      (spare-Meets p x (ok r) none _
          (refuse_issue-Leaves p x kernel (kernel-Books p x) r codes e)).met
        s
  issued-Outcome r codes s (ok issued) here =
      use_capability-Outcome r codes issued s issued.envelope here refl

  issue_and_execute-Meets :
      (r : ActionRequest) (codes : List String)
      → Meets kernel (Outcome p x (ok r) none) (issue_and_execute p x r codes)
  unfolding issue_and_execute
  issue_and_execute-Meets r codes = record { met = λ s. issued-Outcome r codes s _ refl }

  act_on-Meets :
      (r : ActionRequest) (d : SaxpDecision)
      → Meets kernel (Outcome p x (ok r) none) (act_on p x r d)
  unfolding act_on
  act_on-Meets r d =
      if-Meets kernel (Outcome p x (ok r) none) (str_eq d.result "NON_TEN_XEITO") _ _
        (spare-Meets p x (ok r) none _
          (decline-Leaves p x kernel (kernel-Books p x) _ deny r _ _ (λ h. cc)))
        (if-Meets kernel (Outcome p x (ok r) none) (str_eq d.result "REQUIRE_XEITO") _ _
          (spare-Meets p x (ok r) none _
            (decline-Leaves p x kernel (kernel-Books p x) _ require_human r _ _ (λ h. cc)))
          (issue_and_execute-Meets r d.reason_codes))

  decide-Meets : (r : ActionRequest) → Meets kernel (Outcome p x (ok r) none) (decide p x r)
  unfolding decide
  decide-Meets r =
      bind-Meets kernel (Outcome p x (ok r) none) _ _
        (record_proposal-Keeps p x kernel (kernel-Books p x) r) (λ e w. untouched refl tt)
        λ done.
          bind-Meets kernel (Outcome p x (ok r) none) _ _
            (lift-Keeps kernel (evaluate p x.saxp r (context_for x.policy r)))
            (λ e w. untouched refl tt) λ d. act_on-Meets r d

  recover-Outcome :
      (r : ActionRequest) (id : String) (w : World) (o : Result Decision × RuntimeState)
      → Outcome p x (ok r) none w o.0 o.1.world
      → Outcome p x
          (ok r)
          none
          w
          (settle (settle_indeterminate p x id) return o).0
          (settle (settle_indeterminate p x id) return o).1.world
  recover-Outcome r id w (ok d, s) h = h
  recover-Outcome r id w (err e, s) h =
      let l = settle_indeterminate-Leaves p x kernel (kernel-Books p x) id e in
      absorb p x (ok r) none _ _ h (l.kept.same s) (l.yielded s)

  bound-Meets :
      (id : String) (source : Result ActionRequest)
      → Meets kernel (Outcome p x source none) (
          try_then
            (lift source)
            (refuse_request p x id)
            (λ r. recover (decide p x r) (settle_indeterminate p x id)))
  bound-Meets id (ok r) = record {
    met = λ s. recover-Outcome r id s.world (decide p x r s) ((decide-Meets r).met s);
  }
  bound-Meets id (err e) = spare-Meets p x (err e) none _ (
      if-Leaves kernel Withholds (is_bad_value e) _ _
        (λ h. settle_indeterminate-Leaves p x kernel (kernel-Books p x) id e)
        (λ h. lift-Leaves kernel Withholds (err e) tt))

  -- A proposal is not authority, whatever the request, the policy, the state and the failures are. A
  -- call of `propose` leaves the kernel (its security state, ledgers and files) as it is and answers
  -- neither ALLOW nor executed; or the authority issued an envelope for the request that `_request`
  -- reads, in the state that the kernel was in and with its own context, and the kernel is as one call
  -- of the executor with this envelope and request leaves it. An answer ALLOW is given only where that
  -- execution was a success, with the capability that was issued and the digest that was returned.
  pub propose-Outcome :
      (request : Fields) (s : RuntimeState)
      → Outcome p x
          (as_request x.python request)
          none
          s.world
          (propose p x request s).0
          (propose p x request s).1.world
  unfolding propose
  propose-Outcome request s =
      (bind-Meets kernel (Outcome p x (as_request x.python request) none) _ _
          (lift-Keeps kernel (text_at x.python request "request_id")) (λ e w. untouched refl tt)
          (λ id. bound-Meets id (as_request x.python request))).met
        s
