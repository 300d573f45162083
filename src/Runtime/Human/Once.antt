-- ===== src/Runtime/Human/Once.antt =====
-- Calls of the pipeline one after the other: an approval that has executed is the last one for its
-- request, and a denial never touches the kernel.
use mgk_governance_kernel.Prelude.{
  ◌≡◌, refl, sym, subst, true, false, Option, none, some, List, [], ◌∷◌, String,
}
use mgk_governance_kernel.Errors.{Result, ok}
use mgk_governance_kernel.Json.{Fields}
use mgk_governance_kernel.Platform.{Platform}
use mgk_governance_kernel.Models.{request_digest}
use mgk_governance_kernel.Runtime.Store.{ProposalView, HumanRow, is_taken, proposal}
use mgk_governance_kernel.Runtime.Calls.{Call}
use mgk_governance_kernel.Runtime.Calls.Frame.{
  Leaves, lift-Keeps, reads-Keeps, return-Leaves, if-Leaves, bind-Leaves,
}
use mgk_governance_kernel.Runtime.Decision.{
  deny, Decision, DecisionPipeline, RuntimeState, as_request, decision_state,
}
use mgk_governance_kernel.Runtime.Decision.Frames.{
  kernel, human_rows, kernel-Books, humans-Books, Withholds, deny≢allow,
}
use mgk_governance_kernel.Runtime.Propose.{propose}
use mgk_governance_kernel.Runtime.Propose.Passive.{propose-Keeps}
use mgk_governance_kernel.Runtime.Human.{
  stored_request, is_waiting, action_id_of, refuse, gate, human_approve, human_deny,
}
use mgk_governance_kernel.Runtime.Human.Steps.{record_human-kernel, run_execution-humans}
use mgk_governance_kernel.Runtime.Human.Forward.{
  Grows, still, human_approve-Forward, human_deny-Forward,
}
use mgk_governance_kernel.Runtime.Human.Gate.{Approval, nothing, approved, human_approve-Approval}
use mgk_governance_kernel.Runtime.Human.Reports.{deny_transition-Leaves}

module _ (p : Platform) (x : DecisionPipeline) where
  refuse-Leaves :
      (v : ProposalView) (id operator : String) → Leaves kernel Withholds (refuse p x v id operator)
  unfolding refuse
  refuse-Leaves v id operator =
      bind-Leaves kernel Withholds _ _ (lift-Keeps kernel (as_request x.python (stored_request v)))
        (λ e. tt)
        λ r.
          bind-Leaves kernel Withholds _ _ (record_human-kernel p x v id operator "DENY") (λ e. tt)
            λ a.
              bind-Leaves kernel Withholds _ _
                ((kernel-Books p x).decision_at a.2 id deny ("HUMAN_DENIED" ∷ []) none false none
                  a.1)
                (λ e. tt)
                λ done.
                  bind-Leaves kernel Withholds _ _ (lift-Keeps kernel (request_digest p r))
                    (λ e. tt) λ sha. return-Leaves kernel Withholds _ (deny≢allow, refl)

  gate-Leaves :
      (next : ProposalView → Call RuntimeState Decision) (id : String) (found : Option ProposalView)
      → ((v : ProposalView) → Leaves kernel Withholds (next v))
      → Leaves kernel Withholds (gate p x next id found)
  unfolding gate
  gate-Leaves next id none n = return-Leaves kernel Withholds _ ((λ h. cc), refl)
  gate-Leaves next id (some v) n =
      bind-Leaves kernel Withholds _ _ (reads-Keeps kernel (λ s. decision_state p x id s.ledger))
        (λ e. tt)
        λ c.
          if-Leaves kernel Withholds (is_waiting c) _ _ (λ h. n v)
            (λ h. deny_transition-Leaves p x kernel (kernel-Books p x) _ id c)

  human_deny-Leaves : (id operator : String) → Leaves kernel Withholds (human_deny p x id operator)
  unfolding human_deny
  human_deny-Leaves id operator =
      bind-Leaves kernel Withholds _ _ (reads-Keeps kernel (λ s. proposal p id s.ledger)) (λ e. tt)
        λ found. gate-Leaves _ id found (λ v. refuse-Leaves v id operator)

  -- A denial has no effect on the kernel, whatever it finds and whatever fails: a call of `human_deny`
  -- leaves the security state, the ledgers and the files as they are, and its answer neither is ALLOW
  -- nor says that anything was executed.
  pub human_deny_spares :
      (id operator : String) (s : RuntimeState)
      → ((human_deny p x id operator s).1.world ≡ s.world)
        × Withholds (human_deny p x id operator s).0
  human_deny_spares id operator s =
      let l = human_deny-Leaves id operator in (l.kept.same s, l.yielded s)

module _ (p : Platform) where
  -- One call of the pipeline, each with what the environment answers in it, or anything that others do
  -- to the kernel, the flight recorder or the tables of proposals and decisions.
  pub data Step : RuntimeState → RuntimeState → Type 0 where
    proposed :
        (x : DecisionPipeline) (request : Fields) (s : RuntimeState)
        → Step s (propose p x request s).1
    approval :
        (x : DecisionPipeline) (id operator : String) (s : RuntimeState)
        → Step s (human_approve p x id operator s).1
    denial :
        (x : DecisionPipeline) (id operator : String) (s : RuntimeState)
        → Step s (human_deny p x id operator s).1
    outside : (s t : RuntimeState) → human_rows t ≡ human_rows s → Step s t

  pub data Reaches : RuntimeState → RuntimeState → Type 0 where
    here : {s : RuntimeState} → Reaches s s
    then_ : {s t u : RuntimeState} → Step s t → Reaches t u → Reaches s u

  Step-Grows : {s t : RuntimeState} → Step s t → Grows (human_rows s) (human_rows t)
  Step-Grows (proposed x request s) =
      (still p x _ (
          propose-Keeps p x human_rows (humans-Books p x) (run_execution-humans p x) request)).moved
        s
  Step-Grows (approval x id operator s) = (human_approve-Forward p x id operator).moved s
  Step-Grows (denial x id operator s) = (human_deny-Forward p x id operator).moved s
  Step-Grows (outside s t same) =
      λ k h. subst (λ (rs : List HumanRow). is_taken k rs ≡ true) (sym same) h

  Reaches-Grows : {s t : RuntimeState} → Reaches s t → Grows (human_rows s) (human_rows t)
  Reaches-Grows here = λ k h. h
  Reaches-Grows (then_ step rest) = λ k h. Reaches-Grows rest k (Step-Grows step k h)

  spent-Approval :
      (x : DecisionPipeline) (id : String) (s : RuntimeState) (o : Result Decision)
      (s' : RuntimeState)
      → Approval p x id s o s'
      → is_taken (action_id_of id) (human_rows s) ≡ true
      → (s'.world ≡ s.world) × Withholds o
  spent-Approval x id s o s' (nothing same held) taken = (same, held)
  spent-Approval x id s o s' (approved v stored waits free entered outcome) taken = absurd (cc)

  granted-taken :
      (x : DecisionPipeline) (id : String) (s : RuntimeState) (o : Result Decision)
      (s' : RuntimeState) (d : Decision)
      → Approval p x id s o s'
      → o ≡ ok d
      → d.executed ≡ true
      → is_taken (action_id_of id) (human_rows s') ≡ true
  granted-taken x id s o s' d (nothing same held) e done =
      let (_, idle) = subst Withholds e held in absurd (cc)
  granted-taken x id s o s' d (approved v stored waits free entered outcome) e done = entered

  -- At most one approval of a request executes. Where an approval has answered that the request was
  -- executed, then after any further calls of `propose`, `human_approve` and `human_deny`, with any
  -- arguments and surroundings, and whatever others do to anything but the table of the actions of
  -- humans, another approval of the request leaves the kernel as it is and grants nothing.
  pub human_approve_once :
      (x y : DecisionPipeline) (id operator other : String) (s t : RuntimeState) (d : Decision)
      → (human_approve p x id operator s).0 ≡ ok d
      → d.executed ≡ true
      → Reaches (human_approve p x id operator s).1 t
      → ((human_approve p y id other t).1.world ≡ t.world)
        × Withholds (human_approve p y id other t).0
  human_approve_once x y id operator other s t d answer done later =
      spent-Approval y id t _ _ (human_approve-Approval p y id other t) (
        Reaches-Grows later (action_id_of id)
          (granted-taken x id s _ _ d (human_approve-Approval p x id operator s) answer done))
