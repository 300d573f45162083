-- ===== src/Runtime/Decision/Frames.antt =====
-- The bookkeeping of runtime/decision.py leaves the kernel alone: its state, its ledgers, its files.
use mgk_governance_kernel.Prelude.{
  ◌≡◌, ◌≢◌, refl, ◌∙◌, Bool, true, false, Option, none, some, List, String,
}
use mgk_governance_kernel.Errors.{Result, ok, err}
use mgk_governance_kernel.Json.{Value, Fields}
use mgk_governance_kernel.Platform.{Bytes, Platform}
use mgk_governance_kernel.Models.{ActionRequest, SaxpContext, IssueResult, ExecutionResult}
use mgk_governance_kernel.Authority.{issue}
use mgk_governance_kernel.Executor.{World, execute}
use mgk_governance_kernel.Runtime.Store.{RuntimeLedger, HumanRow, store_proposal, store_decision}
use mgk_governance_kernel.Runtime.Store.Rows.{
  KeepsHumans, store_proposal-KeepsHumans, store_decision-KeepsHumans,
}
use mgk_governance_kernel.Prelude.Int.{ℤ}
use mgk_governance_kernel.Runtime.Calls.{Call}
use mgk_governance_kernel.Runtime.Calls.Frame.{Keeps, bind-Keeps, Leaves, Meets}
use mgk_governance_kernel.Runtime.Decision.{
  DecisionState, allow, deny, Decision, DecisionPipeline, RuntimeState, now, put_ledger,
  record_flight, write_ledger, save_decision, save_decision_at, value_of,
}

abbrev pub kernel : RuntimeState → World
kernel s = s.world

abbrev pub human_rows : RuntimeState → List HumanRow
human_rows s = s.ledger.human_rows

module _ (p : Platform) (x : DecisionPipeline) where
  -- The clock, the flight recorder and the tables of proposals and decisions leave the view alone.
  pub record Books {V : Type 0} (view : RuntimeState → V) : Type 0 where
    pub time : Keeps view (now p x)
    pub flight : (t : String) (d : Fields) → Keeps view (record_flight p x t d)
    pub proposal :
        (r : ActionRequest) (sha : String) (at : ℤ)
        → Keeps view (write_ledger p x (store_proposal p r sha at))
    pub decision :
        (id : String) (state : DecisionState) (codes : List String) (c : Option String) (b : Bool)
        (o : Option Value) (h : String)
        → Keeps view (save_decision p x id state codes c b o h)
    pub decision_at :
        (at : ℤ) (id : String) (state : DecisionState) (codes : List String) (c : Option String)
        (b : Bool) (o : Option Value) (h : String)
        → Keeps view (save_decision_at p x at id state codes c b o h)

  save_decision_at-Keeps :
      {V : Type 0} (view : RuntimeState → V)
      → ((f : RuntimeLedger → Result RuntimeLedger)
          → KeepsHumans f
          → Keeps view (write_ledger p x f))
      → (at : ℤ) (id : String) (state : DecisionState) (codes : List String) (c : Option String)
        (b : Bool) (o : Option Value) (h : String)
      → Keeps view (save_decision_at p x at id state codes c b o h)
  unfolding save_decision_at
  save_decision_at-Keeps view write at id state codes c b o h =
      write (store_decision p id id (value_of state) codes c b o h at)
        (store_decision-KeepsHumans p _ _ _ _ _ _ _ _ _)

  save_decision-Keeps :
      {V : Type 0} (view : RuntimeState → V)
      → Keeps view (now p x)
      → ((f : RuntimeLedger → Result RuntimeLedger)
          → KeepsHumans f
          → Keeps view (write_ledger p x f))
      → (id : String) (state : DecisionState) (codes : List String) (c : Option String) (b : Bool)
        (o : Option Value) (h : String)
      → Keeps view (save_decision p x id state codes c b o h)
  unfolding save_decision
  save_decision-Keeps view time write id state codes c b o h =
      bind-Keeps view _ _ time λ at. save_decision_at-Keeps view write at id state codes c b o h

  books :
      {V : Type 0} (view : RuntimeState → V)
      → Keeps view (now p x)
      → ((t : String) (d : Fields) → Keeps view (record_flight p x t d))
      → ((f : RuntimeLedger → Result RuntimeLedger)
          → KeepsHumans f
          → Keeps view (write_ledger p x f))
      → Books view
  books view time flight write = record {
    time = time;
    flight = flight;
    proposal =
        λ r sha at. write (store_proposal p r sha at) (store_proposal-KeepsHumans p r sha at);
    decision = save_decision-Keeps view time write;
    decision_at = save_decision_at-Keeps view write;
  }

  put_ledger-kernel :
      (s : RuntimeState) (r : Result RuntimeLedger) → (put_ledger p x s r).1.world ≡ s.world
  put_ledger-kernel s (ok l) = refl
  put_ledger-kernel s (err e) = refl

  pub write_ledger-kernel :
      (f : RuntimeLedger → Result RuntimeLedger) → Keeps kernel (write_ledger p x f)
  write_ledger-kernel f = record { same = λ s. put_ledger-kernel s (f s.ledger) }

  put_ledger-humans :
      (s : RuntimeState) (f : RuntimeLedger → Result RuntimeLedger) (r : Result RuntimeLedger)
      → KeepsHumans f
      → f s.ledger ≡ r
      → human_rows (put_ledger p x s r).1 ≡ human_rows s
  put_ledger-humans s f (ok l) k h = k s.ledger l h
  put_ledger-humans s f (err e) k h = refl

  -- The kernel, and the actions of humans, are such views.
  pub kernel-Books : Books kernel
  unfolding record_flight now
  kernel-Books =
      books kernel (record { same = λ s. refl }) (λ t d. record { same = λ s. refl })
        (λ f k. write_ledger-kernel f)

  pub humans-Books : Books human_rows
  unfolding record_flight now
  humans-Books =
      books human_rows (record { same = λ s. refl }) (λ t d. record { same = λ s. refl })
        (λ f k. record { same = λ s. put_ledger-humans s f (f s.ledger) k refl })

pub deny≢allow : deny ≢ allow
deny≢allow h = cc

-- A decision that does not grant anything, or an exception.
abbrev pub Withholds : Result Decision → Type 0
Withholds (ok d) = (d.state ≢ allow) × (d.executed ≡ false)
Withholds (err e) = Unit

-- A decision after an execution: ALLOW is answered only for a success, with its capability and digest.
abbrev pub Reports : IssueResult → ExecutionResult → Result Decision → Type 0
Reports issued result (ok d) =
    d.state ≡ allow
    → (result.success ≡ true)
      × (d.executed ≡ true)
      × (d.capability_id ≡ issued.capability_id)
      × (d.output_digest ≡ result.output_digest)
Reports issued result (err e) = Unit

module _ (p : Platform) (x : DecisionPipeline) where
  -- What one call of the pipeline has done to the kernel, for the request that it reads from `source`
  -- and the context that it passes to the authority: nothing, and it grants nothing; or it ran the
  -- executor once, with the envelope that the authority issued for this request in the state that the
  -- kernel was in, and where it answers ALLOW the execution was a success.
  pub data Outcome (source : Result ActionRequest) (context : Option SaxpContext) (w : World)
      (o : Result Decision) (w' : World) : Type 0 where
    untouched : w' ≡ w → Withholds o → Outcome source context w o w'
    executed :
        (r : ActionRequest) (issued : IssueResult) (envelope : Bytes)
        → source ≡ ok r
        → issue p x.authority r none context x.issued_at x.nonce w.state w.files ≡ ok issued
        → issued.envelope ≡ some envelope
        → w' ≡ (execute p x.executor x.surroundings envelope r w).1
        → Reports issued (execute p x.executor x.surroundings envelope r w).0 o
        → Outcome source context w o w'

  pub spare-Meets :
      (source : Result ActionRequest) (context : Option SaxpContext)
      (m : Call RuntimeState Decision)
      → Leaves kernel Withholds m
      → Meets kernel (Outcome source context) m
  spare-Meets source context m l = record { met = λ s. untouched (l.kept.same s) (l.yielded s) }

  pub withheld-Reports :
      (issued : IssueResult) (result : ExecutionResult) (o : Result Decision)
      → Withholds o
      → Reports issued result o
  withheld-Reports issued result (ok d) (other, _) = λ allowed. absurd (other allowed)
  withheld-Reports issued result (err e) h = tt

  -- A handler that leaves the kernel alone and withholds keeps what has happened.
  pub absorb :
      (source : Result ActionRequest) (context : Option SaxpContext) {w w' w'' : World}
      (o o' : Result Decision)
      → Outcome source context w o w'
      → w'' ≡ w'
      → Withholds o'
      → Outcome source context w o' w''
  absorb source context o o' (untouched same _) h y = untouched (h ∙ same) y
  absorb source context {w} o o' (executed r issued envelope from here has same _) h y =
      executed r issued envelope from here has (h ∙ same)
        (withheld-Reports issued (execute p x.executor x.surroundings envelope r w).0 o' y)
