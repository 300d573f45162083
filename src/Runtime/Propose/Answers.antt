-- ===== src/Runtime/Propose/Answers.antt =====
-- `propose` of runtime/decision.py answers: no failure of the kernel, the recorder or the tables passes.
use mgk_governance_kernel.Prelude.{◌≡◌, refl, true, false, none, some, [], ◌∷◌, String}
use mgk_governance_kernel.Errors.{Error, Result, ok, err}
use mgk_governance_kernel.Json.{Fields}
use mgk_governance_kernel.Platform.{Platform}
use mgk_governance_kernel.Models.{ActionRequest}
use mgk_governance_kernel.Runtime.Calls.{
  Call, continue, settle, lift, return, ◌>>=◌, try_then, recover,
}
use mgk_governance_kernel.Runtime.Decision.{
  Decision, DecisionPipeline, RuntimeState, as_request, text_at, is_bad_value, record_flight,
  save_decision, indeterminate, code_or_unexpected,
}
use mgk_governance_kernel.Runtime.Propose.{
  or_empty, decide, try_flight, settle_indeterminate, refuse_request, propose,
}

-- The call returns, whatever the state is.
pub record Answers {S : Type 0} {A : Type 0} (m : Call S A) : Type 0 where
  pub answered : (s : S) → (a : A) × ((m s).0 ≡ ok a)

return-Answers : {S : Type 0} {A : Type 0} (a : A) → Answers {S = S} (return a)
return-Answers a = record { answered = λ s. (a, refl) }

module _ {S : Type 0} {A : Type 0} {B : Type 0} where
  settle-Answers :
      (handler : Error → Call S B) (next : A → Call S B)
      → ((e : Error) → Answers (handler e))
      → ((a : A) → Answers (next a))
      → (o : Result A × S) → (b : B) × ((settle handler next o).0 ≡ ok b)
  settle-Answers handler next h n (ok a, s) = (n a).answered s
  settle-Answers handler next h n (err e, s) = (h e).answered s

  try_then-Answers :
      (m : Call S A) (handler : Error → Call S B) (next : A → Call S B)
      → ((e : Error) → Answers (handler e))
      → ((a : A) → Answers (next a))
      → Answers (try_then m handler next)
  try_then-Answers m handler next h n = record {
    answered = λ s. settle-Answers handler next h n (m s);
  }

  continue-Answers :
      (next : A → Call S B)
      → ((a : A) → Answers (next a))
      → (o : Result A × S) (a : A) → o.0 ≡ ok a
      → (b : B) × ((continue next o).0 ≡ ok b)
  continue-Answers next n (ok a', s) a h = (n a').answered s
  continue-Answers next n (err e, s) a h = absurd (cc)

  bind-Answers :
      (m : Call S A) (next : A → Call S B)
      → Answers m
      → ((a : A) → Answers (next a))
      → Answers (m >>= next)
  bind-Answers m next k n = record {
    answered = λ s. continue-Answers next n (m s) (k.answered s).0 (k.answered s).1;
  }

module _ (p : Platform) (x : DecisionPipeline) where
  try_flight-Answers : (t : String) (d : Fields) → Answers (try_flight p x t d)
  try_flight-Answers t d =
      try_then-Answers (record_flight p x t d) _ _ (λ e. return-Answers none)
        (λ hash. return-Answers (some hash))

  settle_indeterminate-Answers : (id : String) (e : Error) → Answers (settle_indeterminate p x id e)
  unfolding settle_indeterminate
  settle_indeterminate-Answers id e = bind-Answers _ _ (try_flight-Answers _ _) λ hash.
      bind-Answers _ _
        (try_then-Answers
          (save_decision p x id indeterminate (code_or_unexpected e ∷ []) none false none
            (or_empty hash))
          _ _ (λ dropped. return-Answers tt) (λ done. return-Answers tt))
        λ done. return-Answers _

  decide-Answers :
      (id : String) (r : ActionRequest)
      → Answers (recover (decide p x r) (settle_indeterminate p x id))
  decide-Answers id r =
      try_then-Answers _ _ _ (settle_indeterminate-Answers id) (λ d. return-Answers d)

  -- The request that is read, or one of the exceptions that `propose` expects of its shape.
  abbrev pub Expected : Result ActionRequest → Type 0
  Expected (ok r) = Unit
  Expected (err e) = is_bad_value e ≡ true

  bound-answered :
      (id : String) (source : Result ActionRequest) (s : RuntimeState)
      → Expected source
      → (d : Decision) × ((try_then
            (lift source)
            (refuse_request p x id)
            (λ r. recover (decide p x r) (settle_indeterminate p x id))
            s).0
          ≡ ok d)
  bound-answered id (ok r) s h = (decide-Answers id r).answered s
  bound-answered id (err e) s h = rw h ((settle_indeterminate-Answers id e).answered s)

  -- Every proposal is answered. Where the request has an identifier and reading the rest of it either
  -- succeeds or raises a KeyError, a TypeError or a ValueError, `propose` returns a decision, whatever
  -- the state is: no exception of the authority, the recorder, the tables or the encoding passes.
  pub propose_answers :
      (request : Fields) (id : String) (s : RuntimeState)
      → text_at x.python request "request_id" ≡ ok id
      → Expected (as_request x.python request)
      → (d : Decision) × ((propose p x request s).0 ≡ ok d)
  unfolding propose
  propose_answers request id s named expected =
      rw named (bound-answered id (as_request x.python request) s expected)
