-- ===== src/Feedback/Bounds.antt =====
-- The feedback weights stay balanced, and feedback has no authority (src/mgk/feedback.py).
use mgk_governance_kernel.Prelude.{
  ◌+◌, ◌≤◌, ◌≡◌, refl, Bool, not, List, [], ◌∷◌, ◌++◌, String, arith, All, inl, inr, Bool-cases,
  member, str_eq,
}
use mgk_governance_kernel.Prelude.Int.{ℤ}
use mgk_governance_kernel.Errors.{Result, ok, err, value_error}
use mgk_governance_kernel.Feedback.{
  Weights, Event, FeedbackEngine, make_engine, proposed, settle, event_of, saxp_results,
  record_event,
}

-- The constructor's condition on the weights.
pub record IsBalanced (w : Weights) : Type 0 where
  pub at_least0 : 1000 ≤ w.w0
  pub at_least1 : 1000 ≤ w.w1
  pub at_least2 : 1000 ≤ w.w2
  pub total : w.w0 + w.w1 + w.w2 ≡ 10000

-- Every recorded event has balanced weights and no effect on authority.
abbrev pub IsAdvisory : List Event → Type 0
IsAdvisory = All (λ e. IsBalanced e.weights × (e.authority_effect ≡ 0))

pub record IsValid (e : FeedbackEngine) : Type 0 where
  pub balanced : IsBalanced e.weights
  pub advisory : IsAdvisory e.history

IsAdvisory-append :
    (h : List Event) (e : Event)
    → IsAdvisory h
    → IsBalanced e.weights
    → e.authority_effect ≡ 0
    → IsAdvisory (h ++ e ∷ [])
IsAdvisory-append [] e a b z = ((b, z), tt)
IsAdvisory-append (x ∷ h) e a b z = (a.0, IsAdvisory-append h e a.1 b z)

settle-proposed :
    (result : String) (successful : Bool) (w : Weights)
    → IsBalanced w
    → IsBalanced (settle w (proposed result successful w))
unfolding proposed settle
settle-proposed result successful w h = ground arith

-- An engine that the constructor accepts has three weights of at least 1000 that total 10000, and
-- an empty history.
pub make_engine-IsValid : (ws : List ℤ) (e : FeedbackEngine) → make_engine ws ≡ ok e → IsValid e
unfolding make_engine
make_engine-IsValid (a ∷ b ∷ c ∷ []) e h = ground arith
make_engine-IsValid [] e h = cc
make_engine-IsValid (a ∷ []) e h = cc
make_engine-IsValid (a ∷ b ∷ []) e h = cc
make_engine-IsValid (a ∷ b ∷ c ∷ d ∷ ws) e h = cc

-- What a call of `record` that began at `e` has done.
abbrev pub Recorded : FeedbackEngine → Result (Weights × FeedbackEngine) → Type 0
Recorded e (err x) = x ≡ value_error
Recorded e (ok (w, e')) =
    IsValid e'
    × (w ≡ e'.weights)
    × ((x : Event) × (e'.history ≡ e.history ++ x ∷ []) × (x.weights ≡ w))

-- Whatever event is recorded on a valid engine, the call raises a ValueError, or the engine stays
-- valid (weights of at least 1000 that total 10000, no event with an effect on authority), the new
-- weights are returned, and one event with those weights is appended to the history.
pub record_event-Recorded :
    (result : String) (successful : Bool) (reason : String) (e : FeedbackEngine)
    → IsValid e
    → Recorded e (record_event result successful reason e)
unfolding record_event
record_event-Recorded result successful reason e v =
    let next = settle e.weights (proposed result successful e.weights) in
    let kept = settle-proposed result successful e.weights v.balanced in
    let last = event_of result successful reason next in
    let history = IsAdvisory-append e.history last v.advisory kept refl in
    let both : IsValid (record { weights = next; history = e.history ++ last ∷ [] }) = record {
      balanced = kept;
      advisory = history;
    } in
    elim (Bool-cases (not (member result saxp_results))) [
      | inl bad ↦ rw bad refl
      | inr good ↦ rw good (elim (Bool-cases (str_eq reason "")) [
        | inl empty ↦ rw empty refl
        | inr full ↦ rw full (both, refl, (last, refl, refl))
      ])
    ]
