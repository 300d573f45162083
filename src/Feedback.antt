-- ===== src/Feedback.antt =====
-- src/mgk/feedback.py: the bounded feedback engine. `weights` is a list of three integers once the
-- constructor has accepted it; they are at least 1000 then, so a weight is a natural number here.
pub mod Bounds
use mgk_governance_kernel.Prelude.{
  ℕ, ◌+◌, ◌-◌, ◌≤◌, ◌≡◌, Bool, ◌&&◌, ◌||◌, not, List, [], ◌∷◌, ◌++◌, String, arith, ltb, ◌==◌,
  if◌then◌else◌, str_eq, member, All,
}
use mgk_governance_kernel.Prelude.Int.{ℤ, pos, pos_part, ltb_ℤ}
use mgk_governance_kernel.Errors.{Result, ok, err, value_error, ◌>>◌, raise_if}

pub record Weights : Type 0 where
  pub w0 : ℕ
  pub w1 : ℕ
  pub w2 : ℕ

pub record Event : Type 0 where
  pub authority_effect : ℕ
  pub reason_code : String
  pub result : String
  pub successful : Bool
  pub weights : Weights

pub record FeedbackEngine : Type 0 where
  pub weights : Weights
  pub history : List Event

-- `__post_init__`: three weights of at least 1000 that total 10000.
unfoldable pub make_engine : List ℤ → Result FeedbackEngine
make_engine (a ∷ b ∷ c ∷ []) = do
  raise_if (ltb_ℤ a (pos 1000) || (ltb_ℤ b (pos 1000) || ltb_ℤ c (pos 1000))) value_error
  raise_if (not (pos_part a + pos_part b + pos_part c == 10000)) value_error
  ok (record {
    weights = record { w0 = pos_part a; w1 = pos_part b; w2 = pos_part c };
    history = [];
  })
make_engine _ = err value_error

-- The step of 50 basis points. Every weight is at least 1000 here, so `-` does not stop at 0.
unfoldable pub proposed : String → Bool → Weights → Weights
proposed result successful w =
    if str_eq result "TEN_XEITO" && successful
    then record w { w2 = w.w2 + 50; w1 = w.w1 - 50 }
    else if str_eq result "NON_TEN_XEITO" || not successful
    then record w { w0 = w.w0 + 50; w2 = w.w2 - 50 }
    else record w { w1 = w.w1 + 50; w2 = w.w2 - 50 }

-- `if min(proposed) < 1000: proposed = list(self.weights)`.
unfoldable pub settle : Weights → Weights → Weights
settle old new = if ltb new.w0 1000 || (ltb new.w1 1000 || ltb new.w2 1000) then old else new

-- The entry that `record` appends.
abbrev pub event_of : String → Bool → String → Weights → Event
event_of result successful reason_code w = record {
  authority_effect = 0;
  reason_code = reason_code;
  result = result;
  successful = successful;
  weights = w;
}

abbrev pub saxp_results : List String
saxp_results = "TEN_XEITO" ∷ "REQUIRE_XEITO" ∷ "NON_TEN_XEITO" ∷ []

-- `record`.
unfoldable pub record_event :
    String → Bool → String → FeedbackEngine → Result (Weights × FeedbackEngine)
record_event result successful reason_code e = do
  raise_if (not (member result saxp_results)) value_error
  raise_if (str_eq reason_code "") value_error
  let next = settle e.weights (proposed result successful e.weights)
  ok (
    next,
    record {
      weights = next;
      history = e.history ++ event_of result successful reason_code next ∷ [];
    },
  )
