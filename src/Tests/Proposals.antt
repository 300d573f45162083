-- ===== src/Tests/Proposals.antt =====
-- The theorems on the scores and the routes, each at one small input.
use mgk_governance_kernel.Arrow.{ArrowRoute, before, check_route, collect, least, select}
use mgk_governance_kernel.Arrow.Least.{Selected, select-Selected}
use mgk_governance_kernel.Cha.{
  ChaAdapter, ChaInput, ChaProposal, clamp, components_of, integrated, propose, weighted,
}
use mgk_governance_kernel.Cha.Bounds.{IsProposal, propose-IsProposal}
use mgk_governance_kernel.Errors.{ok}
use mgk_governance_kernel.Prelude.{List, String, [], refl, some, true, ◌∷◌, ◌≡◌}
use mgk_governance_kernel.Prelude.Int.{negsuc, pos, ℤ, ◌*ℤ◌, ◌+ℤ◌, ◌-ℤ◌, ◌/ℤ◌}
use mgk_governance_kernel.Tests.Toy.{request}

abbrev adapter : ChaAdapter
adapter = record { w0 = pos 4000; w1 = pos 3000; w2 = pos 3000 }

abbrev inputs : ChaInput
inputs = record {
  reptile_integrity = pos 9000;
  limbic_resonance = pos 6000;
  cognitive_coherence = pos 3000;
  dissonance = pos 1000;
  experience = pos 500;
}

abbrev proposal : ChaProposal
proposal = record {
  request = request;
  score = pos 2250;
  intelligence_only = true;
  components = components_of inputs;
}

proposes : propose adapter request inputs ≡ ok proposal
unfolding propose weighted integrated clamp ◌+ℤ◌ ◌-ℤ◌ ◌*ℤ◌ ◌/ℤ◌
proposes = refl

propose-IsProposal_example : IsProposal adapter request inputs proposal
propose-IsProposal_example = propose-IsProposal adapter request inputs proposal proposes

-- Three routes: one loses coherence, and the last has less resistance than the second.
abbrev route : String → ℤ → ℤ → ArrowRoute
route name coherence resistance = record {
  route_id = name;
  coherence_delta = coherence;
  entropic_resistance = resistance;
  systemic_pressure = pos 2;
  threshold_k = pos 5;
}

abbrev routes : List ArrowRoute
routes = route "a" (negsuc 0) (pos 1) ∷ route "b" (pos 3) (pos 9) ∷ route "c" (pos 0) (pos 4) ∷ []

selects : select routes ≡ ok (some (route "c" (pos 0) (pos 4)))
unfolding select collect check_route before least
selects = refl

select-Selected_example : Selected routes (some (route "c" (pos 0) (pos 4)))
select-Selected_example = select-Selected routes (some (route "c" (pos 0) (pos 4))) selects
