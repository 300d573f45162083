-- ===== src/Cha.antt =====
-- src/mgk/cha.py: a score for a request, which is only a proposal.
pub mod Bounds
use mgk_governance_kernel.Prelude.{Bool, true, ◌&&◌, ◌||◌, not, List, [], ◌∷◌, if◌then◌else◌}
use mgk_governance_kernel.Prelude.Int.{ℤ, pos, negsuc, ◌+ℤ◌, ◌-ℤ◌, ◌*ℤ◌, ◌/ℤ◌, leb_ℤ, ltb_ℤ, eqb_ℤ}
use mgk_governance_kernel.Errors.{Result, ok, err, value_error, ◌>>=◌, ◌>>◌, raise_if}
use mgk_governance_kernel.Json.{Value, Fields}
use mgk_governance_kernel.Models.{ActionRequest}

pub record ChaInput : Type 0 where
  pub reptile_integrity : ℤ
  pub limbic_resonance : ℤ
  pub cognitive_coherence : ℤ
  pub dissonance : ℤ
  pub experience : ℤ

pub record ChaProposal : Type 0 where
  pub request : ActionRequest
  pub score : ℤ
  pub intelligence_only : Bool
  pub components : Fields

pub record ChaAdapter : Type 0 where
  pub w0 : ℤ
  pub w1 : ℤ
  pub w2 : ℤ

-- `CHAAdapter.__init__`: three weights that are not negative and total 10000.
unfoldable pub make_adapter : List ℤ → Result ChaAdapter
make_adapter (a ∷ b ∷ c ∷ []) = do
  raise_if (ltb_ℤ a (pos 0) || (ltb_ℤ b (pos 0) || ltb_ℤ c (pos 0))) value_error
  raise_if (not (eqb_ℤ (a +ℤ b +ℤ c) (pos 10000))) value_error
  ok (record { w0 = a; w1 = b; w2 = c })
make_adapter _ = err value_error

-- `0 <= value <= 10000`.
abbrev pub in_points : ℤ → Bool
in_points v = leb_ℤ (pos 0) v && leb_ℤ v (pos 10000)

abbrev pub is_input : ChaInput → Bool
is_input i =
    in_points i.reptile_integrity
    && (in_points i.limbic_resonance
        && (in_points i.cognitive_coherence && (in_points i.dissonance && in_points i.experience)))

unfoldable pub integrated : ChaInput → ℤ
integrated i = (i.reptile_integrity +ℤ i.limbic_resonance +ℤ i.cognitive_coherence) /ℤ 3

unfoldable pub weighted : ChaAdapter → ChaInput → ℤ
weighted a i = (a.w0 *ℤ integrated i -ℤ a.w1 *ℤ i.dissonance +ℤ a.w2 *ℤ i.experience) /ℤ 10000

-- `max(-10000, min(10000, score))`.
unfoldable pub clamp : ℤ → ℤ
clamp score =
    if leb_ℤ score (negsuc 9999)
    then negsuc 9999
    else if leb_ℤ (pos 10000) score
    then pos 10000
    else score

abbrev pub components_of : ChaInput → Fields
components_of i = Fields.field "cognitive_coherence" (Value.int i.cognitive_coherence) (
    Fields.field "dissonance" (Value.int i.dissonance) (
      Fields.field "experience" (Value.int i.experience) (
        Fields.field "integrated" (Value.int (integrated i)) (
          Fields.field "limbic_resonance" (Value.int i.limbic_resonance)
            (Fields.field "reptile_integrity" (Value.int i.reptile_integrity) Fields.end)))))

unfoldable pub propose : ChaAdapter → ActionRequest → ChaInput → Result ChaProposal
propose a request i = do
  raise_if (not (is_input i)) value_error
  ok (record {
    request = request;
    score = clamp (weighted a i);
    intelligence_only = true;
    components = components_of i;
  })
