-- ===== src/Cha/Bounds.antt =====
-- What a proposal of src/mgk/cha.py can say.
use mgk_governance_kernel.Prelude.{
  ℕ, ◌≡◌, refl, subst, true, not, some, arith, ◌⊎◌, inl, inr, Bool-cases,
}
use mgk_governance_kernel.Prelude.Int.{ℤ, pos, negsuc, ◌≤ℤ◌, ◌<ℤ◌, leb_ℤ, ◌+ℤ◌, ◌*ℤ◌, ◌-ℤ◌, ◌/ℤ◌}
use mgk_governance_kernel.Errors.{ok, value_error, ok_inj, guard_ok}
use mgk_governance_kernel.Json.{Value, get}
use mgk_governance_kernel.Models.{ActionRequest}
use mgk_governance_kernel.Cha.{
  ChaInput, ChaProposal, ChaAdapter, is_input, integrated, weighted, clamp, propose,
}

-- `s` is `v`, held between the two bounds.
pub record IsClamped (v s : ℤ) : Type 0 where
  pub lower : negsuc 9999 ≤ℤ s
  pub upper : s ≤ℤ pos 10000
  pub near :
      ((v <ℤ negsuc 9999) × (s ≡ negsuc 9999))
      ⊎ (((negsuc 9999 ≤ℤ v) × (v ≤ℤ pos 10000) × (s ≡ v)) ⊎ ((pos 10000 <ℤ v) × (s ≡ pos 10000)))

clamp-IsClamped : (v : ℤ) → IsClamped v (clamp v)
unfolding clamp
clamp-IsClamped v = record {
  lower = ground arith;
  upper = ground arith;
  near = elim (Bool-cases (leb_ℤ v (negsuc 10000))) [
    | inl low ↦ inl (ground (arith, low), ground (arith, low))
    | inr not_low ↦ elim (Bool-cases (leb_ℤ (pos 10001) v)) [
      | inl high ↦ inr (inr (ground (arith, high), ground (arith, not_low, high)))
      | inr not_high ↦ inr (
          inl
            (ground (arith, not_low), ground (arith, not_high), ground (arith, not_low, not_high)))
    ]
  ];
}

-- `q` is the quotient of `v` by `d`, rounded down.
pub record IsFloor (v : ℤ) (d : ℕ) (q : ℤ) : Type 0 where
  pub below : pos d *ℤ q ≤ℤ v
  pub above : v <ℤ pos d *ℤ q +ℤ pos d

div3-IsFloor : (v : ℤ) → IsFloor v 3 (v /ℤ 3)
unfolding ◌/ℤ◌ ◌*ℤ◌ ◌+ℤ◌
div3-IsFloor (pos n) = record { below = ground arith; above = ground arith }
div3-IsFloor (negsuc n) = record { below = ground arith; above = ground arith }

div10000-IsFloor : (v : ℤ) → IsFloor v 10000 (v /ℤ 10000)
unfolding ◌/ℤ◌ ◌*ℤ◌ ◌+ℤ◌
div10000-IsFloor (pos n) = record { below = ground arith; above = ground arith }
div10000-IsFloor (negsuc n) = record { below = ground arith; above = ground arith }

abbrev IsPoints : ℤ → Type 0
IsPoints v = (pos 0 ≤ℤ v) × (v ≤ℤ pos 10000)

-- What a proposal for the request and the inputs says.
pub record IsProposal (a : ChaAdapter) (r : ActionRequest) (i : ChaInput) (q : ChaProposal)
    : Type 0 where
  pub mean : ℤ
  pub balance : ℤ
  pub reptile : IsPoints i.reptile_integrity
  pub limbic : IsPoints i.limbic_resonance
  pub cognitive : IsPoints i.cognitive_coherence
  pub discord : IsPoints i.dissonance
  pub lived : IsPoints i.experience
  pub averaged : IsFloor (i.reptile_integrity +ℤ i.limbic_resonance +ℤ i.cognitive_coherence) 3 mean
  pub weighed : IsFloor (a.w0 *ℤ mean -ℤ a.w1 *ℤ i.dissonance +ℤ a.w2 *ℤ i.experience) 10000 balance
  pub scored : IsClamped balance q.score
  pub same_request : q.request ≡ r
  pub no_authority : q.intelligence_only ≡ true
  pub has_reptile : get "reptile_integrity" q.components ≡ some (Value.int i.reptile_integrity)
  pub has_limbic : get "limbic_resonance" q.components ≡ some (Value.int i.limbic_resonance)
  pub has_cognitive :
      get "cognitive_coherence" q.components ≡ some (Value.int i.cognitive_coherence)
  pub has_mean : get "integrated" q.components ≡ some (Value.int mean)
  pub has_discord : get "dissonance" q.components ≡ some (Value.int i.dissonance)
  pub has_lived : get "experience" q.components ≡ some (Value.int i.experience)

-- A proposal is made only for five inputs of 0 to 10000 basis points. It is for the request that was
-- given, says that it is intelligence only, and lists the inputs and the mean of the first three, rounded
-- down. Its score is the weighted balance where that lies between -10000 and 10000, and otherwise the
-- bound that it passes. The balance is the first weight times the mean, less the second times the dissonance, plus the third times the
-- experience, by 10000, rounded down.
pub propose-IsProposal :
    (a : ChaAdapter) (r : ActionRequest) (i : ChaInput) (q : ChaProposal)
    → propose a r i ≡ ok q
    → IsProposal a r i q
unfolding propose weighted integrated get
propose-IsProposal a r i q h = guard_ok (not (is_input i)) value_error _ h λ inside h1.
    subst (IsProposal a r i) (ok_inj h1) (record {
      mean = integrated i;
      balance = weighted a i;
      reptile = ground (arith, inside);
      limbic = ground (arith, inside);
      cognitive = ground (arith, inside);
      discord = ground (arith, inside);
      lived = ground (arith, inside);
      averaged = div3-IsFloor _;
      weighed = div10000-IsFloor _;
      scored = clamp-IsClamped (weighted a i);
      same_request = refl;
      no_authority = refl;
      has_reptile = refl;
      has_limbic = refl;
      has_cognitive = refl;
      has_mean = refl;
      has_discord = refl;
      has_lived = refl;
    })
