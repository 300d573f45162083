-- ===== src/Arrow/Least.antt =====
-- What `select` of src/mgk/arrow.py chooses.
use mgk_governance_kernel.Prelude.{
  ◌≡◌, refl, subst, Bool, true, false, Option, none, some, List, [], ◌∷◌, arith, All, ◌⊎◌, inl, inr,
  Bool-cases, if◌then◌else◌,
}
use mgk_governance_kernel.Prelude.Int.{pos, ◌≤ℤ◌}
use mgk_governance_kernel.Errors.{ok, ok_inj, bind_ok}
use mgk_governance_kernel.Arrow.{
  ArrowRoute, check_route, keep, collect, before, least, least_of, select,
}

-- The route keeps the coherence and stays below its threshold.
pub record IsEligible (r : ArrowRoute) : Type 0 where
  pub coherent : pos 0 ≤ℤ r.coherence_delta
  pub below_threshold : r.systemic_pressure ≤ℤ r.threshold_k

-- A route that is not eligible, or has no less resistance than `r`.
abbrev pub Loses : ArrowRoute → ArrowRoute → Type 0
Loses r q = (¬ IsEligible q) ⊎ (r.entropic_resistance ≤ℤ q.entropic_resistance)

check_route-ok :
    (r : ArrowRoute) (b : Bool)
    → check_route r ≡ ok b
    → (IsEligible r × (b ≡ true)) ⊎ ((¬ IsEligible r) × (b ≡ false))
unfolding check_route
check_route-ok r b h = ground arith

-- What all candidates have, the least one has.
least-All :
    (P : ArrowRoute → Type 0) (r : ArrowRoute) (qs : List ArrowRoute)
    → P r
    → All P qs
    → P (least r qs)
unfolding least
least-All P r [] a b = a
least-All P r (q ∷ qs) a b = elim (Bool-cases (before q r)) [
  | inl h ↦ rw h (least-All P q qs b.0 b.1)
  | inr h ↦ rw h (least-All P r qs a b.1)
]

abbrev NotAbove : ArrowRoute → ArrowRoute → Type 0
NotAbove m q = m.entropic_resistance ≤ℤ q.entropic_resistance

before-NotAbove : (q r : ArrowRoute) → before q r ≡ true → NotAbove q r
unfolding before
before-NotAbove q r h = ground arith

before_not : (q r : ArrowRoute) → before q r ≡ false → NotAbove r q
unfolding before
before_not q r h = ground arith

-- No candidate has less resistance than `m`.
abbrev IsLeast : ArrowRoute → ArrowRoute → List ArrowRoute → Type 0
IsLeast m r qs = NotAbove m r × All (NotAbove m) qs

least_step :
    (b : Bool) (q r : ArrowRoute) (qs : List ArrowRoute)
    → before q r ≡ b
    → IsLeast (least q qs) q qs
    → IsLeast (least r qs) r qs
    → IsLeast (least (if b then q else r) qs) r (q ∷ qs)
least_step true q r qs h (low, rest) _ =
    let step = before-NotAbove q r h in (ground arith, (low, rest))
least_step false q r qs h _ (low, rest) = let step = before_not q r h in (low, (ground arith, rest))

least-IsLeast : (r : ArrowRoute) (qs : List ArrowRoute) → IsLeast (least r qs) r qs
unfolding least
least-IsLeast r [] = (ground arith, tt)
least-IsLeast r (q ∷ qs) =
    least_step (before q r) q r qs refl (least-IsLeast q qs) (least-IsLeast r qs)

abbrev pub Among : List ArrowRoute → ArrowRoute → Type 0
Among [] m = ⊥
Among (r ∷ rs) m = (m ≡ r) ⊎ Among rs m

All-map :
    (P Q : ArrowRoute → Type 0) (xs : List ArrowRoute)
    → ((x : ArrowRoute) → P x → Q x)
    → All P xs
    → All Q xs
All-map P Q [] f h = tt
All-map P Q (x ∷ xs) f h = (f x h.0, All-map P Q xs f h.1)

-- The candidates are eligible routes of the list, and every other route of it loses to what no
-- candidate undercuts.
record IsCollected (rs es : List ArrowRoute) : Type 0 where
  eligible : All (λ e. IsEligible e × Among rs e) es
  others : (m : ArrowRoute) → All (NotAbove m) es → All (Loses m) rs
  all_out : es ≡ [] → All (λ q. ¬ IsEligible q) rs

keep-IsCollected :
    (b : Bool) (r : ArrowRoute) (rs es : List ArrowRoute)
    → check_route r ≡ ok b
    → IsCollected rs es
    → IsCollected (r ∷ rs) (keep b r es)
keep-IsCollected true r rs es h c = elim (check_route-ok r true h) [
  | inl (good, _) ↦ record {
    eligible = (
      (good, inl refl),
      All-map _ (λ e. IsEligible e × Among (r ∷ rs) e) es (λ e x. (x.0, inr x.1)) c.eligible,
    );
    others = λ m low. (inr low.0, c.others m low.1);
    all_out = λ e. cc;
  }
  | inr (_, bad) ↦ cc
]
keep-IsCollected false r rs es h c = elim (check_route-ok r false h) [
  | inl (_, bad) ↦ cc
  | inr (out, _) ↦ record {
    eligible =
        All-map _ (λ e. IsEligible e × Among (r ∷ rs) e) es (λ e x. (x.0, inr x.1)) c.eligible;
    others = λ m low. (inl out, c.others m low);
    all_out = λ e. (out, c.all_out e);
  }
]

collect-IsCollected : (rs es : List ArrowRoute) → collect rs ≡ ok es → IsCollected rs es
unfolding collect
collect-IsCollected [] es h =
    subst (IsCollected []) (ok_inj h)
      (record { eligible = tt; others = λ m low. tt; all_out = λ e. tt })
collect-IsCollected (r ∷ rs) es h = bind_ok (check_route r) _ h λ b checked h1.
    bind_ok (collect rs) _ h1 λ rest collected h2.
      subst (IsCollected (r ∷ rs)) (ok_inj h2)
        (keep-IsCollected b r rs rest checked (collect-IsCollected rs rest collected))

-- What a selection that returns means for the routes.
abbrev pub Selected : List ArrowRoute → Option ArrowRoute → Type 0
Selected rs none = All (λ q. ¬ IsEligible q) rs
Selected rs (some m) = Among rs m × IsEligible m × All (Loses m) rs

least_of-Selected : (rs es : List ArrowRoute) → IsCollected rs es → Selected rs (least_of es)
least_of-Selected rs [] c = c.all_out refl
least_of-Selected rs (e ∷ es) c =
    let (good, among) = least-All (λ x. IsEligible x × Among rs x) e es c.eligible.0 c.eligible.1 in
    (among, good, c.others (least e es) (least-IsLeast e es))

-- If `select` returns no route, none of the routes keeps its coherence and its threshold. If it returns
-- a route, that is one of the list and keeps both, and each other route does not, or has no less
-- entropic resistance.
pub select-Selected :
    (rs : List ArrowRoute) (o : Option ArrowRoute) → select rs ≡ ok o → Selected rs o
unfolding select
select-Selected rs o h = bind_ok (collect rs) _ h λ es collected h1.
    subst (Selected rs) (ok_inj h1) (least_of-Selected rs es (collect-IsCollected rs es collected))
