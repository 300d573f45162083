-- ===== src/Arrow.antt =====
-- src/mgk/arrow.py: the route with the least entropic resistance among the eligible ones.
pub mod Least
use Prim.Native.Nat.{Ordering}
use Prim.Native.String.{compare}
use mgk_governance_kernel.Prelude.{
  Bool, true, false, ◌&&◌, ◌||◌, Option, none, some, List, [], ◌∷◌, String, str_eq, if◌then◌else◌,
}
use mgk_governance_kernel.Prelude.Int.{ℤ, pos, leb_ℤ, ltb_ℤ, eqb_ℤ}
use mgk_governance_kernel.Errors.{Result, ok, value_error, ◌>>=◌, ◌>>◌, raise_if}

pub record ArrowRoute : Type 0 where
  pub route_id : String
  pub coherence_delta : ℤ
  pub entropic_resistance : ℤ
  pub systemic_pressure : ℤ
  pub threshold_k : ℤ

-- The tests of one round of the loop, and whether the route is eligible.
unfoldable pub check_route : ArrowRoute → Result Bool
check_route r = do
  raise_if (str_eq r.route_id "") value_error
  raise_if
      (ltb_ℤ r.entropic_resistance (pos 0)
        || (ltb_ℤ r.systemic_pressure (pos 0) || ltb_ℤ r.threshold_k (pos 0)))
      value_error
  ok (leb_ℤ (pos 0) r.coherence_delta && leb_ℤ r.systemic_pressure r.threshold_k)

abbrev pub keep : Bool → ArrowRoute → List ArrowRoute → List ArrowRoute
keep eligible r rest = if eligible then r ∷ rest else rest

unfoldable pub collect : List ArrowRoute → Result (List ArrowRoute)
collect [] = ok []
collect (r ∷ rs) = check_route r >>= λ eligible. collect rs >>= λ rest. ok (keep eligible r rest)

abbrev precedes : String → String → Bool
precedes a b = elim (compare a b) [ Ordering.lt ↦ true | _ ↦ false ]

-- The order of the tuples (resistance, -coherence, pressure, identifier).
unfoldable pub before : ArrowRoute → ArrowRoute → Bool
before a b =
    ltb_ℤ a.entropic_resistance b.entropic_resistance
    || (eqb_ℤ a.entropic_resistance b.entropic_resistance
        && (ltb_ℤ b.coherence_delta a.coherence_delta
            || (eqb_ℤ a.coherence_delta b.coherence_delta
                && (ltb_ℤ a.systemic_pressure b.systemic_pressure
                    || (eqb_ℤ a.systemic_pressure b.systemic_pressure
                        && precedes a.route_id b.route_id)))))

-- `min`: the first of the least ones.
unfoldable pub least : ArrowRoute → List ArrowRoute → ArrowRoute
least r [] = r
least r (q ∷ qs) = least (if before q r then q else r) qs

abbrev pub least_of : List ArrowRoute → Option ArrowRoute
least_of [] = none
least_of (r ∷ rs) = some (least r rs)

unfoldable pub select : List ArrowRoute → Result (Option ArrowRoute)
select routes = collect routes >>= λ eligible. ok (least_of eligible)
