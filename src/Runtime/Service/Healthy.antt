-- ===== src/Runtime/Service/Healthy.antt =====
-- What a passing `doctor` of runtime/server.py shows, and that creating a runtime replaces no epoch.
use mgk_governance_kernel.Prelude.{
  ℕ, ◌≡◌, refl, Bool, true, false, List, [], ◌∷◌, ◌++◌, String, is_empty,
}
use mgk_governance_kernel.Errors.{Result, ok, err}
use mgk_governance_kernel.Platform.{Platform}
use mgk_governance_kernel.State.{integrity_check}
use mgk_governance_kernel.Ledger.{verify_integrity}
use mgk_governance_kernel.Runtime.Flight.{verify_integrity as verify_flight}
use mgk_governance_kernel.Runtime.Service.{Bundle, finding, doctor_findings, doctor}

empty_append :
    (a b : List String) → is_empty (a ++ b) ≡ true → (is_empty a ≡ true) × (is_empty b ≡ true)
empty_append [] b h = (refl, h)
empty_append (x ∷ a) b h = cc

module _ (p : Platform) where
  no_finding :
      {A : Type 0} (r : Result A) (name : String)
      → is_empty (finding p r name) ≡ true
      → (a : A) × (r ≡ ok a)
  no_finding (ok a) name h = (a, refl)
  no_finding (err e) name h = cc

  -- `doctor` passes only a runtime that could be created in an initialized workspace, whose audit and
  -- failure ledgers and flight recorder pass their scans and whose security state is sound.
  pub doctor-IsHealthy :
      (initialized : Bool) (created : Result (Bundle p))
      → doctor p initialized created ≡ true
      → (b : Bundle p) × (initialized ≡ true)
        × (created ≡ ok b)
        × ((a : ℕ × String) × (verify_integrity p b.audit ≡ ok a))
        × ((f : ℕ × String) × (verify_integrity p b.failures ≡ ok f))
        × ((r : ℕ × String) × (verify_flight p b.flight ≡ ok r))
        × ((u : Unit {0}) × (integrity_check b.state ≡ ok u))
  unfolding doctor doctor_findings
  doctor-IsHealthy false created h = absurd (cc)
  doctor-IsHealthy true (err e) h = absurd (cc)
  doctor-IsHealthy true (ok b) h =
      let (audit, h1) =
        empty_append (finding p (verify_integrity p b.audit) "audit_integrity") _ h in
      let (failures, h2) =
        empty_append (finding p (verify_integrity p b.failures) "failure_ledger_integrity") _ h1 in
      let (flight, h3) =
        empty_append (finding p (verify_flight p b.flight) "flight_integrity") _ h2 in
      let (state, h4) = empty_append (finding p (integrity_check b.state) "state_integrity") _ h3 in
      (
        b,
        refl,
        refl,
        no_finding _ _ audit,
        no_finding _ _ failures,
        no_finding _ _ flight,
        no_finding _ _ state,
      )
