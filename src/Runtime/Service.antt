-- ===== src/Runtime/Service.antt =====
-- runtime/config.py, and what runtime/workspace.py and runtime/server.py do with the kernel: the bounds
-- of the configuration, the epoch of a new workspace, and the health checks.
pub mod Healthy
use mgk_governance_kernel.Prelude.{
  ℕ, ◌==◌, Bool, true, false, ◌&&◌, not, Option, none, some, List, [], ◌∷◌, ◌++◌, String, str_eq,
  length, is_empty, if◌then◌else◌,
}
use mgk_governance_kernel.Prelude.Int.{ℤ, pos, leb_ℤ, ltb_ℤ}
use mgk_governance_kernel.Errors.{Result, ok, err, value_error, ◌>>=◌, ◌>>◌, raise_if}
use mgk_governance_kernel.Platform.{Bytes, Platform}
use mgk_governance_kernel.Crypto.{load_key}
use mgk_governance_kernel.State.{SecurityState, initialize_epoch, current_epoch, integrity_check}
use mgk_governance_kernel.Ledger.{AuditLedger, verify_integrity}
use mgk_governance_kernel.Runtime.Sandbox.{actuator_actions}
use mgk_governance_kernel.Runtime.Flight.{FlightRecorder, verify_integrity as verify_flight}

-- The numbers and the host; the directory is resolved by the system.
pub record RuntimeConfig : Type 0 where
  pub port : ℤ
  pub host : String
  pub ttl_seconds : ℤ
  pub epoch : ℤ

-- The tests of `from_workdir`. `isinstance(…, int)` holds by the types here.
unfoldable pub from_workdir : RuntimeConfig → Result RuntimeConfig
from_workdir c = do
  raise_if (not (leb_ℤ (pos 1024) c.port && leb_ℤ c.port (pos 65535))) value_error
  raise_if (str_eq c.host "") value_error
  raise_if (not (leb_ℤ (pos 1) c.ttl_seconds && leb_ℤ c.ttl_seconds (pos 300))) value_error
  raise_if (ltb_ℤ c.epoch (pos 1)) value_error
  ok c

-- `_load_or_generate_key`: the raw key that is used. What is generated is an argument; a file that is
-- there is never written.
unfoldable pub load_or_generate_key : Option Bytes → Bytes → Result Bytes
load_or_generate_key none generated = ok generated
load_or_generate_key (some raw) generated =
    raise_if (not (length raw == 32)) value_error >> load_key raw

module _ (p : Platform) where
  abbrev pub or_initialize : Result ℤ → Bytes → SecurityState → Result SecurityState
  or_initialize (ok _) key s = ok s
  or_initialize (err _) key s = initialize_epoch p (pos 1) key s

  -- `try: state.current_epoch() except Exception: state.initialize_epoch(1, authority_key)`.
  unfoldable pub ensure_epoch : Bytes → SecurityState → Result SecurityState
  ensure_epoch key s = or_initialize (current_epoch p s) key s

  -- The parts of the bundle that `doctor` asks.
  pub record Bundle : Type 0 where
    pub audit : AuditLedger
    pub failures : AuditLedger
    pub flight : FlightRecorder
    pub state : SecurityState

  abbrev pub finding {ℓ} : {A : Type ℓ} → Result A → String → List String
  finding (ok _) name = []
  finding (err _) name = name ∷ []

  -- The registry is the closed set of five.
  abbrev pub registry_finding : List String
  registry_finding = if length actuator_actions == 5 then [] else "actuator_registry" ∷ []

  -- The findings of `doctor` once the runtime is created, each by the name of its check.
  unfoldable pub doctor_findings : Bundle → List String
  doctor_findings b =
      finding (verify_integrity p b.audit) "audit_integrity"
      ++ (finding (verify_integrity p b.failures) "failure_ledger_integrity"
          ++ (finding (verify_flight p b.flight) "flight_integrity"
              ++ (finding (integrity_check b.state) "state_integrity" ++ registry_finding)))

  -- `status_value`, from whether the workspace is initialized and what creating the runtime gives.
  unfoldable pub doctor : Bool → Result Bundle → Bool
  unfolding doctor_findings
  doctor false created = false
  doctor true (err e) = false
  doctor true (ok b) = is_empty (doctor_findings b)
