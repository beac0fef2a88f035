-- ===== src/Service.antt =====
-- One cycle of the UPS service (crates/argon-device/src/ups_service.rs), with what it publishes
-- (crates/argon-device/src/status.rs: `UpsStatus`, `level_name`): poll the monitor, hand its decision to
-- the coordinator. The trait `Monitor` is an operation on a state of the monitor.
pub mod Cycles
mod Examples
use argon_utils.Prelude.{
  ℕ, Bool, true, false, Option, none, some, List, [], ◌∷◌, String, eq_string, ◌||◌, if◌then◌else◌,
}
use argon_utils.Battery.{BatteryStatus}
use argon_utils.Policy.{Level, on_mains, on_battery, low, critical, unknown}
use argon_utils.Power.{PowerControl, ShutdownCoordinator, Action, on_decision}
use argon_utils.Ups
use argon_utils.Ups.{Poll, UpsLink, UpsMonitor}

abbrev pub ups_vendor_units : List String
ups_vendor_units = "argonupsrtcd.service" ∷ "argononeupsd.service" ∷ []

abbrev pub oneup_vendor_units : List String
oneup_vendor_units = "argononeupd.service" ∷ []

unfoldable pub contains_unit : List String → String → Bool
contains_unit [] u = false
contains_unit (v ∷ units) u = eq_string v u || contains_unit units u

-- `contention_among`; `contention` and `oneup_contention` are its uses with the lists above.
unfoldable pub contention_among : List String → List String → List String
contention_among units [] = []
contention_among units (u ∷ active) =
    let rest = contention_among units active in if contains_unit units u then u ∷ rest else rest

unfoldable pub level_name : Level → String
level_name on_mains = "on-mains"
level_name on_battery = "on-battery"
level_name low = "low"
level_name critical = "critical"
level_name unknown = "unknown"

pub record MissingUps : Type 0 where
  pub name : String
  pub last_seen : Option ℕ

pub record UpsStatus : Type 0 where
  pub updated : ℕ
  pub level : String
  pub percent : Option ℕ
  pub shutdown_at : Option ℕ
  pub missing : Option MissingUps

pub record Cycle : Type 0 where
  pub poll : Poll
  pub action : Action
  pub status : UpsStatus

pub record Monitor (M : Type 0) : Type 0 where
  pub poll : M → ℕ → M × Poll

-- `impl Monitor for UpsMonitor`; `instant` is what `Instant::now()` returns during the poll.
unfoldable pub ups_monitor : {W : Type 0} → UpsLink W → ℕ → Monitor (UpsMonitor W)
ups_monitor link instant = record { poll = λ m uptime. Ups.poll link m uptime instant }

abbrev pub percent_of : Option BatteryStatus → Option ℕ
percent_of none = none
percent_of (some b) = some b.percent

-- `now` is also what `SystemTime::now()` returns in the coordinator.
unfoldable pub step :
    {M P : Type 0}
    → Monitor M
    → PowerControl P
    → M
    → ShutdownCoordinator P
    → ℕ
    → ℕ
    → M × ShutdownCoordinator P × Cycle
step mon power monitor coordinator uptime now =
    let (monitor', poll) = mon.poll monitor uptime in
    let (coordinator', action) = on_decision power coordinator poll.decision now in
    let status : UpsStatus = record {
      updated = now;
      level = level_name poll.decision.level;
      percent = percent_of poll.battery;
      shutdown_at = coordinator'.ours;
      missing = none;
    } in
    (monitor', coordinator', record { poll = poll; action = action; status = status })
