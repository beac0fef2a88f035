-- ===== src/UpsStart.antt =====
-- The start of the UPS thread, and its port (crates/argon-daemon/src/ups.rs): `spawn`, which decides
-- whether it runs and what it may do, and `open_link`. Logs are left out. Times are nanoseconds.
pub mod Permissions
mod Examples
use argon_utils.Prelude.{
  ℕ, ◌*◌, ◌&&◌, not, max, Bool, true, false, Option, none, some, List, [], ◌∷◌, Result, ok, err,
  String, eq_string, if◌then◌else◌,
}
use argon_utils.Config.{Config, mode, policy}
use argon_utils.I2c.{Error}
use argon_utils.Mode.{Mode, read_only}
use argon_utils.Policy
use argon_utils.Policy.{BatteryPolicy}
use argon_utils.Service.{contention_among, ups_vendor_units, contains_unit}
use argon_utils.Ups.{Writes}

abbrev pub second : ℕ
second = 1_000_000_000

-- What `spawn` gives the thread.
pub record Setup : Type 0 where
  pub port : Option String
  pub policy : BatteryPolicy
  pub interval : ℕ
  pub delay : ℕ
  pub dry_run : Bool
  pub state_file : String
  pub writes : Writes

abbrev pub is_full : Mode → Bool
is_full Mode.read_only = false
is_full Mode.managed = false
is_full Mode.full = true

-- `unwrap_or_default`.
abbrev pub or_default : {E : Type 0} → Result Mode E → Mode
or_default (ok m) = m
or_default (err _) = read_only

abbrev pub is_empty : List String → Bool
is_empty [] = true
is_empty (_ ∷ _) = false

abbrev pub set_up : {E : Type 0} → Config → List String → Result BatteryPolicy E → Option Setup
set_up c contended (err _) = none
set_up c contended (ok p) =
    let is_full_mode = is_full (or_default (mode c)) in
    some (record {
      port = if eq_string c.ups.port "auto" then none else some c.ups.port;
      policy = p;
      interval = max c.ups.poll_interval_s 1 * second;
      delay = c.ups.shutdown_delay_min * 60 * second;
      dry_run = not (is_full_mode && is_empty contended);
      state_file = c.ups.state_file;
      writes = record { clock = is_full_mode && c.ups.sync_clock; wake = is_full_mode };
    })

-- `spawn`, up to the start of the thread.
unfoldable pub spawn : Config → List String → Option Setup
spawn c active_units =
    let contended = contention_among ups_vendor_units active_units in
    if not (eq_string c.ups.source "serial")
    then none
    else if contains_unit contended "argonupsrtcd.service"
    then none
    else set_up c contended (Policy.new (policy c.ups))

-- `Open`, with the link as a state of the port.
pub data Open (W : Type 0) : Type 0 where
  opened : W → String → Open W
  not_found failed held : Open W

-- What `open_link` finds on the system.
pub record Ports (W : Type 0) : Type 0 where
  pub discovered : Option String
  pub exists : String → Bool
  pub owned : String → Bool
  pub open_port : String → Result W Error

abbrev pub or_else : Option String → Option String → Option String
or_else none other = other
or_else (some p) other = some p

abbrev pub open_answer : {W : Type 0} → String → Result W Error → Open W
open_answer path (ok link) = opened link path
open_answer path (err _) = failed

abbrev pub open_at : {W : Type 0} → Ports W → Option String → Open W
open_at ports none = not_found
open_at ports (some path) =
    if not (ports.exists path)
    then not_found
    else if ports.owned path
    then held
    else open_answer path (ports.open_port path)

unfoldable pub open_link : {W : Type 0} → Ports W → Option String → Open W
open_link ports port = open_at ports (or_else port ports.discovered)
