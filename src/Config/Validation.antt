-- ===== src/Config/Validation.antt =====
-- What is checked of a configuration (`validate` and `fan_curve` of crates/argon-device/src/config.rs).
use argon_utils.Prelude.{
  ℕ, Bool, true, false, not, ◌&&◌, ◌||◌, Option, none, some, List, [], ◌∷◌, Result, ok, err, ◌>>=◌,
  ◌>>◌, map_err, String, eq_string, ltb, leb, ◌==◌, if◌then◌else◌,
}
use argon_utils.Fan.{FanCurve, CurvePoint, new_duty, from_celsius, new_curve}
use argon_utils.Lid.{LidConfig}
use argon_utils.Mcu.{Dialect, from_config}
use argon_utils.Policy
use argon_utils.Policy.{
  PolicyError, critical_not_below_low, out_of_range, no_confirmations, no_margin,
}
use argon_utils.Config.{Config, CurveEntry, ConfigError, bad_value, curve, mode, policy}

-- `MAX_FAN_POLL_INTERVAL_S`.
abbrev pub max_fan_poll_interval_s : ℕ
max_fan_poll_interval_s = 15

-- `LidConfig::MAX_SHUTDOWN_DELAY_S`.
abbrev pub max_shutdown_delay_s : ℕ
max_shutdown_delay_s = 60

-- An early return with an error, unless the test holds.
abbrev pub require : Bool → ConfigError → Result (Unit {0}) ConfigError
require true e = ok tt
require false e = err e

-- The loop of `fan_curve`.
unfoldable pub points : List CurveEntry → Result (List CurvePoint) ConfigError
points [] = ok []
points (e ∷ entries) = do
  duty ← map_err (λ _. bad_value "fan.curve.duty" "0..=100") (new_duty e.duty)
  rest ← points entries
  ok (from_celsius e.temp_c duty ∷ rest)

unfoldable pub fan_curve : Config → Result FanCurve ConfigError
fan_curve c = points c.fan.curve >>= λ p. map_err (λ _. curve) (new_curve p)

unfoldable pub validate_lid : LidConfig → Result (Unit {0}) ConfigError
validate_lid c = do
  require (eq_string c.action "power-save" || eq_string c.action "shutdown")
      (bad_value "lid.action" "power-save or shutdown")
  require (leb c.shutdown_delay_s max_shutdown_delay_s)
      (bad_value "lid.shutdown_delay_s" "0 to 60 seconds")

unfoldable pub policy_expectation : PolicyError → String
policy_expectation critical_not_below_low = "critical_percent below low_percent"
policy_expectation out_of_range = "percentages within 0..=100"
policy_expectation no_confirmations = "confirmations of at least 1; 0 would act on a single reading"
policy_expectation no_margin = "recover_margin of at least 1; 0 lets a reading flap"

abbrev pub dialect_expectation : String → String
dialect_expectation dialect =
    if eq_string dialect "auto"
    then "legacy or register (there is no auto: detection is unsafe, see ADR-0002)"
    else "legacy (the ONE V1 and the default) or register (the ONE V3)"

abbrev pub is_dialect : Option Dialect → Bool
is_dialect none = false
is_dialect (some _) = true

-- `is_address` tells whether a text parses as a socket address.
unfoldable pub validate : (String → Bool) → Config → Result (Unit {0}) ConfigError
unfolding validate_lid
validate is_address c = do
  m ← mode c
  f ← fan_curve c
  validate_lid c.lid
  require (eq_string c.button.action "none" || eq_string c.button.action "shutdown")
      (bad_value "button.action" "none or shutdown")
  require (not (c.oled.refresh_s == 0))
      (bad_value "oled.refresh_s" "at least 1 second; zero is a busy loop on a shared I2C bus")
  require (is_dialect (from_config c.mcu.dialect))
      (bad_value "mcu.dialect" (dialect_expectation c.mcu.dialect))
  map_err (λ e. bad_value "ups" (policy_expectation e)) (Policy.validate (policy c.ups))
  require (leb 1 c.ups.shutdown_delay_min && leb c.ups.shutdown_delay_min 30) (
      bad_value "ups.shutdown_delay_min"
        "1 to 30 minutes: 0 would be immediate, and a long delay spends the battery the shutdown exists to protect")
  require
      (eq_string c.ups.source "serial"
        || (eq_string c.ups.source "oneup"
            || (eq_string c.ups.source "hid" || eq_string c.ups.source "none")))
      (bad_value "ups.source" "serial, oneup, hid or none")
  require (not (c.fan.safe_duty == 0)) (
      bad_value "fan.safe_duty"
        "a duty that actually spins the fan; 0 would make the safety fallback a stopped fan")
  require (not (c.telemetry.enabled && not (is_address c.telemetry.listen)))
      (bad_value "telemetry.listen" "an address and port, e.g. 127.0.0.1:9843")
  require (not (c.fan.poll_interval_s == 0))
      (bad_value "fan.poll_interval_s" "at least 1 second; zero is a busy loop")
  require (ltb c.fan.poll_interval_s max_fan_poll_interval_s) (
      bad_value "fan.poll_interval_s"
        "below 15 seconds: it is also the systemd watchdog ping period                            (WatchdogSec=30 in the shipped unit)")
