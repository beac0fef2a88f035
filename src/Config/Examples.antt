-- ===== src/Config/Examples.antt =====
-- The default configuration, which is accepted, and some that are not.
use argon_utils.Prelude.{◌≡◌, ◌↔◌, refl, ok, err, eq_string, String, Bool, true}
use argon_utils.Config.{default_config, default_ups, bad_value, mode, policy}
use argon_utils.Config.Validation.{validate, fan_curve, points}
use argon_utils.Config.Validated.{IsSound, validate_iff}
use argon_utils.Fan.{
  from_celsius, times_ten, new_duty, new_curve, sort, insert, check_windows, check_pair,
}
use argon_utils.Mcu.{from_config}
use argon_utils.Mode
use argon_utils.Policy

abbrev any_address : String → Bool
any_address s = true

default_accepted : validate any_address default_config ≡ ok tt
unfolding validate mode Mode.parse fan_curve points from_celsius times_ten new_duty new_curve sort
    insert check_windows check_pair from_config Policy.validate policy eq_string
default_accepted = refl

validate_iff_example :
    (validate any_address default_config ≡ ok tt) ↔ IsSound any_address default_config
validate_iff_example = validate_iff any_address default_config

refused_at_once :
    validate any_address
      (record default_config { ups = record default_ups { shutdown_delay_min = 0 } })
    ≡ err (
        bad_value "ups.shutdown_delay_min"
          "1 to 30 minutes: 0 would be immediate, and a long delay spends the battery the shutdown exists to protect")
unfolding validate mode Mode.parse fan_curve points from_celsius times_ten new_duty new_curve sort
    insert check_windows check_pair from_config Policy.validate policy eq_string
refused_at_once = refl
