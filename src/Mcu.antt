-- ===== src/Mcu.antt =====
-- The case's microcontroller and the fan on it (crates/argon-device/src/mcu.rs, fan.rs, safety.rs and
-- `duty_from_pwm` of fan_control.rs). The mutex around the Mcu is left out: each operation holds it
-- whole, and a poisoned one is used like any other. A panic between operations keeps their results.
pub mod FanTask
pub mod Guard
mod Examples
use argon_utils.Prelude.{
  ℕ, ◌+◌, ◌*◌, ◌/◌, Bool, Option, none, some, List, [], ◌∷◌, Result, ok, err, String, eq_string,
  leb, if◌then◌else◌,
}
use argon_utils.Fan.{FanDuty, as_mcu_byte, clamped}
use argon_utils.I2c.{I2cBus, Error, write_blocked}

abbrev pub address : ℕ
address = 0x1a

pub data Dialect : Type 0 where
  legacy register : Dialect

unfoldable pub from_config : String → Option Dialect
from_config value =
    if eq_string value "legacy"
    then some legacy
    else if eq_string value "register"
    then some register
    else none

pub data PowerMode : Type 0 where
  requires_button always_on : PowerMode

pub record Mcu (W : Type 0) : Type 0 where
  pub bus : W
  pub dialect : Dialect
  pub shadow_duty : Option FanDuty

abbrev pub new : {W : Type 0} → W → Dialect → Mcu W
new bus dialect = record { bus = bus; dialect = dialect; shadow_duty = none }

-- What `set_fan` writes.
abbrev pub fan_bytes : Dialect → FanDuty → List ℕ
fan_bytes legacy duty = as_mcu_byte duty ∷ []
fan_bytes register duty = 0x80 ∷ as_mcu_byte duty ∷ []

abbrev pub mode_byte : PowerMode → ℕ
mode_byte requires_button = 0xfd
mode_byte always_on = 0xfe

module _ {W : Type 0} (i2c : I2cBus W) where
  unfoldable pub is_present : Mcu W → Mcu W × Result Bool Error
  is_present mcu =
      let (bus, answer) = i2c.probe mcu.bus address in (record mcu { bus = bus }, answer)

  abbrev pub fan_set : Mcu W → FanDuty → Result (Unit {0}) Error → Mcu W × Result (Unit {0}) Error
  fan_set mcu duty (ok _) = (record mcu { shadow_duty = some duty }, ok tt)
  fan_set mcu duty (err e) = (mcu, err e)

  unfoldable pub set_fan : Mcu W → FanDuty → Mcu W × Result (Unit {0}) Error
  set_fan mcu duty =
      let (bus, answer) = i2c.write mcu.bus address (fan_bytes mcu.dialect duty) in
      fan_set (record mcu { bus = bus }) duty answer

  unfoldable pub set_power_mode : Mcu W → PowerMode → Mcu W × Result (Unit {0}) Error
  set_power_mode mcu mode =
      let (bus, answer) = i2c.write mcu.bus address (mode_byte mode ∷ []) in
      (record mcu { bus = bus }, answer)

  unfoldable pub arm_power_cut : Mcu W → Mcu W × Result (Unit {0}) Error
  arm_power_cut mcu =
      let (bus, answer) = i2c.write mcu.bus address (0xff ∷ []) in
      (record mcu { bus = bus }, answer)

  unfoldable pub enter_bootloader : Mcu W → Mcu W × Result (Unit {0}) Error
  enter_bootloader mcu = (
    mcu,
    err (
        write_blocked
          "argon-utils never enters the MCU bootloader: the exit sequence is unknown and a failed flash can be unrecoverable"),
  )

-- The duty of a kernel fan, from its PWM value.
unfoldable pub duty_from_pwm : ℕ → FanDuty
duty_from_pwm pwm =
    let percent = (pwm * 100 + 127) / 255 in clamped (if leb percent 255 then percent else 100)
