-- ===== src/Mcu/FanTask.antt =====
-- One poll of the fan (crates/argon-device/src/fan.rs): read the temperature, update the controller,
-- write the duty if it changed.
pub mod Told
use argon_utils.Prelude.{
  ℕ, ◌+◌, min, Bool, true, false, Option, none, some, Result, ok, err, ℤ, ◌==◌, ◌^◌, ◌-◌,
  if◌then◌else◌,
}
use argon_utils.Fan.{FanDuty, off, percent, FanController, update, reset}
use argon_utils.I2c.{I2cBus, Error, rate_limited, io, timeout, write_blocked, parse}
use argon_utils.Mcu.{Mcu, set_fan}

pub data Step : Type 0 where
  applied : ℤ → FanDuty → Bool → Step
  sensor_failed : FanDuty → ℕ → Step

pub record FanTask (W S : Type 0) : Type 0 where
  pub mcu : Mcu W
  pub source : S
  pub controller : FanController
  pub sensor_fail_duty : FanDuty
  pub failures : ℕ
  pub last_written : Option FanDuty
  pub last_temp : Option ℤ

-- `==` of duties.
abbrev pub same_duty : FanDuty → FanDuty → Bool
same_duty off off = true
same_duty off (percent q) = false
same_duty (percent p) off = false
same_duty (percent p) (percent q) = p == q

abbrev pub is_last : Option FanDuty → FanDuty → Bool
is_last none duty = false
is_last (some last) duty = same_duty last duty

-- The largest u32.
abbrev pub max_u32 : ℕ
max_u32 = 4_294_967_295

-- The temperature source is a parameter: its state, and a read in tenths of a degree.
module _ {W S : Type 0} (i2c : I2cBus W) (read : S → S × Result ℤ Error) where
  abbrev pub record_write :
      FanTask W S → FanDuty → Result (Unit {0}) Error → FanTask W S × Result Bool Error
  record_write task duty (ok _) = (record task { last_written = some duty }, ok true)
  record_write task duty (err (rate_limited _)) = (task, ok false)
  record_write task duty (err (io e)) = (task, err (io e))
  record_write task duty (err timeout) = (task, err timeout)
  record_write task duty (err (write_blocked r)) = (task, err (write_blocked r))
  record_write task duty (err (parse w)) = (task, err (parse w))

  unfoldable pub write_if_changed : FanTask W S → FanDuty → FanTask W S × Result Bool Error
  write_if_changed task duty =
      let (mcu, answer) = set_fan i2c task.mcu duty in
      let written = record_write (record task { mcu = mcu }) duty answer in
      if is_last task.last_written duty then (task, ok false) else written

  abbrev pub to_step :
      FanTask W S → Result Bool Error → (Bool → Step) → FanTask W S × Result Step Error
  to_step task (ok wrote) f = (task, ok (f wrote))
  to_step task (err e) f = (task, err e)

  abbrev pub finish :
      FanTask W S × Result Bool Error → (Bool → Step) → FanTask W S × Result Step Error
  finish (task, written) f = to_step task written f

  abbrev pub on_reading : FanTask W S → Result ℤ Error → FanTask W S × Result Step Error
  on_reading task (err _) =
      let failures = min (task.failures + 1) max_u32 in
      let failed = record task { failures = failures; controller = reset task.controller } in
      finish (write_if_changed failed task.sensor_fail_duty)
        (λ wrote. sensor_failed task.sensor_fail_duty failures)
  on_reading task (ok decicelsius) =
      let (controller, duty) = update task.controller decicelsius in
      let updated = record task {
        failures = 0;
        last_temp = some decicelsius;
        controller = controller;
      } in
      finish (write_if_changed updated duty) (λ wrote. applied decicelsius duty wrote)

  unfoldable pub step : FanTask W S → FanTask W S × Result Step Error
  unfolding write_if_changed
  step task =
      let (source, reading) = read task.source in
      on_reading (record task { source = source }) reading
