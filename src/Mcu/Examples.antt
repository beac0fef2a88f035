-- ===== src/Mcu/Examples.antt =====
-- A fan task on a bus that works, and the theorems at it.
use argon_utils.Prelude.{
  ℕ, ◌≡◌, ◌⊎◌, refl, true, false, Option, none, some, List, [], ◌∷◌, Result, ok, err, ◌==◌,
  if◌then◌else◌, arith, ℤ, pos,
}
use argon_utils.Fan.{
  percent, new_controller, FanCurve, update, duty_for, duty_from, choose, apply_floor,
}
use argon_utils.I2c.{I2cBus, Error, timeout}
use argon_utils.I2c.Decorators.{IsBus}
use argon_utils.Mcu.{legacy, new, set_fan}
use argon_utils.Mcu.FanTask.{FanTask, applied, step, is_last, write_if_changed}
use argon_utils.Mcu.FanTask.Told.{Holds, step_reaches}

-- What the device at 0x1a took last.
abbrev Wires : Type 0
Wires = Option (List ℕ)

abbrev wires : I2cBus Wires
wires = record {
  write = λ told addr bytes. if addr == 0x1a then (some bytes, ok tt) else (told, err timeout);
  probe = λ w addr. (w, ok (addr == 0x1a));
}

abbrev last_told : Wires → ℕ → Option (List ℕ)
last_told told addr = if addr == 0x1a then told else none

wires-IsBus : IsBus wires last_told
wires-IsBus = record {
  write_ok = λ w addr bytes h. ground arith;
  write_err = λ w addr at bytes e h. ground arith;
  probe_keeps = λ w addr at. refl;
}

-- A sensor that reads 60.0 degrees.
abbrev sixty : Unit {0} → Unit {0} × Result ℤ Error
sixty s = (s, ok (pos 600))

abbrev curve : FanCurve
curve = record { points = record { decicelsius = pos 550; duty = percent 30 } ∷ [] }

abbrev task : FanTask Wires (Unit {0})
task = record {
  mcu = new none legacy;
  source = tt;
  controller = new_controller curve (pos 3) 20 true;
  sensor_fail_duty = percent 55;
  failures = 0;
  last_written = none;
  last_temp = none;
}

polled : (step wires sixty task).1 ≡ ok (applied (pos 600) (percent 30) true)
unfolding step write_if_changed set_fan update duty_for duty_from choose apply_floor new_controller
polled = refl

step_reaches_example :
    let task' = (step wires sixty task).0 in
    Holds wires sixty last_told wires-IsBus task' (percent 30)
    ⊎ (is_last task'.last_written (percent 30) ≡ false)
step_reaches_example =
    step_reaches wires sixty last_told wires-IsBus task (applied (pos 600) (percent 30) true) tt
      polled
