-- ===== src/Mcu/FanTask/Told.antt =====
-- What the fan task believes it wrote, and what the device was told.
use argon_utils.Prelude.{
  ℕ, ◌+◌, min, sym, subst, ◌≡◌, ◌⊎◌, inl, inr, refl, Bool, true, false, Option, none, some, List,
  Result, ok, err, ℤ, arith, Result-cases, Bool-cases,
}
use argon_utils.Fan.{FanDuty, update, reset}
use argon_utils.I2c.{I2cBus, Error}
use argon_utils.I2c.Decorators.{IsBus}
use argon_utils.Mcu.{set_fan, address, fan_bytes}
use argon_utils.Mcu.FanTask.{
  FanTask, Step, applied, sensor_failed, write_if_changed, to_step, on_reading, step, is_last,
  max_u32,
}

abbrev pub duty_of : Step → FanDuty
duty_of (applied _ duty _) = duty
duty_of (sensor_failed duty _) = duty

is_last-eq : (o : Option FanDuty) (d : FanDuty) → is_last o d ≡ true → o ≡ some d
is_last-eq o d h = ground arith

module _ {W S : Type 0} (i2c : I2cBus W) (read : S → S × Result ℤ Error)
    (told : W → ℕ → Option (List ℕ)) (laws : IsBus i2c told) where
  abbrev pub Holds : FanTask W S → FanDuty → Type 0
  Holds task duty = told task.mcu.bus address ≡ some (fan_bytes task.mcu.dialect duty)

  -- The device holds the duty that the task recorded as written, if any.
  abbrev pub Knows : FanTask W S → Option FanDuty → Type 0
  Knows task none = Unit {0}
  Knows task (some duty) = Holds task duty

  write-Knows :
      (task : FanTask W S) (duty : FanDuty)
      → Knows task task.last_written
      → let task' = (write_if_changed i2c read task duty).0 in Knows task' task'.last_written
  unfolding write_if_changed set_fan
  write-Knows task duty k =
      let bytes = fan_bytes task.mcu.dialect duty in
      elim (Result-cases (i2c.write task.mcu.bus address bytes).1) [
        | inl (u, e) ↦ ground (arith, laws.write_ok task.mcu.bus address bytes e)
        | inr (x, e) ↦ ground (arith, laws.write_err task.mcu.bus address address bytes x e)
      ]

  write_ends :
      (task : FanTask W S) (duty : FanDuty)
      → Knows task task.last_written
      → let task' = (write_if_changed i2c read task duty).0 in
        Holds task' duty ⊎ (is_last task'.last_written duty ≡ false)
  unfolding write_if_changed set_fan
  write_ends task duty k =
      let bytes = fan_bytes task.mcu.dialect duty in
      elim (Bool-cases (is_last task.last_written duty)) [
        | inl same ↦ inl (ground (arith, is_last-eq task.last_written duty same))
        | inr other ↦ elim (Result-cases (i2c.write task.mcu.bus address bytes).1) [
          | inl (u, e) ↦ inl (ground (arith, laws.write_ok task.mcu.bus address bytes e))
          | inr (x, e) ↦ inr (ground arith)
        ]
      ]

  -- The task as a poll hands it to the write, and the duty that is to be written.
  abbrev polled : FanTask W S → Result ℤ Error → FanTask W S × FanDuty
  polled task (err _) = (
    record task { failures = min (task.failures + 1) max_u32; controller = reset task.controller },
    task.sensor_fail_duty,
  )
  polled task (ok t) =
      let (controller, duty) = update task.controller t in
      (record task { failures = 0; last_temp = some t; controller = controller }, duty)

  to_step-task :
      (task : FanTask W S) (r : Result Bool Error) (f : Bool → Step)
      → (to_step i2c read task r f).0 ≡ task
  to_step-task task (ok wrote) f = refl
  to_step-task task (err e) f = refl

  to_step-ok :
      (task : FanTask W S) (r : Result Bool Error) (f : Bool → Step) (s : Step) (duty : FanDuty)
      → ((wrote : Bool) → duty_of (f wrote) ≡ duty)
      → (to_step i2c read task r f).1 ≡ ok s
      → duty_of s ≡ duty
  to_step-ok task (ok wrote) f s duty d e = ground (arith, d wrote)
  to_step-ok task (err x) f s duty d e = ground arith

  reading-task :
      (task : FanTask W S) (r : Result ℤ Error)
      → let (next, duty) = polled task r in
        (on_reading i2c read task r).0 ≡ (write_if_changed i2c read next duty).0
  reading-task task (ok t) = to_step-task _ _ _
  reading-task task (err x) =
      let (next, duty) = polled task (err x) in
      let (task', r) = write_if_changed i2c read next duty in
      to_step-task task' r (λ wrote. sensor_failed duty next.failures)

  reading-ok :
      (task : FanTask W S) (r : Result ℤ Error) (s : Step)
      → (on_reading i2c read task r).1 ≡ ok s
      → duty_of s ≡ (polled task r).1
  reading-ok task (ok t) s e = to_step-ok _ _ _ s _ (λ wrote. refl) e
  reading-ok task (err x) s e = to_step-ok _ _ _ s _ (λ wrote. refl) e

  reading-Knows :
      (task : FanTask W S) (r : Result ℤ Error)
      → Knows task task.last_written
      → let next = (polled task r).0 in Knows next next.last_written
  reading-Knows task (ok t) k = k
  reading-Knows task (err x) k = k

  -- On a bus that tells the truth about its writes, a poll that begins with the device holding the
  -- duty on record ends so.
  pub step-Knows :
      (task : FanTask W S)
      → Knows task task.last_written
      → let task' = (step i2c read task).0 in Knows task' task'.last_written
  unfolding step
  step-Knows task k =
      let source = (read task.source).0 in
      let (next, duty) = polled (record task { source = source }) (read task.source).1 in
      subst (λ x. Knows x x.last_written)
        (sym (reading-task (record task { source = source }) (read task.source).1))
        (write-Knows next duty
          (reading-Knows (record task { source = source }) (read task.source).1 k))

  -- On a bus that tells the truth about its writes, and from a task whose record is right: whenever
  -- a poll returns a duty, with a temperature or without, the device holds that duty, or else the
  -- duty is not on record, so that the next poll does not skip it.
  pub step_reaches :
      (task : FanTask W S) (s : Step)
      → Knows task task.last_written
      → (step i2c read task).1 ≡ ok s
      → let task' = (step i2c read task).0 in
        Holds task' (duty_of s) ⊎ (is_last task'.last_written (duty_of s) ≡ false)
  unfolding step
  step_reaches task s k e =
      let from = record task { source = (read task.source).0 } in
      let r = (read task.source).1 in
      let (next, duty) = polled from r in
      subst (λ x. Holds x (duty_of s) ⊎ (is_last x.last_written (duty_of s) ≡ false))
        (sym (reading-task from r))
        (subst
          (λ d.
            let w = (write_if_changed i2c read next duty).0 in
            Holds w d ⊎ (is_last w.last_written d ≡ false))
          (sym (reading-ok from r s e)) (write_ends next duty (reading-Knows from r k)))
