-- ===== src/Mcu/Guard.antt =====
-- The guard that leaves the fan at a safe duty (crates/argon-device/src/safety.rs).
use argon_utils.Prelude.{
  ℕ, ◌≤◌, ◌≡◌, ◌⊎◌, inl, inr, Bool, true, false, Option, none, some, List, ok, err, ℤ, leb_ℤ,
  if◌then◌else◌, arith, Result-cases, Bool-cases,
}
use argon_utils.Fan.{FanDuty, clamped, percent_of}
use argon_utils.I2c.{I2cBus}
use argon_utils.I2c.Decorators.{IsBus}
use argon_utils.Mcu.{Mcu, set_fan, address, fan_bytes}

abbrev pub default_safe_duty : ℕ
default_safe_duty = 55

abbrev pub hot_safe_duty : ℕ
hot_safe_duty = 100

pub record FanSafeGuard (W : Type 0) : Type 0 where
  pub mcu : Mcu W
  pub safe_duty : FanDuty
  pub disarmed : Bool

abbrev pub new : {W : Type 0} → Mcu W → FanDuty → FanSafeGuard W
new mcu safe_duty = record { mcu = mcu; safe_duty = safe_duty; disarmed = false }

-- `last_temp_c.is_some_and(|t| t >= hot_threshold_c)`.
abbrev pub is_hot : Option ℤ → ℤ → Bool
is_hot none threshold = false
is_hot (some t) threshold = leb_ℤ threshold t

unfoldable pub for_temperature : {W : Type 0} → Mcu W → Option ℤ → ℤ → FanSafeGuard W
for_temperature mcu last_temp_c hot_threshold_c = new mcu (
    if is_hot last_temp_c hot_threshold_c then clamped hot_safe_duty else clamped default_safe_duty)

abbrev pub disarm : {W : Type 0} → FanSafeGuard W → FanSafeGuard W
disarm guard = record guard { disarmed = true }

module _ {W : Type 0} (i2c : I2cBus W) where
  unfoldable pub restore_now : FanSafeGuard W → FanSafeGuard W × Bool
  restore_now guard =
      let (mcu, answer) = set_fan i2c guard.mcu guard.safe_duty in
      (record guard { mcu = mcu }, elim answer [ ok _ ↦ true | err _ ↦ false ])

  -- `drop`: what becomes of the Mcu.
  unfoldable pub drop : FanSafeGuard W → Mcu W
  drop guard =
      let (mcu, answer) = set_fan i2c guard.mcu guard.safe_duty in
      if guard.disarmed then guard.mcu else mcu

  module _ (told : W → ℕ → Option (List ℕ)) (laws : IsBus i2c told) where
    -- On a bus that tells the truth about its writes, dropping a guard that was made for a
    -- temperature and not disarmed leaves the device with a duty of at least the safe one, the full
    -- one where the last temperature was hot; or else the write failed, and the device is as it
    -- was.
    pub dropped_is_safe :
        (mcu : Mcu W) (last : Option ℤ) (threshold : ℤ)
        → let after = drop (for_temperature mcu last threshold) in
          ((duty : FanDuty) × (told after.bus address ≡ some (fan_bytes mcu.dialect duty))
            × (default_safe_duty ≤ percent_of duty)
            × ((is_hot last threshold ≡ false) ⊎ (percent_of duty ≡ hot_safe_duty)))
          ⊎ (told after.bus address ≡ told mcu.bus address)
    unfolding drop for_temperature set_fan clamped
    dropped_is_safe mcu last threshold =
        let duty = (for_temperature mcu last threshold).safe_duty in
        let bytes = fan_bytes mcu.dialect duty in
        elim (Result-cases (i2c.write mcu.bus address bytes).1) [
          | inl (u, e) ↦ inl (
            duty,
            ground (arith, laws.write_ok mcu.bus address bytes e),
            ground arith,
            elim (Bool-cases (is_hot last threshold)) [
              | inl hot ↦ inr (ground arith)
              | inr cool ↦ inl cool
            ],
          )
          | inr (x, e) ↦ inr (ground (arith, laws.write_err mcu.bus address address bytes x e))
        ]
