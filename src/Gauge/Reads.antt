-- ===== src/Gauge/Reads.antt =====
-- What reaches the gauge's bus.
use argon_utils.Prelude.{
  ℕ, ◌≡◌, ◌⊎◌, inl, inr, true, Bool-cases, List, [], ◌∷◌, Result, ok, err, arith,
}
use argon_utils.I2c.{Error}
use argon_utils.Gauge.{
  RegisterRead, GaugeMonitor, read, identify, read_now, read_rest, read_voltage, health, read_soh,
  gauge_monitor, is_permitted_read, current_register, vcell, soh_register,
}

-- A read of a register that the chip's datasheet has as read-only, with its length: the version, the
-- voltage, the charge, the current, the cycles and the state of health.
abbrev pub Documented : ℕ → ℕ → Type 0
Documented register len =
    ((len ≡ 1) × ((register ≡ 0x00) ⊎ (register ≡ 0xa6)))
    ⊎ ((len ≡ 2)
        × ((register ≡ 0x02) ⊎ ((register ≡ 0x04) ⊎ ((register ≡ 0x0e) ⊎ (register ≡ 0xa4)))))

permitted-Documented :
    (register len : ℕ) → is_permitted_read register len ≡ true → Documented register len
unfolding is_permitted_read
permitted-Documented register len h = ground arith

-- A use of the gauge.
pub data Use : Type 0 where
  identifying reading wear : Use
  polling : ℕ → Use

module _ {W : Type 0} (bus : RegisterRead W) (K : W → Type 0)
    (keeps : (w : W) (register len : ℕ)
      → Documented register len
      → K w
      → K (bus.read_registers w register len).0) where
  read-keeps : (w : W) (register len : ℕ) → K w → K (read bus w register len).0
  unfolding read
  read-keeps w register len k = elim (Bool-cases (is_permitted_read register len)) [
    | inl e ↦ rw e (keeps w register len (permitted-Documented register len e) k)
    | inr e ↦ rw e k
  ]

  voltage-keeps :
      (w : W) (s : List ℕ) (r : Result (List ℕ) Error) → K w → K (read_voltage bus w s r).0
  voltage-keeps w s (ok v) k = read-keeps w current_register 2 k
  voltage-keeps w s (err e) k = k

  rest-keeps : (w : W) (r : Result (List ℕ) Error) → K w → K (read_rest bus w r).0
  rest-keeps w (ok s) k = voltage-keeps _ s _ (read-keeps w vcell 2 k)
  rest-keeps w (err e) k = k

  soh-keeps : (w : W) (r : Result (List ℕ) Error) → K w → K (read_soh bus w r).0
  soh-keeps w (ok c) k = read-keeps w soh_register 1 k
  soh-keeps w (err e) k = k

  read_now-keeps : (w : W) → K w → K (read_now bus w).0
  unfolding read_now
  read_now-keeps w k = rest-keeps _ _ (read-keeps w _ 2 k)

-- What a use leaves of the monitor.
abbrev pub use_of : {W : Type 0} → RegisterRead W → GaugeMonitor W → Use → GaugeMonitor W
use_of bus m identifying = record m { gauge = (identify bus m.gauge).0 }
use_of bus m reading = record m { gauge = (read_now bus m.gauge).0 }
use_of bus m wear = record m { gauge = (health bus m.gauge).0 }
use_of bus m (polling uptime) = ((gauge_monitor bus).poll m uptime).0

unfoldable pub uses : {W : Type 0} → RegisterRead W → GaugeMonitor W → List Use → GaugeMonitor W
uses bus m [] = m
uses bus m (u ∷ us) = uses bus (use_of bus m u) us

module _ {W : Type 0} (bus : RegisterRead W) (K : W → Type 0)
    (keeps : (w : W) (register len : ℕ)
      → Documented register len
      → K w
      → K (bus.read_registers w register len).0) where
  use-keeps : (m : GaugeMonitor W) (u : Use) → K m.gauge → K (use_of bus m u).gauge
  unfolding identify health gauge_monitor
  use-keeps m identifying k = read-keeps bus K keeps m.gauge _ 1 k
  use-keeps m reading k = read_now-keeps bus K keeps m.gauge k
  use-keeps m wear k = soh-keeps bus K keeps _ _ (read-keeps bus K keeps m.gauge _ 2 k)
  use-keeps m (polling uptime) k = read_now-keeps bus K keeps m.gauge k

  -- Whatever the documented reads keep, any uses of the gauge keep: nothing else reaches its bus.
  pub documented_reads_only :
      (m : GaugeMonitor W) (us : List Use) → K m.gauge → K (uses bus m us).gauge
  unfolding uses
  documented_reads_only m [] k = k
  documented_reads_only m (u ∷ us) k = documented_reads_only (use_of bus m u) us (use-keeps m u k)
