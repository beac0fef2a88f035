-- ===== src/Gauge/Cycle.antt =====
-- The service's cycle over the gauge.
use argon_utils.Prelude.{
  ℕ, ◌+◌, ◌*◌, ◌≤◌, ◌<◌, ◌≡◌, ◌∙◌, suc, min, ap, sym, subst, refl, Bool, true, false, not, ◌&&◌,
  some, List, [], ◌∷◌, Result, ok, err, map_ok, Option, leb, arith, if◌then◌else◌,
}
use argon_utils.Battery.{is_mains}
use argon_utils.Policy
use argon_utils.Policy.{PolicyConfig, Advice, fresh, decide, Decision}
use argon_utils.Policy.Streaks.{IsValid}
use argon_utils.I2c.{Error}
use argon_utils.Policy.Confirmed.{reads_critical, critical_run, confirmed_critical_shuts_down}
use argon_utils.Power.{PowerControl, ShutdownCoordinator}
use argon_utils.Power.Logind.{IsLogind, Standing}
use argon_utils.Power.Foreign.{Ready, Outcome, advised_outcome}
use argon_utils.Service.{step}
use argon_utils.Service.Cycles.{kind-shutdown}
use argon_utils.Ups
use argon_utils.Ups.{new_watch}
use argon_utils.Ups.Watching.{Readings, watched, polls, watched_lem}
use argon_utils.Gauge.{
  RegisterRead, GaugeMonitor, Reading, reading_of, first, second, soc, current_raw, flow,
  power_source, read_now, gauge_monitor, battery_of,
}

-- The bytes of the registers of the charge, the voltage and the current, as they were read.
abbrev pub Raw : Type 0
Raw = List ℕ × List ℕ × List ℕ

-- What was read, the newest first, each with the uptime of its poll.
abbrev pub RawReadings : Type 0
RawReadings = List (Result Raw Error × ℕ)

-- A discharge, by the two bytes of a signed current: from -32768 to -200.
abbrev pub discharges : ℕ → ℕ → Bool
discharges hi lo = leb 32_768 (hi * 256 + lo) && leb (hi * 256 + lo) 65_336

-- Of the bytes alone: a discharge with a charge at or below the critical threshold.
abbrev pub is_critical : PolicyConfig → Raw → Bool
is_critical c (s, v, cur) =
    discharges (first cur) (second cur) && leb (min (first s) 100) c.critical_percent

-- Consecutive critical readings, up to the newest.
abbrev pub draining_run : PolicyConfig → RawReadings → ℕ
draining_run c [] = 0
draining_run c ((err _, _) ∷ earlier) = 0
draining_run c ((ok raw, _) ∷ earlier) =
    if is_critical c raw then suc (draining_run c earlier) else 0

not-not : (b : Bool) → not (not b) ≡ b
not-not true = refl
not-not false = refl

discharges_lem :
    (hi lo : ℕ) → is_mains (power_source (flow (current_raw hi lo))) ≡ not (discharges hi lo)
unfolding current_raw flow power_source
discharges_lem hi lo = ground arith

charge_lem :
    (hi lo critical_percent : ℕ)
    → leb (min (soc hi lo).0 100) critical_percent ≡ leb (min hi 100) critical_percent
unfolding soc
charge_lem hi lo critical_percent = ground arith

module _ {W : Type 0} (bus : RegisterRead W) where
  abbrev pub reading : Raw → Reading
  reading (s, v, cur) = reading_of bus s v cur

  abbrev pub seen_in : Raw → Policy.Observation
  seen_in raw =
      let b = battery_of (reading raw) in record { percent = b.percent; source = b.source }

  -- The readings as the watch is told of them.
  abbrev pub told : RawReadings → Readings
  told [] = []
  told ((r, uptime) ∷ earlier) = (map_ok (λ raw. battery_of (reading raw)) r, uptime) ∷ told earlier

  is_critical_lem :
      (c : PolicyConfig) (raw : Raw) → reads_critical c (seen_in raw) ≡ is_critical c raw
  is_critical_lem c (s, v, cur) =
      let a = discharges_lem (first cur) (second cur) in
      let b = charge_lem (first s) (second s) c.critical_percent in
      rw (a, b)
        (ap (λ x. x && leb (min (first s) 100) c.critical_percent)
          (not-not (discharges (first cur) (second cur))))

  run_lem :
      (c : PolicyConfig) (h : RawReadings) → critical_run c (polls (told h)) ≡ draining_run c h
  run_lem c [] = refl
  run_lem c ((err e, uptime) ∷ h) = refl
  run_lem c ((ok raw, uptime) ∷ h) = rw (is_critical_lem c raw, run_lem c h) refl

-- The monitor after a history of readings, with its bus in the state `w`.
abbrev pub gauge_after :
    {W : Type 0} → RegisterRead W → PolicyConfig → RawReadings → W → Option Reading → GaugeMonitor W
gauge_after bus c h w last = record {
  gauge = w;
  watch = watched (new_watch (fresh c)) (told bus h);
  last = last;
}

module _ {W P : Type 0} (bus : RegisterRead W) (power : PowerControl P) (standing : P → Standing)
    (laws : IsLogind power standing) where
  poll-decision :
      (c : PolicyConfig) (h : RawReadings) (w : W) (last : Option Reading) (raw : Raw) (uptime : ℕ)
      → (read_now bus w).1 ≡ ok (reading bus raw)
      → ((gauge_monitor bus).poll (gauge_after bus c h w last) uptime).1.decision
        ≡ decide (fresh c) (polls (told bus h)) (some (seen_in bus raw)) uptime
  unfolding gauge_monitor Ups.observe
  poll-decision c h w last raw uptime e =
      ap
        (λ x.
          (Ups.observe (watched (new_watch (fresh c)) (told bus h)) (map_ok battery_of x)
            uptime).1.decision)
        e
      ∙ ap (λ q. (Policy.observe q (some (seen_in bus raw)) uptime).1)
          (watched_lem (fresh c) (told bus h)).1

  -- Once the bytes that the gauge's registers gave up to this cycle's were critical as often in a row
  -- as is to be confirmed (a current from -32768 to -200, of two's complement, and a charge at or below
  -- the critical threshold), and the machine has been up long enough, the cycle of a coordinator that
  -- is free to act leaves a poweroff of ours pending and on record, or another's pending and left
  -- alone, or logind's refusal reported and nothing changed.
  pub gauge_critical_cycle :
      (c : PolicyConfig) (h : RawReadings) (w : W) (last : Option Reading) (raw : Raw)
      (coordinator : ShutdownCoordinator P) (uptime now : ℕ)
      → IsValid c
      → c.confirmations < 256
      → (read_now bus w).1 ≡ ok (reading bus raw)
      → c.confirmations ≤ draining_run c ((ok raw, uptime) ∷ h)
      → c.min_uptime ≤ uptime
      → Ready power standing laws coordinator
      → let (m', c', cycle) =
          step (gauge_monitor bus) power (gauge_after bus c h w last) coordinator uptime now in
        Outcome power standing laws (standing coordinator.power) c' cycle.action
  unfolding step
  gauge_critical_cycle c h w last raw coordinator uptime now v l e enough up ready =
      let d = ((gauge_monitor bus).poll (gauge_after bus c h w last) uptime).1.decision in
      let run = run_lem bus c ((ok raw, uptime) ∷ h) in
      advised_outcome power standing laws coordinator d now ready (
        kind-shutdown d (
          ap (λ x. x.advice) (poll-decision c h w last raw uptime e)
          ∙ confirmed_critical_shuts_down c (polls (told bus h)) (seen_in bus raw) uptime v l
              (subst (λ n. c.confirmations ≤ n) (sym run) enough) up))
