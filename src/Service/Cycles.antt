-- ===== src/Service/Cycles.antt =====
-- What one cycle does, from the reply of the UPS to logind.
use argon_utils.Prelude.{ℕ, ◌≤◌, ◌<◌, ◌≡◌, ◌∙◌, ap, none, some, ◌∷◌, ok, err, arith}
use argon_utils.Battery.{BatteryStatus}
use argon_utils.I2c.{Error}
use argon_utils.Policy
use argon_utils.Policy.{PolicyConfig, Decision, Advice, fresh, decide, unknown}
use argon_utils.Policy.Streaks.{IsValid}
use argon_utils.Policy.Confirmed.{critical_run, confirmed_critical_shuts_down}
use argon_utils.Power.{PowerControl, ShutdownCoordinator, Action, kind, advises}
use argon_utils.Power.Logind.{IsLogind, Standing}
use argon_utils.Power.Foreign.{Ready, Outcome, advised_outcome}
use argon_utils.Power.Untouched.{failed_read_holds}
use argon_utils.Ups
use argon_utils.Ups.{UpsLink, UpsMonitor, new_watch}
use argon_utils.Ups.Watching.{Readings, watched, polls, watched_lem}
use argon_utils.Service.{step, ups_monitor, level_name}

pub kind-shutdown : (d : Decision) → d.advice ≡ Advice.shutdown → kind d ≡ advises
unfolding kind
kind-shutdown d e = ground arith

-- The monitor after a history of readings, with its link in the state `w`.
abbrev pub monitor_after : {W : Type 0} → PolicyConfig → Readings → W → UpsMonitor W
monitor_after c h w = record { ups = w; watch = watched (new_watch (fresh c)) h }

module _ {W P : Type 0} (link : UpsLink W) (power : PowerControl P) (standing : P → Standing)
    (laws : IsLogind power standing) where
  poll-decision :
      (c : PolicyConfig) (h : Readings) (w : W) (b : BatteryStatus) (uptime instant : ℕ)
      → (Ups.battery link w instant).1 ≡ ok b
      → ((ups_monitor link instant).poll (monitor_after c h w) uptime).1.decision
        ≡ decide
            (fresh c)
            (polls h)
            (some (record { percent = b.percent; source = b.source }))
            uptime
  unfolding ups_monitor Ups.poll Ups.observe
  poll-decision c h w b uptime instant e =
      let seen : Policy.Observation = record { percent = b.percent; source = b.source } in
      ap (λ r. (Ups.observe (watched (new_watch (fresh c)) h) r uptime).1.decision) e
      ∙ ap (λ q. (Policy.observe q (some seen) uptime).1) (watched_lem (fresh c) h).1

  -- With a valid configuration and a logind that keeps its laws: once the readings up to this
  -- cycle's are critical as often in a row as is to be confirmed, and the machine has been up long
  -- enough, the cycle of a coordinator that is free to act leaves a poweroff of ours pending and on
  -- record, or another's pending and left alone, or logind's refusal reported and nothing changed.
  pub critical_cycle :
      (c : PolicyConfig) (h : Readings) (w : W) (b : BatteryStatus)
      (coordinator : ShutdownCoordinator P) (uptime instant now : ℕ)
      → IsValid c
      → c.confirmations < 256
      → (Ups.battery link w instant).1 ≡ ok b
      → c.confirmations ≤ critical_run c (polls ((ok b, uptime) ∷ h))
      → c.min_uptime ≤ uptime
      → Ready power standing laws coordinator
      → let (m', c', cycle) =
          step (ups_monitor link instant) power (monitor_after c h w) coordinator uptime now in
        Outcome power standing laws (standing coordinator.power) c' cycle.action
  unfolding step
  critical_cycle c h w b coordinator uptime instant now v l e enough up ready =
      let seen : Policy.Observation = record { percent = b.percent; source = b.source } in
      let d = ((ups_monitor link instant).poll (monitor_after c h w) uptime).1.decision in
      advised_outcome power standing laws coordinator d now ready (
        kind-shutdown d (
          ap (λ x. x.advice) (poll-decision c h w b uptime instant e)
          ∙ confirmed_critical_shuts_down c (polls h) seen uptime v l enough up))

  -- A cycle whose battery read fails asks nothing of logind and forgets nothing: the coordinator is as
  -- it was, the action is nothing, and what is published has no percentage, the level unknown, and
  -- still the poweroff on record.
  pub failed_cycle :
      (m : UpsMonitor W) (x : Error) (coordinator : ShutdownCoordinator P) (uptime instant now : ℕ)
      → (Ups.battery link m.ups instant).1 ≡ err x
      → let (m', c', cycle) = step (ups_monitor link instant) power m coordinator uptime now in
        (c' ≡ coordinator)
        × (cycle.action ≡ Action.nothing)
        × (cycle.status.percent ≡ none)
        × (cycle.status.level ≡ "unknown")
        × (cycle.status.shutdown_at ≡ coordinator.ours)
  unfolding step ups_monitor Ups.poll Ups.observe level_name Policy.observe
  failed_cycle m x coordinator uptime instant now e =
      let held = failed_read_holds power m.watch.policy uptime coordinator now in
      (ground (arith, held), ground (arith, held), ground arith, ground arith, ground (arith, held))
