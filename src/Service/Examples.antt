-- ===== src/Service/Examples.antt =====
-- A battery that runs out, and the theorems on the cycles.
use argon_utils.Prelude.{
  ℕ, ◌≡◌, refl, true, false, Option, none, some, [], ◌∷◌, Result, ok, err, eq_string, arith,
}
use argon_utils.Battery
use argon_utils.Battery.{BatteryStatus}
use argon_utils.Frame.{Frame}
use argon_utils.I2c.{Error, timeout}
use argon_utils.Policy.{default_config}
use argon_utils.Policy.Streaks.{IsValid}
use argon_utils.Power.{ShutdownCoordinator, new}
use argon_utils.Power.Logind.{World, world_logind, world-IsLogind, Standing}
use argon_utils.Power.Foreign.{Outcome}
use argon_utils.Ups
use argon_utils.Ups.{UpsLink, UpsMonitor, new_watch}
use argon_utils.Ups.Watching.{Readings}
use argon_utils.Service.{step, ups_monitor, contention_among, contains_unit, ups_vendor_units}
use argon_utils.Service.Cycles.{monitor_after, critical_cycle}

-- A UPS whose battery is at a level, and does not answer where there is none.
abbrev answer : Option ℕ → Result Frame Error
answer none = err timeout
answer (some percent) = ok (record { cmd = 0; payload = percent ∷ 1 ∷ [] })

abbrev ups : UpsLink (Option ℕ)
ups = record { request = λ w cmd payload deadline. (w, answer w) }

abbrev eight : BatteryStatus
eight = record { percent = 8; source = Battery.battery }

abbrev earlier : Readings
earlier = (ok eight, 290_000_000_000) ∷ (ok eight, 280_000_000_000) ∷ []

eight_is_read : (Ups.battery ups (some 8) 0).1 ≡ ok eight
unfolding Ups.battery Battery.decode
eight_is_read = refl

nothing_is_read : (Ups.battery ups none 0).1 ≡ err timeout
unfolding Ups.battery
nothing_is_read = refl

default_IsValid : IsValid default_config
default_IsValid = omega arith

abbrev idle : World
idle = record { standing = none; readable = true; willing = true; clock = 1000 }

abbrev standing_of : World → Standing
standing_of w = w.standing

abbrev coordinator : ShutdownCoordinator World
coordinator = new idle 60_000_000_000 false

vendor_unit_found :
    contention_among ups_vendor_units
      ("ssh.service" ∷ "argononeupsd.service" ∷ "argononeupd.service" ∷ [])
    ≡ "argononeupsd.service" ∷ []
unfolding contention_among contains_unit eq_string
vendor_unit_found = refl

critical_cycle_example :
    let (m', c', cycle) =
      step
        (ups_monitor ups 0)
        world_logind
        (monitor_after default_config earlier (some 8))
        coordinator
        300_000_000_000
        1000 in
    Outcome world_logind standing_of world-IsLogind none c' cycle.action
critical_cycle_example =
    critical_cycle ups world_logind standing_of world-IsLogind default_config earlier (some 8) eight
      coordinator 300_000_000_000 0 1000 default_IsValid (omega arith) eight_is_read (omega arith)
      (omega arith) (record { real = refl; none_ours = refl; active = refl })
