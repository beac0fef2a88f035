-- ===== src/Gauge/Examples.antt =====
-- A ONE UP on its battery, and the theorems at it.
use argon_utils.Prelude.{
  ℕ, ◌≡◌, refl, true, false, none, List, [], ◌∷◌, ok, ◌==◌, if◌then◌else◌, negsuc, arith,
}
use argon_utils.Policy.{default_config}
use argon_utils.Policy.Streaks.{IsValid}
use argon_utils.Power.{ShutdownCoordinator, new}
use argon_utils.Power.Logind.{World, world_logind, world-IsLogind, Standing}
use argon_utils.Power.Foreign.{Outcome}
use argon_utils.Service.{step}
use argon_utils.Gauge.{
  RegisterRead, GaugeMonitor, Reading, discharging, read, read_now, identify, gauge_monitor, soc,
  vcell_microvolts, current_raw, flow, is_permitted_read, power_source,
}
use argon_utils.Gauge.Reads.{Documented, uses, wear, identifying, polling, documented_reads_only}
use argon_utils.Gauge.Cycle.{Raw, RawReadings, reading, gauge_after, gauge_critical_cycle}

-- The reads that were made.
abbrev Log : Type 0
Log = List (ℕ × ℕ)

abbrev AllDocumented : Log → Type 0
AllDocumented [] = Unit {0}
AllDocumented ((r, n) ∷ log) = Documented r n × AllDocumented log

-- 8 %, 4.4 V and -2092.
abbrev held_in : ℕ → List ℕ
held_in register =
    if register == 0
    then 0xa0 ∷ []
    else if register == 4
    then 8 ∷ 0 ∷ []
    else if register == 2
    then 0x36 ∷ 0xf8 ∷ []
    else 0xf7 ∷ 0xd4 ∷ []

abbrev bus : RegisterRead Log
bus = record { read_registers = λ log register len. ((register, len) ∷ log, ok (held_in register)) }

abbrev eight : Reading
eight = record { percent = 8; vcell_uv = 4_397_500; current = negsuc 2_091; flow = discharging }

eight_is_read : (read_now bus []).1 ≡ ok eight
unfolding read_now read is_permitted_read soc vcell_microvolts current_raw flow
eight_is_read = refl

abbrev raw_eight : Raw
raw_eight = (8 ∷ 0 ∷ [], 0x36 ∷ 0xf8 ∷ [], 0xf7 ∷ 0xd4 ∷ [])

abbrev earlier : RawReadings
earlier = (ok raw_eight, 290_000_000_000) ∷ (ok raw_eight, 280_000_000_000) ∷ []

identified : (identify bus []).1 ≡ ok tt
unfolding identify read is_permitted_read
identified = refl

abbrev monitor : GaugeMonitor Log
monitor = gauge_after bus default_config earlier [] none

documented_reads_only_example :
    AllDocumented (uses bus monitor (identifying ∷ polling 9 ∷ wear ∷ [])).gauge
documented_reads_only_example =
    documented_reads_only bus AllDocumented (λ log r n d a. (d, a)) monitor
      (identifying ∷ polling 9 ∷ wear ∷ []) tt

raw_is_read : (read_now bus []).1 ≡ ok (reading bus raw_eight)
unfolding read_now read is_permitted_read
raw_is_read = refl

default_IsValid : IsValid default_config
default_IsValid = omega arith

abbrev idle : World
idle = record { standing = none; readable = true; willing = true; clock = 1000 }

abbrev standing_of : World → Standing
standing_of w = w.standing

abbrev coordinator : ShutdownCoordinator World
coordinator = new idle 60_000_000_000 false

gauge_critical_cycle_example :
    let (m', c', cycle) =
      step
        (gauge_monitor bus)
        world_logind
        (gauge_after bus default_config earlier [] none)
        coordinator
        300_000_000_000
        1000 in
    Outcome world_logind standing_of world-IsLogind none c' cycle.action
unfolding power_source
gauge_critical_cycle_example =
    gauge_critical_cycle bus world_logind standing_of world-IsLogind default_config earlier [] none
      raw_eight coordinator 300_000_000_000 1000 default_IsValid (omega arith) raw_is_read
      (omega arith) (omega arith) (record { real = refl; none_ours = refl; active = refl })
