-- ===== src/Policy/Examples.antt =====
-- Runs of the battery policy, and its theorems at them.
use argon_utils.Prelude.{ℕ, ◌*◌, ◌≡◌, refl, some, List, [], ◌∷◌, arith}
use argon_utils.Battery.{mains, battery}
use argon_utils.Policy.{Poll, Observation, shutdown, default_config, fresh, decide, observe, after}
use argon_utils.Policy.Streaks.{IsValid}
use argon_utils.Policy.Confirmed.{Evidence, shutdown-Evidence, confirmed_critical_shuts_down}

abbrev seconds : ℕ → ℕ
seconds n = n * 1_000_000_000

abbrev at_charge : ℕ → Observation
at_charge percent = record { percent = percent; source = battery }

abbrev plugged : Observation
plugged = record { percent = 50; source = mains }

default_IsValid : IsValid default_config
default_IsValid = omega arith

-- A critical reading, the newest of two, after a reading on mains.
abbrev outage : List Poll
outage = (some (at_charge 9), seconds 290) ∷ (some plugged, seconds 280) ∷ []

outage_decides :
    (decide (fresh default_config) outage (some (at_charge 8)) (seconds 300)).advice ≡ shutdown
unfolding after observe
outage_decides = refl

shutdown-Evidence_example :
    (r : Observation) × (some (at_charge 8) ≡ some r)
    × Evidence default_config outage r (seconds 300)
shutdown-Evidence_example =
    shutdown-Evidence default_config outage (some (at_charge 8)) (seconds 300) default_IsValid
      outage_decides

confirmed_critical_shuts_down_example :
    (decide (fresh default_config) outage (some (at_charge 8)) (seconds 300)).advice ≡ shutdown
confirmed_critical_shuts_down_example =
    confirmed_critical_shuts_down default_config outage (at_charge 8) (seconds 300) default_IsValid
      (omega arith) (omega arith) (omega arith)
