-- ===== src/Status/Examples.antt =====
-- A tray that looks at the status, and the theorems at it.
use argon_utils.Prelude.{ℕ, ◌≡◌, refl, none, some, String, eq_string, List, [], ◌∷◌}
use argon_utils.Service.{UpsStatus}
use argon_utils.Status.{
  observe, notice, interpret, level_of, source_of, power_off_pending, no_ups, stale, on_mains,
  current,
}
use argon_utils.UpsSeen.{absence}
use argon_utils.Status.Warnings.{Look, stops, PendingSinceWarned, pending_is_announced}

abbrev pct : ℕ → String
pct percent = ""

abbrev format_time : ℕ → String
format_time at = "12:00"

abbrev critical_at : ℕ → UpsStatus
critical_at t = record {
  updated = t;
  level = "critical";
  percent = some 8;
  shutdown_at = some 100_000_000_000;
  missing = none;
}

abbrev mains_at : ℕ → UpsStatus
mains_at t = record {
  updated = t;
  level = "on-mains";
  percent = some 90;
  shutdown_at = none;
  missing = none;
}

-- Mains power, then critical, then no file, then the same status, which has become stale.
abbrev looks : List Look
looks =
    (some (critical_at 20_000_000_000), 90_000_000_000)
    ∷ (none, 30_000_000_000)
    ∷ (some (critical_at 20_000_000_000), 20_000_000_000)
    ∷ (some (mains_at 10_000_000_000), 11_000_000_000)
    ∷ []

pending_is_announced_example : PendingSinceWarned pct format_time looks
unfolding observe notice
pending_is_announced_example = pending_is_announced pct format_time looks refl

one_stop : stops pct format_time looks ≡ 1
unfolding observe notice
one_stop = refl

reads_pending :
    interpret (some (critical_at 20_000_000_000)) 30_000_000_000
    ≡ power_off_pending 8 100_000_000_000
unfolding interpret eq_string
reads_pending = refl

reads_mains : interpret (some (mains_at 10_000_000_000)) 5 ≡ current 90 on_mains
unfolding interpret level_of eq_string
reads_mains = refl

reads_stale : interpret (some (mains_at 5)) 60_000_000_006 ≡ stale 60_000_000_001
unfolding interpret eq_string
reads_stale = refl

reads_absent : interpret (some (absence none 5)) 6 ≡ no_ups
unfolding interpret absence eq_string
reads_absent = refl

low_is_battery : source_of "low" ≡ "battery"
unfolding source_of eq_string
low_is_battery = refl
