-- ===== src/Policy/Hysteresis.antt =====
-- The margin that keeps a level from flapping, and the report of its changes.
use argon_utils.Prelude.{ℕ, ◌+◌, ◌-◌, ◌≤◌, ◌<◌, ◌≡◌, ◌≢◌, ◌⊎◌, ◌↔◌, min, Option, none, some, arith}
use argon_utils.Battery.{battery}
use argon_utils.Policy.{
  BatteryPolicy, Observation, Level, low, critical, nothing, shutdown, held_for_uptime, observe,
}
use argon_utils.Policy.Streaks.{IsValid}

abbrev pub severity : Level → ℕ
severity critical = 2
severity low = 1
severity _ = 0

-- On a supply that stays on battery, a level that steps up and is then taken back needs two
-- readings that are at least `recover_margin` apart.
pub no_flapping :
    (p : BatteryPolicy) (a b : Observation) (u w : ℕ)
    → IsValid p.config
    → a.source ≡ battery
    → b.source ≡ battery
    → let (q, first) = observe p (some a) u in
      severity first.level < severity p.known
      → severity p.known ≤ severity (observe q (some b) w).1.level
      → min b.percent 100 + p.config.recover_margin ≤ min a.percent 100
unfolding observe
no_flapping p a b u w v ab bb up down = ground arith

-- The advice on every poll: none unless the level is critical, then a hold with the time that is
-- left of `min_uptime`, and a shutdown from `min_uptime` on.
pub advice_cases :
    (p : BatteryPolicy) (o : Option Observation) (u : ℕ)
    → let d = (observe p o u).1 in
      ((d.level ≢ critical) × (d.advice ≡ nothing))
      ⊎ ((d.level ≡ critical)
          × (u < p.config.min_uptime)
          × (d.advice ≡ held_for_uptime (p.config.min_uptime - u)))
      ⊎ ((d.level ≡ critical) × (p.config.min_uptime ≤ u) × (d.advice ≡ shutdown))
unfolding observe
advice_cases p o u = ground arith

-- A change is reported on exactly the polls whose level differs from the last one reported, with
-- that one; and the level of a decision is the one reported next.
pub changes_are_reported :
    (p : BatteryPolicy) (o : Option Observation) (u : ℕ)
    → let (q, d) = observe p o u in
      (q.reported ≡ d.level)
      × ((d.changed_from ≡ none) ↔ (d.level ≡ p.reported))
      × ((d.changed_from ≡ some p.reported) ↔ (d.level ≢ p.reported))
unfolding observe
changes_are_reported p o u = ground arith
