-- ===== src/Policy/Confirmed.antt =====
-- When the policy advises a shutdown, and that it does so.
use argon_utils.Prelude.{
  ℕ, suc, ◌+◌, ◌≤◌, ◌<◌, ◌≡◌, refl, ◌↔◌, min, Option, none, some, List, [], ◌∷◌, arith, Bool, not,
  ◌&&◌, ok, leb, if◌then◌else◌,
}
use argon_utils.Battery.{battery, is_mains}
use argon_utils.Policy.{
  PolicyConfig, Poll, BatteryPolicy, Observation, critical, shutdown, fresh, observe, after, decide,
  validate, new,
}
use argon_utils.Policy.Streaks.{IsValid}

-- `new` accepts exactly the configurations with thresholds at most 100, the critical one below the
-- low one, and at least one confirmation and a margin of at least one; it returns the fresh policy.
pub new_iff : (c : PolicyConfig) → (new c ≡ ok (fresh c)) ↔ IsValid c
unfolding new validate
new_iff c = ground arith

abbrev pub reads_critical : PolicyConfig → Observation → Bool
reads_critical c o = not (is_mains o.source) && leb (min o.percent 100) c.critical_percent

-- How many readings on battery were at or below the critical threshold since the last failed read.
abbrev pub critical_since_gap : PolicyConfig → List Poll → ℕ
critical_since_gap c [] = 0
critical_since_gap c ((none, _) ∷ _) = 0
critical_since_gap c ((some o, _) ∷ earlier) =
    (if reads_critical c o then 1 else 0) + critical_since_gap c earlier

record Justified (c : PolicyConfig) (p : BatteryPolicy) (n : ℕ) : Type 0 where
  same_config : p.config ≡ c
  streak_counted : p.critical_streak ≤ n
  critical_confirmed : p.known ≡ critical → c.confirmations ≤ n

Justified-observe :
    (c : PolicyConfig) (p : BatteryPolicy) (o : Option Observation) (u : ℕ) (h : List Poll)
    → Justified c p (critical_since_gap c h)
    → Justified c (observe p o u).0 (critical_since_gap c ((o, u) ∷ h))
unfolding observe
Justified-observe c p none u h j = ground arith
Justified-observe c p (some o) u h j = ground arith

Justified-after :
    (c : PolicyConfig) (h : List Poll) → Justified c (after (fresh c) h) (critical_since_gap c h)
unfolding after
Justified-after c [] = ground arith
Justified-after c ((o, u) ∷ h) = Justified-observe c (after (fresh c) h) o u h (Justified-after c h)

-- What a decision to shut down rests on: a fresh reading on battery below the threshold plus the
-- margin, an uptime past the hold, and `confirmations` critical readings with no gap after them.
pub record Evidence (c : PolicyConfig) (h : List Poll) (o : Observation) (u : ℕ) : Type 0 where
  pub on_battery : o.source ≡ battery
  pub charge : min o.percent 100 < c.critical_percent + c.recover_margin
  pub uptime : c.min_uptime ≤ u
  pub confirmed : c.confirmations ≤ critical_since_gap c ((some o, u) ∷ h)

Evidence-observe :
    (c : PolicyConfig) (p : BatteryPolicy) (o : Option Observation) (u : ℕ) (h : List Poll)
    → IsValid c
    → Justified c p (critical_since_gap c h)
    → (observe p o u).1.advice ≡ shutdown
    → (r : Observation) × (o ≡ some r) × Evidence c h r u
unfolding observe
Evidence-observe c p none u h v j e = ground arith
Evidence-observe c p (some o) u h v j e = (o, refl, ground arith)

-- After any history of polls, a shutdown is advised only on a fresh battery reading below the
-- critical threshold plus the margin, once the machine has been up for `min_uptime`, and only if at
-- least `confirmations` critical battery readings were taken since the last failed read.
pub shutdown-Evidence :
    (c : PolicyConfig) (h : List Poll) (o : Option Observation) (u : ℕ)
    → IsValid c
    → (decide (fresh c) h o u).advice ≡ shutdown
    → (r : Observation) × (o ≡ some r) × Evidence c h r u
shutdown-Evidence c h o u v e =
    Evidence-observe c (after (fresh c) h) o u h v (Justified-after c h) e

-- Consecutive critical readings, up to the newest poll.
abbrev pub critical_run : PolicyConfig → List Poll → ℕ
critical_run c [] = 0
critical_run c ((none, _) ∷ _) = 0
critical_run c ((some o, _) ∷ earlier) =
    if reads_critical c o then suc (critical_run c earlier) else 0

record Tracks (c : PolicyConfig) (p : BatteryPolicy) (n : ℕ) : Type 0 where
  same : p.config ≡ c
  streak_kept : min n 255 ≤ p.critical_streak

Tracks-observe :
    (c : PolicyConfig) (p : BatteryPolicy) (o : Option Observation) (u : ℕ) (h : List Poll)
    → Tracks c p (critical_run c h)
    → Tracks c (observe p o u).0 (critical_run c ((o, u) ∷ h))
unfolding observe
Tracks-observe c p none u h t = ground arith
Tracks-observe c p (some o) u h t = ground arith

Tracks-after : (c : PolicyConfig) (h : List Poll) → Tracks c (after (fresh c) h) (critical_run c h)
unfolding after
Tracks-after c [] = ground arith
Tracks-after c ((o, u) ∷ h) = Tracks-observe c (after (fresh c) h) o u h (Tracks-after c h)

shutdown-observe :
    (c : PolicyConfig) (p : BatteryPolicy) (o : Observation) (u : ℕ) (h : List Poll)
    → IsValid c
    → c.confirmations < 256
    → Tracks c p (critical_run c h)
    → c.confirmations ≤ critical_run c ((some o, u) ∷ h)
    → c.min_uptime ≤ u
    → (observe p (some o) u).1.advice ≡ shutdown
unfolding observe
shutdown-observe c p o u h v b t enough up = ground arith

-- Whatever came before them, `confirmations` critical readings in a row make every poll advise the
-- shutdown once the machine has been up for `min_uptime`: no missed transition can prevent it.
pub confirmed_critical_shuts_down :
    (c : PolicyConfig) (h : List Poll) (o : Observation) (u : ℕ)
    → IsValid c
    → c.confirmations < 256
    → c.confirmations ≤ critical_run c ((some o, u) ∷ h)
    → c.min_uptime ≤ u
    → (decide (fresh c) h (some o) u).advice ≡ shutdown
confirmed_critical_shuts_down c h o u v b enough up =
    shutdown-observe c (after (fresh c) h) o u h v b (Tracks-after c h) enough up
