-- ===== src/Policy/Streaks.antt =====
-- The streaks of the policy against the history of polls that led to them.
use argon_utils.Prelude.{
  ℕ, suc, ◌≤◌, ◌<◌, ◌≡◌, refl, ◌↔◌, min, true, Option, none, some, List, [], ◌∷◌, arith,
  if◌then◌else◌,
}
use argon_utils.Battery.{is_mains}
use argon_utils.Policy.{
  PolicyConfig, Poll, BatteryPolicy, Observation, fresh, observe, after, decide,
}

pub record IsValid (c : PolicyConfig) : Type 0 where
  pub low_in_range : c.low_percent ≤ 100
  pub critical_below : c.critical_percent < c.low_percent
  pub confirms : 0 < c.confirmations
  pub margin : 0 < c.recover_margin

-- Consecutive readings that show mains, up to the newest poll.
abbrev pub mains_run : List Poll → ℕ
mains_run [] = 0
mains_run ((none, _) ∷ _) = 0
mains_run ((some o, _) ∷ earlier) = if is_mains o.source then suc (mains_run earlier) else 0

pub config-after : (p : BatteryPolicy) (h : List Poll) → (after p h).config ≡ p.config
unfolding after observe
config-after p [] = refl
config-after p ((none, u) ∷ h) = config-after p h
config-after p ((some o, u) ∷ h) = ground (arith, config-after p h)

mains_streak-observe :
    (p : BatteryPolicy) (o : Option Observation) (u : ℕ) (h : List Poll)
    → p.mains_streak ≡ min (mains_run h) 255
    → (observe p o u).0.mains_streak ≡ min (mains_run ((o, u) ∷ h)) 255
unfolding observe
mains_streak-observe p o u h e = ground arith

pub mains_streak-after :
    (c : PolicyConfig) (h : List Poll) → (after (fresh c) h).mains_streak ≡ min (mains_run h) 255
unfolding after
mains_streak-after c [] = refl
mains_streak-after c ((o, u) ∷ h) =
    mains_streak-observe (after (fresh c) h) o u h (mains_streak-after c h)

confirmed-observe :
    (c : PolicyConfig) (p : BatteryPolicy) (o : Option Observation) (u : ℕ) (h : List Poll)
    → IsValid c
    → c.confirmations < 256
    → p.config ≡ c
    → p.mains_streak ≡ min (mains_run h) 255
    → ((observe p o u).1.confirmed_recovery ≡ true) ↔ (c.confirmations ≤ mains_run ((o, u) ∷ h))
unfolding observe
confirmed-observe c p none u h v b e m = ground arith
confirmed-observe c p (some o) u h v b e m = ground arith

-- A recovery is reported as confirmed exactly when the newest `confirmations` polls all read mains,
-- after any history of polls from a new policy of a valid configuration.
pub confirmed_recovery_iff :
    (c : PolicyConfig) (h : List Poll) (o : Option Observation) (u : ℕ)
    → IsValid c
    → c.confirmations < 256
    → ((decide (fresh c) h o u).confirmed_recovery ≡ true)
      ↔ (c.confirmations ≤ mains_run ((o, u) ∷ h))
confirmed_recovery_iff c h o u v b =
    confirmed-observe c (after (fresh c) h) o u h v b (config-after (fresh c) h)
      (mains_streak-after c h)
