-- ===== src/Policy.antt =====
-- The battery policy (crates/argon-proto/src/ups/policy.rs). `observe` and `classify` take the
-- policy and return it changed, beside their result. A u8 is a number below 256 and a `Duration` a
-- number of nanoseconds. The u16 sums of `clears` cannot overflow.
pub mod Streaks
pub mod Confirmed
pub mod Hysteresis
mod Examples
use argon_utils.Prelude.{
  ℕ, zero, suc, ◌+◌, ◌-◌, ◌≤◌, ◌<◌, min, Bool, true, false, not, ◌&&◌, ◌||◌, Option, none, some,
  List, [], ◌∷◌, Result, ok, err, ltb, leb, ◌==◌, if◌then◌else◌,
}
use argon_utils.Battery.{PowerSource, is_mains}

pub record Observation : Type 0 where
  pub percent : ℕ
  pub source : PowerSource

pub data Level : Type 0 where
  on_mains on_battery low critical unknown : Level

-- `Advice::None` is `nothing`.
pub data Advice : Type 0 where
  nothing : Advice
  shutdown : Advice
  held_for_uptime : ℕ → Advice

pub record Decision : Type 0 where
  pub level : Level
  pub changed_from : Option Level
  pub advice : Advice
  pub confirmed_recovery : Bool

pub record PolicyConfig : Type 0 where
  pub low_percent : ℕ
  pub critical_percent : ℕ
  pub recover_margin : ℕ
  pub confirmations : ℕ
  pub min_uptime : ℕ

-- `PolicyConfig::default`; 120 seconds.
abbrev pub default_config : PolicyConfig
default_config = record {
  low_percent = 20;
  critical_percent = 10;
  recover_margin = 5;
  confirmations = 2;
  min_uptime = 120_000_000_000;
}

pub data PolicyError : Type 0 where
  critical_not_below_low out_of_range no_confirmations no_margin : PolicyError

unfoldable pub validate : PolicyConfig → Result (Unit {0}) PolicyError
validate c =
    if ltb 100 c.low_percent || ltb 100 c.critical_percent
    then err out_of_range
    else if leb c.low_percent c.critical_percent
    then err critical_not_below_low
    else if c.confirmations == 0
    then err no_confirmations
    else if c.recover_margin == 0
    then err no_margin
    else ok tt

pub record BatteryPolicy : Type 0 where
  pub config : PolicyConfig
  pub known : Level
  pub critical_streak : ℕ
  pub mains_streak : ℕ
  pub reported : Level

-- The policy that `new` returns for a valid configuration.
abbrev pub fresh : PolicyConfig → BatteryPolicy
fresh c = record {
  config = c;
  known = unknown;
  critical_streak = 0;
  mains_streak = 0;
  reported = unknown;
}

unfoldable pub new : PolicyConfig → Result BatteryPolicy PolicyError
new c = elim (validate c) [ ok _ ↦ ok (fresh c) | err e ↦ err e ]

-- `==` of the derived `PartialEq`.
unfoldable pub level_eq : Level → Level → Bool
level_eq on_mains on_mains = true
level_eq on_battery on_battery = true
level_eq low low = true
level_eq critical critical = true
level_eq unknown unknown = true
level_eq _ _ = false

abbrev pub is_critical : Level → Bool
is_critical critical = true
is_critical _ = false

abbrev pub is_low : Level → Bool
is_low low = true
is_low _ = false

abbrev pub is_on_mains : Level → Bool
is_on_mains on_mains = true
is_on_mains _ = false

-- `u8::saturating_add(1)`.
abbrev pub bump : ℕ → ℕ
bump n = min (n + 1) 255

abbrev pub clears : PolicyConfig → ℕ → ℕ → Bool
clears c percent threshold = leb (threshold + c.recover_margin) percent

-- `Critical` once the streak is long enough, else `Low`.
abbrev pub confirm : BatteryPolicy → Level
confirm p = if leb p.config.confirmations p.critical_streak then critical else low

-- The part of `classify` after the two streaks are brought up to date.
unfoldable pub settle : BatteryPolicy → ℕ → Level
settle p percent =
    if is_critical p.known && not (clears p.config percent p.config.critical_percent)
    then critical
    else if (is_critical p.known || is_low p.known)
        && not (clears p.config percent p.config.low_percent)
    then confirm p
    else if leb percent p.config.critical_percent
    then confirm p
    else if leb percent p.config.low_percent
    then low
    else on_battery

abbrev pub count_critical : BatteryPolicy → ℕ → ℕ
count_critical p percent =
    if leb percent p.config.critical_percent then bump p.critical_streak else 0

abbrev pub settle_after : BatteryPolicy → ℕ → BatteryPolicy × Level
settle_after p percent = (p, settle p percent)

unfoldable pub classify : BatteryPolicy → Observation → BatteryPolicy × Level
unfolding settle
classify p o =
    let percent = min o.percent 100 in
    let streak = bump p.mains_streak in
    if is_mains o.source
    then (
      record p {
        mains_streak = streak;
        critical_streak = if leb p.config.confirmations streak then 0 else p.critical_streak;
      },
      on_mains,
    )
    else settle_after (record p { mains_streak = 0; critical_streak = count_critical p percent })
        percent

-- What `observe` does for a failed read.
abbrev pub on_gap : BatteryPolicy → BatteryPolicy
on_gap p = record p {
  critical_streak = 0;
  mains_streak = 0;
  known = if is_critical p.known then low else p.known;
}

-- The policy after the reading is taken in, and its level; `reported` is not set yet.
unfoldable pub take_in : BatteryPolicy → Option Observation → BatteryPolicy × Level
unfolding classify
take_in p none = (on_gap p, unknown)
take_in p (some o) = let (q, level) = classify p o in (record q { known = level }, level)

-- `min_uptime.checked_sub(uptime)`, a zero remainder counting as none.
unfoldable pub advise : Level → ℕ → ℕ → Advice
advise level min_uptime uptime =
    if is_critical level
    then (if leb uptime min_uptime && ltb 0 (min_uptime - uptime)
        then held_for_uptime (min_uptime - uptime)
        else shutdown)
    else nothing

unfoldable pub observe : BatteryPolicy → Option Observation → ℕ → BatteryPolicy × Decision
unfolding take_in advise level_eq
observe p observation uptime =
    let (q, level) = take_in p observation in
    (
      record q { reported = level },
      record {
        level = level;
        changed_from = if level_eq level p.reported then none else some p.reported;
        advice = advise level q.config.min_uptime uptime;
        confirmed_recovery = is_on_mains level && leb q.config.confirmations q.mains_streak;
      },
    )

-- A poll: what was read and the uptime at that time. The newest poll is the head of a history.
abbrev pub Poll : Type 0
Poll = Option Observation × ℕ

-- The policy after a history of polls.
unfoldable pub after : BatteryPolicy → List Poll → BatteryPolicy
after p [] = p
after p ((o, uptime) ∷ earlier) = (observe (after p earlier) o uptime).0

-- The decision on a poll that follows a history.
abbrev pub decide : BatteryPolicy → List Poll → Option Observation → ℕ → Decision
decide p earlier o uptime = (observe (after p earlier) o uptime).1
