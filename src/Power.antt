-- ===== src/Power.antt =====
-- Acting on shutdown advice (crates/argon-device/src/power.rs): the coordinator that places at most one
-- poweroff and cancels only its own. Times and durations are nanoseconds. The trait `PowerControl`
-- is a record of operations on a state of logind's, which the source's `&mut self` is.
pub mod Logind
pub mod Untouched
pub mod Standing
pub mod Foreign
mod Examples
use argon_utils.Prelude.{
  ℕ, ◌+◌, ◌-◌, ◌≤◌, ◌<◌, Bool, true, false, Option, none, some, Result, ok, err, String, contains,
  leb, if◌then◌else◌,
}
use argon_utils.Policy
use argon_utils.Policy.{Level, Advice, Decision, is_on_mains}

pub record PowerControl (W : Type 0) : Type 0 where
  pub schedule_poweroff : W → ℕ → String → W × Result ℕ String
  pub cancel : W → W × Result (Unit {0}) String
  pub pending : W → W × Result (Option ℕ) String
  pub wall_message : W → W × Result (Option String) String

-- `Action::None` is `nothing`.
pub data Action : Type 0 where
  nothing : Action
  scheduled : ℕ → Action
  adopted : ℕ → Action
  already_pending : ℕ → Action
  cancelled : Action
  overridden_by_operator : Action
  would_schedule : Action
  would_cancel : Action
  failed : String → Action

pub data Pending : Type 0 where
  nothing : Pending
  at : ℕ → Pending
  unknown : Pending

-- 90 seconds.
abbrev pub same_shutdown_tolerance : ℕ
same_shutdown_tolerance = 90_000_000_000

-- `duration_since` fails on a later time, and then the other order is tried.
unfoldable pub same_shutdown : ℕ → ℕ → Bool
same_shutdown a b =
    if leb b a then leb (a - b) same_shutdown_tolerance else leb (b - a) same_shutdown_tolerance

abbrev pub shutdown_message : String
shutdown_message =
    "UPS battery critical: powering off to protect the filesystem. Restore mains power to cancel."

pub record ShutdownCoordinator (W : Type 0) : Type 0 where
  pub power : W
  pub delay : ℕ
  pub dry_run : Bool
  pub ours : Option ℕ
  pub dry_pending : Option ℕ
  pub stood_down : Bool

abbrev pub new : {W : Type 0} → W → ℕ → Bool → ShutdownCoordinator W
new power delay dry_run = record {
  power = power;
  delay = delay;
  dry_run = dry_run;
  ours = none;
  dry_pending = none;
  stood_down = false;
}

-- The kind of decision that the match of `on_decision` tells apart.
pub data Kind : Type 0 where
  advises recovers holds : Kind

abbrev pub mains_kind : Level → Bool → Kind
mains_kind level confirmed =
    if is_on_mains level then (if confirmed then recovers else holds) else holds

abbrev pub kind_of : Advice → Level → Bool → Kind
kind_of Advice.shutdown level confirmed = advises
kind_of Advice.nothing level confirmed = mains_kind level confirmed
kind_of (Advice.held_for_uptime _) level confirmed = mains_kind level confirmed

unfoldable pub kind : Decision → Kind
kind d = kind_of d.advice d.level d.confirmed_recovery

module _ {W : Type 0} (p : PowerControl W) where
  abbrev pub read_pending : Result (Option ℕ) String → Pending
  read_pending (ok (some t)) = Pending.at t
  read_pending (ok none) = Pending.nothing
  read_pending (err _) = Pending.unknown

  abbrev pub is_our_message : Result (Option String) String → Bool
  is_our_message (ok (some m)) = contains m shutdown_message
  is_our_message (ok none) = false
  is_our_message (err _) = false

  -- `advised` with a poweroff of ours on record, at `mine`.
  abbrev pub check_ours : ShutdownCoordinator W → ℕ → Pending → ShutdownCoordinator W × Action
  check_ours c mine (Pending.at t) =
      if same_shutdown mine t
      then (c, Action.nothing)
      else (record c { ours = none; stood_down = true }, already_pending t)
  check_ours c mine Pending.nothing =
      (record c { ours = none; stood_down = true }, overridden_by_operator)
  check_ours c mine Pending.unknown = (c, Action.nothing)

  abbrev pub placed : ShutdownCoordinator W → Result ℕ String → ShutdownCoordinator W × Action
  placed c (ok t) = (record c { ours = some t }, scheduled t)
  placed c (err e) = (c, failed e)

  abbrev pub place : ShutdownCoordinator W → ShutdownCoordinator W × Action
  place c =
      let (w, answer) = p.schedule_poweroff c.power c.delay shutdown_message in
      placed (record c { power = w }) answer

  abbrev pub adopt : ShutdownCoordinator W → ℕ → ShutdownCoordinator W × Action
  adopt c t =
      let (w, message) = p.wall_message c.power in
      if is_our_message message
      then (record c { power = w; ours = some t }, adopted t)
      else (record c { power = w }, already_pending t)

  -- `advised` with no poweroff of ours on record.
  abbrev pub place_or_adopt : ShutdownCoordinator W → Pending → ShutdownCoordinator W × Action
  place_or_adopt c (Pending.at t) = adopt c t
  place_or_adopt c Pending.nothing = place c
  place_or_adopt c Pending.unknown = place c

  abbrev pub advised_dry : ShutdownCoordinator W → Option ℕ → ℕ → ShutdownCoordinator W × Action
  advised_dry c (some _) now = (c, Action.nothing)
  advised_dry c none now = (record c { dry_pending = some (now + c.delay) }, would_schedule)

  abbrev pub advised_real : ShutdownCoordinator W → Option ℕ → ShutdownCoordinator W × Action
  advised_real c (some mine) =
      let (w, answer) = p.pending c.power in
      check_ours (record c { power = w }) mine (read_pending answer)
  advised_real c none =
      let (w, answer) = p.pending c.power in
      place_or_adopt (record c { power = w }) (read_pending answer)

  unfoldable pub advised : ShutdownCoordinator W → ℕ → ShutdownCoordinator W × Action
  advised c now =
      if c.stood_down
      then (c, Action.nothing)
      else if c.dry_run
      then advised_dry c c.dry_pending now
      else advised_real c c.ours

  abbrev pub recovered_dry : ShutdownCoordinator W → Option ℕ → ShutdownCoordinator W × Action
  recovered_dry c (some _) = (record c { dry_pending = none }, would_cancel)
  recovered_dry c none = (c, Action.nothing)

  abbrev pub cancel_answer :
      ShutdownCoordinator W → Result (Unit {0}) String → ShutdownCoordinator W × Action
  cancel_answer c (ok _) = (record c { ours = none }, cancelled)
  cancel_answer c (err e) = (c, failed e)

  abbrev pub cancel_ours : ShutdownCoordinator W → ShutdownCoordinator W × Action
  cancel_ours c =
      let (w, answer) = p.cancel c.power in cancel_answer (record c { power = w }) answer

  abbrev pub cancel_if_ours : ShutdownCoordinator W → ℕ → Pending → ShutdownCoordinator W × Action
  cancel_if_ours c mine (Pending.at t) =
      if same_shutdown mine t then cancel_ours c else (record c { ours = none }, Action.nothing)
  cancel_if_ours c mine Pending.nothing = cancel_ours c
  cancel_if_ours c mine Pending.unknown = cancel_ours c

  abbrev pub recovered_real : ShutdownCoordinator W → Option ℕ → ShutdownCoordinator W × Action
  recovered_real c none = (c, Action.nothing)
  recovered_real c (some mine) =
      let (w, answer) = p.pending c.power in
      cancel_if_ours (record c { power = w }) mine (read_pending answer)

  unfoldable pub recovered : ShutdownCoordinator W → ShutdownCoordinator W × Action
  recovered c =
      let d = record c { stood_down = false } in
      if d.dry_run then recovered_dry d d.dry_pending else recovered_real d d.ours

  abbrev pub holding : ShutdownCoordinator W → ShutdownCoordinator W × Action
  holding c = (c, Action.nothing)

  abbrev pub act : Kind → ShutdownCoordinator W → ℕ → ShutdownCoordinator W × Action
  act advises c now = advised c now
  act recovers c now = recovered c
  act holds c now = holding c

  -- `now` is what `SystemTime::now()` returns during the call.
  unfoldable pub on_decision : ShutdownCoordinator W → Decision → ℕ → ShutdownCoordinator W × Action
  unfolding advised recovered kind
  on_decision c d now = act (kind d) c now
