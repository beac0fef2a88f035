-- ===== src/Lid.antt =====
-- The laptop lid (crates/argon-device/src/lid.rs): what closing and opening it ask for. Times and
-- durations are nanoseconds.
pub mod Environment
pub mod Shutdown
mod Examples
use argon_utils.Prelude.{
  ℕ, ◌+◌, ◌*◌, ◌&&◌, Bool, true, false, not, Option, none, some, List, [], ◌∷◌, ◌++◌, leb, String,
  eq_string, if◌then◌else◌,
}

pub data Effect : Type 0 where
  screen_off screen_on radios_off radios_restore : Effect
  cpu_cap : Bool → Effect
  shutdown_alert : ℕ → Effect
  shutdown_cancelled power_off : Effect

pub data Action : Type 0 where
  power_save shutdown : Action

pub record Saving : Type 0 where
  pub radios : Bool
  pub cpu : Bool

-- `LidConfig` of the configuration (crates/argon-device/src/config.rs).
pub record LidConfig : Type 0 where
  pub action : String
  pub radios_off : Bool
  pub cpu_throttle : Bool
  pub shutdown_delay_s : ℕ

pub record Lid : Type 0 where
  pub action : Action
  pub radios_off : Bool
  pub cpu_throttle : Bool
  pub delay : ℕ
  pub closed : Option Bool
  pub saving : Option Saving
  pub shutdown_at : Option ℕ
  pub powering_off : Bool

unfoldable pub new : LidConfig → Lid
new config = record {
  action = if eq_string config.action "shutdown" then shutdown else power_save;
  radios_off = config.radios_off;
  cpu_throttle = config.cpu_throttle;
  delay = config.shutdown_delay_s * 1_000_000_000;
  closed = none;
  saving = none;
  shutdown_at = none;
  powering_off = false;
}

-- `if c { out.push(e) }`.
abbrev pub push_if : Bool → Effect → List Effect → List Effect
push_if c e out = if c then out ++ (e ∷ []) else out

unfoldable pub undo : Saving → List Effect
undo saving =
    push_if saving.cpu (cpu_cap false) (push_if saving.radios radios_restore (screen_on ∷ []))

abbrev pub close_to : Lid → Action → ℕ → Lid × List Effect
close_to lid power_save now =
    let saving : Saving = record { radios = lid.radios_off; cpu = lid.cpu_throttle } in
    (
      record lid { saving = some saving },
      push_if saving.cpu (cpu_cap true) (push_if saving.radios Effect.radios_off (screen_off ∷ [])),
    )
close_to lid shutdown now =
    if lid.powering_off
    then (lid, [])
    else (record lid { shutdown_at = some (now + lid.delay) }, shutdown_alert lid.delay ∷ [])

unfoldable pub on_close : Lid → ℕ → Lid × List Effect
on_close lid now = close_to lid lid.action now

-- The two `take`s of `on_open`: what each adds.
abbrev pub wake_screen : Option Saving → List Effect
wake_screen none = screen_on ∷ []
wake_screen (some saving) = undo saving

abbrev pub call_off : Option ℕ → List Effect → List Effect
call_off none out = out
call_off (some _) out = out ++ (shutdown_cancelled ∷ [])

unfoldable pub on_open : Lid → Lid × List Effect
on_open lid = (
  record lid { saving = none; shutdown_at = none },
  call_off lid.shutdown_at (wake_screen lid.saving),
)

abbrev pub change : Lid → Option Bool → Bool → ℕ → Lid × List Effect
change lid (some false) true now = on_close lid now
change lid (some true) false now = on_open lid
change lid (some false) false now = (lid, [])
change lid (some true) true now = (lid, [])
change lid none closed now = (lid, [])

unfoldable pub report : Lid → Bool → ℕ → Lid × List Effect
report lid closed now = change (record lid { closed = some closed }) lid.closed closed now

-- `self.closed == Some(true)`.
abbrev pub is_closed : Option Bool → Bool
is_closed none = false
is_closed (some closed) = closed

abbrev pub tick_at : Lid → Option ℕ → ℕ → Lid × List Effect
tick_at lid none now = (lid, [])
tick_at lid (some at) now =
    if leb at now && (is_closed lid.closed && not lid.powering_off)
    then (record lid { shutdown_at = none; powering_off = true }, power_off ∷ [])
    else (lid, [])

unfoldable pub tick : Lid → ℕ → Lid × List Effect
tick lid now = tick_at lid lid.shutdown_at now

abbrev pub undo_all : Option Saving → List Effect
undo_all none = []
undo_all (some saving) = undo saving

unfoldable pub restore_all : Lid → Lid × List Effect
restore_all lid = (record lid { saving = none; shutdown_at = none }, undo_all lid.saving)
