-- ===== src/Notice.antt =====
-- Notices of scheduled poweroffs (crates/argon-device/src/shutdown_notice.rs, with `Notice` and `Urgency`
-- of crates/argon-device/src/status.rs). Times are nanoseconds.
pub mod Once
mod Examples
use argon_utils.Prelude.{
  ℕ, ◌-◌, Bool, true, false, Option, none, some, leb, String, eq_string, ◌+text◌, if◌then◌else◌,
}

-- 90 seconds.
abbrev pub same : ℕ
same = 90_000_000_000

pub data Urgency : Type 0 where
  normal critical : Urgency

pub record Notice : Type 0 where
  pub urgency : Urgency
  pub text : String

pub data Seen : Type 0 where
  nothing : Seen
  poweroff : ℕ → Option String → Seen
  cannot_tell : Seen

pub record ShutdownWatcher : Type 0 where
  pub known : Option ℕ

abbrev pub new : ShutdownWatcher
new = record { known = none }

-- `duration_since` fails on a later time, and then the other order is tried.
unfoldable pub close : ℕ → ℕ → Bool
close a b = if leb b a then leb (a - b) same else leb (b - a) same

-- `is_some_and(|k| close(k, at))`.
abbrev pub is_close : Option ℕ → ℕ → Bool
is_close none t = false
is_close (some k) t = close k t

abbrev pub is_message : Option String → String → Bool
is_message none m = false
is_message (some s) m = eq_string s m

module _ (hhmm : ℕ → String) (button_message : String) where
  abbrev pub text_of : ℕ → Option String → String
  text_of t message =
      if is_message message button_message
      then "Powering off at "
        +text (hhmm t +text ": the case button was pressed. Press it again to cancel.")
      else "A poweroff is scheduled for " +text (hhmm t +text ". Cancel it with `shutdown -c`.")

  abbrev pub forget : ShutdownWatcher → Option ℕ → ShutdownWatcher × Option Notice
  forget w none = (w, none)
  forget w (some _) = (
    record { known = none },
    some (record { urgency = normal; text = "The scheduled poweroff was cancelled." }),
  )

  unfoldable pub observe : ShutdownWatcher → Seen → Option ℕ → ShutdownWatcher × Option Notice
  observe w cannot_tell ups_shutdown_at = (w, none)
  observe w nothing ups_shutdown_at = forget w w.known
  observe w (poweroff t message) ups_shutdown_at =
      if is_close w.known t
      then (w, none)
      else if is_close ups_shutdown_at t
      then (record { known = some t }, none)
      else (
        record { known = some t },
        some (record { urgency = critical; text = text_of t message }),
      )
