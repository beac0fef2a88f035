-- ===== src/Button.antt =====
-- The case's power button (crates/argon-device/src/button.rs): a press places a poweroff, a second one
-- cancels it. Times are nanoseconds; `armed` is read from the configuration.
pub mod Presses
mod Examples
use argon_utils.Prelude.{
  ℕ, ◌-◌, ◌&&◌, Bool, true, false, not, Option, none, some, leb, ltb, ◌==◌, if◌then◌else◌,
}

-- 10 ms and 40 ms.
abbrev pub pulse_min : ℕ
pulse_min = 10_000_000

abbrev pub pulse_max : ℕ
pulse_max = 40_000_000

-- One second.
abbrev pub min_gap : ℕ
min_gap = 1_000_000_000

unfoldable pub is_press : ℕ → Bool
is_press width = leb pulse_min width && leb width pulse_max

pub data Pending : Type 0 where
  nothing : Pending
  at : ℕ → Pending
  cannot_tell : Pending

pub data Why : Type 0 where
  not_configured bounce someone_elses cannot_tell : Why

pub data Action : Type 0 where
  schedule cancel : Action
  ignore : Why → Action

pub record Button : Type 0 where
  pub armed : Bool
  pub ours : Option ℕ
  pub last : Option ℕ

abbrev pub new : Bool → Button
new armed = record { armed = armed; ours = none; last = none }

-- `self.ours == Some(at)`.
abbrev pub owns : Option ℕ → ℕ → Bool
owns none t = false
owns (some mine) t = mine == t

-- `self.last.is_some_and(...)`.
abbrev pub bounces : Option ℕ → ℕ → Bool
bounces none now = false
bounces (some l) now = ltb (now - l) min_gap

abbrev pub decide : Button → Pending → Button × Action
decide b Pending.cannot_tell = (b, ignore Why.cannot_tell)
decide b (Pending.at t) =
    if owns b.ours t then (b, cancel) else (record b { ours = none }, ignore someone_elses)
decide b Pending.nothing = (record b { ours = none }, schedule)

unfoldable pub press : Button → ℕ → Pending → Button × Action
press b now pending =
    if not b.armed
    then (b, ignore not_configured)
    else if bounces b.last now
    then (b, ignore bounce)
    else decide (record b { last = some now }) pending

unfoldable pub placed : Button → ℕ → Button
placed b t = record b { ours = some t }

unfoldable pub cancelled : Button → Button
cancelled b = record b { ours = none }
