-- ===== src/ButtonThread.antt =====
-- The thread that watches the power button (crates/argon-daemon/src/button.rs), with what
-- crates/argon-device/src/button.rs has logind told. Times are nanoseconds; the edges of the line are
-- what the waits return.
pub mod Standing
pub mod Own
pub mod WatchOnly
mod Examples
use argon_utils.Prelude.{
  ℕ, ◌-◌, Bool, true, false, not, Option, none, some, List, [], ◌∷◌, Result, ok, err, String,
  eq_string, if◌then◌else◌,
}
use argon_utils.Button
use argon_utils.Button.{Button, Action, is_press, press, placed, cancelled}
use argon_utils.Power.{PowerControl}

-- `DELAY`, 60 seconds.
abbrev pub delay : ℕ
delay = 60_000_000_000

-- `MESSAGE`.
abbrev pub message : String
message = "The Argon case button was pressed: powering off in one minute. Press it again to cancel."

pub data Edge : Type 0 where
  up down : Edge

-- What a wait for an edge returns.
pub data Wait : Type 0 where
  edge : Edge → ℕ → Wait
  timed_out failed : Wait

-- The variables of `run`.
pub record Thread (P : Type 0) : Type 0 where
  pub button : Button
  pub power : P
  pub rising : Option ℕ

abbrev pub pending_of : Result (Option ℕ) String → Button.Pending
pending_of (ok none) = Button.nothing
pending_of (ok (some t)) = Button.at t
pending_of (err _) = Button.Pending.cannot_tell

abbrev pub is_message : Result (Option String) String → Bool
is_message (ok none) = false
is_message (ok (some m)) = eq_string m message
is_message (err _) = false

module _ {P : Type 0} (power : PowerControl P) where
  -- On the button and logind.
  unfoldable pub recognise : Button × P → Button.Pending → Button × P
  recognise (b, w) Button.nothing = (b, w)
  recognise (b, w) Button.Pending.cannot_tell = (b, w)
  recognise (b, w) (Button.at t) =
      let (w', r) = power.wall_message w in ((if is_message r then placed b t else b), w')

  abbrev pub answer_placed : Button → P × Result ℕ String → Button × P
  answer_placed b (w, ok t) = (placed b t, w)
  answer_placed b (w, err _) = (b, w)

  abbrev pub answer_cancelled : Button → P × Result (Unit {0}) String → Button × P
  answer_cancelled b (w, ok _) = (cancelled b, w)
  answer_cancelled b (w, err _) = (b, w)

  abbrev pub carry_out : Button × Action → P → Bool → Button × P
  carry_out (b, Button.schedule) w full =
      if not full then (b, w) else answer_placed b (power.schedule_poweroff w delay message)
  carry_out (b, Button.cancel) w full = answer_cancelled b (power.cancel w)
  carry_out (b, Button.ignore _) w full = (b, w)

  unfoldable pub act : Button × P → ℕ → Button.Pending → Bool → Button × P
  act (b, w) now pending full = carry_out (press b now pending) w full

  -- A press that was seen: what follows the test of the pulse's width.
  unfoldable pub pressed : Button × P → ℕ → Bool → Button × P
  pressed (b, w) now full =
      let (w', r) = power.pending w in
      let pending = pending_of r in act (recognise (b, w') pending) now pending full

  abbrev pub fell : Thread P → Option ℕ → ℕ → Bool → Thread P
  fell th none now full = th
  fell th (some start) now full =
      if not (is_press (now - start))
      then record th { rising = none }
      else (let (b, w) = pressed (th.button, th.power) now full in
          record { button = b; power = w; rising = none })

  abbrev pub on_edge : Thread P → Edge → ℕ → Bool → Thread P
  on_edge th up now full = record th { rising = some now }
  on_edge th down now full = fell th th.rising now full

  -- A wait that fails ends the thread.
  unfoldable pub run : Thread P → List Wait → Bool → Thread P
  run th [] full = th
  run th (edge e now ∷ waits) full = run (on_edge th e now full) waits full
  run th (timed_out ∷ waits) full = run th waits full
  run th (failed ∷ waits) full = th

abbrev pub start : {P : Type 0} → P → Thread P
start w = record { button = Button.new true; power = w; rising = none }
