-- ===== src/ButtonThread/Own.antt =====
-- What the button's thread does to a poweroff with the button's message.
use argon_utils.Prelude.{
  ℕ, ◌≡◌, ◌⊎◌, inl, inr, refl, Bool, true, false, none, some, Result-cases, ok, err, String,
  eq_string, eq_string_iff, arith,
}
use argon_utils.Button
use argon_utils.Button.{Button, Action, is_press, press, placed, cancelled, bounces}
use argon_utils.Power.{PowerControl}
use argon_utils.Power.Logind.{IsLogind, Standing}
use argon_utils.ButtonThread.{message, recognise, act, pressed, carry_out}

message_is_message : eq_string message message ≡ true
message_is_message = (eq_string_iff message message).1 refl

owned-cancel :
    (b : Button) (now t : ℕ)
    → b.armed ≡ true
    → bounces b.last now ≡ false
    → (press (placed b t) now (Button.at t)).1 ≡ Button.cancel
unfolding press placed
owned-cancel b now t a n = ground arith

module _ {P : Type 0} (power : PowerControl P) (standing : P → Standing)
    (laws : IsLogind power standing) where
  -- How a press that asks for a cancellation ends: it is gone and no longer claimed, or logind
  -- refused and it stands.
  abbrev pub Called : Standing → Button × P → Type 0
  Called before after =
      ((standing after.1 ≡ none) × (after.0.ours ≡ none))
      ⊎ ((w : P) × (e : String) × ((power.cancel w).1 ≡ err e) × (standing after.1 ≡ before))

  carry_out-Called :
      (x : Button × Action) (w : P) (full : Bool)
      → x.1 ≡ Button.cancel
      → Called (standing w) (carry_out power x w full)
  unfolding cancelled
  carry_out-Called (b, Button.schedule) w full e = ground arith
  carry_out-Called (b, Button.ignore why) w full e = ground arith
  carry_out-Called (b, Button.cancel) w full e = elim (Result-cases (power.cancel w).1) [
    | inl (u, c) ↦ inl (rw c (laws.cancel_ok w c, refl))
    | inr (x, c) ↦ inr (w, x, c, rw c (laws.cancel_err w x c))
  ]

  recognised-Called :
      (b : Button) (w : P) (now : ℕ) (full : Bool) (t : ℕ)
      → b.armed ≡ true
      → bounces b.last now ≡ false
      → (power.wall_message w).1 ≡ ok (some message)
      → Called
          (standing w)
          (act power (recognise power (b, w) (Button.at t)) now (Button.at t) full)
  unfolding act recognise
  recognised-Called b w now full t a n m =
      rw (m, message_is_message, ← laws.wall_keeps w)
        (carry_out-Called (press (placed b t) now (Button.at t)) (power.wall_message w).0 full
          (owned-cancel b now t a n))

  -- A press that is no bounce, on an armed button, while a poweroff with the button's message is
  -- pending and logind can be read: the poweroff is called off and no longer claimed, or logind
  -- refuses and it stands. What the button claimed before does not matter, as after a restart, and
  -- neither does the mode.
  pub own_press_cancels :
      (b : Button) (w : P) (now : ℕ) (full : Bool) (t : ℕ)
      → b.armed ≡ true
      → bounces b.last now ≡ false
      → standing w ≡ some (t, message)
      → (power.pending w).1 ≡ ok (some t)
      → (power.wall_message (power.pending w).0).1 ≡ ok (some message)
      → Called (some (t, message)) (pressed power (b, w) now full)
  unfolding pressed
  own_press_cancels b w now full t a n s p m =
      let w' = (power.pending w).0 in
      let called = recognised-Called b w' now full t a n m in
      rw (p, ← s, ← laws.pending_keeps w) called
