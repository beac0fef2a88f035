-- ===== src/ButtonThread/WatchOnly.antt =====
-- The button's thread in a mode other than full.
use argon_utils.Prelude.{
  ℕ, ◌-◌, ◌≡◌, ◌∙◌, ◌⊎◌, inl, inr, refl, sym, ap, Bool-cases, false, Option, none, some, List, [],
  ◌∷◌, Result, Result-cases, ok, err, String, eq_string, eq_string_iff, arith,
}
use argon_utils.Button
use argon_utils.Button.{Button, Action, is_press, press, placed, cancelled}
use argon_utils.Button.Presses.{press-cancel, press-ours}
use argon_utils.Power.{PowerControl}
use argon_utils.Power.Logind.{IsLogind, Standing, message_of}
use argon_utils.ButtonThread.{
  Thread, Wait, edge, timed_out, failed, up, down, message, pending_of, is_message, recognise, act,
  pressed, carry_out, run, start, on_edge, fell,
}

message-cases :
    (r : Result (Option String) String) → (is_message r ≡ false) ⊎ (r ≡ ok (some message))
message-cases (ok none) = inl refl
message-cases (ok (some m)) = elim (Bool-cases (eq_string m message)) [
  | inl e ↦ inr (ap (λ x. ok (some x)) ((eq_string_iff m message).0 e))
  | inr e ↦ inl e
]
message-cases (err _) = inl refl

module _ {P : Type 0} (power : PowerControl P) (standing : P → Standing)
    (laws : IsLogind power standing) where
  -- As before, with a claim only to the button's own; or the button's own is gone.
  abbrev Restrained : Standing → Button × P → Type 0
  Restrained before (b, w) =
      ((standing w ≡ before) × ((b.ours ≡ none) ⊎ (message_of before ≡ some message)))
      ⊎ ((standing w ≡ none) × (message_of before ≡ some message))

  moved-Restrained :
      (before : Standing) (b b' : Button) (w w' : P)
      → standing w' ≡ standing w
      → (b'.ours ≡ none) ⊎ (b'.ours ≡ b.ours)
      → Restrained before (b, w)
      → Restrained before (b', w')
  moved-Restrained before b b' w w' e o r = ground (arith, e, o, r)

  recognise-Restrained :
      (before : Standing) (b : Button) (w : P) (pending : Button.Pending)
      → Restrained before (b, w)
      → Restrained before (recognise power (b, w) pending)
  unfolding recognise placed
  recognise-Restrained before b w Button.nothing r = r
  recognise-Restrained before b w Button.Pending.cannot_tell r = r
  recognise-Restrained before b w (Button.at t) r = elim (message-cases (power.wall_message w).1) [
    | inl e ↦
        rw e
          (moved-Restrained before b b w (power.wall_message w).0 (laws.wall_keeps w) (inr refl) r)
    | inr e ↦
        (let true_message = laws.wall_true w message e in
          let same = laws.wall_keeps w in
          elim r [
            | inl (s, o) ↦ inl (same ∙ s, inr (ap message_of (sym s) ∙ true_message))
            | inr (s, m) ↦ inr (same ∙ s, m)
          ])
  ]

  carry_out-Restrained :
      (before : Standing) (x : Button × Action) (w : P)
      → (x.1 ≡ Button.cancel → message_of before ≡ some message)
      → Restrained before (x.0, w)
      → Restrained before (carry_out power x w false)
  unfolding cancelled
  carry_out-Restrained before (b, Button.schedule) w c r = r
  carry_out-Restrained before (b, Button.ignore why) w c r = r
  carry_out-Restrained before (b, Button.cancel) w c r = elim (Result-cases (power.cancel w).1) [
    | inl (u, e) ↦ rw e (inr (laws.cancel_ok w e, c refl))
    | inr (x, e) ↦
        rw e (moved-Restrained before b b w (power.cancel w).0 (laws.cancel_err w x e) (inr refl) r)
  ]

  cancel-message :
      (before : Standing) (b : Button) (w : P) (now : ℕ) (pending : Button.Pending)
      → Restrained before (b, w)
      → (press b now pending).1 ≡ Button.cancel
      → message_of before ≡ some message
  cancel-message before b w now pending r e =
      let (a, (t, p, mine)) = press-cancel b now pending e in ground (arith, r, mine)

  act-Restrained :
      (before : Standing) (b : Button) (w : P) (now : ℕ) (pending : Button.Pending)
      → Restrained before (b, w)
      → Restrained before (act power (b, w) now pending false)
  unfolding act
  act-Restrained before b w now pending r =
      let x = press b now pending in
      carry_out-Restrained before x w (cancel-message before b w now pending r)
        (moved-Restrained before b x.0 w w refl (press-ours b now pending) r)

  pressed-Restrained :
      (before : Standing) (b : Button) (w : P) (now : ℕ)
      → Restrained before (b, w)
      → Restrained before (pressed power (b, w) now false)
  unfolding pressed
  pressed-Restrained before b w now r =
      let w' = (power.pending w).0 in
      let seen = pending_of (power.pending w).1 in
      let known = recognise power (b, w') seen in
      act-Restrained before known.0 known.1 now seen (
        recognise-Restrained before b w' seen
          (moved-Restrained before b b w w' (laws.pending_keeps w) (inr refl) r))

  abbrev RestrainedThread : Standing → Thread P → Type 0
  RestrainedThread before th = Restrained before (th.button, th.power)

  fell-Restrained :
      (before : Standing) (th : Thread P) (rose : Option ℕ) (now : ℕ)
      → RestrainedThread before th
      → RestrainedThread before (fell power th rose now false)
  fell-Restrained before th none now r = r
  fell-Restrained before th (some since) now r = elim (Bool-cases (is_press (now - since))) [
    | inl e ↦ rw e (pressed-Restrained before th.button th.power now r)
    | inr e ↦ rw e r
  ]

  run-Restrained :
      (before : Standing) (th : Thread P) (waits : List Wait)
      → RestrainedThread before th
      → RestrainedThread before (run power th waits false)
  unfolding run
  run-Restrained before th [] r = r
  run-Restrained before th (edge up now ∷ waits) r =
      run-Restrained before (on_edge power th up now false) waits r
  run-Restrained before th (edge down now ∷ waits) r =
      run-Restrained before (on_edge power th down now false) waits
        (fell-Restrained before th th.rising now r)
  run-Restrained before th (timed_out ∷ waits) r = run-Restrained before th waits r
  run-Restrained before th (failed ∷ waits) r = r

  -- In a mode other than full, whatever the edges of the button and logind's answers: from the start
  -- of the thread, what is pending stays as it was, or a poweroff with the button's message is gone.
  -- Nothing is ever placed.
  pub only_own_is_called_off :
      (w : P) (waits : List Wait)
      → let after = standing (run power (start w) waits false).power in
        (after ≡ standing w) ⊎ ((after ≡ none) × (message_of (standing w) ≡ some message))
  only_own_is_called_off w waits =
      elim (run-Restrained (standing w) (start w) waits (inl (refl, inl refl))) [
        | inl (s, o) ↦ inl s
        | inr r ↦ inr r
      ]
