-- ===== src/ButtonThread/Standing.antt =====
-- What the button's thread does to the shutdown that logind has pending.
use argon_utils.Prelude.{
  ℕ, ◌-◌, ◌≡◌, ◌∙◌, ◌⊎◌, inl, inr, refl, sym, ap, Bool, Bool-cases, false, Option, none, some, List,
  [], ◌∷◌, Result-cases, ok, String, eq_string, arith,
}
use argon_utils.Button
use argon_utils.Button.{Button, Action, is_press, press, placed, cancelled, bounces}
use argon_utils.Button.Presses.{press-cancel, press-ours}
use argon_utils.Power.{PowerControl}
use argon_utils.Power.Logind.{IsLogind, Standing, time_of, pending-cases}
use argon_utils.ButtonThread.{
  Thread, Wait, edge, timed_out, failed, up, down, message, pending_of, is_message, recognise, act,
  pressed, carry_out, run, start, on_edge, fell,
}

press-schedule :
    (b : Button) (now : ℕ) (pending : Button.Pending)
    → (press b now pending).1 ≡ Button.schedule
    → pending ≡ Button.nothing
unfolding press
press-schedule b now Button.nothing h = refl
press-schedule b now (Button.at t) h = ground arith
press-schedule b now Button.Pending.cannot_tell h = ground arith

abbrev Ignored : Action → Type 0
Ignored Button.schedule = ⊥
Ignored Button.cancel = ⊥
Ignored (Button.ignore why) = Unit {0}

Action-cases : (a : Action) → (a ≡ Button.schedule) ⊎ ((a ≡ Button.cancel) ⊎ Ignored a)
Action-cases Button.schedule = inl refl
Action-cases Button.cancel = inr (inl refl)
Action-cases (Button.ignore why) = inr (inr tt)

-- A pending shutdown that is not the button's, or that cannot be read, is left, and so is the claim.
press-Ignored :
    (b : Button) (now : ℕ) (pending : Button.Pending) (t : ℕ)
    → (pending ≡ Button.Pending.cannot_tell) ⊎ (pending ≡ Button.at t)
    → (b.ours ≡ some t → ⊥)
    → Ignored (press b now pending).1
press-Ignored b now pending t r o = elim (Action-cases (press b now pending).1) [
  | inr (inr i) ↦ i
  | inl e ↦ ground (arith, r, press-schedule b now pending)
  | inr (inl e) ↦ (let (a, (s, p, mine)) = press-cancel b now pending e in ground (arith, r, o))
]

module _ {P : Type 0} (power : PowerControl P) (standing : P → Standing)
    (laws : IsLogind power standing) where
  -- Somebody else's: without the button's message, and not at the time that the button claims.
  pub record IsForeign (b : Button) (w : P) (t : ℕ) (m : String) : Type 0 where
    pub pending : standing w ≡ some (t, m)
    pub other_message : eq_string m message ≡ false
    pub other_time : b.ours ≡ some t → ⊥

  foreign_message :
      (w : P) (t : ℕ) (m : String)
      → standing w ≡ some (t, m)
      → eq_string m message ≡ false
      → is_message (power.wall_message w).1 ≡ false
  foreign_message w t m s n = elim (Result-cases (power.wall_message w).1) [
    | inr (x, e) ↦ ground arith
    | inl (none, e) ↦ ground arith
    | inl (some m', e) ↦ ground (arith, laws.wall_true w m')
  ]

  recognise-IsForeign :
      (b : Button) (w : P) (t : ℕ) (m : String) (pending : Button.Pending)
      → IsForeign b w t m
      → let (b', w') = recognise power (b, w) pending in IsForeign b' w' t m
  unfolding recognise
  recognise-IsForeign b w t m Button.nothing f = f
  recognise-IsForeign b w t m Button.Pending.cannot_tell f = f
  recognise-IsForeign b w t m (Button.at t') f =
      rw (foreign_message w t m f.pending f.other_message) (record {
        pending = laws.wall_keeps w ∙ f.pending;
        other_message = f.other_message;
        other_time = f.other_time;
      })

  -- The pending shutdown as the thread reads it.
  abbrev Read : P → Button.Pending → Type 0
  Read w pending =
      (pending ≡ Button.Pending.cannot_tell) ⊎ (pending ≡ pending_of (ok (time_of (standing w))))

  pending-Read : (w : P) → Read w (pending_of (power.pending w).1)
  pending-Read w = elim (pending-cases power standing laws w) [
    | inl e ↦ inr (ap pending_of e)
    | inr (x, e) ↦ inl (ap pending_of e)
  ]

  carry_out-Ignored :
      (x : Button × Action) (w : P) (full : Bool)
      → Ignored x.1
      → carry_out power x w full ≡ (x.0, w)
  carry_out-Ignored (b, Button.schedule) w full i = elim i [ ]
  carry_out-Ignored (b, Button.cancel) w full i = elim i [ ]
  carry_out-Ignored (b, Button.ignore why) w full i = refl

  foreign-Read :
      (w : P) (pending : Button.Pending) (t : ℕ) (m : String)
      → standing w ≡ some (t, m)
      → Read w pending
      → (pending ≡ Button.Pending.cannot_tell) ⊎ (pending ≡ Button.at t)
  foreign-Read w pending t m s (inl e) = inl e
  foreign-Read w pending t m s (inr e) = inr (e ∙ ap (λ x. pending_of (ok (time_of x))) s)

  act-IsForeign :
      (b : Button) (w : P) (now : ℕ) (pending : Button.Pending) (full : Bool) (t : ℕ) (m : String)
      → (pending ≡ Button.Pending.cannot_tell) ⊎ (pending ≡ Button.at t)
      → IsForeign b w t m
      → let (b', w') = act power (b, w) now pending full in IsForeign b' w' t m
  unfolding act
  act-IsForeign b w now pending full t m r f =
      rw
        (carry_out-Ignored (press b now pending) w full
          (press-Ignored b now pending t r f.other_time))
        (record {
          pending = f.pending;
          other_message = f.other_message;
          other_time = elim (press-ours b now pending) [
            | inl e ↦ λ h. ground arith
            | inr e ↦ λ h. f.other_time (sym e ∙ h)
          ];
        })

  pressed-IsForeign :
      (b : Button) (w : P) (now : ℕ) (full : Bool) (t : ℕ) (m : String)
      → IsForeign b w t m
      → let (b', w') = pressed power (b, w) now full in IsForeign b' w' t m
  unfolding pressed
  pressed-IsForeign b w now full t m f =
      let w' = (power.pending w).0 in
      let seen = pending_of (power.pending w).1 in
      let read : IsForeign b w' t m = record {
        pending = laws.pending_keeps w ∙ f.pending;
        other_message = f.other_message;
        other_time = f.other_time;
      } in
      let known = recognise power (b, w') seen in
      act-IsForeign known.0 known.1 now seen full t m
        (foreign-Read w seen t m f.pending (pending-Read w))
        (recognise-IsForeign b w' t m seen read)

  abbrev Foreign : Thread P → ℕ → String → Type 0
  Foreign th t m = IsForeign th.button th.power t m

  fell-Foreign :
      (th : Thread P) (rose : Option ℕ) (now : ℕ) (full : Bool) (t : ℕ) (m : String)
      → Foreign th t m
      → Foreign (fell power th rose now full) t m
  fell-Foreign th none now full t m f = f
  fell-Foreign th (some start) now full t m f = elim (Bool-cases (is_press (now - start))) [
    | inl e ↦ rw e (pressed-IsForeign th.button th.power now full t m f)
    | inr e ↦ rw e f
  ]

  -- A shutdown that somebody else placed still stands after any edges of the button, in every mode,
  -- and whatever logind's answers: nothing that a press does cancels or replaces it.
  pub foreign_stands :
      (th : Thread P) (waits : List Wait) (full : Bool) (t : ℕ) (m : String)
      → IsForeign th.button th.power t m
      → standing (run power th waits full).power ≡ some (t, m)
  unfolding run
  foreign_stands th [] full t m f = f.pending
  foreign_stands th (edge up now ∷ waits) full t m f =
      foreign_stands (on_edge power th up now full) waits full t m f
  foreign_stands th (edge down now ∷ waits) full t m f =
      foreign_stands (on_edge power th down now full) waits full t m
        (fell-Foreign th th.rising now full t m f)
  foreign_stands th (timed_out ∷ waits) full t m f = foreign_stands th waits full t m f
  foreign_stands th (failed ∷ waits) full t m f = f.pending
