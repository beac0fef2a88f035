-- ===== src/Button/Presses.antt =====
-- What a run of presses, placements and cancellations can lead to.
use argon_utils.Prelude.{
  ℕ, ◌+◌, ◌<◌, ◌≡◌, ◌⊎◌, refl, ◌↔◌, Bool, true, false, Option, none, some, List, [], ◌∷◌, arith,
}
use argon_utils.Button.{
  Button, Pending, press, placed, cancelled, new, cancel, ignore, bounce, schedule, min_gap,
  bounces,
}

-- What happens to a button: it is pressed, or the poweroff that its press asked for was placed, or
-- the one whose cancellation it asked for was cancelled.
pub data Event : Type 0 where
  pressed : ℕ → Pending → Event
  was_placed : ℕ → Event
  was_cancelled : Event

abbrev pub handle : Button → Event → Button
handle b (pressed now pending) = (press b now pending).0
handle b (was_placed t) = placed b t
handle b was_cancelled = cancelled b

unfoldable pub run : Button → List Event → Button
run b [] = b
run b (e ∷ es) = run (handle b e) es

-- The time of the last placement that no cancellation of the button's followed.
unfoldable pub last_placed : Option ℕ → List Event → Option ℕ
last_placed t [] = t
last_placed t (pressed _ _ ∷ es) = last_placed t es
last_placed _ (was_placed t ∷ es) = last_placed (some t) es
last_placed _ (was_cancelled ∷ es) = last_placed none es

-- The button claims no placement but the last.
abbrev Claims : Option ℕ → Option ℕ → Type 0
Claims none t = Unit {0}
Claims (some mine) t = t ≡ some mine

press-Claims :
    (b : Button) (now : ℕ) (pending : Pending) (t : Option ℕ)
    → Claims b.ours t
    → Claims (press b now pending).0.ours t
unfolding press
press-Claims b now pending t c = ground arith

run-Claims :
    (b : Button) (es : List Event) (t : Option ℕ)
    → Claims b.ours t
    → Claims (run b es).ours (last_placed t es)
unfolding run last_placed placed cancelled
run-Claims b [] t c = c
run-Claims b (pressed now pending ∷ es) t c =
    run-Claims (press b now pending).0 es t (press-Claims b now pending t c)
run-Claims b (was_placed s ∷ es) t c = run-Claims (placed b s) es (some s) refl
run-Claims b (was_cancelled ∷ es) t c = run-Claims (cancelled b) es none tt

run-armed : (b : Button) (es : List Event) → (run b es).armed ≡ b.armed
unfolding run press placed cancelled
run-armed b [] = refl
run-armed b (pressed now pending ∷ es) = ground (arith, run-armed (press b now pending).0 es)
run-armed b (was_placed s ∷ es) = run-armed (placed b s) es
run-armed b (was_cancelled ∷ es) = run-armed (cancelled b) es

pub press-cancel :
    (b : Button) (now : ℕ) (pending : Pending)
    → (press b now pending).1 ≡ cancel
    → (b.armed ≡ true) × ((t : ℕ) × (pending ≡ Pending.at t) × (b.ours ≡ some t))
unfolding press
press-cancel b now Pending.nothing e = ground arith
press-cancel b now (Pending.at t) e = (ground arith, (t, refl, ground arith))
press-cancel b now Pending.cannot_tell e = ground arith

-- A press leaves what the button claims, or drops it.
pub press-ours :
    (b : Button) (now : ℕ) (pending : Pending)
    → ((press b now pending).0.ours ≡ none) ⊎ ((press b now pending).0.ours ≡ b.ours)
unfolding press
press-ours b now Pending.nothing = ground arith
press-ours b now (Pending.at t) = ground arith
press-ours b now Pending.cannot_tell = ground arith

-- After any run of events from a new button, a press asks for a cancellation only where the pending
-- poweroff is the one the button had placed last, and only of a button that is armed.
pub cancels_only_its_own :
    (armed : Bool) (es : List Event) (now : ℕ) (pending : Pending)
    → (press (run (new armed) es) now pending).1 ≡ cancel
    → (armed ≡ true) × ((t : ℕ) × (pending ≡ Pending.at t) × (last_placed none es ≡ some t))
cancels_only_its_own armed es now pending e =
    let (a, (t, p, o)) = press-cancel (run (new armed) es) now pending e in
    let c = run-Claims (new armed) es none tt in
    (ground (arith, run-armed (new armed) es), (t, p, ground arith))

-- A press asks for a poweroff exactly when the button is armed, the press is no bounce of the one
-- before, and nothing is pending.
pub press-schedule_iff :
    (b : Button) (now : ℕ) (pending : Pending)
    → ((press b now pending).1 ≡ schedule)
      ↔ ((b.armed ≡ true) × (bounces b.last now ≡ false) × (pending ≡ Pending.nothing))
unfolding press
press-schedule_iff b now pending = ((λ h. ground arith), (λ h. ground arith))

-- Every press of a run is ignored as a bounce.
abbrev pub AllBounce : Button → List (ℕ × Pending) → Type 0
AllBounce b [] = Unit {0}
AllBounce b ((now, pending) ∷ ps) = (press b now pending ≡ (b, ignore bounce)) × AllBounce b ps

abbrev pub AllBefore : ℕ → List (ℕ × Pending) → Type 0
AllBefore t [] = Unit {0}
AllBefore t ((now, _) ∷ ps) = (now < t) × AllBefore t ps

bounces-AllBounce :
    (b : Button) (t : ℕ) (ps : List (ℕ × Pending))
    → b.armed ≡ true
    → b.last ≡ some t
    → AllBefore (t + min_gap) ps
    → AllBounce b ps
unfolding press
bounces-AllBounce b t [] a l h = tt
bounces-AllBounce b t ((now, pending) ∷ ps) a l h = (ground arith, bounces-AllBounce b t ps a l h.1)

-- A press that was not ignored as a bounce has every further press within a second of it ignored,
-- whatever is pending, and they change nothing.
pub press-AllBounce :
    (b : Button) (t : ℕ) (pending : Pending) (ps : List (ℕ × Pending))
    → b.armed ≡ true
    → bounces b.last t ≡ false
    → AllBefore (t + min_gap) ps
    → AllBounce (press b t pending).0 ps
unfolding press
press-AllBounce b t pending ps a l h =
    bounces-AllBounce (press b t pending).0 t ps (ground arith) (ground arith) h
