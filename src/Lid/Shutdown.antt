-- ===== src/Lid/Shutdown.antt =====
-- The poweroff of a lid that stays closed.
use argon_utils.Prelude.{
  ℕ, ◌+◌, ◌≤◌, ◌<◌, ◌≡◌, ◌≢◌, subst, inl, inr, Option-cases, refl, Bool, true, false, Option, none,
  some, List, [], ◌∷◌, arith,
}
use argon_utils.Lid.{
  Effect, Lid, LidConfig, shutdown, power_off, shutdown_alert, new, report, tick, restore_all,
  on_close, on_open, undo,
}
use argon_utils.Lid.Environment.{Op, reported, ticked, restored, step}

-- When the lid was closed, if it has stayed so since and the service was not restored: read off
-- the operations alone. `before` is what the switch last reported.
abbrev pub reports : Option Bool → Op → Option Bool
reports before (reported closed _) = some closed
reports before (ticked _) = before
reports before restored = before

abbrev pub since_step : Option Bool → Option ℕ → Op → Option ℕ
since_step (some false) since (reported true now) = some now
since_step (some true) since (reported true now) = since
since_step none since (reported true now) = since
since_step before since (reported false now) = none
since_step before since (ticked now) = since
since_step before since restored = none

unfoldable pub closed_since : Option Bool → Option ℕ → List Op → Option ℕ
closed_since before since [] = since
closed_since before since (op ∷ ops) =
    closed_since (reports before op) (since_step before since op) ops

unfoldable pub run : Lid → List Op → Lid
run lid [] = lid
run lid (op ∷ ops) = run (step lid op).0 ops

abbrev after : Option ℕ → ℕ → Option ℕ
after none delay = none
after (some t) delay = some (t + delay)

-- The deadline is a closing that still holds, plus the delay.
abbrev Deadline : Lid → Option ℕ → Option ℕ → Type 0
Deadline lid since none = Unit {0}
Deadline lid since (some at) =
    (lid.action ≡ shutdown) × (lid.closed ≡ some true) × (after since lid.delay ≡ some at)

step-closed : (lid : Lid) (op : Op) → (step lid op).0.closed ≡ reports lid.closed op
unfolding step report tick restore_all on_close on_open
step-closed lid (reported closed now) = ground arith
step-closed lid (ticked now) = ground arith
step-closed lid restored = ground arith

step-Deadline :
    (lid : Lid) (since : Option ℕ) (op : Op)
    → Deadline lid since lid.shutdown_at
    → Deadline (step lid op).0 (since_step lid.closed since op) (step lid op).0.shutdown_at
unfolding step report tick restore_all on_close on_open
step-Deadline lid since (reported closed now) d = ground arith
step-Deadline lid since (ticked now) d = ground arith
step-Deadline lid since restored d = ground arith

-- How often the run asks for a poweroff.
abbrev pub asks : List Effect → ℕ
asks [] = 0
asks (power_off ∷ es) = asks es + 1
asks (_ ∷ es) = asks es

unfoldable pub poweroffs : Lid → List Op → ℕ
poweroffs lid [] = 0
poweroffs lid (op ∷ ops) = let rest = poweroffs (step lid op).0 ops in asks (step lid op).1 + rest

run-Deadline :
    (lid : Lid) (before since : Option ℕ) (ops : List Op)
    → Deadline lid since lid.shutdown_at
    → Deadline (run lid ops) (closed_since lid.closed since ops) (run lid ops).shutdown_at
unfolding run closed_since
run-Deadline lid before since [] d = d
run-Deadline lid before since (op ∷ ops) d =
    subst
      (λ x.
        Deadline (run (step lid op).0 ops) (closed_since x (since_step lid.closed since op) ops)
          (run (step lid op).0 ops).shutdown_at)
      (step-closed lid op)
      (run-Deadline (step lid op).0 before (since_step lid.closed since op) ops
        (step-Deadline lid since op d))

-- After any run of operations from a new lid, a tick asks for a poweroff only if the action is
-- shutdown, and the lid was closed and has stayed so, with no restoration, for at least the delay.
pub power_off_only_when_closed :
    (config : LidConfig) (ops : List Op) (now : ℕ)
    → (tick (run (new config) ops) now).1 ≢ []
    → let lid = run (new config) ops in
      (lid.action ≡ shutdown)
      × (lid.closed ≡ some true)
      × ((t : ℕ) × (closed_since none none ops ≡ some t) × (t + lid.delay ≤ now))
unfolding new tick
power_off_only_when_closed config ops now h =
    let d = run-Deadline (new config) none none ops tt in
    (
      ground arith,
      ground arith,
      elim (Option-cases (closed_since none none ops)) [
        | inl n ↦ ground arith
        | inr (t, e) ↦ (t, e, ground arith)
      ],
    )

done_is_quiet : (lid : Lid) (ops : List Op) → lid.powering_off ≡ true → poweroffs lid ops ≡ 0
unfolding poweroffs step report tick restore_all on_close on_open undo
done_is_quiet lid [] p = refl
done_is_quiet lid (reported closed now ∷ ops) p =
    ground (arith, done_is_quiet (step lid (reported closed now)).0 ops)
done_is_quiet lid (ticked now ∷ ops) p = ground (arith, done_is_quiet (step lid (ticked now)).0 ops)
done_is_quiet lid (restored ∷ ops) p = ground (arith, done_is_quiet (step lid restored).0 ops)

-- No run of operations asks for a poweroff twice.
pub at_most_one_poweroff : (lid : Lid) (ops : List Op) → poweroffs lid ops ≤ 1
unfolding poweroffs step report tick restore_all on_close on_open undo
at_most_one_poweroff lid [] = omega arith
at_most_one_poweroff lid (reported closed now ∷ ops) =
    ground (arith, at_most_one_poweroff (step lid (reported closed now)).0 ops)
at_most_one_poweroff lid (ticked now ∷ ops) = ground (
  arith,
  at_most_one_poweroff (step lid (ticked now)).0 ops,
  done_is_quiet (step lid (ticked now)).0 ops,
)
at_most_one_poweroff lid (restored ∷ ops) =
    ground (arith, at_most_one_poweroff (step lid restored).0 ops)

-- Ticks at times before a given one.
abbrev pub early_ticks : List ℕ → List Op
early_ticks [] = []
early_ticks (now ∷ nows) = ticked now ∷ early_ticks nows

abbrev pub AllBefore : ℕ → List ℕ → Type 0
AllBefore t [] = Unit {0}
AllBefore t (now ∷ nows) = (now < t) × AllBefore t nows

early_ticks_wait :
    (lid : Lid) (at : ℕ) (nows : List ℕ)
    → lid.shutdown_at ≡ some at
    → AllBefore at nows
    → run lid (early_ticks nows) ≡ lid
unfolding run step tick
early_ticks_wait lid at [] e b = refl
early_ticks_wait lid at (now ∷ nows) e b = ground (arith, early_ticks_wait lid at nows e b.1)

-- Closing an open lid whose action is shutdown, and that has not asked for a poweroff yet, raises
-- the alert, is waited out through any ticks before the delay is over, and the first tick after
-- that asks for the poweroff.
pub closing_powers_off :
    (lid : Lid) (t : ℕ) (nows : List ℕ) (now : ℕ)
    → lid.action ≡ shutdown
    → lid.closed ≡ some false
    → lid.powering_off ≡ false
    → AllBefore (t + lid.delay) nows
    → t + lid.delay ≤ now
    → ((report lid true t).1 ≡ shutdown_alert lid.delay ∷ [])
      × ((tick (run (report lid true t).0 (early_ticks nows)) now).1 ≡ power_off ∷ [])
unfolding report on_close tick
closing_powers_off lid t nows now a c p b l =
    let w = early_ticks_wait (report lid true t).0 (t + lid.delay) nows (ground arith) b in
    (ground arith, ground arith)
