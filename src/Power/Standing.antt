-- ===== src/Power/Standing.antt =====
-- A poweroff that was placed: it stands through every further advice, an operator's cancellation is
-- respected, and a confirmed recovery takes it away.
use argon_utils.Prelude.{
  ℕ, ◌≡◌, ◌≢◌, ◌⊎◌, ◌∙◌, refl, ap, sym, subst, Bool, true, false, Option, none, some, ok, List, [],
  ◌∷◌, inl, inr, Result-cases, String, arith,
}
use argon_utils.Policy.{Decision}
use argon_utils.Power.{
  PowerControl, ShutdownCoordinator, Action, kind, recovers, advises, on_decision, same_shutdown,
  cancelled, failed,
}
use argon_utils.Power.Logind.{IsLogind, pending-cases, Standing}

-- Decisions, each with the time of the call.
abbrev pub Decisions : Type 0
Decisions = List (Decision × ℕ)

abbrev pub NoRecovery : Decisions → Type 0
NoRecovery [] = Unit {0}
NoRecovery ((d, _) ∷ ds) = (kind d ≢ recovers) × NoRecovery ds

abbrev pub AllNothing : List Action → Type 0
AllNothing [] = Unit {0}
AllNothing (a ∷ rest) = (a ≡ Action.nothing) × AllNothing rest

-- Whether ours is what is pending.
abbrev pub is_still : ℕ → Option ℕ → Bool
is_still mine none = false
is_still mine (some t) = same_shutdown mine t

module _ {W : Type 0} (p : PowerControl W) where
  unfoldable pub run : ShutdownCoordinator W → Decisions → ShutdownCoordinator W
  run c [] = c
  run c ((d, now) ∷ ds) = run (on_decision p c d now).0 ds

  -- What was done on each of them.
  unfoldable pub actions : ShutdownCoordinator W → Decisions → List Action
  actions c [] = []
  actions c ((d, now) ∷ ds) = let (c', action) = on_decision p c d now in action ∷ actions c' ds

  stood_down-step :
      (c : ShutdownCoordinator W) (d : Decision) (now : ℕ)
      → c.stood_down ≡ true
      → kind d ≢ recovers
      → ((on_decision p c d now).0 ≡ c) × ((on_decision p c d now).1 ≡ Action.nothing)
  unfolding on_decision
  stood_down-step c d now s k = (ground arith, ground arith)

  stood_down_lem :
      (c : ShutdownCoordinator W) (ds : Decisions)
      → c.stood_down ≡ true
      → NoRecovery ds
      → (run c ds ≡ c) × AllNothing (actions c ds)
  unfolding run actions
  stood_down_lem c [] s n = (refl, tt)
  stood_down_lem c ((d, now) ∷ ds) s n =
      let (e, quiet) = stood_down-step c d now s n.0 in
      let (e', rest) = stood_down_lem c ds s n.1 in
      (ap (λ x. run x ds) e ∙ e', (quiet, subst (λ x. AllNothing (actions x ds)) (sym e) rest))

  -- The coordinator that has seen ours gone: it has read what is pending, and nothing else.
  abbrev pub overridden : ShutdownCoordinator W → ShutdownCoordinator W
  overridden c = record c { power = (p.pending c.power).0; ours = none; stood_down = true }

  gone-step :
      (c : ShutdownCoordinator W) (d : Decision) (now mine : ℕ) (r : Option ℕ)
      → c.dry_run ≡ false
      → c.stood_down ≡ false
      → c.ours ≡ some mine
      → kind d ≡ advises
      → (p.pending c.power).1 ≡ ok r
      → is_still mine r ≡ false
      → (on_decision p c d now).0 ≡ overridden c
  unfolding on_decision
  gone-step c d now mine none real up o k e g = ground arith
  gone-step c d now mine (some t) real up o k e g = ground arith

  -- A shutdown is advised while a poweroff of ours is on record, and logind, which can be read, has it
  -- pending no more, as after an operator's cancellation: the coordinator gives it up, and through any
  -- further decisions that do not confirm a recovery it does nothing. All that logind was asked in the
  -- whole run is that one read.
  pub operator_is_respected :
      (c : ShutdownCoordinator W) (d : Decision) (now mine : ℕ) (r : Option ℕ) (ds : Decisions)
      → c.dry_run ≡ false
      → c.stood_down ≡ false
      → c.ours ≡ some mine
      → kind d ≡ advises
      → (p.pending c.power).1 ≡ ok r
      → is_still mine r ≡ false
      → NoRecovery ds
      → (run c ((d, now) ∷ ds) ≡ overridden c) × AllNothing (actions (on_decision p c d now).0 ds)
  unfolding run
  operator_is_respected c d now mine r ds real up o k e g n =
      let gone = gone-step c d now mine r real up o k e g in
      let (still, quiet) = stood_down_lem (overridden c) ds refl n in
      (ap (λ x. run x ds) gone ∙ still, subst (λ x. AllNothing (actions x ds)) (sym gone) quiet)

module _ {W : Type 0} (p : PowerControl W) (standing : W → Standing)
    (laws : IsLogind p standing) where
  -- Our poweroff is on record, and is the one that logind has pending.
  pub record Ours (c : ShutdownCoordinator W) (mine t : ℕ) (m : String) : Type 0 where
    pub real : c.dry_run ≡ false
    pub recorded : c.ours ≡ some mine
    pub pending : standing c.power ≡ some (t, m)
    pub same : same_shutdown mine t ≡ true

  Ours-step :
      (c : ShutdownCoordinator W) (d : Decision) (now mine t : ℕ) (m : String)
      → Ours c mine t m
      → kind d ≢ recovers
      → Ours (on_decision p c d now).0 mine t m × ((on_decision p c d now).1 ≡ Action.nothing)
  unfolding on_decision
  Ours-step c d now mine t m o k =
      ground (arith, laws.pending_keeps c.power, pending-cases p standing laws c.power)

  -- A poweroff of ours stands through any decisions that do not confirm a recovery, with reads that
  -- work or fail: it is neither moved nor placed again, and nothing is done on any of them.
  pub poweroff_stands :
      (c : ShutdownCoordinator W) (ds : Decisions) (mine t : ℕ) (m : String)
      → Ours c mine t m
      → NoRecovery ds
      → Ours (run p c ds) mine t m × AllNothing (actions p c ds)
  unfolding run actions
  poweroff_stands c [] mine t m o n = (o, tt)
  poweroff_stands c ((d, now) ∷ ds) mine t m o n =
      let (o', quiet) = Ours-step c d now mine t m o n.0 in
      let (o'', rest) = poweroff_stands (on_decision p c d now).0 ds mine t m o' n.1 in
      (o'', (quiet, rest))

  -- A confirmed recovery takes our poweroff away, whether or not the pending one can be read; if the
  -- cancellation is refused the poweroff stays on record, so that the next poll tries again.
  pub recovery_cancels :
      (c : ShutdownCoordinator W) (d : Decision) (now mine t : ℕ) (m : String)
      → Ours c mine t m
      → kind d ≡ recovers
      → let (c', action) = on_decision p c d now in
        ((action ≡ cancelled) × (standing c'.power ≡ none) × (c'.ours ≡ none))
        ⊎ ((e : String) × (action ≡ failed e) × Ours c' mine t m)
  unfolding on_decision
  recovery_cancels c d now mine t m o k =
      let w = (p.pending c.power).0 in
      elim (Result-cases (p.cancel w).1) [
        | inl (u, e) ↦ inl (
          ground (arith, pending-cases p standing laws c.power),
          ground (arith, pending-cases p standing laws c.power, laws.cancel_ok w),
          ground (arith, pending-cases p standing laws c.power),
        )
        | inr (x, e) ↦ inr (
          x,
          ground (arith, pending-cases p standing laws c.power),
          ground (
            arith,
            pending-cases p standing laws c.power,
            laws.cancel_err w x,
            laws.pending_keeps c.power,
          ),
        )
      ]
