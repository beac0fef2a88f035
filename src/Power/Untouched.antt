-- ===== src/Power/Untouched.antt =====
-- When the coordinator leaves logind alone altogether.
use argon_utils.Prelude.{ℕ, ◌≡◌, ◌≢◌, ◌⊎◌, true, false, none, arith}
use argon_utils.Policy.{BatteryPolicy, Decision, on_mains, Advice, observe}
use argon_utils.Power.{
  PowerControl, ShutdownCoordinator, Action, would_schedule, would_cancel, on_decision,
}

module _ {W : Type 0} (p : PowerControl W) where
  -- A failed read never acts on a poweroff: nothing is asked of logind, nothing is forgotten, and
  -- nothing is reported, whatever the policy had seen before.
  pub failed_read_holds :
      (policy : BatteryPolicy) (u : ℕ) (c : ShutdownCoordinator W) (now : ℕ)
      → on_decision p c (observe policy none u).1 now ≡ (c, Action.nothing)
  unfolding on_decision observe
  failed_read_holds policy u c now = ground arith

  -- A decision that neither advises a shutdown nor confirms a recovery leaves everything as it is.
  pub on_decision-holds :
      (d : Decision) (c : ShutdownCoordinator W) (now : ℕ)
      → d.advice ≢ Advice.shutdown
      → (d.level ≢ on_mains) ⊎ (d.confirmed_recovery ≡ false)
      → on_decision p c d now ≡ (c, Action.nothing)
  unfolding on_decision
  on_decision-holds d c now a b = ground arith

  -- In a dry run no decision calls logind, and no poweroff is recorded as placed: only what would
  -- have been done is reported.
  pub dry_run_is_inert :
      (d : Decision) (c : ShutdownCoordinator W) (now : ℕ)
      → c.dry_run ≡ true
      → let (c', action) = on_decision p c d now in
        (c'.power ≡ c.power)
        × (c'.ours ≡ c.ours)
        × (c'.dry_run ≡ true)
        × ((action ≡ Action.nothing) ⊎ (action ≡ would_schedule) ⊎ (action ≡ would_cancel))
  unfolding on_decision
  dry_run_is_inert d c now e = ground arith
