-- ===== src/UpsThread/DryRun.antt =====
-- A thread that is not in full mode only watches.
use argon_utils.Prelude.{
  ℕ, ◌≡◌, ◌≢◌, ◌∙◌, refl, ap, sym, subst, inl, inr, true, false, Bool-cases, Option, none, some,
  List, [], ◌∷◌, ok, String, leb, arith,
}
use argon_utils.Command.{Command, is_query}
use argon_utils.Config.{Config, mode}
use argon_utils.Drift.{Entry}
use argon_utils.I2c.{Error}
use argon_utils.Mode.{full}
use argon_utils.Power.{PowerControl, ShutdownCoordinator}
use argon_utils.Power.Untouched.{dry_run_is_inert}
use argon_utils.Service.{step, ups_monitor, Cycle}
use argon_utils.Ups.{UpsLink, UpsMonitor, gate, allows, no_writes}
use argon_utils.UpsRequest.{Request, handle_request, poweroff_with_wake}
use argon_utils.UpsSeen.{SeenUps}
use argon_utils.UpsStart.{Setup, Open, opened, not_found, failed, held, open_link, spawn}
use argon_utils.UpsStart.Permissions.{spawn-not_full}
use argon_utils.UpsTime.{UpsTime}
use argon_utils.UpsThread.{
  Thread, Round, reopen_after, round, run, start, watch, connect, ensure, clock_check, wake_check,
  after_read, after_poll, serve_requests, record_ups,
}
use argon_utils.UpsThread.Inert.{Kept, Opens, run-Kept}

-- A coordinator in a dry run whose logind is as it was.
abbrev pub IsIdle : {P : Type 0} → P → ShutdownCoordinator P → Type 0
IsIdle p c = (c.power ≡ p) × (c.dry_run ≡ true)

record_ups-coordinator :
    {W P : Type 0} (t : Thread W P) (r : Round W) (ups : Option SeenUps)
    (file : Option (Option SeenUps))
    → (record_ups t r ups file).coordinator ≡ t.coordinator
record_ups-coordinator t r none file = refl
record_ups-coordinator t r (some ups) none = refl
record_ups-coordinator t r (some ups) (some file) = refl

module _ {W P : Type 0} (link : UpsLink W) (clock : W → ℕ) (power : PowerControl P)
    (message : UpsTime → String) (setup : Setup) (p : P) (no_wake : setup.writes.wake ≡ false) where
  clock_check-coordinator :
      (t : Thread W P) (r : Round W) (m : UpsMonitor W)
      → (clock_check link clock power message setup t r m).0.coordinator ≡ t.coordinator
  clock_check-coordinator t r m = elim (Bool-cases (leb t.next_clock_check r.instant)) [
    | inl e ↦ rw e refl
    | inr e ↦ rw e refl
  ]

  wake_check-coordinator :
      (t : Thread W P) (r : Round W) (m : UpsMonitor W)
      → (wake_check link clock power message setup t r m).0.coordinator ≡ t.coordinator
  wake_check-coordinator t r m = elim (Bool-cases (leb t.next_wake_check r.instant)) [
    | inl e ↦ rw e refl
    | inr e ↦ rw e refl
  ]

  after_read-coordinator :
      (t : Thread W P) (r : Round W) (m : UpsMonitor W) (e : Option Error)
      → (after_read link clock power message setup t r m e).coordinator ≡ t.coordinator
  after_read-coordinator t r m (some x) = refl
  after_read-coordinator t r m none =
      let t0 = record_ups t r t.connected t.seen_file in
      let (t1, m1) = clock_check link clock power message setup t0 r m in
      wake_check-coordinator t1 r m1
      ∙ clock_check-coordinator t0 r m
      ∙ record_ups-coordinator t r t.connected t.seen_file

  after_poll-coordinator :
      (t : Thread W P) (r : Round W) (m : UpsMonitor W) (cycle : Cycle)
      → (after_poll link clock power message setup t r m cycle).coordinator ≡ t.coordinator
  after_poll-coordinator t r m cycle =
      elim (Bool-cases (leb reopen_after cycle.poll.consecutive_failures)) [
        | inl b ↦ rw b refl
        | inr b ↦ rw b (after_read-coordinator t r m cycle.poll.error)
      ]

  watch-IsIdle :
      (t : Thread W P) (r : Round W) (monitor : Option (UpsMonitor W))
      → IsIdle p t.coordinator
      → IsIdle p (watch link clock power message setup t r monitor).coordinator
  unfolding watch step ups_monitor
  watch-IsIdle t r none h = h
  watch-IsIdle t r (some m) h =
      let (m', c', cycle) =
        step (ups_monitor (gate link setup.writes) (clock m.ups)) power m t.coordinator r.uptime
          r.now in
      let (same, ours, dry, action) =
        dry_run_is_inert power cycle.poll.decision t.coordinator r.now h.1 in
      subst (IsIdle p) (sym (after_poll-coordinator (record t { coordinator = c' }) r m' cycle))
        (same ∙ h.0, dry)

  serve-IsIdle :
      (requests : List (Request × ℕ)) (monitor : Option (UpsMonitor W)) (c : ShutdownCoordinator P)
      → IsIdle p c
      → IsIdle p (serve_requests link clock power message setup monitor c requests).1
  unfolding serve_requests handle_request
  serve-IsIdle [] monitor c h = h
  serve-IsIdle (q ∷ requests) none c h = serve-IsIdle requests none c h
  serve-IsIdle ((poweroff_with_wake at, now) ∷ requests) (some m) c h =
      serve-IsIdle requests (some _) _ (rw no_wake h)

  connect-IsIdle :
      (t : Thread W P) (r : Round W) (o : Open W)
      → IsIdle p t.coordinator
      → IsIdle p (connect link clock power message setup t r o).0.coordinator
  connect-IsIdle t r (opened w path) h = h
  connect-IsIdle t r not_found h = h
  connect-IsIdle t r failed h = h
  connect-IsIdle t r held h = h

  ensure-IsIdle :
      (t : Thread W P) (r : Round W) (monitor : Option (UpsMonitor W))
      → IsIdle p t.coordinator
      → IsIdle p (ensure link clock power message setup t r monitor).0.coordinator
  ensure-IsIdle t r (some m) h = h
  ensure-IsIdle t r none h = connect-IsIdle t r (open_link r.ports setup.port) h

  round-IsIdle :
      (t : Thread W P) (r : Round W)
      → IsIdle p t.coordinator
      → IsIdle p (round link clock power message setup t r).0.coordinator
  unfolding round
  round-IsIdle t r h =
      let (t', goes_on) = ensure link clock power message setup t r t.monitor in
      let idle : IsIdle p t'.coordinator = ensure-IsIdle t r t.monitor h in
      let watched = watch link clock power message setup t' r t'.monitor in
      elim (Bool-cases goes_on) [
        | inl e ↦ rw e (
            serve-IsIdle r.requests watched.monitor watched.coordinator
              (watch-IsIdle t' r t'.monitor idle))
        | inr e ↦ rw e idle
      ]

  run-IsIdle :
      (rounds : List (Round W)) (t : Thread W P)
      → IsIdle p t.coordinator
      → IsIdle p (run link clock power message setup t rounds).coordinator
  unfolding run
  run-IsIdle [] t h = h
  run-IsIdle (r ∷ rounds) t h =
      run-IsIdle rounds (round link clock power message setup t r).0 (round-IsIdle t r h)

allows-no_writes : (cmd : Command) → allows no_writes cmd ≡ true → is_query cmd ≡ true
unfolding allows
allows-no_writes cmd h = ground arith

-- In a mode other than full the thread that `spawn` sets up only watches: through any rounds, with any
-- requests, it makes no call of logind that could change it, and whatever holds of the links that the
-- rounds open and is kept by every query still holds of the link that is open.
pub only_full_mode_acts :
    {W P : Type 0} (link : UpsLink W) (clock : W → ℕ) (power : PowerControl P)
    (message : UpsTime → String) (c : Config) (active_units : List String) (s : Setup)
    (K : W → Type 0) (p : P) (seen : Option (Option SeenUps)) (log : Option (List Entry))
    (instant : ℕ) (rounds : List (Round W))
    → mode c ≢ ok full
    → spawn c active_units ≡ some s
    → ((w : W) (cmd : Command) (payload : List ℕ) (deadline : ℕ)
        → is_query cmd ≡ true
        → K w
        → K (link.request w cmd payload deadline).0)
    → Opens K rounds
    → let t = run link clock power message s (start s p seen log instant) rounds in
      (t.coordinator.power ≡ p) × Kept K t.monitor
only_full_mode_acts link clock power message c active_units s K p seen log instant rounds n e keeps
      o =
    let (dry, writes) = spawn-not_full c active_units s n e in
    (
      (run-IsIdle link clock power message s p (ap (λ w. w.wake) writes) rounds
          (start s p seen log instant) (refl, dry)).0,
      run-Kept link clock power message s K
          (λ w cmd payload deadline a k.
            keeps w cmd payload deadline
              (allows-no_writes cmd (subst (λ x. allows x cmd ≡ true) writes a)) k)
          rounds (start s p seen log instant) o tt,
    )
