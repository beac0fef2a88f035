-- ===== src/UpsThread/Rounds.antt =====
-- What holds after every round.
use argon_utils.Prelude.{
  String, ℕ, ◌+◌, ◌<◌, ◌≡◌, ◌∙◌, refl, sym, subst, inl, inr, Bool-cases, Option, none, some, List,
  [], ◌∷◌, Result, ok, err, Result-cases, leb, arith, if◌then◌else◌,
}
use argon_utils.I2c.{Error}
use argon_utils.Power.{PowerControl, ShutdownCoordinator}
use argon_utils.Service.{step, ups_monitor, Cycle}
use argon_utils.Ups
use argon_utils.Ups.{gate, UpsLink, UpsMonitor, Watch, observe}
use argon_utils.UpsRequest.{Request}
use argon_utils.UpsStart.{Setup, Open, opened, not_found, failed, held, open_link}
use argon_utils.UpsTime.{UpsTime}
use argon_utils.UpsThread.{
  Thread, Round, reopen_after, round, run, watch, connect, ensure, clock_check, wake_check,
  housekeeping, after_read, after_poll, serve_requests, record_ups,
}

-- Of an open link, the watch has counted `n` failures in a row, and they are fewer than close it.
abbrev pub IsCounted : {W : Type 0} → Option (UpsMonitor W) → ℕ → Type 0
IsCounted none n = Unit {0}
IsCounted (some m) n = (m.watch.failures ≡ n) × (n < reopen_after)

-- One more failed read in a row, or none.
abbrev pub counted : {A : Type 0} → ℕ → Result A Error → ℕ
counted n (ok _) = 0
counted n (err _) = n + 1

-- Those of a link that was just opened are none.
abbrev pub carried : {W : Type 0} → Option (UpsMonitor W) → ℕ → ℕ
carried none n = 0
carried (some _) n = n

poll-failures :
    {W : Type 0} (link : UpsLink W) (m : UpsMonitor W) (uptime now : ℕ)
    → (Ups.poll link m uptime now).1.consecutive_failures
      ≡ (Ups.poll link m uptime now).0.watch.failures
unfolding Ups.poll Ups.observe
poll-failures link m uptime now = elim (Result-cases (Ups.battery link m.ups now).1) [
  | inl (b, e) ↦ ground arith
  | inr (x, e) ↦ ground arith
]

poll-counted :
    {W : Type 0} (link : UpsLink W) (m : UpsMonitor W) (uptime now n : ℕ)
    → (m.watch.failures ≡ n) × (n < reopen_after)
    → (Ups.poll link m uptime now).0.watch.failures ≡ counted n (Ups.battery link m.ups now).1
unfolding Ups.poll Ups.observe
poll-counted link m uptime now n (e, b) = elim (Result-cases (Ups.battery link m.ups now).1) [
  | inl (x, f) ↦ ground arith
  | inr (x, f) ↦ rw f (ground arith)
]

module _ {W P : Type 0} (link : UpsLink W) (clock : W → ℕ) (power : PowerControl P)
    (message : UpsTime → String) (setup : Setup) where
  clock_check-watch :
      (t : Thread W P) (r : Round W) (m : UpsMonitor W)
      → (clock_check link clock power message setup t r m).1.watch ≡ m.watch
  clock_check-watch t r m = elim (Bool-cases (leb t.next_clock_check r.instant)) [
    | inl e ↦ rw e refl
    | inr e ↦ rw e refl
  ]

  wake_check-watch :
      (t : Thread W P) (r : Round W) (m : UpsMonitor W)
      → (wake_check link clock power message setup t r m).1.watch ≡ m.watch
  wake_check-watch t r m = elim (Bool-cases (leb t.next_wake_check r.instant)) [
    | inl e ↦ rw e refl
    | inr e ↦ rw e refl
  ]

  housekeeping-IsCounted :
      (t : Thread W P) (r : Round W) (m : UpsMonitor W) (n : ℕ)
      → IsCounted (some m) n
      → IsCounted (housekeeping link clock power message setup t r m).monitor n
  housekeeping-IsCounted t r m n h =
      let t0 = record_ups t r t.connected t.seen_file in
      let (t1, m1) = clock_check link clock power message setup t0 r m in
      subst (λ w. (w.failures ≡ n) × (n < reopen_after))
        (sym (wake_check-watch t1 r m1 ∙ clock_check-watch t0 r m)) h

  after_read-IsCounted :
      (t : Thread W P) (r : Round W) (m : UpsMonitor W) (e : Option Error) (n : ℕ)
      → IsCounted (some m) n
      → IsCounted (after_read link clock power message setup t r m e).monitor n
  after_read-IsCounted t r m none n h = housekeeping-IsCounted t r m n h
  after_read-IsCounted t r m (some x) n h = h

  after_poll-IsCounted :
      (t : Thread W P) (r : Round W) (m : UpsMonitor W) (cycle : Cycle) (n : ℕ)
      → cycle.poll.consecutive_failures ≡ m.watch.failures
      → m.watch.failures ≡ n
      → IsCounted (after_poll link clock power message setup t r m cycle).monitor n
  after_poll-IsCounted t r m cycle n e f =
      elim (Bool-cases (leb reopen_after cycle.poll.consecutive_failures)) [
        | inl b ↦ rw b tt
        | inr b ↦ rw b (after_read-IsCounted t r m cycle.poll.error n (f, (ground arith)))
      ]

  -- The read of an open link, through the gate, by the count of those before it.
  abbrev pub missed : Option (UpsMonitor W) → ℕ → ℕ
  missed none n = n
  missed (some m) n = counted n (Ups.battery (gate link setup.writes) m.ups (clock m.ups)).1

  watch-IsCounted :
      (t : Thread W P) (r : Round W) (monitor : Option (UpsMonitor W)) (n : ℕ)
      → t.monitor ≡ monitor
      → IsCounted monitor n
      → IsCounted (watch link clock power message setup t r monitor).monitor (missed monitor n)
  unfolding watch step ups_monitor
  watch-IsCounted t r none n e h = rw e tt
  watch-IsCounted t r (some m) n e h =
      let gated = gate link setup.writes in
      let (m', c', cycle) =
        step (ups_monitor gated (clock m.ups)) power m t.coordinator r.uptime r.now in
      after_poll-IsCounted (record t { coordinator = c' }) r m' cycle (missed (some m) n)
        (poll-failures gated m r.uptime (clock m.ups))
        (poll-counted gated m r.uptime (clock m.ups) n h)

  serve-IsCounted :
      (requests : List (Request × ℕ)) (monitor : Option (UpsMonitor W)) (c : ShutdownCoordinator P)
      (n : ℕ)
      → IsCounted monitor n
      → IsCounted (serve_requests link clock power message setup monitor c requests).0 n
  unfolding serve_requests
  serve-IsCounted [] monitor c n h = h
  serve-IsCounted (q ∷ requests) none c n h = serve-IsCounted requests none c n h
  serve-IsCounted ((req, now) ∷ requests) (some m) c n h = serve-IsCounted requests (some _) _ n h

  connect-IsCounted :
      (t : Thread W P) (r : Round W) (o : Open W)
      → t.monitor ≡ none
      → IsCounted (connect link clock power message setup t r o).0.monitor 0
  connect-IsCounted t r (opened w path) e = (refl, (omega arith))
  connect-IsCounted t r not_found e = rw e tt
  connect-IsCounted t r failed e = rw e tt
  connect-IsCounted t r held e = rw e tt

  ensure-IsCounted :
      (t : Thread W P) (r : Round W) (monitor : Option (UpsMonitor W)) (n : ℕ)
      → t.monitor ≡ monitor
      → IsCounted monitor n
      → IsCounted (ensure link clock power message setup t r monitor).0.monitor (carried monitor n)
  ensure-IsCounted t r (some m) n e h = rw e h
  ensure-IsCounted t r none n e h = connect-IsCounted t r (open_link r.ports setup.port) e

  -- The failed reads in a row after a round, by those before it.
  abbrev pub missed_after : Thread W P → Round W → ℕ → ℕ
  missed_after t r n =
      let (t', goes_on) = ensure link clock power message setup t r t.monitor in
      if goes_on then missed t'.monitor (carried t.monitor n) else carried t.monitor n

  round-IsCounted :
      (t : Thread W P) (r : Round W) (n : ℕ)
      → IsCounted t.monitor n
      → IsCounted (round link clock power message setup t r).0.monitor (missed_after t r n)
  unfolding round
  round-IsCounted t r n h =
      let (t', goes_on) = ensure link clock power message setup t r t.monitor in
      let ensured : IsCounted t'.monitor (carried t.monitor n) =
        ensure-IsCounted t r t.monitor n refl h in
      let watched = watch link clock power message setup t' r t'.monitor in
      elim (Bool-cases goes_on) [
        | inl e ↦ rw e (
            serve-IsCounted r.requests watched.monitor watched.coordinator
              (missed t'.monitor (carried t.monitor n))
              (watch-IsCounted t' r t'.monitor (carried t.monitor n) refl ensured))
        | inr e ↦ rw e ensured
      ]

  -- How many reads in a row have failed on the link that is open, or was last, after the rounds.
  unfoldable pub missed_in : Thread W P → List (Round W) → ℕ → ℕ
  missed_in t [] n = n
  missed_in t (r ∷ rounds) n =
      missed_in (round link clock power message setup t r).0 rounds (missed_after t r n)

  -- After any rounds from a state in which it holds, as at the start: the watch of an open link has
  -- counted exactly the reads in a row that have failed on it, and they are at most two, since the
  -- round of the third one closes the link.
  pub run-IsCounted :
      (rounds : List (Round W)) (t : Thread W P) (n : ℕ)
      → IsCounted t.monitor n
      → IsCounted (run link clock power message setup t rounds).monitor (missed_in t rounds n)
  unfolding run missed_in
  run-IsCounted [] t n h = h
  run-IsCounted (r ∷ rounds) t n h =
      run-IsCounted rounds (round link clock power message setup t r).0 (missed_after t r n)
        (round-IsCounted t r n h)
