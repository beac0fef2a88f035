-- ===== src/UpsThread/Inert.antt =====
-- A thread that may change nothing changes nothing.
use argon_utils.Prelude.{
  ℕ, ◌≡◌, refl, inl, inr, true, Bool-cases, Option, Option-cases, none, some, List, [], ◌∷◌,
  Result-cases, ok, String, leb, arith,
}
use argon_utils.Command.{Command}
use argon_utils.I2c.{Error}
use argon_utils.Power.{PowerControl, ShutdownCoordinator}
use argon_utils.Service.{step, ups_monitor, Cycle}
use argon_utils.Ups.{UpsLink, UpsMonitor, gate, allows}
use argon_utils.Ups.Gated.{gate-keeps}
use argon_utils.UpsRequest.{Request}
use argon_utils.UpsStart.{Setup, Open, opened, not_found, failed, held, Ports, open_link, or_else}
use argon_utils.UpsTime.{UpsTime}
use argon_utils.UpsThread.{
  Thread, Round, reopen_after, round, run, watch, connect, ensure, clock_check, wake_check,
  after_read, after_poll, serve_requests, record_ups,
}
use argon_utils.UpsThread.Keeps.{
  poll-keeps, check_wake-keeps, check_clock-keeps, handle_request-keeps,
}

-- What holds of the link that is open, if one is.
abbrev pub Kept : {W : Type 0} → (W → Type 0) → Option (UpsMonitor W) → Type 0
Kept K none = Unit {0}
Kept K (some m) = K m.ups

-- It holds of every link that a round can open.
abbrev pub Opens : {W : Type 0} → (W → Type 0) → List (Round W) → Type 0
Opens K [] = Unit {0}
Opens {W} K (r ∷ rounds) =
    ((path : String) (w : W) → r.ports.open_port path ≡ ok w → K w) × Opens K rounds

open_link-opened :
    {W : Type 0} (ports : Ports W) (port : Option String) (w : W) (path : String)
    → open_link ports port ≡ opened w path
    → (p : String) × (ports.open_port p ≡ ok w)
unfolding open_link
open_link-opened ports port w path e = elim (Option-cases (or_else port ports.discovered)) [
  | inl n ↦ ground arith
  | inr (p, s) ↦ elim (Result-cases (ports.open_port p)) [
    | inl (v, f) ↦ (p, ground arith)
    | inr (x, f) ↦ ground arith
  ]
]

module _ {W P : Type 0} (link : UpsLink W) (clock : W → ℕ) (power : PowerControl P)
    (message : UpsTime → String) (setup : Setup) (K : W → Type 0)
    (keeps : (w : W) (cmd : Command) (payload : List ℕ) (deadline : ℕ)
      → allows setup.writes cmd ≡ true
      → K w
      → K (link.request w cmd payload deadline).0) where
  through_gate :
      (w : W) (cmd : Command) (payload : List ℕ) (deadline : ℕ)
      → K w
      → K ((gate link setup.writes).request w cmd payload deadline).0
  through_gate w cmd payload deadline k =
      gate-keeps link setup.writes K keeps w cmd payload deadline k

  clock_check-Kept :
      (t : Thread W P) (r : Round W) (m : UpsMonitor W)
      → K m.ups
      → K (clock_check link clock power message setup t r m).1.ups
  clock_check-Kept t r m k = elim (Bool-cases (leb t.next_clock_check r.instant)) [
    | inl e ↦ rw e (
        check_clock-keeps (gate link setup.writes) clock K through_gate m.ups setup.writes.clock
          r.synced t.clock_log r.times k)
    | inr e ↦ rw e k
  ]

  wake_check-Kept :
      (t : Thread W P) (r : Round W) (m : UpsMonitor W)
      → K m.ups
      → K (wake_check link clock power message setup t r m).1.ups
  wake_check-Kept t r m k = elim (Bool-cases (leb t.next_wake_check r.instant)) [
    | inl e ↦ rw e (
        check_wake-keeps (gate link setup.writes) clock K through_gate m.ups setup.writes.wake
          r.wake_unix t.wake_logged k)
    | inr e ↦ rw e k
  ]

  after_read-Kept :
      (t : Thread W P) (r : Round W) (m : UpsMonitor W) (e : Option Error)
      → K m.ups
      → Kept K (after_read link clock power message setup t r m e).monitor
  after_read-Kept t r m (some x) k = k
  after_read-Kept t r m none k =
      let t0 = record_ups t r t.connected t.seen_file in
      let (t1, m1) = clock_check link clock power message setup t0 r m in
      wake_check-Kept t1 r m1 (clock_check-Kept t0 r m k)

  after_poll-Kept :
      (t : Thread W P) (r : Round W) (m : UpsMonitor W) (cycle : Cycle)
      → K m.ups
      → Kept K (after_poll link clock power message setup t r m cycle).monitor
  after_poll-Kept t r m cycle k =
      elim (Bool-cases (leb reopen_after cycle.poll.consecutive_failures)) [
        | inl b ↦ rw b tt
        | inr b ↦ rw b (after_read-Kept t r m cycle.poll.error k)
      ]

  watch-Kept :
      (t : Thread W P) (r : Round W) (monitor : Option (UpsMonitor W))
      → t.monitor ≡ monitor
      → Kept K monitor
      → Kept K (watch link clock power message setup t r monitor).monitor
  unfolding watch step ups_monitor
  watch-Kept t r none e k = rw e tt
  watch-Kept t r (some m) e k =
      let gated = gate link setup.writes in
      let (m', c', cycle) =
        step (ups_monitor gated (clock m.ups)) power m t.coordinator r.uptime r.now in
      after_poll-Kept (record t { coordinator = c' }) r m' cycle
        (poll-keeps gated clock K through_gate m r.uptime (clock m.ups) k)

  serve-Kept :
      (requests : List (Request × ℕ)) (monitor : Option (UpsMonitor W)) (c : ShutdownCoordinator P)
      → Kept K monitor
      → Kept K (serve_requests link clock power message setup monitor c requests).0
  unfolding serve_requests
  serve-Kept [] monitor c k = k
  serve-Kept (q ∷ requests) none c k = serve-Kept requests none c k
  serve-Kept ((req, now) ∷ requests) (some m) c k = serve-Kept requests (some _) _ (
      handle_request-keeps (gate link setup.writes) clock K through_gate power message m.ups c.power
        req setup.writes.wake now k)

  connect-Kept :
      (t : Thread W P) (r : Round W) (o : Open W)
      → ((w : W) (path : String) → o ≡ opened w path → K w)
      → Kept K t.monitor
      → Kept K (connect link clock power message setup t r o).0.monitor
  connect-Kept t r (opened w path) h k = h w path refl
  connect-Kept t r not_found h k = k
  connect-Kept t r failed h k = k
  connect-Kept t r held h k = k

  ensure-Kept :
      (t : Thread W P) (r : Round W) (monitor : Option (UpsMonitor W))
      → ((path : String) (w : W) → r.ports.open_port path ≡ ok w → K w)
      → Kept K t.monitor
      → Kept K (ensure link clock power message setup t r monitor).0.monitor
  ensure-Kept t r (some m) o k = k
  ensure-Kept t r none o k =
      connect-Kept t r (open_link r.ports setup.port)
        (λ w path e. let (p, f) = open_link-opened r.ports setup.port w path e in o p w f) k

  round-Kept :
      (t : Thread W P) (r : Round W)
      → ((path : String) (w : W) → r.ports.open_port path ≡ ok w → K w)
      → Kept K t.monitor
      → Kept K (round link clock power message setup t r).0.monitor
  unfolding round
  round-Kept t r o k =
      let (t', goes_on) = ensure link clock power message setup t r t.monitor in
      let kept : Kept K t'.monitor = ensure-Kept t r t.monitor o k in
      let watched = watch link clock power message setup t' r t'.monitor in
      elim (Bool-cases goes_on) [
        | inl e ↦ rw e (
            serve-Kept r.requests watched.monitor watched.coordinator
              (watch-Kept t' r t'.monitor refl kept))
        | inr e ↦ rw e kept
      ]

  -- Whatever holds of the links that the rounds open, and is kept by every command that the thread's
  -- permissions let through, holds of the open link after any rounds.
  pub run-Kept :
      (rounds : List (Round W)) (t : Thread W P)
      → Opens K rounds
      → Kept K t.monitor
      → Kept K (run link clock power message setup t rounds).monitor
  unfolding run
  run-Kept [] t o k = k
  run-Kept (r ∷ rounds) t o k =
      run-Kept rounds (round link clock power message setup t r).0 o.1 (round-Kept t r o.0 k)
