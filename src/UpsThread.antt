-- ===== src/UpsThread.antt =====
-- The loop of the daemon's UPS thread (crates/argon-daemon/src/ups.rs: `run`, `serve_requests`,
-- `sleep_unless`). Logs are left out, and the flags that keep one from being repeated. Times are
-- nanoseconds unless named `unix`.
pub mod Keeps
pub mod Rounds
pub mod Inert
pub mod DryRun
pub mod Sleep
mod Examples
use argon_utils.Prelude.{
  ℕ, ◌+◌, ◌*◌, Bool, true, false, Option, none, some, List, [], ◌∷◌, String, leb, if◌then◌else◌,
}
use argon_utils.Drift.{Entry}
use argon_utils.Housekeeping.{Seen, unknown, Times, check_wake, check_and_record_clock}
use argon_utils.I2c.{Error}
use argon_utils.Power.{PowerControl, ShutdownCoordinator, new}
use argon_utils.Service.{UpsStatus, ups_monitor, step, Cycle}
use argon_utils.Ups.{UpsLink, UpsMonitor, gate, new_watch}
use argon_utils.UpsRequest.{Request, Response, error, handle_request}
use argon_utils.UpsSeen
use argon_utils.UpsSeen.{SeenUps, Recorder, remember, absence}
use argon_utils.UpsStart.{Setup, Open, opened, not_found, failed, held, Ports, open_link}
use argon_utils.UpsTime.{UpsTime}
use argon_utils.Wake.{check_every}

abbrev pub reopen_after : ℕ
reopen_after = 3

abbrev pub second : ℕ
second = 1_000_000_000

-- What the thread keeps from one round to the next. `seen_file` and `clock_log` are its two files,
-- none where there is no state directory, and `published` the status that it shares.
pub record Thread (W P : Type 0) : Type 0 where
  pub monitor : Option (UpsMonitor W)
  pub coordinator : ShutdownCoordinator P
  pub connected : Option SeenUps
  pub recorder : Recorder
  pub seen_file : Option (Option SeenUps)
  pub clock_log : Option (List Entry)
  pub next_clock_check : ℕ
  pub next_wake_check : ℕ
  pub wake_logged : Seen
  pub published : Option UpsStatus

-- What one round meets: the ports, the uptime, the time by the system's clock and by the monotonic one,
-- whether the system's clock is synchronised, and the requests that wait, each with the time it is
-- handled at.
pub record Round (W : Type 0) : Type 0 where
  pub ports : Ports W
  pub identity : String → SeenUps
  pub uptime : ℕ
  pub now : ℕ
  pub instant : ℕ
  pub synced : Bool
  pub times : Times
  pub wake_unix : ℕ
  pub writable : Bool
  pub requests : List (Request × ℕ)

-- The thread before its first round, at the monotonic time `instant`.
abbrev pub start :
    {W P : Type 0} → Setup → P → Option (Option SeenUps) → Option (List Entry) → ℕ → Thread W P
start setup power seen_file clock_log instant = record {
  monitor = none;
  coordinator = new power setup.delay setup.dry_run;
  connected = none;
  recorder = UpsSeen.new;
  seen_file = seen_file;
  clock_log = clock_log;
  next_clock_check = instant;
  next_wake_check = instant;
  wake_logged = unknown;
  published = none;
}

abbrev pub loaded : Option (Option SeenUps) → Option SeenUps
loaded none = none
loaded (some file) = file

-- The record of the UPS that is read, where there is a file for it.
abbrev pub record_ups :
    {W P : Type 0} → Thread W P → Round W → Option SeenUps → Option (Option SeenUps) → Thread W P
record_ups t r none file = t
record_ups t r (some ups) none = t
record_ups t r (some ups) (some file) =
    let m =
      remember (record { connected = ups; recorder = t.recorder; file = file }) r.writable r.now in
    record t { connected = some m.connected; recorder = m.recorder; seen_file = some m.file }

-- `link` is the link to the UPS, through which the thread goes by its gate; `clock w` is what
-- `Instant::now()` returns in the state `w` of the link.
module _ {W P : Type 0} (link : UpsLink W) (clock : W → ℕ) (power : PowerControl P)
    (poweroff_message : UpsTime → String) (setup : Setup) where
  -- What is made of the port: false where another holds it, and the round ends.
  abbrev pub connect : Thread W P → Round W → Open W → Thread W P × Bool
  connect t r (opened w path) = (
    record t {
      monitor = some (record { ups = w; watch = new_watch setup.policy });
      connected = some (r.identity path);
    },
    true,
  )
  connect t r not_found = (record t { published = some (absence (loaded t.seen_file) r.now) }, true)
  connect t r failed = (t, true)
  connect t r held = (t, false)

  abbrev pub ensure : Thread W P → Round W → Option (UpsMonitor W) → Thread W P × Bool
  ensure t r (some m) = (t, true)
  ensure t r none = connect t r (open_link r.ports setup.port)

  abbrev pub clock_check : Thread W P → Round W → UpsMonitor W → Thread W P × UpsMonitor W
  clock_check t r m =
      if leb t.next_clock_check r.instant
      then (let (w, log, again) =
            check_and_record_clock (gate link setup.writes) clock m.ups setup.writes.clock
              t.clock_log r.synced r.times in
          (
            record t { clock_log = log; next_clock_check = r.instant + again * second },
            record m { ups = w },
          ))
      else (t, m)

  abbrev pub wake_check : Thread W P → Round W → UpsMonitor W → Thread W P × UpsMonitor W
  wake_check t r m =
      if leb t.next_wake_check r.instant
      then (let (w, logged) =
            check_wake (gate link setup.writes) clock m.ups setup.writes.wake r.wake_unix
              t.wake_logged in
          (
            record t { wake_logged = logged; next_wake_check = r.instant + check_every * second },
            record m { ups = w },
          ))
      else (t, m)

  -- After a read that succeeded.
  abbrev pub housekeeping : Thread W P → Round W → UpsMonitor W → Thread W P
  housekeeping t r m =
      let (t1, m1) = clock_check (record_ups t r t.connected t.seen_file) r m in
      let (t2, m2) = wake_check t1 r m1 in record t2 { monitor = some m2 }

  abbrev pub after_read : Thread W P → Round W → UpsMonitor W → Option Error → Thread W P
  after_read t r m none = housekeeping t r m
  after_read t r m (some _) = record t { monitor = some m }

  abbrev pub after_poll : Thread W P → Round W → UpsMonitor W → Cycle → Thread W P
  after_poll t r m cycle =
      if leb reopen_after cycle.poll.consecutive_failures
      then record t { monitor = none }
      else after_read t r m cycle.poll.error

  unfoldable pub watch : Thread W P → Round W → Option (UpsMonitor W) → Thread W P
  watch t r none = t
  watch t r (some m) =
      let (m', c', cycle) =
        step (ups_monitor (gate link setup.writes) (clock m.ups)) power m t.coordinator r.uptime
          r.now in
      record (after_poll (record t { coordinator = c' }) r m' cycle) {
        published = some cycle.status;
      }

  -- `serve_requests`: what it leaves, and the answers in their order.
  unfoldable pub serve_requests :
      Option (UpsMonitor W)
      → ShutdownCoordinator P
      → List (Request × ℕ)
      → Option (UpsMonitor W) × ShutdownCoordinator P × List Response
  serve_requests monitor c [] = (monitor, c, [])
  serve_requests none c (q ∷ requests) =
      let (m', c', answers) = serve_requests none c requests in
      (m', c', error "the UPS is not reachable right now; nothing was done" ∷ answers)
  serve_requests (some m) c ((req, now) ∷ requests) =
      let (w, p, answer) =
        handle_request (gate link setup.writes) clock power poweroff_message m.ups c.power req
          setup.writes.wake now in
      let (m', c', answers) =
        serve_requests (some (record m { ups = w })) (record c { power = p }) requests in
      (m', c', answer ∷ answers)

  abbrev pub serve : Thread W P → List (Request × ℕ) → Thread W P × List Response
  serve t requests =
      let (m, c, answers) = serve_requests t.monitor t.coordinator requests in
      (record t { monitor = m; coordinator = c }, answers)

  -- One round of the loop of `run`, up to the sleep.
  unfoldable pub round : Thread W P → Round W → Thread W P × List Response
  round t r =
      let (t', goes_on) = ensure t r t.monitor in
      if goes_on then serve (watch t' r t'.monitor) r.requests else (t', [])

  unfoldable pub run : Thread W P → List (Round W) → Thread W P
  run t [] = t
  run t (r ∷ rounds) = run (round t r).0 rounds
