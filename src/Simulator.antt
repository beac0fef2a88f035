-- ===== src/Simulator.antt =====
-- The simulated UPS that the repository tests against (crates/argon-sim/src/ups.rs): `UpsSim` with its
-- faults, `respond`, and the loop over the bytes of `serve_until`. Instants are nanoseconds; the pause between dribbled bytes is left out.
pub mod Faithful
pub mod Wire
mod Examples
use argon_utils.Prelude.{
  take, ℕ, ◌+◌, ◌-◌, ◌*◌, ◌/◌, ◌%◌, ◌&&◌, bit_xor, Bool, true, false, Option, none, some, List, [],
  ◌∷◌, ◌++◌, replicate, Result, ok, err, ltb, ◌==◌, if◌then◌else◌,
}
use argon_utils.Command.{
  Command, as_byte, from_byte, battery_status, charge_current, firmware_version, get_rtc, get_wake,
  set_rtc, set_wake, reset_meter, acknowledge,
}
use argon_utils.Frame
use argon_utils.Frame.{Frame, encode_into}
use argon_utils.Frame.Reader.{FrameReader, Event, push}
use argon_utils.Ups.{UpsLink}
use argon_utils.UpsTime.{
  UpsTime, to_unix_seconds, from_unix_seconds, encode_clock, encode_schedule, decode_clock,
  decode_schedule,
}

pub record UpsState : Type 0 where
  pub percent : ℕ
  pub charging_byte : ℕ
  pub firmware : ℕ
  pub clock : UpsTime
  pub wake : Option UpsTime
  pub charge_current_raw : ℕ

abbrev pub default_state : UpsState
default_state = record {
  percent = 93;
  charging_byte = 0;
  firmware = 113;
  clock = record { year = 2026; month = 9; day = 15; hour = 14; minute = 30; second = some 0 };
  wake = none;
  charge_current_raw = 0;
}

pub record Faults : Type 0 where
  pub junk_prefix : ℕ
  pub corrupt_every : ℕ
  pub silent : Bool
  pub ignore_clock_set : Bool
  pub ignore_wake_set : Bool

abbrev pub no_faults : Faults
no_faults = record {
  junk_prefix = 0;
  corrupt_every = 0;
  silent = false;
  ignore_clock_set = false;
  ignore_wake_set = false;
}

pub record UpsSim : Type 0 where
  pub state : UpsState
  pub faults : Faults
  pub responses : ℕ
  pub clock_set_at : ℕ

abbrev pub with_faults : UpsState → Faults → ℕ → UpsSim
with_faults state faults now = record {
  state = state;
  faults = faults;
  responses = 0;
  clock_set_at = now;
}

abbrev pub moved_on : UpsTime → Option ℕ → ℕ → Option UpsTime
moved_on t none elapsed = none
moved_on t (some s) elapsed = from_unix_seconds (s + elapsed / 1_000_000_000)

abbrev pub time_or : Option UpsTime → UpsTime → UpsTime
time_or none t = t
time_or (some u) t = u

unfoldable pub clock_now : UpsSim → ℕ → UpsTime
clock_now sim now =
    time_or (moved_on sim.state.clock (to_unix_seconds sim.state.clock) (now - sim.clock_set_at))
      sim.state.clock

-- `unwrap_or`.
abbrev pub bytes_or : {E : Type 0} → Result (List ℕ) E → List ℕ → List ℕ
bytes_or (ok b) d = b
bytes_or (err _) d = d

abbrev pub wake_bytes : Option UpsTime → List ℕ
wake_bytes none = []
wake_bytes (some w) = bytes_or (encode_schedule w) (replicate 5 0)

abbrev pub store_clock : {E : Type 0} → UpsSim → ℕ → Result UpsTime E → UpsSim
store_clock sim now (err _) = sim
store_clock sim now (ok t) =
    if sim.faults.ignore_clock_set
    then sim
    else record sim { state = record sim.state { clock = t }; clock_set_at = now }

abbrev pub store_wake : {E : Type 0} → UpsSim → Result UpsTime E → UpsSim
store_wake sim (err _) = sim
store_wake sim (ok t) =
    if sim.faults.ignore_wake_set
    then sim
    else record sim { state = record sim.state { wake = some t } }

-- The match of `respond`: the simulator after a command, and the payload of its reply.
unfoldable pub reply : UpsSim → ℕ → Command → List ℕ → UpsSim × List ℕ
reply sim now battery_status payload = (sim, sim.state.percent ∷ sim.state.charging_byte ∷ [])
reply sim now charge_current payload =
    (sim, (sim.state.charge_current_raw / 256) ∷ (sim.state.charge_current_raw % 256) ∷ [])
reply sim now firmware_version payload = (sim, sim.state.firmware ∷ [])
reply sim now get_rtc payload = (sim, bytes_or (encode_clock (clock_now sim now)) (replicate 6 0))
reply sim now get_wake payload = (sim, wake_bytes sim.state.wake)
reply sim now set_rtc payload = (store_clock sim now (decode_clock payload), [])
reply sim now set_wake payload = (store_wake sim (decode_schedule payload), [])
reply sim now reset_meter payload = (sim, [])
reply sim now acknowledge payload = (sim, [])

-- Every `n`th response has its last byte changed.
abbrev pub is_corrupt : ℕ → ℕ → Bool
is_corrupt every responses = ltb 0 every && responses % every == 0

abbrev pub corrupted : List ℕ → List ℕ
corrupted [] = []
corrupted (b ∷ []) = bit_xor b 0xff ∷ []
corrupted (b ∷ c ∷ more) = b ∷ corrupted (c ∷ more)

-- The bytes of a response, with the faults, and the simulator that has counted it.
abbrev pub emit : UpsSim → List ℕ → UpsSim × List ℕ
emit sim out =
    let counted = record sim { responses = sim.responses + 1 } in
    let junk = replicate sim.faults.junk_prefix 0xab in
    if is_corrupt sim.faults.corrupt_every counted.responses
    then (counted, junk ++ corrupted out)
    else (counted, junk ++ out)

abbrev pub sent : UpsSim → List ℕ × Result ℕ Frame.FrameError → UpsSim × List ℕ
sent sim (out, err _) = (sim, [])
sent sim (out, ok n) = emit sim (take n out)

abbrev pub framed : UpsSim → Result Frame Frame.FrameError → UpsSim × List ℕ
framed sim (err _) = (sim, [])
framed sim (ok f) = sent sim (encode_into f (replicate 260 0))

abbrev pub respond_to : UpsSim → ℕ → Frame → Option Command → UpsSim × List ℕ
respond_to sim now request none = (sim, [])
respond_to sim now request (some cmd) =
    let (sim', payload) = reply sim now cmd request.payload in
    framed sim' (Frame.new request.cmd payload)

-- `respond`: what it writes to the stream.
unfoldable pub respond : UpsSim → ℕ → Frame → UpsSim × List ℕ
respond sim now request =
    if sim.faults.silent then (sim, []) else respond_to sim now request (from_byte request.cmd)

-- The source's `UpsSim` with its reader; only the loop over the bytes uses that.
pub record Served : Type 0 where
  pub sim : UpsSim
  pub reader : FrameReader

abbrev pub answer_event : UpsSim → ℕ → Event → UpsSim × List ℕ
answer_event sim now none = (sim, [])
answer_event sim now (some (err _)) = (sim, [])
answer_event sim now (some (ok request)) = respond sim now request

-- The loop of `serve_until` over the bytes of a read, at the time `now`: what it writes to the stream.
unfoldable pub serve : Served → ℕ → List ℕ → Served × List ℕ
serve s now [] = (s, [])
serve s now (b ∷ bytes) =
    let (reader, event) = push s.reader b in
    let (sim, wire) = answer_event s.sim now event in
    let (s', more) = serve (record { sim = sim; reader = reader }) now bytes in (s', wire ++ more)

-- The simulator with no faults, on its state, where every reply arrives.
unfoldable pub direct : ℕ → UpsLink UpsState
direct now = record {
  request = λ state cmd payload deadline.
      let (sim, answer) = reply (with_faults state no_faults now) now cmd payload in
      (sim.state, ok (record { cmd = as_byte cmd; payload = answer }));
}
