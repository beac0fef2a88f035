-- ===== src/Ups.antt =====
-- The UPS over its serial link (crates/argon-device/src/ups.rs): the gate that lets only permitted
-- commands through, the queries and settings, and the watch over the battery. The trait `UpsLink` is an
-- operation on a state of the link; instants are nanoseconds, and `now` is what `Instant::now()` returns.
pub mod Gated
pub mod Watching
mod Examples
use argon_utils.Prelude.{
  ℕ, ◌+◌, ◌*◌, ◌&&◌, ◌||◌, min, Bool, true, false, Option, none, some, List, [], ◌∷◌, Result, ok,
  err, ◌>>=◌, map_err, if◌then◌else◌,
}
use argon_utils.Battery
use argon_utils.Battery.{BatteryStatus, DecodeError}
use argon_utils.Command.{
  Command, is_query, battery_status, charge_current, set_rtc, firmware_version, get_rtc, set_wake,
  get_wake,
}
use argon_utils.Frame.{Frame}
use argon_utils.I2c.{Error, write_blocked, parse}
use argon_utils.Policy
use argon_utils.Policy.{BatteryPolicy, Observation, Decision}
use argon_utils.UpsTime.{
  UpsTime, decode_clock, decode_optional_schedule, encode_clock, encode_schedule,
}

-- Two seconds.
abbrev pub request_deadline : ℕ
request_deadline = 2_000_000_000

pub record UpsLink (W : Type 0) : Type 0 where
  pub request : W → Command → List ℕ → ℕ → W × Result Frame Error

pub record Writes : Type 0 where
  pub clock : Bool
  pub wake : Bool

abbrev pub no_writes : Writes
no_writes = record { clock = false; wake = false }

abbrev pub clock_writes : Writes
clock_writes = record { clock = true; wake = false }

abbrev pub is_set_rtc : Command → Bool
is_set_rtc set_rtc = true
is_set_rtc _ = false

abbrev pub is_set_wake : Command → Bool
is_set_wake set_wake = true
is_set_wake _ = false

-- `Gate::allows`.
unfoldable pub allows : Writes → Command → Bool
allows writes cmd =
    is_query cmd || (writes.clock && is_set_rtc cmd || writes.wake && is_set_wake cmd)

module _ {W : Type 0} (link : UpsLink W) where
  -- `QueryOnly`, on the same state.
  unfoldable pub query_only : UpsLink W
  query_only = record {
    request = λ w cmd payload deadline.
        if is_query cmd
        then link.request w cmd payload deadline
        else (w, err (write_blocked "only side-effect-free queries are allowed on this link"));
  }

  -- `Gate`, on the same state.
  unfoldable pub gate : Writes → UpsLink W
  gate writes = record {
    request = λ w cmd payload deadline.
        if allows writes cmd
        then link.request w cmd payload deadline
        else (w, err (write_blocked "not permitted by this link's gate"));
  }

abbrev pub decode_err : DecodeError → Error
decode_err e = parse "a UPS reply"

abbrev pub firmware_of : List ℕ → Result ℕ Error
firmware_of (v ∷ []) = ok v
firmware_of _ = err (parse "a firmware version")

abbrev pub empty_reply : List ℕ → Result (Unit {0}) Error → Result (Unit {0}) Error
empty_reply [] refusal = ok tt
empty_reply (_ ∷ _) refusal = refusal

-- `u16::from_be_bytes`.
abbrev pub current_of : List ℕ → Result ℕ Error
current_of (hi ∷ lo ∷ []) = ok (hi * 256 + lo)
current_of _ = err (parse "a charge current")

module _ {W : Type 0} (link : UpsLink W) where
  abbrev pub query : W → Command → ℕ → W × Result Frame Error
  query w cmd now = link.request w cmd [] (now + request_deadline)

  unfoldable pub battery : W → ℕ → W × Result BatteryStatus Error
  battery w now =
      let (w', f) = query w battery_status now in
      (w', (f >>= λ f. map_err decode_err (Battery.decode f.payload)))

  unfoldable pub firmware : W → ℕ → W × Result ℕ Error
  firmware w now =
      let (w', f) = query w firmware_version now in (w', (f >>= λ f. firmware_of f.payload))

  unfoldable pub clock : W → ℕ → W × Result UpsTime Error
  clock w now =
      let (w', f) = query w get_rtc now in
      (w', (f >>= λ f. map_err decode_err (decode_clock f.payload)))

  abbrev pub send : W → Command → Result (List ℕ) Error → Error → ℕ → W × Result (Unit {0}) Error
  send w cmd (err e) refusal now = (w, err e)
  send w cmd (ok payload) refusal now =
      let (w', f) = link.request w cmd payload (now + request_deadline) in
      (w', (f >>= λ f. empty_reply f.payload (err refusal)))

  unfoldable pub set_clock : W → UpsTime → ℕ → W × Result (Unit {0}) Error
  set_clock w t now =
      send w set_rtc (map_err decode_err (encode_clock t))
        (parse "the reply to a clock set (expected an empty payload)") now

  unfoldable pub set_schedule : W → UpsTime → ℕ → W × Result (Unit {0}) Error
  set_schedule w t now =
      send w set_wake (map_err decode_err (encode_schedule t))
        (parse "the reply to a wake set (expected an empty payload)") now

  unfoldable pub wake : W → ℕ → W × Result (Option UpsTime) Error
  wake w now =
      let (w', f) = query w get_wake now in
      (w', (f >>= λ f. map_err decode_err (decode_optional_schedule f.payload)))

  unfoldable pub charge_current_raw : W → ℕ → W × Result ℕ Error
  charge_current_raw w now =
      let (w', f) = query w charge_current now in (w', (f >>= λ f. current_of f.payload))

pub record Poll : Type 0 where
  pub battery : Option BatteryStatus
  pub error : Option Error
  pub decision : Decision
  pub consecutive_failures : ℕ

pub record Watch : Type 0 where
  pub policy : BatteryPolicy
  pub failures : ℕ

-- `Watch::new`.
abbrev pub new_watch : BatteryPolicy → Watch
new_watch policy = record { policy = policy; failures = 0 }

-- The largest u32.
abbrev pub max_u32 : ℕ
max_u32 = 4_294_967_295

-- `Watch::observe`.
unfoldable pub observe : Watch → Result BatteryStatus Error → ℕ → Watch × Poll
observe watch (ok b) uptime =
    let seen : Observation = record { percent = b.percent; source = b.source } in
    let (policy, decision) = Policy.observe watch.policy (some seen) uptime in
    (
      record { policy = policy; failures = 0 },
      record { battery = some b; error = none; decision = decision; consecutive_failures = 0 },
    )
observe watch (err e) uptime =
    let failures = min (watch.failures + 1) max_u32 in
    let (policy, decision) = Policy.observe watch.policy none uptime in
    (
      record { policy = policy; failures = failures },
      record {
        battery = none;
        error = some e;
        decision = decision;
        consecutive_failures = failures;
      },
    )

pub record UpsMonitor (W : Type 0) : Type 0 where
  pub ups : W
  pub watch : Watch

-- `UpsMonitor::poll`.
unfoldable pub poll : {W : Type 0} → UpsLink W → UpsMonitor W → ℕ → ℕ → UpsMonitor W × Poll
poll link monitor uptime now =
    let (ups, reading) = battery link monitor.ups now in
    let (watch, answer) = observe monitor.watch reading uptime in
    (record { ups = ups; watch = watch }, answer)
