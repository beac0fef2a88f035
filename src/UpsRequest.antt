-- ===== src/UpsRequest.antt =====
-- Requests to the UPS thread (crates/argon-daemon/src/ups.rs: `handle_request`, `park`; the requests
-- themselves in crates/argon-device/src/control.rs). Of the texts of the answers the parts that are
-- formatted from values are left out. `unix` times are seconds, logind's are nanoseconds.
pub mod Schedule
pub mod Outcomes
mod Examples
use argon_utils.Prelude.{
  ℕ, ◌*◌, ◌/◌, Bool, true, false, Option, none, some, Result, ok, err, String, ◌+text◌,
  if◌then◌else◌,
}
use argon_utils.I2c.{Error}
use argon_utils.Power.{PowerControl}
use argon_utils.Ups
use argon_utils.Ups.{UpsLink, set_schedule}
use argon_utils.UpsTime.{UpsTime, to_unix_seconds}
use argon_utils.Wake.{RequestError, schedule_for, same_minute, park_at, poweroff_delay}

pub data Request : Type 0 where
  poweroff_with_wake : ℕ → Request

pub data Response : Type 0 where
  poweroff_scheduled : ℕ → ℕ → Response
  error : String → Response

abbrev pub second : ℕ
second = 1_000_000_000

abbrev pub or_zero : Option ℕ → ℕ
or_zero none = 0
or_zero (some s) = s

abbrev pub refusal : RequestError → String
refusal (RequestError.too_soon _) =
    "the wake must be at least 15 min out, so the machine is certainly off first"
refusal RequestError.out_of_range = "the UPS can only hold years 2000 to 2099"

abbrev pub parked_text : Result (Unit {0}) Error → String
parked_text (ok _) = "the wake has been parked (moved to 2097)"
parked_text (err _) = "PARKING THE WAKE ALSO FAILED -- check it with `argonctl rtc`"

-- The pattern `Ok(Some(got)) if same_minute(got, t)`.
abbrev pub reads_back : UpsTime → Result (Option UpsTime) Error → Bool
reads_back t (ok (some got)) = same_minute got t
reads_back t (ok none) = false
reads_back t (err _) = false

-- `instant w` is what `Instant::now()` returns in the state `w` of the link.
module _ {W : Type 0} (link : UpsLink W) (instant : W → ℕ) where
  abbrev pub set_wake : W → UpsTime → W × Result (Unit {0}) Error
  set_wake w t = set_schedule link w t (instant w)

  abbrev pub read_wake : W → W × Result (Option UpsTime) Error
  read_wake w = Ups.wake link w (instant w)

  unfoldable pub park : W → W × String
  park w = let (w', r) = set_wake w park_at in (w', parked_text r)

  module _ {P : Type 0} (power : PowerControl P) (poweroff_message : UpsTime → String) where
    abbrev pub announce : W → P → UpsTime → Result ℕ String → W × P × Response
    announce w p t (ok at) = (w, p, poweroff_scheduled (or_zero (to_unix_seconds t)) (at / second))
    announce w p t (err _) =
        let (w', parked) = park w in
        (
          w',
          p,
          error (
              "the poweroff could not be scheduled; " +text parked
              +text ", so it cannot come due on a running machine"),
        )

    -- After the schedule was read back.
    abbrev pub power_off : W → P → UpsTime → Bool → W × P × Response
    power_off w p t true =
        let (p', answer) =
          power.schedule_poweroff p (poweroff_delay * second) (poweroff_message t) in
        announce w p' t answer
    power_off w p t false =
        let (w', parked) = park w in
        (
          w',
          p,
          error ("the wake did not read back as set; " +text parked +text "; the machine stays on"),
        )

    -- After the schedule was set.
    abbrev pub confirm : W → P → UpsTime → Result (Unit {0}) Error → W × P × Response
    confirm w p t (err _) =
        (w, p, error "setting the wake failed; nothing was scheduled and the machine stays on")
    confirm w p t (ok _) = let (w', got) = read_wake w in power_off w' p t (reads_back t got)

    abbrev pub begin : W → P → Result UpsTime RequestError → W × P × Response
    begin w p (err e) = (w, p, error (refusal e))
    begin w p (ok t) = let (w', answer) = set_wake w t in confirm w' p t answer

    unfoldable pub handle_request : W → P → Request → Bool → ℕ → W × P × Response
    handle_request w p (poweroff_with_wake at) wake_writes now =
        if wake_writes then begin w p (schedule_for at now) else (
          w,
          p,
          error "a scheduled wake is a full-mode operation, and argond is not in mode \"full\"",
        )
