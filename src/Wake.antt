-- ===== src/Wake.antt =====
-- Keeping the wake schedule away from a running machine, and making one
-- (crates/argon-device/src/wake.rs). Times and durations are seconds since 1970.
pub mod Requests
mod Examples
use argon_utils.Prelude.{
  ℕ, ◌+◌, ◌-◌, ◌*◌, ◌%◌, Bool, ◌&&◌, ◌||◌, Option, none, some, Result, ok, err, ltb, leb, ◌==◌,
  if◌then◌else◌,
}
use argon_utils.UpsTime.{UpsTime, to_unix_seconds, from_unix_seconds}

abbrev pub park_at : UpsTime
park_at = record { year = 2097; month = 3; day = 21; hour = 17; minute = 42; second = none }

abbrev pub park_window : ℕ
park_window = 600

abbrev pub check_every : ℕ
check_every = 300

abbrev pub min_lead : ℕ
min_lead = 900

abbrev pub poweroff_delay : ℕ
poweroff_delay = 60

unfoldable pub same_minute : UpsTime → UpsTime → Bool
same_minute a b =
    a.year == b.year
    && (a.month == b.month && (a.day == b.day && (a.hour == b.hour && a.minute == b.minute)))

pub data ParkReason : Type 0 where
  due_soon past unreadable : ParkReason

pub data Assessment : Type 0 where
  nothing : Assessment
  leave : UpsTime → Assessment
  park : UpsTime → ParkReason → Assessment

-- `assess` of a schedule that was found, with its seconds since 1970.
abbrev pub assess_at : UpsTime → Option ℕ → ℕ → Assessment
assess_at found none now = park found unreadable
assess_at found (some at) now =
    if leb at now
    then park found past
    else if leb (at - now) park_window
    then park found due_soon
    else leave found

unfoldable pub assess : Option UpsTime → ℕ → Assessment
assess none now = nothing
assess (some found) now = assess_at found (to_unix_seconds found) now

pub data RequestError : Type 0 where
  too_soon : ℕ → RequestError
  out_of_range : RequestError

abbrev pub without_second : Option UpsTime → Result UpsTime RequestError
without_second none = err out_of_range
without_second (some t) = ok (record t { second = none })

unfoldable pub schedule_for : ℕ → ℕ → Result UpsTime RequestError
schedule_for at now =
    let floored = at - at % 60 in
    let lead = floored - now in
    if leb floored now || ltb lead min_lead
    then err (too_soon lead)
    else without_second (from_unix_seconds floored)
