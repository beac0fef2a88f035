-- ===== src/Housekeeping/Examples.antt =====
-- Checks of the simulated UPS, and the theorems at them.
use argon_utils.Prelude.{ℕ, ◌+◌, ◌≡◌, refl, true, Option, none, some, List, ok, pos, negsuc, arith}
use argon_utils.Bcd
use argon_utils.ClockSync.{judge, to_i64}
use argon_utils.Drift.{Entry, corrected}
use argon_utils.Simulator.{UpsState, default_state, direct, reply, wake_bytes, clock_now}
use argon_utils.Simulator.Faithful.{direct-KeepsSchedule}
use argon_utils.Ups
use argon_utils.Ups.{set_schedule}
use argon_utils.UpsRequest.{read_wake}
use argon_utils.UpsRequest.Schedule.{Holds}
use argon_utils.UpsTime.{
  UpsTime, to_unix_seconds, from_unix_seconds, days_from_civil, day_of_year, year_of_era,
  encode_schedule, decode_schedule, decode_optional_schedule, encode_clock, decode_clock,
}
use argon_utils.Wake.{schedule_for, park_at}
use argon_utils.Housekeeping.{check_wake, check_clock, unknown, Times}
use argon_utils.Housekeeping.Net.{IsSafe, check_wake-IsSafe, check_wake-keeps_accepted}
use argon_utils.Housekeeping.Corrections.{Corrected, check_clock-Corrected}

abbrev instant : UpsState → ℕ
instant s = 0

abbrev held_of : UpsState → List ℕ
held_of s = wake_bytes s.wake

-- 2026-09-18 12:00:00 UTC.
abbrev noon : ℕ
noon = 1_789_732_800

abbrev one_o_clock : UpsTime
one_o_clock = record { year = 2026; month = 9; day = 18; hour = 13; minute = 0; second = none }

abbrev armed : UpsState
armed = record default_state { wake = some one_o_clock }

armed_read : (read_wake (direct 0) instant armed).1 ≡ ok (some one_o_clock)
unfolding Ups.wake direct reply encode_schedule decode_schedule decode_optional_schedule Bcd.encode
    Bcd.decode
armed_read = refl

parking_accepted :
    (Ups.set_schedule (direct 0) (read_wake (direct 0) instant armed).0 park_at 0).1 ≡ ok tt
unfolding Ups.wake set_schedule direct reply encode_schedule decode_schedule Bcd.encode Bcd.decode
parking_accepted = refl

-- Five minutes before it is due.
check_wake-IsSafe_example :
    (left : Option UpsTime) × (decode_optional_schedule
        (held_of (check_wake (direct 0) instant armed true (noon + 3_300) unknown).0)
      ≡ ok left)
    × IsSafe (noon + 3_300) left
check_wake-IsSafe_example =
    check_wake-IsSafe (direct 0) instant held_of (direct-KeepsSchedule 0) armed (noon + 3_300)
      unknown (some one_o_clock) armed_read parking_accepted (omega arith)

asked_for_one : schedule_for (noon + 3_659) noon ≡ ok one_o_clock
unfolding schedule_for from_unix_seconds day_of_year year_of_era
asked_for_one = refl

armed_held : decode_optional_schedule (held_of armed) ≡ ok (some one_o_clock)
unfolding encode_schedule decode_schedule decode_optional_schedule Bcd.encode Bcd.decode
armed_held = refl

check_wake-keeps_accepted_example :
    Holds
      (direct 0)
      instant
      held_of
      (direct-KeepsSchedule 0)
      (check_wake (direct 0) instant armed true (noon + 120) unknown).0
      one_o_clock
check_wake-keeps_accepted_example =
    check_wake-keeps_accepted (direct 0) instant held_of (direct-KeepsSchedule 0) (noon + 3_659)
      noon one_o_clock (noon + 120) armed true unknown asked_for_one (omega arith) armed_held

-- The clock of the simulated UPS is three days behind noon of the 18th.
abbrev times : Times
times = record { checked_at = noon; set_at = noon + 1; after = noon + 1 }

abbrev found : Entry
found = record { unix = noon; offset_s = negsuc 250_199; action = corrected (pos 0) }

correction : (check_clock (direct 0) instant default_state true true times).1 ≡ some found
unfolding check_clock Ups.clock Ups.set_clock direct reply clock_now judge to_i64 from_unix_seconds
    day_of_year year_of_era to_unix_seconds days_from_civil encode_clock decode_clock Bcd.encode
    Bcd.decode
correction = refl

check_clock-Corrected_example :
    Corrected (direct 0) instant default_state true true times (pos 0) found
check_clock-Corrected_example =
    check_clock-Corrected (direct 0) instant times default_state true true (pos 0) found correction
      refl
