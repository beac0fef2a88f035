-- ===== src/UpsRequest/Examples.antt =====
-- Requests to the simulated UPS, and the theorems at them.
use argon_utils.Prelude.{some, ℕ, ◌+◌, ◌≡◌, refl, true, none, List, ok, err, if◌then◌else◌, String}
use argon_utils.Bcd
use argon_utils.Command.{as_byte, is_query}
use argon_utils.I2c.{timeout}
use argon_utils.Power.Logind.{World, world_logind, world-IsLogind, Standing}
use argon_utils.Simulator.{UpsState, default_state, direct, reply, wake_bytes}
use argon_utils.Simulator.Faithful.{direct-KeepsSchedule}
use argon_utils.Ups.{UpsLink, set_schedule, wake}
use argon_utils.UpsTime.{
  UpsTime, to_unix_seconds, from_unix_seconds, days_from_civil, day_of_year, year_of_era,
  encode_schedule, decode_schedule, decode_optional_schedule,
}
use argon_utils.Wake.{schedule_for, same_minute}
use argon_utils.UpsRequest.{handle_request, poweroff_with_wake, poweroff_scheduled, error}
use argon_utils.UpsRequest.Outcomes.{Ended, request_outcome}

abbrev instant : UpsState → ℕ
instant s = 0

abbrev held_of : UpsState → List ℕ
held_of s = wake_bytes s.wake

abbrev message : UpsTime → String
message t = "Powering off."

abbrev idle : World
idle = record { standing = none; readable = true; willing = true; clock = 1000 }

abbrev standing_of : World → Standing
standing_of w = w.standing

-- 2026-09-18 12:00:00 UTC, and an hour and a bit later.
abbrev noon : ℕ
noon = 1_789_732_800

asked_for_one :
    (handle_request
      (direct 0)
      instant
      world_logind
      message
      default_state
      idle
      (poweroff_with_wake (noon + 3_659))
      true
      noon).2
    ≡ poweroff_scheduled (noon + 3_600) 60
unfolding handle_request schedule_for from_unix_seconds day_of_year year_of_era set_schedule wake
    direct reply encode_schedule decode_schedule decode_optional_schedule same_minute
    to_unix_seconds days_from_civil Bcd.encode Bcd.decode as_byte
asked_for_one = refl

request_outcome_example :
    let (w, p, r) =
      handle_request
        (direct 0)
        instant
        world_logind
        message
        default_state
        idle
        (poweroff_with_wake (noon + 3_659))
        true
        noon in
    Ended
      (direct 0)
      instant
      held_of
      (direct-KeepsSchedule 0)
      world_logind
      standing_of
      world-IsLogind
      message
      (noon + 3_659)
      noon
      default_state
      none
      w
      p
      r
request_outcome_example =
    request_outcome (direct 0) instant held_of (direct-KeepsSchedule 0) world_logind standing_of
      world-IsLogind message (noon + 3_659) noon default_state idle true

-- A UPS whose replies to a setting are lost.
abbrev lossy : UpsLink UpsState
lossy = record {
  request = λ s cmd payload deadline.
      if is_query cmd
      then (direct 0).request s cmd payload deadline
      else (((direct 0).request s cmd payload deadline).0, err timeout);
}

abbrev one_o_clock : UpsTime
one_o_clock = record { year = 2026; month = 9; day = 18; hour = 13; minute = 0; second = none }

accepted : schedule_for (noon + 3_659) noon ≡ ok one_o_clock
unfolding schedule_for from_unix_seconds day_of_year year_of_era
accepted = refl

setting_lost : (set_schedule lossy default_state one_o_clock 0).1 ≡ err timeout
unfolding set_schedule is_query encode_schedule Bcd.encode
setting_lost = refl

-- The reply to the setting is lost, but the UPS has taken the wake up: it stays live.
lost_reply :
    let (w, p, r) =
      handle_request lossy instant world_logind message default_state idle
        (poweroff_with_wake (noon + 3_659))
        true
        noon in
    (r ≡ error "setting the wake failed; nothing was scheduled and the machine stays on")
    × (p ≡ idle)
    × (w.wake ≡ some one_o_clock)
unfolding handle_request schedule_for from_unix_seconds day_of_year year_of_era set_schedule
    is_query direct reply encode_schedule decode_schedule decode_optional_schedule Bcd.encode
    Bcd.decode
lost_reply = (refl, refl, refl)
