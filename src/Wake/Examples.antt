-- ===== src/Wake/Examples.antt =====
-- Wake schedules, and the theorems at them.
use argon_utils.Prelude.{ℕ, ◌+◌, ◌≡◌, refl, none, some, ok}
use argon_utils.UpsTime.{
  UpsTime, to_unix_seconds, from_unix_seconds, days_from_civil, day_of_year, year_of_era,
}
use argon_utils.Wake.{assess, schedule_for, park, due_soon}

-- 2026-09-18 12:00:00 UTC.
abbrev noon : ℕ
noon = 1_789_732_800

abbrev one_o_clock : UpsTime
one_o_clock = record { year = 2026; month = 9; day = 18; hour = 13; minute = 0; second = none }

asked_for_one : schedule_for (noon + 3_659) noon ≡ ok one_o_clock
unfolding schedule_for from_unix_seconds day_of_year year_of_era
asked_for_one = refl

parked_when_close : assess (some one_o_clock) (noon + 3_000) ≡ park one_o_clock due_soon
unfolding assess to_unix_seconds days_from_civil
parked_when_close = refl
