-- ===== src/ClockSync/Examples.antt =====
-- Clocks that are judged, and the theorems at them.
use argon_utils.Prelude.{ℕ, ◌+◌, ◌≡◌, refl, true, some, List, ok, negsuc, sub_ℕ, arith}
use argon_utils.UpsTime.{
  UpsTime, encode_clock, decode_clock, to_unix_seconds, from_unix_seconds, days_from_civil,
  day_of_year, year_of_era,
}
use argon_utils.ClockSync.{judge, in_sync, correct}
use argon_utils.ClockSync.Verdicts.{corrected_is_in_sync}

-- 2026-09-18 12:00:00 UTC.
abbrev noon : ℕ
noon = 1_789_732_800

abbrev clock : UpsTime
clock = record { year = 2026; month = 9; day = 18; hour = 12; minute = 0; second = some 0 }

noon_is : from_unix_seconds noon ≡ some clock
unfolding from_unix_seconds day_of_year year_of_era
noon_is = refl

late_by_three : judge clock (noon + 3) true ≡ correct (negsuc 2)
unfolding judge to_unix_seconds days_from_civil
late_by_three = refl

corrected_is_in_sync_example :
    (bytes : List ℕ) × (u : UpsTime) × (encode_clock clock ≡ ok bytes)
    × (decode_clock bytes ≡ ok u)
    × (judge u (noon + 2) true ≡ in_sync (sub_ℕ noon (noon + 2)))
corrected_is_in_sync_example =
    corrected_is_in_sync noon clock (noon + 2) true noon_is (omega arith) (omega arith)
      (omega arith)
