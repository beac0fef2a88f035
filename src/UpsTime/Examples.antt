-- ===== src/UpsTime/Examples.antt =====
-- Times of the UPS, and the theorems at them.
use argon_utils.Prelude.{◌≡◌, refl, some, [], ◌∷◌, ok}
use argon_utils.Bcd
use argon_utils.UpsTime.{
  UpsTime, decode_clock, from_unix_seconds, to_unix_seconds, days_from_civil, day_of_year,
  year_of_era,
}
use argon_utils.UpsTime.Dates.{IsDate, from_unix-exact}

-- The last second of a leap day.
abbrev leap_day : UpsTime
leap_day = record { year = 2028; month = 2; day = 29; hour = 23; minute = 59; second = some 59 }

leap_day_from_unix : from_unix_seconds 1_835_481_599 ≡ some leap_day
unfolding from_unix_seconds day_of_year year_of_era
leap_day_from_unix = refl

leap_day_to_unix : to_unix_seconds leap_day ≡ some 1_835_481_599
unfolding to_unix_seconds days_from_civil
leap_day_to_unix = refl

leap_day_decoded : decode_clock (0x28 ∷ 0x02 ∷ 0x29 ∷ 0x23 ∷ 0x59 ∷ 0x59 ∷ []) ≡ ok leap_day
unfolding decode_clock Bcd.decode
leap_day_decoded = refl

from_unix-exact_example : IsDate 2028 2 29 × (to_unix_seconds leap_day ≡ some 1_835_481_599)
from_unix-exact_example = from_unix-exact 1_835_481_599 leap_day leap_day_from_unix
