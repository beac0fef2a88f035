-- ===== src/UpsTime/Dates.antt =====
-- Dates of the calendar and days since 1970: from a date to its day and back.
use argon_utils.Prelude.{
  ℕ, ◌+◌, ◌-◌, ◌*◌, ◌/◌, ◌%◌, ◌≤◌, ◌<◌, ◌≡◌, ◌∙◌, ap, sym, refl, arith, some, true, Option, none,
  Bool, not, ◌&&◌, ◌||◌, ltb, ◌==◌, if◌then◌else◌,
}
use mathlib.Core.Path.{ap₂}
use argon_utils.UpsTime.{
  year_of_era, day_of_year, days_from_civil, from_unix_seconds, to_unix_seconds, UpsTime,
  seconds_or_zero,
}
use argon_utils.UpsTime.Calendar.{
  day_of_year-le, to_unix-from_unix, date_at, date_of, month_of, carry,
}

-- The Gregorian calendar.
abbrev pub is_leap : ℕ → Bool
is_leap y = y % 4 == 0 && (not (y % 100 == 0) || y % 400 == 0)

abbrev pub days_in_month : ℕ → ℕ → ℕ
days_in_month y m =
    if m == 2
    then (if is_leap y then 29 else 28)
    else if m == 4 || (m == 6 || (m == 9 || m == 11))
    then 30
    else 31

-- The year of an era that a day belongs to is found by its formula.
year_of_era_lem :
    (yoe doy : ℕ)
    → yoe ≤ 399
    → doy ≤ 364
    → year_of_era (yoe * 365 + yoe / 4 - yoe / 100 + doy) ≡ yoe
unfolding year_of_era
year_of_era_lem yoe doy y d = omega arith

-- The last day of a year that ends in a leap day. Years are counted from March, so the leap day
-- of the next year's number ends this one.
year_of_era_leap :
    (yoe : ℕ)
    → yoe ≤ 399
    → is_leap (yoe + 1) ≡ true
    → year_of_era (yoe * 365 + yoe / 4 - yoe / 100 + 365) ≡ yoe
unfolding year_of_era
year_of_era_leap yoe y l = ground arith

-- A day of the year as it is counted here: the 366th only before a March of a leap year.
abbrev IsDayOf : ℕ → ℕ → Type 0
IsDayOf yoe doy = (doy ≤ 365) × (doy ≡ 365 → is_leap (yoe + 1) ≡ true)

year_of_era-of_day :
    (yoe doy : ℕ)
    → yoe ≤ 399
    → IsDayOf yoe doy
    → year_of_era (yoe * 365 + yoe / 4 - yoe / 100 + doy) ≡ yoe
year_of_era-of_day yoe doy y (d, leap) =
    ground (arith, year_of_era_lem yoe doy, year_of_era_leap yoe)

day_of_year-of_day :
    (yoe doy : ℕ)
    → yoe ≤ 399
    → IsDayOf yoe doy
    → day_of_year (yoe * 365 + yoe / 4 - yoe / 100 + doy) ≡ doy
unfolding day_of_year
day_of_year-of_day yoe doy y d = rw (year_of_era-of_day yoe doy y d) (omega arith)

abbrev month_index : ℕ → ℕ
month_index month = if ltb 2 month then month - 3 else month + 9

abbrev day_index : ℕ → ℕ → ℕ
day_index month day = (153 * month_index month + 2) / 5 + day - 1

pub record IsDate (year month day : ℕ) : Type 0 where
  pub month_pos : 1 ≤ month
  pub month_le : month ≤ 12
  pub day_pos : 1 ≤ day
  pub day_le : day ≤ days_in_month year month

month_index-of_day :
    (year month day : ℕ)
    → IsDate year month day
    → (5 * day_index month day + 2) / 153 ≡ month_index month
month_index-of_day year month day v = ground arith

month_of-month_index : (m : ℕ) → 1 ≤ m → m ≤ 12 → month_of (month_index m) ≡ m
month_of-month_index m p q = ground arith

day_index-IsDayOf :
    (year month day : ℕ)
    → 2000 ≤ year
    → IsDate year month day
    → IsDayOf ((year - carry month) % 400) (day_index month day)
day_index-IsDayOf year month day y v = (ground arith, ground arith)

date_of-split :
    (era doe : ℕ)
    → doe < 146_097
    → 719_468 ≤ era * 146_097 + doe
    → date_of (era * 146_097 + doe - 719_468) ≡ date_at era doe
date_of-split era doe h k = ap₂ date_at (omega arith) (omega arith)

-- The day of a date, by its era and the year in it.
abbrev day_of_era : ℕ → ℕ → ℕ → ℕ
day_of_era year month day =
    let yoe = (year - carry month) % 400 in yoe * 365 + yoe / 4 - yoe / 100 + day_index month day

days_from_civil-split :
    (year month day : ℕ)
    → days_from_civil year month day
      ≡ (year - carry month) / 400 * 146_097 + day_of_era year month day - 719_468
unfolding days_from_civil
days_from_civil-split year month day = ground arith

date_at-day_of_era :
    (year month day : ℕ)
    → 2000 ≤ year
    → IsDate year month day
    → date_at ((year - carry month) / 400) (day_of_era year month day) ≡ (year, month, day)
date_at-day_of_era year month day y v =
    let yoe = (year - carry month) % 400 in
    let d = day_index-IsDayOf year month day y v in
    ground (
      arith,
      year_of_era-of_day yoe (day_index month day) (omega arith) d,
      day_of_year-of_day yoe (day_index month day) (omega arith) d,
      month_index-of_day year month day v,
    )

pub date_of-days_from_civil :
    (year month day : ℕ)
    → 2000 ≤ year
    → IsDate year month day
    → date_of (days_from_civil year month day) ≡ (year, month, day)
date_of-days_from_civil year month day y v =
    ap date_of (days_from_civil-split year month day)
    ∙ date_of-split ((year - carry month) / 400) (day_of_era year month day) (ground arith)
        (ground arith)
    ∙ date_at-day_of_era year month day y v

-- The time of a date and a second of its day.
abbrev time_of : ℕ × ℕ × ℕ → ℕ → Option UpsTime
time_of (year, month, day) rem =
    if ltb year 2000 || ltb 2099 year
    then none
    else some (record {
      year = year;
      month = month;
      day = day;
      hour = rem / 3_600;
      minute = rem % 3_600 / 60;
      second = some (rem % 60);
    })

from_unix_seconds_lem : (s : ℕ) → from_unix_seconds s ≡ time_of (date_of (s / 86_400)) (s % 86_400)
unfolding from_unix_seconds
from_unix_seconds_lem s = refl

abbrev second_of_day : UpsTime → ℕ
second_of_day t = t.hour * 3_600 + t.minute * 60 + seconds_or_zero t.second

pub record Plausible (t : UpsTime) (s : ℕ) : Type 0 where
  pub seconds : s ≡ days_from_civil t.year t.month t.day * 86_400 + second_of_day t
  pub year_ge : 2000 ≤ t.year
  pub year_le : t.year ≤ 2099
  pub hour_le : t.hour ≤ 23
  pub minute_le : t.minute ≤ 59
  pub second_le : seconds_or_zero t.second ≤ 59

pub to_unix_seconds-Plausible : (t : UpsTime) (s : ℕ) → to_unix_seconds t ≡ some s → Plausible t s
unfolding to_unix_seconds
to_unix_seconds-Plausible t s e = ground arith

time_of-Plausible :
    (t : UpsTime) (s : ℕ)
    → Plausible t s
    → time_of (t.year, t.month, t.day) (second_of_day t)
      ≡ some (record t { second = some (seconds_or_zero t.second) })
time_of-Plausible t s v = ground arith

-- A plausible time on a date of the calendar comes back from its seconds since 1970, with the
-- second that was not given read as 0.
pub from_unix-to_unix :
    (t : UpsTime) (s : ℕ)
    → IsDate t.year t.month t.day
    → to_unix_seconds t ≡ some s
    → from_unix_seconds s ≡ some (record t { second = some (seconds_or_zero t.second) })
from_unix-to_unix t s v e =
    let p = to_unix_seconds-Plausible t s e in
    from_unix_seconds_lem s
    ∙ ap₂ time_of
        (ap date_of (omega arith) ∙ date_of-days_from_civil t.year t.month t.day p.year_ge v)
        (omega arith)
    ∙ time_of-Plausible t s p

-- A 366th day, counted from March, is the leap day.
day_of_year_last :
    (doe : ℕ) → doe < 146_097 → day_of_year doe ≡ 365 → is_leap (year_of_era doe + 1) ≡ true
unfolding day_of_year year_of_era
day_of_year_last doe h e = ground arith

date_at-IsDate :
    (era doe : ℕ)
    → doe < 146_097
    → let (year, month, day) = date_at era doe in IsDate year month day
date_at-IsDate era doe h = ground (arith, day_of_year-le doe, day_of_year_last doe)

time_of-IsDate :
    (d : ℕ × ℕ × ℕ) (rem : ℕ) (t : UpsTime)
    → IsDate d.0 d.1 d.2
    → time_of d rem ≡ some t
    → IsDate t.year t.month t.day
time_of-IsDate (year, month, day) rem t v e = ground arith

-- Every time that `from_unix_seconds` returns is on a date of the calendar, and its seconds since
-- 1970 are the ones it was made from.
pub from_unix-exact :
    (s : ℕ) (t : UpsTime)
    → from_unix_seconds s ≡ some t
    → IsDate t.year t.month t.day × (to_unix_seconds t ≡ some s)
from_unix-exact s t e = (
  time_of-IsDate (date_of (s / 86_400)) (s % 86_400) t (date_at-IsDate _ _ (omega arith))
      (sym (from_unix_seconds_lem s) ∙ e),
  to_unix-from_unix s t e,
)
