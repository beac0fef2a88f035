-- ===== src/UpsTime/Calendar.antt =====
-- The calendar arithmetic of the UPS clock: dates and days since 1970 are inverse.
use argon_utils.Prelude.{
  ℕ, ◌+◌, ◌-◌, ◌*◌, ◌/◌, ◌≤◌, ◌<◌, ◌≡◌, ◌∙◌, arith, some, ltb, leb, if◌then◌else◌,
}
use argon_utils.UpsTime.{
  year_of_era, day_of_year, days_from_civil, from_unix_seconds, to_unix_seconds, UpsTime,
}

pub year_of_era-le : (doe : ℕ) → doe < 146_097 → year_of_era doe ≤ 399
unfolding year_of_era
year_of_era-le doe h = omega arith

year_start-le :
    (doe : ℕ)
    → doe < 146_097
    → 365 * year_of_era doe + year_of_era doe / 4 - year_of_era doe / 100 ≤ doe
unfolding year_of_era
year_start-le doe h = omega arith

year_end-le :
    (doe : ℕ)
    → doe < 146_097
    → doe ≤ 365 * year_of_era doe + year_of_era doe / 4 - year_of_era doe / 100 + 365
unfolding year_of_era
year_end-le doe h = omega arith

pub day_of_year-le : (doe : ℕ) → doe < 146_097 → day_of_year doe ≤ 365
unfolding day_of_year
day_of_year-le doe h = omega (arith, year_end-le doe)

-- The day of the era is its year's start and the day of the year.
pub day_of_year_lem :
    (doe : ℕ)
    → doe < 146_097
    → year_of_era doe * 365 + year_of_era doe / 4 - year_of_era doe / 100 + day_of_year doe ≡ doe
unfolding day_of_year year_of_era
day_of_year_lem doe h = omega arith

-- The month and the day of the month, counted from March, give the day of the year back.
pub day_of_month_lem :
    (doy : ℕ)
    → let mp = (5 * doy + 2) / 153 in (153 * mp + 2) / 5 + (doy - (153 * mp + 2) / 5 + 1) - 1 ≡ doy
day_of_month_lem doy = omega arith

-- The month number, as from_unix_seconds and to_unix_seconds convert it.
abbrev pub month_of : ℕ → ℕ
month_of mp = if ltb mp 10 then mp + 3 else mp - 9

abbrev pub carry : ℕ → ℕ
carry month = if leb month 2 then 1 else 0

pub days_from_civil_lem :
    (era yoe doy : ℕ)
    → yoe ≤ 399
    → doy ≤ 365
    → let mp = (5 * doy + 2) / 153 in
      days_from_civil
        (yoe + era * 400 + carry (month_of mp))
        (month_of mp)
        (doy - (153 * mp + 2) / 5 + 1)
      ≡ era * 146_097 + (yoe * 365 + yoe / 4 - yoe / 100 + doy) - 719_468
unfolding days_from_civil
days_from_civil_lem era yoe doy y d = ground arith

-- The date that `from_unix_seconds` writes for a day number.
abbrev pub date_at : ℕ → ℕ → ℕ × ℕ × ℕ
date_at era doe =
    let doy = day_of_year doe in
    let mp = (5 * doy + 2) / 153 in
    (year_of_era doe + era * 400 + carry (month_of mp), month_of mp, doy - (153 * mp + 2) / 5 + 1)

abbrev pub date_of : ℕ → ℕ × ℕ × ℕ
date_of days = let z = days + 719_468 in let era = z / 146_097 in date_at era (z - era * 146_097)

pub days_from_civil-date_of :
    (days : ℕ) → days_from_civil (date_of days).0 (date_of days).1 (date_of days).2 ≡ days
days_from_civil-date_of days =
    let z = days + 719_468 in
    let era = z / 146_097 in
    let doe = z - era * 146_097 in
    let small : doe < 146_097 = omega arith in
    days_from_civil_lem era (year_of_era doe) (day_of_year doe) (year_of_era-le doe small)
      (day_of_year-le doe small)
    ∙ omega (arith, day_of_year_lem doe small)

pub date_of-in_range :
    (days : ℕ)
    → (1 ≤ (date_of days).1)
      × ((date_of days).1 ≤ 12)
      × (1 ≤ (date_of days).2)
      × ((date_of days).2 ≤ 31)
date_of-in_range days =
    let z = days + 719_468 in
    let doe = z - z / 146_097 * 146_097 in ground (arith, day_of_year-le doe)

pub to_unix-from_unix :
    (s : ℕ) (t : UpsTime) → from_unix_seconds s ≡ some t → to_unix_seconds t ≡ some s
unfolding from_unix_seconds to_unix_seconds
to_unix-from_unix s t e =
    ground (arith, days_from_civil-date_of (s / 86_400), date_of-in_range (s / 86_400))
