-- ===== src/UpsTime.antt =====
-- The UPS's clock and wake schedule (crates/argon-proto/src/ups/status.rs: `UpsTime`). A u16 or u64 is
-- a natural number; every difference below is of a number and a smaller one, as in the source.
pub mod Calendar
pub mod Dates
pub mod Wire
mod Examples
use argon_utils.Prelude.{
  ℕ, ◌+◌, ◌-◌, ◌*◌, ◌/◌, ◌%◌, Bool, true, ◌&&◌, ◌||◌, Option, none, some, List, [], ◌∷◌, Result, ok,
  err, ◌>>=◌, map_err, map_ok, length, ltb, leb, if◌then◌else◌,
}
use argon_utils.Bcd
use argon_utils.Battery.{DecodeError, length_error, bcd, range, year_out_of_range}

pub record UpsTime : Type 0 where
  pub year : ℕ
  pub month : ℕ
  pub day : ℕ
  pub hour : ℕ
  pub minute : ℕ
  pub second : Option ℕ

-- `bcd::decode(b)?` and `bcd::encode(v)?`, with the conversion of the error.
abbrev pub decode_byte : ℕ → Result ℕ DecodeError
decode_byte b = map_err bcd (Bcd.decode b)

abbrev pub encode_byte : ℕ → Result ℕ DecodeError
encode_byte v = map_err range (Bcd.encode v)

unfoldable pub decode_clock : List ℕ → Result UpsTime DecodeError
decode_clock (y ∷ mo ∷ d ∷ h ∷ mi ∷ s ∷ []) = do
  year ← decode_byte y
  month ← decode_byte mo
  day ← decode_byte d
  hour ← decode_byte h
  minute ← decode_byte mi
  second ← decode_byte s
  ok (record {
    year = 2000 + year;
    month = month;
    day = day;
    hour = hour;
    minute = minute;
    second = some second;
  })
decode_clock payload = err (length_error 6 (length payload))

unfoldable pub decode_schedule : List ℕ → Result UpsTime DecodeError
decode_schedule (y ∷ mo ∷ d ∷ h ∷ mi ∷ []) = do
  year ← decode_byte y
  month ← decode_byte mo
  day ← decode_byte d
  hour ← decode_byte h
  minute ← decode_byte mi
  ok (record {
    year = 2000 + year;
    month = month;
    day = day;
    hour = hour;
    minute = minute;
    second = none;
  })
decode_schedule payload = err (length_error 5 (length payload))

unfoldable pub decode_optional_schedule : List ℕ → Result (Option UpsTime) DecodeError
unfolding decode_schedule
decode_optional_schedule [] = ok none
decode_optional_schedule (b ∷ payload) = map_ok some (decode_schedule (b ∷ payload))

unfoldable pub year_byte : UpsTime → Result ℕ DecodeError
year_byte t =
    if ltb t.year 2000 || ltb 2099 t.year
    then err (year_out_of_range t.year)
    else if ltb 255 (t.year - 2000)
    then err (year_out_of_range t.year)
    else ok (t.year - 2000)

-- `unwrap_or(0)`.
abbrev pub seconds_or_zero : Option ℕ → ℕ
seconds_or_zero none = 0
seconds_or_zero (some s) = s

unfoldable pub encode_clock : UpsTime → Result (List ℕ) DecodeError
unfolding year_byte
encode_clock t = do
  year ← year_byte t
  y ← encode_byte year
  mo ← encode_byte t.month
  d ← encode_byte t.day
  h ← encode_byte t.hour
  mi ← encode_byte t.minute
  s ← encode_byte (seconds_or_zero t.second)
  ok (y ∷ mo ∷ d ∷ h ∷ mi ∷ s ∷ [])

unfoldable pub encode_schedule : UpsTime → Result (List ℕ) DecodeError
unfolding year_byte
encode_schedule t = do
  year ← year_byte t
  y ← encode_byte year
  mo ← encode_byte t.month
  d ← encode_byte t.day
  h ← encode_byte t.hour
  mi ← encode_byte t.minute
  ok (y ∷ mo ∷ d ∷ h ∷ mi ∷ [])

-- `yoe` and `doy` of the source, from the day of a 400-year era.
unfoldable pub year_of_era : ℕ → ℕ
year_of_era doe = (doe - doe / 1_460 + doe / 36_524 - doe / 146_096) / 365

unfoldable pub day_of_year : ℕ → ℕ
day_of_year doe = let yoe = year_of_era doe in doe - (365 * yoe + yoe / 4 - yoe / 100)

unfoldable pub from_unix_seconds : ℕ → Option UpsTime
from_unix_seconds secs =
    let days = secs / 86_400 in
    let rem = secs % 86_400 in
    let z = days + 719_468 in
    let era = z / 146_097 in
    let doe = z - era * 146_097 in
    let yoe = year_of_era doe in
    let doy = day_of_year doe in
    let mp = (5 * doy + 2) / 153 in
    let day = doy - (153 * mp + 2) / 5 + 1 in
    let month = (if ltb mp 10 then mp + 3 else mp - 9) in
    let year = yoe + era * 400 + (if leb month 2 then 1 else 0) in
    if ltb year 2000 || ltb 2099 year
    then none
    else some (record {
      year = year;
      month = month;
      day = day;
      hour = rem / 3_600;
      minute = rem % 3_600 / 60;
      second = some (rem % 60);
    })

abbrev pub plausible_second : Option ℕ → Bool
plausible_second none = true
plausible_second (some s) = leb s 59

unfoldable pub is_plausible : UpsTime → Bool
is_plausible t =
    leb 2000 t.year
    && (leb t.year 2099
        && (leb 1 t.month
            && (leb t.month 12
                && (leb 1 t.day
                    && (leb t.day 31
                        && (leb t.hour 23 && (leb t.minute 59 && plausible_second t.second)))))))

-- The days from 1970-01-01 to a date, as `to_unix_seconds` computes them.
unfoldable pub days_from_civil : ℕ → ℕ → ℕ → ℕ
days_from_civil year month day =
    let y = year - (if leb month 2 then 1 else 0) in
    let era = y / 400 in
    let yoe = y - era * 400 in
    let mp = (if ltb 2 month then month - 3 else month + 9) in
    let doy = (153 * mp + 2) / 5 + day - 1 in
    let doe = yoe * 365 + yoe / 4 - yoe / 100 + doy in era * 146_097 + doe - 719_468

unfoldable pub to_unix_seconds : UpsTime → Option ℕ
unfolding is_plausible
to_unix_seconds t =
    if is_plausible t
    then some (
        days_from_civil t.year t.month t.day * 86_400
        + t.hour * 3_600
        + t.minute * 60
        + seconds_or_zero t.second)
    else none
