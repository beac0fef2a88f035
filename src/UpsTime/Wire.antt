-- ===== src/UpsTime/Wire.antt =====
-- The bytes of a clock and of a schedule, both ways.
use argon_utils.Prelude.{ℕ, ◌-◌, ◌≤◌, ◌≡◌, arith, none, some, List, [], ◌∷◌, ok, AllBytes}
use argon_utils.Bcd.RoundTrip.{byte_of, encode_lem, decode-byte_of, decode-cases}
use argon_utils.UpsTime.{
  UpsTime, decode_clock, decode_schedule, encode_clock, encode_schedule, seconds_or_zero,
}

-- What two digits for each field can carry.
pub record IsEncodable (t : UpsTime) : Type 0 where
  pub year_ge : 2000 ≤ t.year
  pub year_le : t.year ≤ 2099
  pub month_le : t.month ≤ 99
  pub day_le : t.day ≤ 99
  pub hour_le : t.hour ≤ 99
  pub minute_le : t.minute ≤ 99

-- A clock with two-digit fields is encoded, and its six bytes are decoded as the same clock, with
-- the second that was not given as 0.
pub decode_clock-encode_clock :
    (t : UpsTime)
    → IsEncodable t
    → seconds_or_zero t.second ≤ 99
    → (y mo d h mi s : ℕ) × (encode_clock t ≡ ok (y ∷ mo ∷ d ∷ h ∷ mi ∷ s ∷ []))
      × (decode_clock (y ∷ mo ∷ d ∷ h ∷ mi ∷ s ∷ [])
          ≡ ok (record t { second = some (seconds_or_zero t.second) }))
unfolding encode_clock decode_clock
decode_clock-encode_clock t v w = (
  byte_of (t.year - 2000),
  byte_of t.month,
  byte_of t.day,
  byte_of t.hour,
  byte_of t.minute,
  byte_of (seconds_or_zero t.second),
  ground (
    arith,
    encode_lem (t.year - 2000),
    encode_lem t.month,
    encode_lem t.day,
    encode_lem t.hour,
    encode_lem t.minute,
    encode_lem (seconds_or_zero t.second),
  ),
  ground (
    arith,
    decode-byte_of (t.year - 2000),
    decode-byte_of t.month,
    decode-byte_of t.day,
    decode-byte_of t.hour,
    decode-byte_of t.minute,
    decode-byte_of (seconds_or_zero t.second),
  ),
)

-- A schedule with two-digit fields is encoded, and its five bytes are decoded as the same schedule,
-- which has no second.
pub decode_schedule-encode_schedule :
    (t : UpsTime)
    → IsEncodable t
    → (y mo d h mi : ℕ) × (encode_schedule t ≡ ok (y ∷ mo ∷ d ∷ h ∷ mi ∷ []))
      × (decode_schedule (y ∷ mo ∷ d ∷ h ∷ mi ∷ []) ≡ ok (record t { second = none }))
unfolding encode_schedule decode_schedule
decode_schedule-encode_schedule t v = (
  byte_of (t.year - 2000),
  byte_of t.month,
  byte_of t.day,
  byte_of t.hour,
  byte_of t.minute,
  ground (
    arith,
    encode_lem (t.year - 2000),
    encode_lem t.month,
    encode_lem t.day,
    encode_lem t.hour,
    encode_lem t.minute,
  ),
  ground (
    arith,
    decode-byte_of (t.year - 2000),
    decode-byte_of t.month,
    decode-byte_of t.day,
    decode-byte_of t.hour,
    decode-byte_of t.minute,
  ),
)

-- A payload that is decoded as a clock is the one that the clock is encoded as: no other payload,
-- of another length or with a byte that is not BCD, is accepted.
pub encode_clock-decode_clock :
    (payload : List ℕ) (t : UpsTime)
    → AllBytes payload
    → decode_clock payload ≡ ok t
    → encode_clock t ≡ ok payload
unfolding encode_clock decode_clock
encode_clock-decode_clock [] t a e = cc
encode_clock-decode_clock (_ ∷ []) t a e = cc
encode_clock-decode_clock (_ ∷ _ ∷ []) t a e = cc
encode_clock-decode_clock (_ ∷ _ ∷ _ ∷ []) t a e = cc
encode_clock-decode_clock (_ ∷ _ ∷ _ ∷ _ ∷ []) t a e = cc
encode_clock-decode_clock (_ ∷ _ ∷ _ ∷ _ ∷ _ ∷ []) t a e = cc
encode_clock-decode_clock (y ∷ mo ∷ d ∷ h ∷ mi ∷ s ∷ []) t a e = ground (
  arith,
  decode-cases y,
  decode-cases mo,
  decode-cases d,
  decode-cases h,
  decode-cases mi,
  decode-cases s,
)
encode_clock-decode_clock (_ ∷ _ ∷ _ ∷ _ ∷ _ ∷ _ ∷ _ ∷ _) t a e = cc

-- The same for a schedule: its five bytes are the ones that it is encoded as.
pub encode_schedule-decode_schedule :
    (payload : List ℕ) (t : UpsTime)
    → AllBytes payload
    → decode_schedule payload ≡ ok t
    → encode_schedule t ≡ ok payload
unfolding encode_schedule decode_schedule
encode_schedule-decode_schedule [] t a e = cc
encode_schedule-decode_schedule (_ ∷ []) t a e = cc
encode_schedule-decode_schedule (_ ∷ _ ∷ []) t a e = cc
encode_schedule-decode_schedule (_ ∷ _ ∷ _ ∷ []) t a e = cc
encode_schedule-decode_schedule (_ ∷ _ ∷ _ ∷ _ ∷ []) t a e = cc
encode_schedule-decode_schedule (y ∷ mo ∷ d ∷ h ∷ mi ∷ []) t a e =
    ground (arith, decode-cases y, decode-cases mo, decode-cases d, decode-cases h, decode-cases mi)
encode_schedule-decode_schedule (_ ∷ _ ∷ _ ∷ _ ∷ _ ∷ _ ∷ _) t a e = cc
