-- ===== src/ClockSync/Verdicts.antt =====
-- What each verdict means, and that a correction settles it.
use argon_utils.Prelude.{
  ℕ, ◌+◌, ◌≤◌, ◌<◌, ◌≡◌, ◌↔◌, Bool, true, some, ℤ, sub_ℕ, arith, Option-cases, inl, inr, ok, List,
  [], ◌∷◌,
}
use argon_utils.UpsTime.{
  UpsTime, to_unix_seconds, from_unix_seconds, encode_clock, decode_clock, seconds_or_zero,
}
use argon_utils.UpsTime.Dates.{from_unix-exact, to_unix_seconds-Plausible}
use argon_utils.UpsTime.Wire.{IsEncodable, decode_clock-encode_clock}
use argon_utils.ClockSync.{judge, in_sync, correct, threshold_s, max_i64, to_i64, abs}

-- The clock is corrected, with the offset it has, exactly when it is readable, the system's clock is
-- synchronised, and the two are more than the threshold apart.
pub correct_iff :
    (t : UpsTime) (now : ℕ) (synced : Bool) (offset : ℤ)
    → now ≤ max_i64
    → (judge t now synced ≡ correct offset) ↔ (
        (s : ℕ) × (to_unix_seconds t ≡ some s)
        × (synced ≡ true)
        × (offset ≡ sub_ℕ (to_i64 s) now)
        × (threshold_s < abs offset))
unfolding judge to_i64
correct_iff t now synced offset l = elim (Option-cases (to_unix_seconds t)) [
  | inl n ↦ ((λ h. ground arith), (λ h. ground arith))
  | inr (s, e) ↦ ((λ h. (s, e, ground arith, ground arith, ground arith)), (λ h. ground arith))
]

from_unix-IsEncodable : (now : ℕ) (t : UpsTime) → from_unix_seconds now ≡ some t → IsEncodable t
from_unix-IsEncodable now t e =
    let (date, back) = from_unix-exact now t e in
    let p = to_unix_seconds-Plausible t now back in
    record {
      year_ge = p.year_ge;
      year_le = p.year_le;
      month_le = omega (arith, date.month_le);
      day_le = ground (arith, date.day_le);
      hour_le = omega (arith, p.hour_le);
      minute_le = omega (arith, p.minute_le);
    }

to_unix-filled :
    (t : UpsTime) (s : ℕ)
    → to_unix_seconds t ≡ some s
    → to_unix_seconds (record t { second = some (seconds_or_zero t.second) }) ≡ some s
unfolding to_unix_seconds
to_unix-filled t s e = ground arith

-- Setting the UPS's clock to the system's time, where that is a date the UPS can hold, through the
-- bytes on the wire and back, has it judged in sync at every time up to the threshold after that
-- one that an i64 holds.
pub corrected_is_in_sync :
    (now : ℕ) (t : UpsTime) (later : ℕ) (synced : Bool)
    → from_unix_seconds now ≡ some t
    → now ≤ later
    → later ≤ now + threshold_s
    → later ≤ max_i64
    → (bytes : List ℕ) × (u : UpsTime) × (encode_clock t ≡ ok bytes)
      × (decode_clock bytes ≡ ok u)
      × (judge u later synced ≡ in_sync (sub_ℕ now later))
unfolding judge to_i64
corrected_is_in_sync now t later synced e p q r =
    let exact = from_unix-exact now t e in
    let v = to_unix_seconds-Plausible t now exact.1 in
    let filled = to_unix-filled t now exact.1 in
    let (y, mo, d, h, mi, s, enc, dec) =
      decode_clock-encode_clock t (from_unix-IsEncodable now t e) (omega (arith, v.second_le)) in
    (
      y ∷ mo ∷ d ∷ h ∷ mi ∷ s ∷ [],
      record t { second = some (seconds_or_zero t.second) },
      enc,
      dec,
      ground (arith, filled),
    )
