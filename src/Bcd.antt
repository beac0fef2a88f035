-- ===== src/Bcd.antt =====
-- Binary-coded decimal (crates/argon-proto/src/bcd.rs). A u8 is a number below 256; `byte >> 4` is
-- `byte / 16`, and `<< 4` cannot lose a bit of a decimal digit.
pub mod RoundTrip
mod Examples
use argon_utils.Prelude.{
  ℕ, ◌+◌, ◌*◌, ◌/◌, ◌%◌, bit_and, bit_or, ◌||◌, Result, ok, err, ltb, if◌then◌else◌,
}

pub data InvalidBcd : Type 0 where
  invalid_bcd : ℕ → InvalidBcd

pub data OutOfRange : Type 0 where
  out_of_range : ℕ → OutOfRange

unfoldable pub decode : ℕ → Result ℕ InvalidBcd
decode byte =
    let lo = bit_and byte 0x0f in
    let hi = byte / 16 in if ltb 9 lo || ltb 9 hi then err (invalid_bcd byte) else ok (hi * 10 + lo)

unfoldable pub encode : ℕ → Result ℕ OutOfRange
encode value =
    if ltb 99 value then err (out_of_range value) else ok (bit_or (value / 10 * 16) (value % 10))
