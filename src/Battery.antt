-- ===== src/Battery.antt =====
-- The UPS's battery reply (crates/argon-proto/src/ups/status.rs: `PowerSource`, `BatteryStatus`,
-- `DecodeError`). A byte is a number below 256.
use argon_utils.Prelude.{
  ℕ, min, Bool, true, false, List, [], ◌∷◌, Result, ok, err, length, ◌==◌, if◌then◌else◌,
}
use argon_utils.Bcd.{InvalidBcd, OutOfRange}

pub data PowerSource : Type 0 where
  mains battery : PowerSource

abbrev pub is_mains : PowerSource → Bool
is_mains mains = true
is_mains battery = false

pub data DecodeError : Type 0 where
  length_error : ℕ → ℕ → DecodeError
  bcd : InvalidBcd → DecodeError
  range : OutOfRange → DecodeError
  year_out_of_range : ℕ → DecodeError

pub record BatteryStatus : Type 0 where
  pub percent : ℕ
  pub source : PowerSource

-- `BatteryStatus::decode`.
unfoldable pub decode : List ℕ → Result BatteryStatus DecodeError
decode (raw_percent ∷ charging ∷ []) =
    ok (record { percent = min raw_percent 100; source = if charging == 0 then mains else battery })
decode payload = err (length_error 2 (length payload))
