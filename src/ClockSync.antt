-- ===== src/ClockSync.antt =====
-- Whether the UPS's clock is to be corrected (crates/argon-device/src/clock_sync.rs). Offsets are whole
-- seconds, integers; a u64 that no i64 holds is read as the largest i64.
pub mod Verdicts
mod Examples
use argon_utils.Prelude.{
  ℕ, ◌+◌, min, Bool, true, false, Option, none, some, leb, ℤ, sub_ℕ, pos_part, neg_part,
  if◌then◌else◌,
}
use argon_utils.UpsTime.{UpsTime, to_unix_seconds}

-- Six hours and ten minutes, in seconds.
abbrev pub check_interval : ℕ
check_interval = 21_600

abbrev pub retry_unsynced : ℕ
retry_unsynced = 600

unfoldable pub next_check_after : Bool → ℕ
next_check_after system_synced = if system_synced then check_interval else retry_unsynced

abbrev pub threshold_s : ℕ
threshold_s = 2

pub data Verdict : Type 0 where
  in_sync correct untrusted : ℤ → Verdict
  implausible : Verdict

abbrev pub max_i64 : ℕ
max_i64 = 9_223_372_036_854_775_807

unfoldable pub to_i64 : ℕ → ℕ
to_i64 x = min x max_i64

-- `i64::abs`.
abbrev pub abs : ℤ → ℕ
abs a = pos_part a + neg_part a

abbrev pub judge_offset : ℤ → Bool → Verdict
judge_offset offset_s system_synced =
    if leb (abs offset_s) threshold_s
    then in_sync offset_s
    else if system_synced
    then correct offset_s
    else untrusted offset_s

-- Both sides of the difference are at most `max_i64`, so it does not overflow.
unfoldable pub judge : UpsTime → ℕ → Bool → Verdict
unfolding to_i64
judge ups system_unix_s system_synced = elim (to_unix_seconds ups) [
  | none ↦ implausible
  | some ups_s ↦ judge_offset (sub_ℕ (to_i64 ups_s) (to_i64 system_unix_s)) system_synced
]
