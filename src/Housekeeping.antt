-- ===== src/Housekeeping.antt =====
-- What the UPS thread does besides watching the battery (crates/argon-daemon/src/ups.rs: `check_wake`,
-- `check_clock`, `check_and_record_clock`): parking a wake that would come due on the running machine,
-- and comparing the UPS clock. Logs are left out, but for what they remember (`Seen`).
pub mod Net
pub mod Corrections
mod Examples
use argon_utils.Prelude.{
  ℕ, Bool, true, false, Option, none, some, List, Result, ok, err, ℤ, ◌&&◌, ◌==◌, not,
  if◌then◌else◌,
}
use argon_utils.ClockSync.{
  Verdict, judge, in_sync, untrusted, implausible, correct, next_check_after,
}
use argon_utils.Drift
use argon_utils.Drift.{Entry, corrected, left_alone}
use argon_utils.I2c.{Error}
use argon_utils.Ups
use argon_utils.Ups.{UpsLink}
use argon_utils.UpsRequest.{park, read_wake}
use argon_utils.UpsTime.{UpsTime, from_unix_seconds}
use argon_utils.Wake.{Assessment, assess}

pub data Seen : Type 0 where
  unknown nothing : Seen
  at : UpsTime → Seen

-- `found.map_or(Seen::Nothing, Seen::At)`.
abbrev pub seen_of : Option UpsTime → Seen
seen_of none = Seen.nothing
seen_of (some t) = at t

-- The time by the system's clock: at the check, at the setting, and after it.
pub record Times : Type 0 where
  pub checked_at : ℕ
  pub set_at : ℕ
  pub after : ℕ

abbrev pub entry : ℕ → ℤ → Drift.Action → Option Entry
entry checked_at offset_s action =
    some (record { unix = checked_at; offset_s = offset_s; action = action })

-- What is recorded of a correction, by the verdict on the clock that was read back.
abbrev pub recorded : ℕ → ℤ → Option Verdict → Option Entry
recorded checked_at offset_s (some (in_sync after_s)) =
    entry checked_at offset_s (corrected after_s)
recorded checked_at offset_s (some (correct _)) = entry checked_at offset_s left_alone
recorded checked_at offset_s (some (untrusted _)) = entry checked_at offset_s left_alone
recorded checked_at offset_s (some implausible) = entry checked_at offset_s left_alone
recorded checked_at offset_s none = entry checked_at offset_s left_alone

-- `.ok().map(|t| clock_sync::judge(t, unix_now(), true))`.
abbrev pub judge_again : Result UpsTime Error → ℕ → Option Verdict
judge_again (err _) unix = none
judge_again (ok t) unix = some (judge t unix true)

-- The record is `none` where the daemon keeps none.
abbrev pub add_to_record : Option (List Entry) → Option Entry → Option (List Entry)
add_to_record none e = none
add_to_record (some lines) none = some lines
add_to_record (some lines) (some e) = some (Drift.append lines e)

module _ {W : Type 0} (link : UpsLink W) (instant : W → ℕ) where
  -- The match of `check_wake`; a `logged` that is the same as what is seen is as well set again.
  abbrev pub act_on : W → Option UpsTime → Assessment → Bool → Seen → W × Seen
  act_on w found Assessment.nothing park_allowed logged = (w, seen_of found)
  act_on w found (Assessment.leave _) park_allowed logged = (w, seen_of found)
  act_on w found (Assessment.park _ _) park_allowed logged =
      if park_allowed then ((park link instant w).0, unknown) else (w, logged)

  abbrev pub check_found : W → Result (Option UpsTime) Error → Bool → ℕ → Seen → W × Seen
  check_found w (err _) park_allowed now_unix logged = (w, logged)
  check_found w (ok found) park_allowed now_unix logged =
      act_on w found (assess found now_unix) park_allowed logged

  unfoldable pub check_wake : W → Bool → ℕ → Seen → W × Seen
  check_wake w park_allowed now_unix logged =
      let (w', found) = read_wake link instant w in
      check_found w' found park_allowed now_unix logged

  abbrev pub read_again : W → Result (Unit {0}) Error → Times → ℤ → W × Option Entry
  read_again w (err _) times offset_s = (w, entry times.checked_at offset_s left_alone)
  read_again w (ok _) times offset_s =
      let (w', again) = Ups.clock link w (instant w) in
      (w', recorded times.checked_at offset_s (judge_again again times.after))

  abbrev pub set_to : W → Option UpsTime → Times → ℤ → W × Option Entry
  set_to w none times offset_s = (w, none)
  set_to w (some now) times offset_s =
      let (w', answer) = Ups.set_clock link w now (instant w) in read_again w' answer times offset_s

  abbrev pub act_on_verdict : W → Verdict → Bool → Times → W × Option Entry
  act_on_verdict w (in_sync offset_s) clock_writes times =
      (w, entry times.checked_at offset_s Drift.in_sync)
  act_on_verdict w (untrusted offset_s) clock_writes times =
      (w, entry times.checked_at offset_s left_alone)
  act_on_verdict w implausible clock_writes times = (w, none)
  act_on_verdict w (correct offset_s) clock_writes times =
      if clock_writes
      then set_to w (from_unix_seconds times.set_at) times offset_s
      else (w, entry times.checked_at offset_s left_alone)

  abbrev pub check_read : W → Result UpsTime Error → Bool → Bool → Times → W × Option Entry
  check_read w (err _) clock_writes system_synced times = (w, none)
  check_read w (ok ups_clock) clock_writes system_synced times =
      act_on_verdict w (judge ups_clock times.checked_at system_synced) clock_writes times

  unfoldable pub check_clock : W → Bool → Bool → Times → W × Option Entry
  check_clock w clock_writes system_synced times =
      let (w', read) = Ups.clock link w (instant w) in
      check_read w' read clock_writes system_synced times

  -- `check_and_record_clock`, where the record can be written.
  unfoldable pub check_and_record_clock :
      W → Bool → Option (List Entry) → Bool → Times → W × Option (List Entry) × ℕ
  check_and_record_clock w clock_writes lines synced times =
      let (w', e) = check_clock w clock_writes synced times in
      (w', add_to_record lines e, next_check_after synced)
