-- ===== src/Housekeeping/Corrections.antt =====
-- What the check of the clock records.
use argon_utils.Prelude.{
  ℕ, ◌≤◌, ◌<◌, ◌≡◌, min, inl, inr, refl, ap, sym, sub_ℕ, Bool, true, false, Option, Option-cases,
  none, some, Result, Result-cases, ok, err, ℤ, arith,
}
use argon_utils.I2c.{Error}
use argon_utils.Ups
use argon_utils.Ups.{UpsLink}
use argon_utils.UpsTime.{UpsTime, to_unix_seconds, from_unix_seconds}
use argon_utils.ClockSync.{
  Verdict, judge, in_sync, correct, untrusted, implausible, threshold_s, abs, max_i64, to_i64,
}
use argon_utils.Drift.{Entry, corrected}
use argon_utils.Housekeeping.{
  Times, check_clock, act_on_verdict, set_to, read_again, judge_again, recorded,
}

-- The offset of a clock that was read as `t` from the time `unix`, in whole seconds.
abbrev pub IsOffset : UpsTime → ℕ → ℤ → Type 0
IsOffset t unix offset_s =
    (ups_s : ℕ) × (to_unix_seconds t ≡ some ups_s)
    × (offset_s ≡ sub_ℕ (min ups_s max_i64) (min unix max_i64))

-- A clock that was corrected, as the record says, from the state `w` of the link on: it was read, and
-- was off by more than the threshold from the system's synchronised clock, by the offset on record; it
-- was set to a time of that clock, and that was accepted; and it was then read again, with the offset
-- that the record has of after the correction, which is within the threshold.
pub record Corrected {W : Type 0} (link : UpsLink W) (instant : W → ℕ) (w : W)
    (clock_writes synced : Bool) (times : Times) (after_s : ℤ) (e : Entry) : Type 0 where
  pub first : UpsTime
  pub set : UpsTime
  pub again : UpsTime
  pub allowed : clock_writes ≡ true
  pub trusted : synced ≡ true
  pub was_read : (Ups.clock link w (instant w)).1 ≡ ok first
  pub offset : IsOffset first times.checked_at e.offset_s
  pub far_off : threshold_s < abs e.offset_s
  pub set_to_now : from_unix_seconds times.set_at ≡ some set
  pub accepted :
      let w1 = (Ups.clock link w (instant w)).0 in
      (Ups.set_clock link w1 set (instant w1)).1 ≡ ok tt
  pub read_back :
      let w1 = (Ups.clock link w (instant w)).0 in
      let w2 = (Ups.set_clock link w1 set (instant w1)).0 in
      (Ups.clock link w2 (instant w2)).1 ≡ ok again
  pub offset_after : IsOffset again times.after after_s
  pub settled : abs after_s ≤ threshold_s

-- The verdicts that lead to a correction, and that end one.
judge-correct :
    (t : UpsTime) (now : ℕ) (synced : Bool) (offset_s : ℤ)
    → judge t now synced ≡ correct offset_s
    → (synced ≡ true) × (threshold_s < abs offset_s) × IsOffset t now offset_s
unfolding judge to_i64
judge-correct t now synced offset_s e = elim (Option-cases (to_unix_seconds t)) [
  | inl n ↦ ground arith
  | inr (s, h) ↦ (ground arith, ground arith, (s, h, ground arith))
]

judge-in_sync :
    (t : UpsTime) (now : ℕ) (synced : Bool) (offset_s : ℤ)
    → judge t now synced ≡ in_sync offset_s
    → (abs offset_s ≤ threshold_s) × IsOffset t now offset_s
unfolding judge to_i64
judge-in_sync t now synced offset_s e = elim (Option-cases (to_unix_seconds t)) [
  | inl n ↦ ground arith
  | inr (s, h) ↦ (ground arith, (s, h, ground arith))
]

verdict-corrected :
    (checked_at : ℕ) (offset_s after_s : ℤ) (v : Verdict) (e : Entry)
    → recorded checked_at offset_s (some v) ≡ some e
    → e.action ≡ corrected after_s
    → (e.offset_s ≡ offset_s) × (v ≡ in_sync after_s)
verdict-corrected checked_at offset_s after_s (in_sync o) e r c = (ground arith, ground arith)
verdict-corrected checked_at offset_s after_s (correct o) e r c = ground arith
verdict-corrected checked_at offset_s after_s (untrusted o) e r c = ground arith
verdict-corrected checked_at offset_s after_s implausible e r c = ground arith

-- What was read again, and its offset.
abbrev IsSettled : Result UpsTime Error → ℕ → ℤ → Type 0
IsSettled read unix after_s =
    (again : UpsTime) × (read ≡ ok again)
    × (abs after_s ≤ threshold_s)
    × IsOffset again unix after_s

recorded-IsSettled :
    (checked_at : ℕ) (offset_s after_s : ℤ) (read : Result UpsTime Error) (unix : ℕ) (e : Entry)
    → recorded checked_at offset_s (judge_again read unix) ≡ some e
    → e.action ≡ corrected after_s
    → (e.offset_s ≡ offset_s) × IsSettled read unix after_s
recorded-IsSettled checked_at offset_s after_s (err x) unix e r c = ground arith
recorded-IsSettled checked_at offset_s after_s (ok t) unix e r c =
    let (o, v) = verdict-corrected checked_at offset_s after_s (judge t unix true) e r c in
    let (settled, offset) = judge-in_sync t unix true after_s v in (o, (t, refl, settled, offset))

module _ {W : Type 0} (link : UpsLink W) (instant : W → ℕ) (times : Times) where
  read_again-corrected :
      (w : W) (answer : Result (Unit {0}) Error) (offset_s after_s : ℤ) (e : Entry)
      → (read_again link instant w answer times offset_s).1 ≡ some e
      → e.action ≡ corrected after_s
      → (answer ≡ ok tt)
        × (e.offset_s ≡ offset_s)
        × IsSettled (Ups.clock link w (instant w)).1 times.after after_s
  read_again-corrected w (err x) offset_s after_s e r c = ground arith
  read_again-corrected w (ok tt) offset_s after_s e r c =
      let (o, again) =
        recorded-IsSettled times.checked_at offset_s after_s (Ups.clock link w (instant w)).1
          times.after e r c in
      (refl, o, again)

  -- The clock is set to `t` in the state `w`, and read again.
  abbrev IsSetTo : W → UpsTime → ℤ → Type 0
  IsSetTo w t after_s =
      let (w', answer) = Ups.set_clock link w t (instant w) in
      (answer ≡ ok tt) × IsSettled (Ups.clock link w' (instant w')).1 times.after after_s

  set_to-corrected :
      (w : W) (now : Option UpsTime) (offset_s after_s : ℤ) (e : Entry)
      → (set_to link instant w now times offset_s).1 ≡ some e
      → e.action ≡ corrected after_s
      → (t : UpsTime) × (now ≡ some t) × (e.offset_s ≡ offset_s) × IsSetTo w t after_s
  set_to-corrected w none offset_s after_s e r c = ground arith
  set_to-corrected w (some t) offset_s after_s e r c =
      let (w', answer) = Ups.set_clock link w t (instant w) in
      let (f, o, again) = read_again-corrected w' answer offset_s after_s e r c in
      (t, refl, o, (f, again))

  verdict-corrects :
      (w : W) (v : Verdict) (clock_writes : Bool) (after_s : ℤ) (e : Entry)
      → (act_on_verdict link instant w v clock_writes times).1 ≡ some e
      → e.action ≡ corrected after_s
      → (clock_writes ≡ true)
        × (v ≡ correct e.offset_s)
        × ((t : UpsTime) × (from_unix_seconds times.set_at ≡ some t) × IsSetTo w t after_s)
  verdict-corrects w (in_sync offset_s) clock_writes after_s e r c = ground arith
  verdict-corrects w (untrusted offset_s) clock_writes after_s e r c = ground arith
  verdict-corrects w implausible clock_writes after_s e r c = ground arith
  verdict-corrects w (correct offset_s) false after_s e r c = ground arith
  verdict-corrects w (correct offset_s) true after_s e r c =
      let (t, now, o, set) =
        set_to-corrected w (from_unix_seconds times.set_at) offset_s after_s e r c in
      (refl, ap correct (sym o), (t, now, set))

  -- A correction is on record only where the clock was set, with the permission to: it was read and
  -- was further off than the threshold from a synchronised system clock, by the offset on record; it
  -- was set to a time of that clock, and accepted that; and it was read back, within the threshold,
  -- with the offset that the record has of after the correction.
  pub check_clock-Corrected :
      (w : W) (clock_writes synced : Bool) (after_s : ℤ) (e : Entry)
      → (check_clock link instant w clock_writes synced times).1 ≡ some e
      → e.action ≡ corrected after_s
      → Corrected link instant w clock_writes synced times after_s e
  unfolding check_clock
  check_clock-Corrected w clock_writes synced after_s e r c =
      let (w1, read) = Ups.clock link w (instant w) in
      elim (Result-cases read) [
        | inr (x, f) ↦ ground arith
        | inl (t, f) ↦
            (let (allowed, v, (set, now, (answer, (again, back, settled, offset)))) =
                verdict-corrects w1 (judge t times.checked_at synced) clock_writes after_s e
                  (rw f at r) c in
              let (trusted, far, off) = judge-correct t times.checked_at synced e.offset_s v in
              record {
                first = t;
                set = set;
                again = again;
                allowed = allowed;
                trusted = trusted;
                was_read = f;
                offset = off;
                far_off = far;
                set_to_now = now;
                accepted = answer;
                read_back = back;
                offset_after = offset;
                settled = settled;
              })
      ]
