-- ===== src/Wake/Requests.antt =====
-- A schedule that was made, and what the checks do with it.
use argon_utils.Prelude.{
  subst, sym, ℕ, ◌+◌, ◌-◌, ◌%◌, ◌≤◌, ◌<◌, ◌≡◌, refl, inl, inr, ◌↔◌, Option-cases, none, some, ok,
  arith,
}
use argon_utils.UpsTime.{UpsTime, to_unix_seconds, from_unix_seconds}
use argon_utils.UpsTime.Dates.{from_unix-exact, IsDate}
use argon_utils.Wake.{assess, schedule_for, leave, min_lead, park_window, poweroff_delay}

-- What a schedule that is left alone promises: it is readable, and lies past the window.
pub assess-leave_iff :
    (t : UpsTime) (now : ℕ)
    → (assess (some t) now ≡ leave t)
      ↔ ((s : ℕ) × (to_unix_seconds t ≡ some s) × (now + park_window < s))
unfolding assess
assess-leave_iff t now = elim (Option-cases (to_unix_seconds t)) [
  | inl n ↦ ((λ h. ground arith), (λ h. ground arith))
  | inr (s, e) ↦ ((λ h. (s, e, ground arith)), (λ h. ground arith))
]

to_unix-without_second :
    (t : UpsTime) (k s : ℕ)
    → t.second ≡ some k
    → k ≡ 0
    → to_unix_seconds t ≡ some s
    → to_unix_seconds (record t { second = none }) ≡ some s
unfolding to_unix_seconds
to_unix-without_second t k s e z h = ground arith

from_unix-second :
    (s : ℕ) (t : UpsTime) → from_unix_seconds s ≡ some t → t.second ≡ some (s % 86_400 % 60)
unfolding from_unix_seconds
from_unix-second s t e = ground arith

-- A wake that is accepted is on the whole minute at or before the time asked for, at least
-- `min_lead` away, on a date of the calendar, and readable as exactly that time.
pub record Accepted (at now : ℕ) (t : UpsTime) : Type 0 where
  pub time : ℕ
  pub minute : time ≡ at - at % 60
  pub lead : now + min_lead ≤ time
  pub no_second : t.second ≡ none
  pub date : IsDate t.year t.month t.day
  pub readable : to_unix_seconds t ≡ some time

schedule_for-cases :
    (at now : ℕ) (t : UpsTime)
    → schedule_for at now ≡ ok t
    → (u : UpsTime) × (from_unix_seconds (at - at % 60) ≡ some u)
      × (t ≡ record u { second = none })
      × (now + min_lead ≤ at - at % 60)
unfolding schedule_for
schedule_for-cases at now t e = elim (Option-cases (from_unix_seconds (at - at % 60))) [
  | inl n ↦ ground arith
  | inr (u, f) ↦ (u, f, ground arith, ground arith)
]

pub schedule_for-Accepted :
    (at now : ℕ) (t : UpsTime) → schedule_for at now ≡ ok t → Accepted at now t
schedule_for-Accepted at now t e =
    let (u, f, same, lead) = schedule_for-cases at now t e in
    let floored = at - at % 60 in
    let exact = from_unix-exact floored u f in
    let parked =
      to_unix-without_second u (floored % 86_400 % 60) floored (from_unix-second floored u f)
        (omega arith) exact.1 in
    subst (Accepted at now) (sym same) (record {
      time = floored;
      minute = refl;
      lead = lead;
      no_second = refl;
      date = record {
        month_pos = exact.0.month_pos;
        month_le = exact.0.month_le;
        day_pos = exact.0.day_pos;
        day_le = exact.0.day_le;
      };
      readable = parked;
    })

-- A wake that was accepted is left alone by every check up to the poweroff that comes with it and a
-- minute after: no check on the running machine parks the wake it was asked to set.
pub accepted_is_left :
    (at now : ℕ) (t : UpsTime) (later : ℕ)
    → schedule_for at now ≡ ok t
    → later ≤ now + poweroff_delay + 60
    → assess (some t) later ≡ leave t
accepted_is_left at now t later e l =
    let a = schedule_for-Accepted at now t e in
    (assess-leave_iff t later).1 (a.time, a.readable, omega (arith, a.lead))
