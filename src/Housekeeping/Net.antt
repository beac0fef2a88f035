-- ===== src/Housekeeping/Net.antt =====
-- The safety net against a wake that comes due on a running machine.
use argon_utils.Prelude.{
  subst, leb, Bool-cases, ℕ, ◌+◌, ◌-◌, ◌≤◌, ◌<◌, ◌≡◌, ◌∙◌, ◌⊎◌, inl, inr, refl, ap, sym, Bool, true,
  Option, Option-cases, none, some, List, Result-cases, ok, arith,
}
use argon_utils.Ups.{UpsLink}
use argon_utils.UpsTime.{UpsTime, to_unix_seconds, decode_optional_schedule, days_from_civil}
use argon_utils.UpsRequest.{set_wake, read_wake}
use argon_utils.UpsRequest.Schedule.{
  KeepsSchedule, Holds, read_wake-keeps, read_wake-true, park-Holds,
}
use argon_utils.Wake.{
  Assessment, ParkReason, assess, schedule_for, park_at, park_window, poweroff_delay,
}
use argon_utils.Wake.Requests.{accepted_is_left, assess-leave_iff}
use argon_utils.Housekeeping.{check_wake, act_on, Seen}

-- When the parked schedule is due, in seconds since 1970.
abbrev pub parked_until : ℕ
parked_until = 4_014_726_120

park_at-unix : to_unix_seconds park_at ≡ some parked_until
unfolding to_unix_seconds days_from_civil
park_at-unix = refl

park_at-left :
    (now : ℕ)
    → now + park_window < parked_until
    → assess (some park_at) now ≡ Assessment.leave park_at
park_at-left now l = (assess-leave_iff park_at now).1 (parked_until, park_at-unix, l)

-- A schedule that cannot come due on the running machine: none, or one that is readable and lies past
-- the window.
pub data IsSafe (now : ℕ) (found : Option UpsTime) : Type 0 where
  none_set : found ≡ none → IsSafe now found
  far_away :
      (t : UpsTime) (s : ℕ)
      → found ≡ some t
      → to_unix_seconds t ≡ some s
      → now + park_window < s
      → IsSafe now found

assess-cases :
    (found : Option UpsTime) (now : ℕ)
    → (IsSafe now found
        × ((assess found now ≡ Assessment.nothing)
            ⊎ ((t : UpsTime) × (assess found now ≡ Assessment.leave t))))
      ⊎ ((t : UpsTime) × (why : ParkReason) × (assess found now ≡ Assessment.park t why))
unfolding assess
assess-cases none now = inl (none_set refl, inl refl)
assess-cases (some t) now = elim (Option-cases (to_unix_seconds t)) [
  | inl n ↦ inr (t, ParkReason.unreadable, ground arith)
  | inr (s, e) ↦ elim (Bool-cases (leb s now)) [
    | inl p ↦ inr (t, ParkReason.past, ground arith)
    | inr p ↦ elim (Bool-cases (leb (s - now) park_window)) [
      | inl q ↦ inr (t, ParkReason.due_soon, ground arith)
      | inr q ↦ inl (far_away t s refl e (ground arith), inr (t, ground arith))
    ]
  ]
]

module _ {W : Type 0} (link : UpsLink W) (instant : W → ℕ) (held : W → List ℕ)
    (keeps : KeepsSchedule link held) where
  act_on-IsSafe :
      (w : W) (found : Option UpsTime) (now : ℕ) (logged : Seen)
      → decode_optional_schedule (held w) ≡ ok found
      → (set_wake link instant w park_at).1 ≡ ok tt
      → now + park_window < parked_until
      → (left : Option UpsTime) × (decode_optional_schedule
            (held (act_on link instant w found (assess found now) true logged).0)
          ≡ ok left)
        × IsSafe now left
  act_on-IsSafe w found now logged h parked l = elim (assess-cases found now) [
    | inl (safe, inl e) ↦ (found, rw e h, safe)
    | inl (safe, inr (t, e)) ↦ (found, rw e h, safe)
    | inr (t, why, e) ↦ (
      some park_at,
      rw e (park-Holds link instant held keeps w parked),
      far_away park_at parked_until refl park_at-unix l,
    )
  ]

  -- On a UPS that keeps its schedule, up to 2097: after a check that may park, whose read of the
  -- schedule succeeded and on which a parking is accepted, the UPS holds no schedule, or a readable
  -- one that is further away than the window.
  pub check_wake-IsSafe :
      (w : W) (now : ℕ) (logged : Seen) (found : Option UpsTime)
      → (read_wake link instant w).1 ≡ ok found
      → (set_wake link instant (read_wake link instant w).0 park_at).1 ≡ ok tt
      → now + park_window < parked_until
      → (left : Option UpsTime) × (decode_optional_schedule
            (held (check_wake link instant w true now logged).0)
          ≡ ok left)
        × IsSafe now left
  unfolding check_wake
  check_wake-IsSafe w now logged found e parked l = rw e (
      act_on-IsSafe (read_wake link instant w).0 found now logged
        (ap decode_optional_schedule (read_wake-keeps link instant held keeps w)
          ∙ read_wake-true link instant held keeps w found e)
        parked l)

  -- A wake that was accepted and is held by the UPS is still held after any check, of a thread that
  -- may park or may not, up to the poweroff that comes with it and a minute after.
  pub check_wake-keeps_accepted :
      (at now : ℕ) (t : UpsTime) (later : ℕ) (w : W) (park_allowed : Bool) (logged : Seen)
      → schedule_for at now ≡ ok t
      → later ≤ now + poweroff_delay + 60
      → Holds link instant held keeps w t
      → Holds link instant held keeps (check_wake link instant w park_allowed later logged).0 t
  unfolding check_wake
  check_wake-keeps_accepted at now t later w park_allowed logged s l h =
      let same = ap decode_optional_schedule (read_wake-keeps link instant held keeps w) in
      elim (Result-cases (read_wake link instant w).1) [
        | inr (x, e) ↦ rw e (same ∙ h)
        | inl (found, e) ↦
            let is_t : found ≡ some t =
              ground (arith, read_wake-true link instant held keeps w found) in
            let left = accepted_is_left at now t later s l in
            rw e (
              subst
                (λ a.
                  Holds link instant held keeps
                    (act_on link instant (read_wake link instant w).0 found a park_allowed logged).0
                    t)
                (sym (ap (λ f. assess f later) is_t ∙ left)) (same ∙ h))
      ]
