-- ===== src/Power/Logind.antt =====
-- What the coordinator relies on of logind (documented with the trait `PowerControl` of
-- crates/argon-device/src/power.rs), the arithmetic of the source's own `Logind`, and a logind that
-- meets these laws.
use argon_utils.Prelude.{
  ℕ, ◌+◌, ◌*◌, ◌/◌, ◌≤◌, ◌≡◌, refl, Bool, true, Option, none, some, Result, Result-cases, ◌⊎◌, inl,
  inr, ok, err, String, arith, max, if◌then◌else◌,
}
use argon_utils.Power.{PowerControl, same_shutdown}

-- The shutdown that logind has pending: its time and its wall message.
abbrev pub Standing : Type 0
Standing = Option (ℕ × String)

abbrev pub time_of : Standing → Option ℕ
time_of none = none
time_of (some (t, _)) = some t

abbrev pub message_of : Standing → Option String
message_of none = none
message_of (some (_, m)) = some m

-- Reads change nothing and tell the truth when they succeed. A placed poweroff is pending within the
-- tolerance of the time returned. A refused request changes nothing.
pub record IsLogind {W : Type 0} (p : PowerControl W) (standing : W → Standing) : Type 0 where
  pub pending_keeps : (w : W) → standing (p.pending w).0 ≡ standing w
  pub pending_true : (w : W) (r : Option ℕ) → (p.pending w).1 ≡ ok r → time_of (standing w) ≡ r
  pub wall_keeps : (w : W) → standing (p.wall_message w).0 ≡ standing w
  pub wall_true :
      (w : W) (m : String) → (p.wall_message w).1 ≡ ok (some m) → message_of (standing w) ≡ some m
  pub schedule_ok :
      (w : W) (d : ℕ) (m : String) (t : ℕ)
      → (p.schedule_poweroff w d m).1 ≡ ok t
      → (t' : ℕ) × (standing (p.schedule_poweroff w d m).0 ≡ some (t', m))
        × (same_shutdown t t' ≡ true)
  pub schedule_err :
      (w : W) (d : ℕ) (m : String) (e : String)
      → (p.schedule_poweroff w d m).1 ≡ err e
      → standing (p.schedule_poweroff w d m).0 ≡ standing w
  pub cancel_ok : (w : W) → (p.cancel w).1 ≡ ok tt → standing (p.cancel w).0 ≡ none
  pub cancel_err :
      (w : W) (e : String) → (p.cancel w).1 ≡ err e → standing (p.cancel w).0 ≡ standing w

pub pending-cases :
    {W : Type 0} (p : PowerControl W) (standing : W → Standing) (laws : IsLogind p standing) (w : W)
    → ((p.pending w).1 ≡ ok (time_of (standing w))) ⊎ ((e : String) × ((p.pending w).1 ≡ err e))
pending-cases p standing laws w = elim (Result-cases (p.pending w).1) [
  | inl (r, e) ↦ inl (rw (laws.pending_true w r e) e)
  | inr (x, e) ↦ inr (x, e)
]

-- `delay.as_secs().div_ceil(60).max(1)`: the whole minutes that `shutdown` is given.
pub shutdown_minutes : ℕ → ℕ
shutdown_minutes delay = max ((delay / 1_000_000_000 + 59) / 60) 1

-- The time that `Logind::schedule_poweroff` asks for.
pub intended_time : ℕ → ℕ → ℕ
unfolding shutdown_minutes
intended_time now delay = now + shutdown_minutes delay * 60_000_000_000

pub scheduled_time : Result (Option ℕ) String → ℕ → ℕ
scheduled_time (ok (some t)) intended = t
scheduled_time (ok none) intended = intended
scheduled_time (err _) intended = intended

-- The poweroff asked for is never immediate: it is at least a minute away, never before the whole
-- seconds of the delay are over, and less than a minute later than that or than the next minute.
pub intended_time_bounds :
    (now delay : ℕ)
    → (now + 60_000_000_000 ≤ intended_time now delay)
      × (now + delay / 1_000_000_000 * 1_000_000_000 ≤ intended_time now delay)
      × (intended_time now delay ≤ now + delay + 60_000_000_000)
unfolding intended_time
intended_time_bounds now delay = (omega arith, omega arith, omega arith)

-- A logind whose answers can be made to fail.
pub record World : Type 0 where
  pub standing : Standing
  pub readable : Bool
  pub willing : Bool
  pub clock : ℕ

abbrev pub world_logind : PowerControl World
world_logind = record {
  schedule_poweroff = λ w d m.
      if w.willing
      then (record w { standing = some (w.clock + d, m) }, ok (w.clock + d))
      else (w, err "refused");
  cancel = λ w. if w.willing then (record w { standing = none }, ok tt) else (w, err "refused");
  pending = λ w. (w, if w.readable then ok (time_of w.standing) else err "no bus");
  wall_message = λ w. (w, if w.readable then ok (message_of w.standing) else err "no bus");
}

world_tolerance :
    (w : World) (d : ℕ) (m : String) (t : ℕ)
    → (world_logind.schedule_poweroff w d m).1 ≡ ok t
    → same_shutdown t (w.clock + d) ≡ true
unfolding same_shutdown
world_tolerance w d m t h = ground arith

pub world-IsLogind : IsLogind world_logind (λ w. w.standing)
world-IsLogind = record {
  pending_keeps = λ w. refl;
  pending_true = λ w r h. ground arith;
  wall_keeps = λ w. refl;
  wall_true = λ w m h. ground arith;
  schedule_ok = λ w d m t h. (w.clock + d, ground arith, world_tolerance w d m t h);
  schedule_err = λ w d m e h. ground arith;
  cancel_ok = λ w h. ground arith;
  cancel_err = λ w e h. ground arith;
}
