-- ===== src/Power/Foreign.antt =====
-- What an advised shutdown brings about, and a shutdown that somebody else placed.
use argon_utils.Prelude.{
  ℕ, ◌≡◌, ◌⊎◌, ◌∙◌, Bool-cases, true, false, none, some, inl, inr, ok, Result-cases, Option-cases,
  String, arith, contains,
}
use argon_utils.Policy.{Decision}
use argon_utils.Power.{
  PowerControl, ShutdownCoordinator, Action, kind, advises, on_decision, same_shutdown, failed,
  scheduled, adopted, already_pending, shutdown_message, place, adopt, is_our_message,
}
use argon_utils.Power.Logind.{IsLogind, pending-cases, Standing}
use argon_utils.Power.Standing.{Ours}

same_shutdown_refl : (t : ℕ) → same_shutdown t t ≡ true
unfolding same_shutdown
same_shutdown_refl t = ground arith

module _ {W : Type 0} (p : PowerControl W) (standing : W → Standing)
    (laws : IsLogind p standing) where
  -- How the handling of an advised shutdown can end where none of ours is on record: with one of
  -- ours pending, with another's left pending, or with a refusal that changed nothing.
  pub data Outcome (before : Standing) (c : ShutdownCoordinator W) (a : Action) : Type 0 where
    protected :
        (t t' : ℕ) (m : String)
        → (a ≡ scheduled t) ⊎ (a ≡ adopted t)
        → Ours p standing laws c t t' m
        → Outcome before c a
    others :
        (t : ℕ) (m : String)
        → a ≡ already_pending t
        → c.ours ≡ none
        → standing c.power ≡ some (t, m)
        → before ≡ some (t, m)
        → Outcome before c a
    refused :
        (e : String) → a ≡ failed e → c.ours ≡ none → standing c.power ≡ before → Outcome before c a

  place-Outcome :
      (c : ShutdownCoordinator W)
      → c.ours ≡ none
      → c.dry_run ≡ false
      → Outcome (standing c.power) (place p c).0 (place p c).1
  place-Outcome c o r =
      elim (Result-cases (p.schedule_poweroff c.power c.delay shutdown_message).1) [
        | inl (t, e) ↦
            let (t', s, near) = laws.schedule_ok c.power c.delay shutdown_message t e in
            protected t t' shutdown_message (inl (ground arith)) (ground arith)
        | inr (x, e) ↦
            refused x (ground arith) (ground arith)
              (ground (arith, laws.schedule_err c.power c.delay shutdown_message x))
      ]

  adopt-Outcome :
      (c : ShutdownCoordinator W) (t : ℕ) (m : String)
      → c.ours ≡ none
      → c.dry_run ≡ false
      → standing c.power ≡ some (t, m)
      → Outcome (standing c.power) (adopt p c t).0 (adopt p c t).1
  adopt-Outcome c t m o r s = elim (Bool-cases (is_our_message p (p.wall_message c.power).1)) [
    | inl e ↦
        protected t t m (inr (ground arith))
          (ground (arith, laws.wall_keeps c.power, same_shutdown_refl t))
    | inr e ↦ others t m (ground arith) (ground arith) (ground (arith, laws.wall_keeps c.power)) s
  ]

  -- Ready to act: real, with none of ours on record, and not overridden by an operator.
  pub record Ready (c : ShutdownCoordinator W) : Type 0 where
    pub real : c.dry_run ≡ false
    pub none_ours : c.ours ≡ none
    pub active : c.stood_down ≡ false

  -- The coordinator after the read of what is pending.
  abbrev after_read : ShutdownCoordinator W → ShutdownCoordinator W
  after_read c = record c { power = (p.pending c.power).0 }

  advised-cases :
      (c : ShutdownCoordinator W) (d : Decision) (now : ℕ)
      → Ready c
      → kind d ≡ advises
      → (on_decision p c d now ≡ place p (after_read c))
        ⊎ ((t : ℕ) × (m : String) × (standing c.power ≡ some (t, m))
            × (on_decision p c d now ≡ adopt p (after_read c) t))
  unfolding on_decision
  advised-cases c d now r k = elim (pending-cases p standing laws c.power) [
    | inr (x, e) ↦ inl (ground arith)
    | inl e ↦ elim (Option-cases (standing c.power)) [
      | inl n ↦ inl (ground arith)
      | inr ((t, m), s) ↦ inr (t, m, s, ground arith)
    ]
  ]

  -- An advised shutdown, on a coordinator that is free to act, ends with a poweroff of ours pending
  -- and on record (placed, or taken over by its wall message), with somebody else's pending and left
  -- alone, or with logind's refusal reported and nothing changed.
  pub advised_outcome :
      (c : ShutdownCoordinator W) (d : Decision) (now : ℕ)
      → Ready c
      → kind d ≡ advises
      → Outcome (standing c.power) (on_decision p c d now).0 (on_decision p c d now).1
  advised_outcome c d now r k = elim (advised-cases c d now r k) [
    | inl e ↦ rw (e, ← laws.pending_keeps c.power) (place-Outcome (after_read c) r.none_ours r.real)
    | inr (t, m, s, e) ↦
        rw (e, ← laws.pending_keeps c.power)
          (adopt-Outcome (after_read c) t m r.none_ours r.real (laws.pending_keeps c.power ∙ s))
  ]

  -- The pending shutdown is somebody else's: not the one on record, and without our wall message.
  pub record IsForeign (c : ShutdownCoordinator W) (t : ℕ) (m : String) : Type 0 where
    pub pending : standing c.power ≡ some (t, m)
    pub other_message : contains m shutdown_message ≡ false
    pub other_time : (mine : ℕ) → c.ours ≡ some mine → same_shutdown mine t ≡ false

  foreign_message :
      (w : W) (t : ℕ) (m : String)
      → standing w ≡ some (t, m)
      → contains m shutdown_message ≡ false
      → is_our_message p (p.wall_message w).1 ≡ false
  foreign_message w t m s n = elim (Result-cases (p.wall_message w).1) [
    | inr (x, e) ↦ ground arith
    | inl (r, e) ↦ elim (Option-cases r) [
      | inl q ↦ ground arith
      | inr (m', q) ↦ ground (arith, laws.wall_true w m')
    ]
  ]

  foreign-step :
      (c : ShutdownCoordinator W) (d : Decision) (now t : ℕ) (m : String)
      → IsForeign c t m
      → (p.pending c.power).1 ≡ ok (some t)
      → let c' = (on_decision p c d now).0 in
        (standing c'.power ≡ some (t, m)) × ((c'.ours ≡ none) ⊎ (c'.ours ≡ c.ours))
  unfolding on_decision
  foreign-step c d now t m f readable =
      let w = (p.pending c.power).0 in
      let still = laws.pending_keeps c.power ∙ f.pending in
      let not_ours = foreign_message w t m still f.other_message in
      elim (Option-cases c.ours) [
        | inl n ↦ (
          ground (arith, still, not_ours, laws.wall_keeps w),
          ground (arith, still, not_ours, laws.wall_keeps w),
        )
        | inr (mine, e) ↦
            (ground (arith, still, f.other_time mine), ground (arith, still, f.other_time mine))
      ]

  -- While logind can be read, no decision of any kind cancels or replaces a shutdown that somebody
  -- else placed, and it never comes to stand on our record.
  pub on_decision-IsForeign :
      (c : ShutdownCoordinator W) (d : Decision) (now t : ℕ) (m : String)
      → IsForeign c t m
      → (p.pending c.power).1 ≡ ok (some t)
      → IsForeign (on_decision p c d now).0 t m
  on_decision-IsForeign c d now t m f readable =
      let (s, o) = foreign-step c d now t m f readable in
      record {
        pending = s;
        other_message = f.other_message;
        other_time = λ mine e. ground (arith, f.other_time mine);
      }
