-- ===== src/Status/Warnings.antt =====
-- What is read from a status, and what the watcher makes of a run of them.
use argon_utils.Prelude.{
  ℕ, ◌+◌, ◌-◌, ◌≤◌, ◌≡◌, ◌⊎◌, inl, inr, refl, sym, subst, Bool, true, false, Bool-cases, not, ◌&&◌,
  Option, Option-cases, none, some, String, List, [], ◌∷◌, ltb, arith, if◌then◌else◌,
}
use argon_utils.Notice.{Notice, Urgency}
use argon_utils.Service.{UpsStatus}
use argon_utils.Status.{Watcher, new, observe, notice, was_scheduled, stale_after, is_some}

-- What the status file holds at a look at it, and when that is.
abbrev pub Look : Type 0
Look = Option UpsStatus × ℕ

abbrev pub is_fresh : Look → Bool
is_fresh (none, now) = false
is_fresh (some s, now) = not (ltb stale_after (now - s.updated))

abbrev pub is_stale : Look → Bool
is_stale (none, now) = false
is_stale (some s, now) = ltb stale_after (now - s.updated)

abbrev pub Announced : Option Notice → Type 0
Announced none = ⊥
Announced (some n) = n.urgency ≡ Urgency.critical

abbrev pub fresh_looks : List Look → ℕ
fresh_looks [] = 0
fresh_looks (look ∷ looks) = (if is_fresh look then 1 else 0) + fresh_looks looks

module _ (pct : ℕ → String) (format_time : ℕ → String) where
  -- The watcher after the looks, of which the last is first.
  abbrev pub watched : List Look → Watcher
  watched [] = new
  watched ((status, now) ∷ looks) = (observe pct format_time (watched looks) status now).0

  -- What is said at a look, after others.
  abbrev pub said : List Look → Look → Option Notice
  said looks (status, now) = (observe pct format_time (watched looks) status now).1

  -- A critical notice was given, and since then the poweroff was pending at every fresh look.
  abbrev pub PendingSinceWarned : List Look → Type 0
  PendingSinceWarned [] = ⊥
  PendingSinceWarned (look ∷ looks) =
      Announced (said looks look)
      ⊎ (PendingSinceWarned looks
          × (if is_fresh look then ((is_some (was_scheduled look.0)) ≡ true) else Unit))

  -- How often it was said that the monitoring has stopped.
  abbrev pub stops : List Look → ℕ
  stops [] = 0
  stops (look ∷ looks) = (if is_stale look && is_some (said looks look) then 1 else 0) + stops looks

  warned :
      (previous : Option UpsStatus) (s : UpsStatus)
      → is_some s.shutdown_at ≡ true
      → was_scheduled previous ≡ none
      → Announced (notice pct format_time previous s)
  unfolding notice
  warned previous s h e = rw e (elim (Option-cases s.shutdown_at) [
    | inl none_now ↦ ground arith
    | inr (at, now) ↦ rw now refl
  ])

  held_on :
      (looks : List Look) (s : UpsStatus)
      → (is_some (was_scheduled (watched looks).last) ≡ true → PendingSinceWarned looks)
      → is_some s.shutdown_at ≡ true
      → Announced (notice pct format_time (watched looks).last s) ⊎ PendingSinceWarned looks
  held_on looks s earlier h = elim (Option-cases (was_scheduled (watched looks).last)) [
    | inl e ↦ inl (warned (watched looks).last s h e)
    | inr (at, e) ↦ inr (earlier (rw e refl))
  ]

  stale_look :
      (w : Watcher) (s : UpsStatus) (now : ℕ)
      → ltb stale_after (now - s.updated) ≡ true
      → (observe pct format_time w (some s) now).0.last ≡ w.last
  unfolding observe
  stale_look w s now e = rw e refl

  fresh_look :
      (w : Watcher) (s : UpsStatus) (now : ℕ)
      → ltb stale_after (now - s.updated) ≡ false
      → observe pct format_time w (some s) now
        ≡ (record { last = some s; stale_reported = false }, notice pct format_time w.last s)
  unfolding observe
  fresh_look w s now e = rw e refl

  scheduled_at :
      (looks : List Look) (s : UpsStatus) (now : ℕ)
      → (is_some (was_scheduled (watched looks).last) ≡ true → PendingSinceWarned looks)
      → is_some (was_scheduled (watched ((some s, now) ∷ looks)).last) ≡ true
      → PendingSinceWarned ((some s, now) ∷ looks)
  scheduled_at looks s now earlier h =
      let w = watched looks in
      elim (Bool-cases (ltb stale_after (now - s.updated))) [
        | inl e ↦ inr (
          earlier (subst (λ last. is_some (was_scheduled last) ≡ true) (stale_look w s now e) h),
          rw e tt,
        )
        | inr e ↦
            (let seen = fresh_look w s now e in
              let scheduled = subst (λ x. is_some (was_scheduled x.0.last) ≡ true) seen h in
              elim (held_on looks s earlier scheduled) [
                | inl a ↦ inl (subst (λ x. Announced x.1) (sym seen) a)
                | inr p ↦ inr (p, rw e scheduled)
              ])
      ]

  -- When the watcher holds a poweroff as scheduled, a critical notice has been given, and at each
  -- fresh look since then a poweroff was scheduled.
  pub pending_is_announced :
      (looks : List Look)
      → is_some (was_scheduled (watched looks).last) ≡ true
      → PendingSinceWarned looks
  unfolding observe
  pending_is_announced [] h = ground arith
  pending_is_announced ((none, now) ∷ looks) h = inr (pending_is_announced looks h, tt)
  pending_is_announced ((some s, now) ∷ looks) h =
      scheduled_at looks s now (pending_is_announced looks) h

  -- One that may still be said.
  abbrev unsaid : Watcher → ℕ
  unsaid w = if is_some w.last && not w.stale_reported then 1 else 0

  stops_bound : (looks : List Look) → stops looks + unsaid (watched looks) ≤ fresh_looks looks
  unfolding observe
  stops_bound [] = omega arith
  stops_bound ((none, now) ∷ looks) = let earlier = stops_bound looks in omega arith
  stops_bound ((some s, now) ∷ looks) = let earlier = stops_bound looks in ground arith

  -- That the monitoring has stopped is said at most once for each fresh look.
  pub stops_once : (looks : List Look) → stops looks ≤ fresh_looks looks
  stops_once looks = let bound = stops_bound looks in omega arith
