-- ===== src/Drift/Record.antt =====
-- The size of the record, and what a rate is measured over.
use argon_utils.Prelude.{
  append-nil, sym, ◌≢◌, ℕ, ◌+◌, ◌-◌, ◌≤◌, ◌≡◌, ◌∙◌, refl, ap, List, [], ◌∷◌, ◌++◌, ℤ, length, ltb,
  arith, length-append, length-drop, take, take-append-drop, if◌then◌else◌, Bool-cases, inl, inr,
  append_assoc,
}
use argon_utils.Drift.{
  Entry, Action, corrected, in_sync, left_alone, append, stretch, rate, max_lines, keep_lines,
  extend, rate_between, rate_over, last_of,
}

-- What a record of so many lines has after an entry is added: one more, and the newest 500 where that
-- would be more than 1000.
abbrev pub kept_lines : ℕ → ℕ
kept_lines n = if ltb n 1_000 then n + 1 else 500

module _ {ℓ} {A : Type ℓ} where
  text-length : (lines : List A) (entry : A) → length (lines ++ (entry ∷ [])) ≡ length lines + 1
  text-length lines entry = length-append lines (entry ∷ [])

  -- Adding an entry drops only oldest lines: what it leaves is the end of the record with the entry
  -- behind it, and of a record of fewer than 1000 lines that is all of it, of a longer one the newest
  -- 500. So it is never more than 1000 lines.
  pub append-Kept :
      (lines : List A) (entry : A)
      → (dropped : List A) × (dropped ++ append lines entry ≡ lines ++ (entry ∷ []))
        × (length (append lines entry) ≡ kept_lines (length lines))
        × (length (append lines entry) ≤ max_lines)
  unfolding append
  append-Kept lines entry =
      let text = lines ++ (entry ∷ []) in
      let excess = length text - keep_lines in
      let n = text-length lines entry in
      let d = length-drop excess text in
      elim (Bool-cases (ltb max_lines (length text))) [
        | inl e ↦ (
          take excess text,
          rw e (take-append-drop excess text),
          rw e (ground (arith, n, d)),
          rw e (ground (arith, n, d)),
        )
        | inr e ↦ ([], rw e refl, rw e (ground (arith, n)), rw e (ground (arith, n)))
      ]

-- No entry is a correction.
abbrev pub NoCorrection : List Entry → Type 0
NoCorrection [] = Unit {0}
NoCorrection (e ∷ entries) = ((after_s : ℤ) → e.action ≢ corrected after_s) × NoCorrection entries

-- When each check was, and the offset it found.
abbrev pub points_of : List Entry → List (ℕ × ℤ)
points_of [] = []
points_of (e ∷ entries) = (e.unix, e.offset_s) ∷ points_of entries

stretch-append :
    (points : List (ℕ × ℤ)) (xs ys : List Entry)
    → stretch points (xs ++ ys) ≡ stretch (stretch points xs) ys
unfolding stretch
stretch-append points [] ys = refl
stretch-append points (e ∷ xs) ys = stretch-append (extend points e.unix e.offset_s e.action) xs ys

extend-free :
    (points : List (ℕ × ℤ)) (unix : ℕ) (offset_s : ℤ) (action : Action)
    → ((after_s : ℤ) → action ≢ corrected after_s)
    → extend points unix offset_s action ≡ points ++ ((unix, offset_s) ∷ [])
extend-free points unix offset_s in_sync free = refl
extend-free points unix offset_s left_alone free = refl
extend-free points unix offset_s (corrected after_s) free = absurd (free after_s refl)

stretch-free :
    (points : List (ℕ × ℤ)) (entries : List Entry)
    → NoCorrection entries
    → stretch points entries ≡ points ++ points_of entries
unfolding stretch
stretch-free points [] n = sym (append-nil points)
stretch-free points (e ∷ entries) n =
    ap (λ p. stretch p entries) (extend-free points e.unix e.offset_s e.action n.0)
    ∙ stretch-free _ entries n.1
    ∙ append_assoc points ((e.unix, e.offset_s) ∷ []) (points_of entries)

-- The rate is measured from the offset that was read back after the latest correction to the last
-- check since, whatever the record holds from before it.
pub rate_since_correction :
    (earlier : List Entry) (unix : ℕ) (offset_s after_s : ℤ) (later : List Entry)
    → NoCorrection later
    → let correction : Entry = record {
      unix = unix;
      offset_s = offset_s;
      action = corrected after_s;
    } in
      rate (earlier ++ (correction ∷ later))
      ≡ rate_between (unix, after_s) (last_of (unix, after_s) (points_of later))
unfolding rate stretch
rate_since_correction earlier unix offset_s after_s later n =
    ap rate_over (stretch-append [] earlier _ ∙ stretch-free ((unix, after_s) ∷ []) later n)
