-- ===== src/Drift.antt =====
-- The record of the UPS clock's drift (crates/argon-device/src/drift.rs). The file is the list of its
-- lines, which are entries; their text form, and the quotient that a rate is as an f64, are left out.
pub mod Record
mod Examples
use argon_utils.Prelude.{
  ℕ, ◌-◌, Option, none, some, List, [], ◌∷◌, ◌++◌, ℤ, ◌-ℤ◌, length, drop, ltb, if◌then◌else◌,
}

abbrev pub max_lines : ℕ
max_lines = 1_000

abbrev pub keep_lines : ℕ
keep_lines = 500

abbrev pub min_span_s : ℕ
min_span_s = 86_400

pub data Action : Type 0 where
  in_sync left_alone : Action
  corrected : ℤ → Action

pub record Entry : Type 0 where
  pub unix : ℕ
  pub offset_s : ℤ
  pub action : Action

-- `append`, on the lines of the file: the record is cut back once it is too long.
unfoldable pub append {ℓ} : {A : Type ℓ} → List A → A → List A
append lines entry =
    let text = lines ++ (entry ∷ []) in
    if ltb max_lines (length text) then drop (length text - keep_lines) text else text

-- One round of the loop of `rate`, over the points of the stretch.
abbrev pub extend : List (ℕ × ℤ) → ℕ → ℤ → Action → List (ℕ × ℤ)
extend points unix offset_s (corrected after_s) = (unix, after_s) ∷ []
extend points unix offset_s in_sync = points ++ ((unix, offset_s) ∷ [])
extend points unix offset_s left_alone = points ++ ((unix, offset_s) ∷ [])

unfoldable pub stretch : List (ℕ × ℤ) → List Entry → List (ℕ × ℤ)
stretch points [] = points
stretch points (e ∷ entries) = stretch (extend points e.unix e.offset_s e.action) entries

-- The offset gained over the stretch, and how long it is, both in seconds.
pub record Rate : Type 0 where
  pub gained_s : ℤ
  pub span_s : ℕ

-- The last of the points, of which `p` is the first.
abbrev pub last_of : ℕ × ℤ → List (ℕ × ℤ) → ℕ × ℤ
last_of p [] = p
last_of p (q ∷ points) = last_of q points

abbrev pub rate_between : ℕ × ℤ → ℕ × ℤ → Option Rate
rate_between (t0, o0) (t1, o1) =
    if ltb t1 t0
    then none
    else if ltb (t1 - t0) min_span_s
    then none
    else some (record { gained_s = o1 -ℤ o0; span_s = t1 - t0 })

abbrev pub rate_over : List (ℕ × ℤ) → Option Rate
rate_over [] = none
rate_over (p ∷ points) = rate_between p (last_of p points)

unfoldable pub rate : List Entry → Option Rate
unfolding stretch
rate entries = rate_over (stretch [] entries)
