-- ===== src/Drift/Examples.antt =====
-- Records, and the theorems at them.
use argon_utils.Prelude.{ℕ, ◌≡◌, ◌≤◌, refl, some, List, [], ◌∷◌, ◌++◌, length, pos, negsuc, ◌-ℤ◌}
use argon_utils.Drift.{Entry, corrected, in_sync, left_alone, append, rate, stretch, max_lines}
use argon_utils.Drift.Record.{kept_lines, append-Kept}

abbrev three : List ℕ
three = 1 ∷ 2 ∷ 3 ∷ []

append-Kept_example :
    (dropped : List ℕ) × (dropped ++ append three 4 ≡ three ++ (4 ∷ []))
    × (length (append three 4) ≡ kept_lines (length three))
    × (length (append three 4) ≤ max_lines)
append-Kept_example = append-Kept three 4

abbrev before : List Entry
before = record { unix = 10; offset_s = pos 900; action = left_alone } ∷ []

abbrev since : List Entry
since =
    record { unix = 43_220; offset_s = pos 2; action = in_sync }
    ∷ record { unix = 172_820; offset_s = pos 5; action = left_alone }
    ∷ []

abbrev correction : Entry
correction = record { unix = 20; offset_s = pos 900; action = corrected (negsuc 0) }

six_in_two_days :
    rate (before ++ (correction ∷ since))
    ≡ some (record { gained_s = pos 5 -ℤ negsuc 0; span_s = 172_800 })
unfolding rate stretch
six_in_two_days = refl
