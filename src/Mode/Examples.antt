-- ===== src/Mode/Examples.antt =====
-- Names of modes.
use argon_utils.Prelude.{◌≡◌, refl, none, some}
use argon_utils.Mode.{Mode, full, parse, as_str}

parse-as_str : (m : Mode) → parse (as_str m) ≡ some m
unfolding parse as_str
parse-as_str Mode.read_only = refl
parse-as_str Mode.managed = refl
parse-as_str Mode.full = refl

shouted : parse " FULL\n" ≡ some full
unfolding parse
shouted = refl

misspelt : parse "ful" ≡ none
unfolding parse
misspelt = refl
