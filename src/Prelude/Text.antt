-- ===== src/Prelude/Text.antt =====
-- Texts, as the source compares and searches them.
use Prim.Native.Nat.{ℕ, ◌+◌, compare, Ordering}
use Prim.Native.Char.{code}
use Prim.Native.String.{String, find, len, compare as compare_text}
use mathlib.Core.Bool.{Bool, true, false, ◌&&◌, ◌||◌}
use mathlib.Core.List.{List, [], ◌∷◌}
use mathlib.Core.Path.{◌≡◌}
use mathlib.Core.Logic.{◌↔◌}
use native.Mathlib.Omega.{arith}
use text.Mathlib.TextEquality.{eq_iff}
use argon_utils.Prelude.Tests.{leb, ◌==◌, if◌then◌else◌}

-- `str::contains`: the place where `t` begins is past the end of `s` where there is none.
unfoldable pub contains : String → String → Bool
contains s t = elim (compare (find s t) (len s)) [ Ordering.gt ↦ false | _ ↦ true ]

-- `==` of texts.
unfoldable pub eq_string : String → String → Bool
eq_string s t = elim (compare_text s t) [ Ordering.eq ↦ true | _ ↦ false ]

-- The code points of a text.
abbrev pub codes : String → List ℕ
codes String.[] = []
codes (String.◌∷◌ c s) = code c ∷ codes s

-- `char::is_whitespace`: the White_Space property of Unicode.
unfoldable pub is_whitespace : ℕ → Bool
is_whitespace c =
    leb 9 c && leb c 13
    || (c == 32
        || (c == 0x85
            || (c == 0xa0
                || (c == 0x1680
                    || (leb 0x2000 c && leb c 0x200a
                        || (c == 0x2028
                            || (c == 0x2029 || (c == 0x202f || (c == 0x205f || c == 0x3000)))))))))

unfoldable pub trim_start : List ℕ → List ℕ
trim_start [] = []
trim_start (c ∷ s) = let rest = trim_start s in if is_whitespace c then rest else c ∷ s

unfoldable pub trim_end : List ℕ → List ℕ
trim_end [] = []
trim_end (c ∷ s) = elim (trim_end s) [
  | [] ↦ (if is_whitespace c then [] else c ∷ [])
  | d ∷ r ↦ c ∷ d ∷ r
]

-- `str::trim`.
unfoldable pub trim : List ℕ → List ℕ
unfolding trim_start trim_end is_whitespace
trim s = trim_end (trim_start s)

-- `char::to_ascii_lowercase`.
unfoldable pub to_ascii_lowercase : ℕ → ℕ
to_ascii_lowercase c = if leb b'A' c && leb c b'Z' then c + 32 else c

-- `==` of texts, by their code points.
unfoldable pub eq_codes : List ℕ → List ℕ → Bool
eq_codes [] [] = true
eq_codes [] (_ ∷ _) = false
eq_codes (_ ∷ _) [] = false
eq_codes (c ∷ s) (d ∷ t) = c == d && eq_codes s t

pub eq_string_iff : (s t : String) → (eq_string s t ≡ true) ↔ (s ≡ t)
unfolding eq_string
eq_string_iff s t = ground (arith, eq_iff s t)
