-- ===== src/Prelude/Bytes.antt =====
-- Facts about bytes, checked by a run over every value.
use Prim.Native.Nat.{ℕ, zero, suc, ◌<◌}
use mathlib.Core.Path.{◌≡◌}
use mathlib.Core.Bool.{Bool, true, ◌&&◌}
use native.Mathlib.Omega.{arith}

unfoldable pub passes : (ℕ → Bool) → ℕ → Bool
passes test zero = true
passes test (suc bound) = passes test bound && test bound

pub passes-at :
    (test : ℕ → Bool) (bound value : ℕ)
    → value < bound
    → passes test bound ≡ true
    → test value ≡ true
unfolding passes
passes-at test zero value below run = absurd (omega arith)
passes-at test (suc bound) value below run = ground (arith, passes-at test bound value)
