-- ===== src/Prelude.antt =====
-- The names that the other modules share: the libraries', passed on, and those of the children.
mod Tests
mod Lists
mod Outcome
mod Int
mod Bytes
mod Text
pub use Tests.*
pub use Lists.*
pub use Outcome.*
pub use Int.*
unfoldable pub use Text.{contains, eq_string, codes, trim, to_ascii_lowercase, eq_codes}
pub use Prim.Native.String.{String, ◌++◌ as ◌+text◌}
unfoldable pub use Bytes.{passes}
pub use Bytes.{passes-at}
pub use Text.{eq_string_iff}
pub use Prim.Native.Nat.{
  bit_and, bit_or, bit_xor, ℕ, zero, suc, ◌+◌, ◌-◌, ◌*◌, ◌/◌, ◌%◌, ◌^◌, ◌≤◌, ◌<◌, min, max,
}
pub use mathlib.Core.Path.{◌≡◌, refl, sym, ap, ◌∙◌, subst}
pub use mathlib.Core.Logic.{◌≢◌, ◌↔◌, ◌⊎◌, inl, inr}
pub use mathlib.Core.Bool.{Bool, true, false, not, ◌&&◌, ◌||◌}
pub use mathlib.Core.Option.{Option, none, some}
pub use mathlib.Core.List.{List, [], ◌∷◌, ◌++◌, map, append_assoc, append-nil}
pub use native.Mathlib.Omega.{arith}
