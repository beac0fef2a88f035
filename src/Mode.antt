-- ===== src/Mode.antt =====
-- The operating modes (crates/argon-hal/src/mode.rs).
mod Examples
use argon_utils.Prelude.{
  Bool, true, false, Option, none, some, String, ◌||◌, map, codes, trim, to_ascii_lowercase,
  eq_codes, if◌then◌else◌,
}

pub data Mode : Type 0 where
  read_only managed full : Mode

unfoldable pub allows_writes : Mode → Bool
allows_writes read_only = false
allows_writes managed = true
allows_writes full = true

unfoldable pub allows_destructive : Mode → Bool
allows_destructive read_only = false
allows_destructive managed = false
allows_destructive full = true

-- `Mode::parse`.
unfoldable pub parse : String → Option Mode
unfolding trim to_ascii_lowercase eq_codes
parse s =
    let name = map to_ascii_lowercase (trim (codes s)) in
    if eq_codes name (codes "read-only") || eq_codes name (codes "readonly")
    then some read_only
    else if eq_codes name (codes "managed")
    then some managed
    else if eq_codes name (codes "full")
    then some full
    else none

unfoldable pub as_str : Mode → String
as_str read_only = "read-only"
as_str managed = "managed"
as_str full = "full"
