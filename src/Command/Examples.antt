-- ===== src/Command/Examples.antt =====
-- Commands' bytes, and the theorems at them.
use argon_utils.Prelude.{◌≡◌, refl, none}
use argon_utils.Command.{from_byte}

one_is_no_command : from_byte 1 ≡ none
unfolding from_byte
one_is_no_command = refl
