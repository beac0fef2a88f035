-- ===== src/Bcd/Examples.antt =====
-- Bytes of BCD.
use argon_utils.Prelude.{◌≡◌, refl, err}
use argon_utils.Bcd.{decode, invalid_bcd}

hex_nibble : decode 0x1a ≡ err (invalid_bcd 0x1a)
unfolding decode
hex_nibble = refl
