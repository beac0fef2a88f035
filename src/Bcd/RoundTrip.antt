-- ===== src/Bcd/RoundTrip.antt =====
-- Encoding and decoding BCD are inverse.
use argon_utils.Prelude.{
  ℕ, ◌+◌, ◌*◌, ◌/◌, ◌%◌, ◌≤◌, ◌<◌, ◌≡◌, refl, ◌↔◌, bit_and, bit_or, true, ok, err, arith, ◌⊎◌, inl,
  inr, Result-cases, ◌==◌, ==_iff, passes, passes-at,
}
use argon_utils.Bcd.{InvalidBcd, invalid_bcd, decode, encode}

nibble_table : passes (λ x. bit_and x 15 == x % 16) 256 ≡ true
unfolding passes
nibble_table = refl

low_nibble : (x : ℕ) → x < 256 → bit_and x 15 ≡ x % 16
low_nibble x h = (==_iff _ _).0 (passes-at _ 256 x h nibble_table)

pack_table : passes (λ x. bit_or (x / 10 * 16) (x % 10) == x / 10 * 16 + x % 10) 100 ≡ true
unfolding passes
pack_table = refl

packed : (x : ℕ) → x < 100 → bit_or (x / 10 * 16) (x % 10) ≡ x / 10 * 16 + x % 10
packed x h = (==_iff _ _).0 (passes-at _ 100 x h pack_table)

pub encode_lem : (v : ℕ) → v ≤ 99 → encode v ≡ ok (v / 10 * 16 + v % 10)
unfolding encode
encode_lem v h = ground (arith, packed v)

pub decode_digits : (hi lo : ℕ) → hi ≤ 9 → lo ≤ 9 → decode (hi * 16 + lo) ≡ ok (hi * 10 + lo)
unfolding decode
decode_digits hi lo h l = ground (arith, low_nibble (hi * 16 + lo))

pub decode-encode : (v b : ℕ) → encode v ≡ ok b → decode b ≡ ok v
unfolding encode
decode-encode v b e = ground (arith, packed v, decode_digits (v / 10) (v % 10))

pub encode-decode : (b v : ℕ) → b < 256 → decode b ≡ ok v → encode v ≡ ok b
unfolding decode
encode-decode b v h e = ground (arith, low_nibble b, encode_lem v)

-- A byte decodes to a value exactly when the value is at most 99 and encodes to that byte.
pub decode_iff_encode : (b v : ℕ) → b < 256 → (decode b ≡ ok v) ↔ (encode v ≡ ok b)
decode_iff_encode b v h = (encode-decode b v h, decode-encode v b)

pub decode-le : (b v : ℕ) → b < 256 → decode b ≡ ok v → v ≤ 99
unfolding decode
decode-le b v h e = ground (arith, low_nibble b)

pub encode-lt : (v b : ℕ) → encode v ≡ ok b → b < 256
unfolding encode
encode-lt v b e = ground (arith, packed v)

-- The digits of a value as a byte.
abbrev pub byte_of : ℕ → ℕ
byte_of v = v / 10 * 16 + v % 10

pub decode-byte_of : (v : ℕ) → v ≤ 99 → decode (byte_of v) ≡ ok v
decode-byte_of v h = decode-encode v (byte_of v) (encode_lem v h)

decode-err : (b : ℕ) (x : InvalidBcd) → decode b ≡ err x → decode b ≡ err (invalid_bcd b)
unfolding decode
decode-err b x e = ground arith

pub decode-cases :
    (b : ℕ)
    → b < 256
    → ((v : ℕ) × (v ≤ 99) × (decode b ≡ ok v) × (encode v ≡ ok b))
      ⊎ (decode b ≡ err (invalid_bcd b))
decode-cases b h = elim (Result-cases (decode b)) [
  | inl (v, e) ↦ inl (v, decode-le b v h e, e, encode-decode b v h e)
  | inr (x, e) ↦ inr (decode-err b x e)
]
