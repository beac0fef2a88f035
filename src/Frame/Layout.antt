-- ===== src/Frame/Layout.antt =====
-- The bytes of a frame, and that `encode_into` writes exactly these.
use argon_utils.Prelude.{
  ℕ, zero, suc, ◌+◌, ◌-◌, ◌≤◌, ◌<◌, ◌≡◌, ◌∙◌, ap, refl, List, [], ◌∷◌, ◌++◌, ◌⊎◌, inl, inr, ok, err,
  arith, length, copy_at, sym, take, drop, set, length-append, append_assoc, take-append,
  drop-append,
}
use native.Mathlib.Decide.{dec_lt}
use argon_utils.Frame.{Frame, buffer_too_small, checksum, encode_into, encode_read, start_byte}

-- The wire format of the source's header comment: start, length, command, payload, and the sum of
-- all bytes before it.
abbrev pub body : Frame → List ℕ
body f = start_byte ∷ length f.payload ∷ f.cmd ∷ f.payload

abbrev pub frame_bytes : Frame → List ℕ
frame_bytes f = body f ++ checksum (body f) ∷ []

set-append {ℓ} :
    {A : Type ℓ} (xs ys : List A) (y v : A) → set (xs ++ y ∷ ys) (length xs) v ≡ xs ++ v ∷ ys
set-append [] ys y v = refl
set-append (x ∷ xs) ys y v = ap (◌∷◌ x) (set-append xs ys y v)

split_at {ℓ} :
    {A : Type ℓ} (n : ℕ) (xs : List A)
    → n < length xs
    → (pre : List A) × (t : A) × (ts : List A) × (xs ≡ pre ++ t ∷ ts) × (length pre ≡ n)
split_at n [] h = elim h [ ]
split_at zero (x ∷ xs) h = ([], x, xs, refl, refl)
split_at (suc n) (x ∷ xs) h =
    let (pre, t, ts, e, k) = split_at n xs (omega arith) in (x ∷ pre, t, ts, ap (◌∷◌ x) e, ap suc k)

copied :
    (f : Frame) (t : ℕ) (pre ts : List ℕ)
    → length pre ≡ length f.payload
    → copy_at (start_byte ∷ length f.payload ∷ f.cmd ∷ (pre ++ t ∷ ts)) 3 f.payload
      ≡ body f ++ t ∷ ts
copied f t pre ts e =
    let q : 3 + length f.payload ≡ suc (suc (suc (length pre))) = omega arith in
    rw q (rw (drop-append pre (t ∷ ts)))

sealed :
    (f : Frame) (t n : ℕ) (ts : List ℕ)
    → n ≡ length (body f)
    → set (body f ++ t ∷ ts) n (checksum (take n (body f ++ t ∷ ts))) ≡ frame_bytes f ++ ts
sealed f t n ts e = rw e (
    rw (take-append (body f) (t ∷ ts))
      (set-append (body f) ts t (checksum (body f)) ∙ sym (append_assoc (body f) _ ts)))

encode_into-split :
    (f : Frame) (a b c t : ℕ) (pre ts : List ℕ)
    → length pre ≡ length f.payload
    → encode_into f (a ∷ b ∷ c ∷ (pre ++ t ∷ ts)) ≡ (frame_bytes f ++ ts, ok (length f.payload + 4))
unfolding encode_into
encode_into-split f a b c t pre ts e = ground (
  arith,
  length-append pre (t ∷ ts),
  copied f t pre ts e,
  sealed f t (length f.payload + 4 - 1) ts,
)

drop-append_suc {ℓ} :
    {A : Type ℓ} (xs ys : List A) (y : A) → drop (suc (length xs)) (xs ++ y ∷ ys) ≡ ys
drop-append_suc [] ys y = refl
drop-append_suc (x ∷ xs) ys y = drop-append_suc xs ys y

encode_into-room :
    (f : Frame) (out : List ℕ)
    → length f.payload + 4 ≤ length out
    → encode_into f out
      ≡ (frame_bytes f ++ drop (length f.payload + 4) out, ok (length f.payload + 4))
encode_into-room f [] h = absurd (omega arith)
encode_into-room f (_ ∷ []) h = absurd (omega arith)
encode_into-room f (_ ∷ _ ∷ []) h = absurd (omega arith)
encode_into-room f (a ∷ b ∷ c ∷ rest) h =
    let (pre, t, ts, e, k) = split_at (length f.payload) rest (omega arith) in
    let q : length f.payload + 4 ≡ suc (suc (suc (suc (length pre)))) = omega arith in
    let left : drop (length f.payload + 4) (a ∷ b ∷ c ∷ (pre ++ t ∷ ts)) ≡ ts =
      rw q (drop-append_suc pre ts t) in
    rw e (
      encode_into-split f a b c t pre ts k
      ∙ ap (λ d. (frame_bytes f ++ d, ok (length f.payload + 4))) (sym left))

encode_into-small :
    (f : Frame) (out : List ℕ)
    → length out < length f.payload + 4
    → encode_into f out ≡ (out, err (buffer_too_small (length f.payload + 4) (length out)))
unfolding encode_into
encode_into-small f out h = ground arith

-- A buffer with room for the frame gets exactly the bytes of the wire format, and keeps what lies
-- behind them; a smaller one is left as it is, and the error names both sizes.
pub encode_into_lem :
    (f : Frame) (out : List ℕ)
    → ((length f.payload + 4 ≤ length out)
        × (encode_into f out
            ≡ (frame_bytes f ++ drop (length f.payload + 4) out, ok (length f.payload + 4))))
      ⊎ ((length out < length f.payload + 4)
          × (encode_into f out ≡ (out, err (buffer_too_small (length f.payload + 4) (length out)))))
encode_into_lem f out = elim (dec_lt (length out) (length f.payload + 4)) [
  | yes small ↦ inr (small, encode_into-small f out small)
  | no room ↦
      let h : length f.payload + 4 ≤ length out = omega arith in inl (h, encode_into-room f out h)
]

-- The read request is the frame of an empty payload, for every command byte.
pub encode_read_lem : (cmd : ℕ) → encode_read cmd ≡ frame_bytes (record { cmd = cmd; payload = [] })
unfolding encode_read checksum
encode_read_lem cmd = ground arith
