-- ===== src/UpsRequest/Schedule.antt =====
-- What the UPS is relied on for its wake schedule, and what reading and setting it show of it.
use argon_utils.Prelude.{
  AllBytes, ℕ, ◌+◌, ◌≡◌, ◌∙◌, ◌⊎◌, inl, inr, refl, ap, sym, true, Option, none, some, List, [], ◌∷◌,
  Result-cases, ok, arith,
}
use argon_utils.Bcd.{encode as encode_byte, decode as decode_byte}
use argon_utils.Command.{get_wake, set_wake}
use argon_utils.Frame.{Frame}
use argon_utils.Ups
use argon_utils.Ups.{UpsLink, set_schedule, request_deadline, decode_err}
use argon_utils.UpsTime.{UpsTime, encode_schedule, decode_schedule, decode_optional_schedule}
use argon_utils.Wake.{same_minute, park_at}
use argon_utils.UpsRequest
use argon_utils.UpsRequest.{
  Response, handle_request, poweroff_with_wake, poweroff_scheduled, error, second, park, power_off,
  confirm, begin, reads_back, announce,
}

-- A UPS that holds a wake schedule, as the payload `held`: a read of it is answered with that, and a
-- setting of a schedule that it can read, answered with an empty reply, was taken up. Of any other
-- answer nothing is asked.
pub record KeepsSchedule {W : Type 0} (link : UpsLink W) (held : W → List ℕ) : Type 0 where
  pub read_keeps : (w : W) (deadline : ℕ) → held (link.request w get_wake [] deadline).0 ≡ held w
  pub read_true :
      (w : W) (deadline : ℕ) (f : Frame)
      → (link.request w get_wake [] deadline).1 ≡ ok f
      → f.payload ≡ held w
  pub set_ok :
      (w : W) (payload : List ℕ) (deadline : ℕ) (f : Frame) (t : UpsTime)
      → AllBytes payload
      → decode_schedule payload ≡ ok t
      → (link.request w set_wake payload deadline).1 ≡ ok f
      → f.payload ≡ []
      → held (link.request w set_wake payload deadline).0 ≡ payload

List-cases : (xs : List ℕ) → (xs ≡ []) ⊎ ((b : ℕ) × (bs : List ℕ) × (xs ≡ b ∷ bs))
List-cases [] = inl refl
List-cases (b ∷ bs) = inr (b, bs, refl)

-- Times of the same minute, both with no second, are the same.
pub same_minute-eq :
    (a b : UpsTime) → same_minute a b ≡ true → a.second ≡ none → b.second ≡ none → a ≡ b
unfolding same_minute
same_minute-eq a b h n m = ground arith

decode_schedule-no_second :
    (payload : List ℕ) (t : UpsTime) → decode_schedule payload ≡ ok t → t.second ≡ none
unfolding decode_schedule
decode_schedule-no_second [] t e = cc
decode_schedule-no_second (_ ∷ []) t e = cc
decode_schedule-no_second (_ ∷ _ ∷ []) t e = cc
decode_schedule-no_second (_ ∷ _ ∷ _ ∷ []) t e = cc
decode_schedule-no_second (_ ∷ _ ∷ _ ∷ _ ∷ []) t e = cc
decode_schedule-no_second (y ∷ mo ∷ d ∷ h ∷ mi ∷ []) t e = ground arith
decode_schedule-no_second (_ ∷ _ ∷ _ ∷ _ ∷ _ ∷ _ ∷ _) t e = cc

pub decoded-no_second :
    (payload : List ℕ) (t : UpsTime)
    → decode_optional_schedule payload ≡ ok (some t)
    → t.second ≡ none
unfolding decode_optional_schedule
decoded-no_second [] t e = cc
decoded-no_second (b ∷ payload) t e = elim (Result-cases (decode_schedule (b ∷ payload))) [
  | inl (u, f) ↦ ground (arith, decode_schedule-no_second (b ∷ payload) u)
  | inr (x, f) ↦ ground arith
]

abbrev park_bytes : List ℕ
park_bytes = 0x97 ∷ 0x03 ∷ 0x21 ∷ 0x17 ∷ 0x42 ∷ []

encode_park : encode_schedule park_at ≡ ok park_bytes
unfolding encode_schedule encode_byte
encode_park = refl

parse_park : decode_schedule park_bytes ≡ ok park_at
unfolding decode_schedule decode_byte
parse_park = refl

decode_park : decode_optional_schedule park_bytes ≡ ok (some park_at)
unfolding decode_optional_schedule decode_byte
decode_park = refl

module _ {W : Type 0} (link : UpsLink W) (instant : W → ℕ) (held : W → List ℕ)
    (keeps : KeepsSchedule link held) where
  -- The schedule that the UPS holds is `t`.
  abbrev pub Holds : W → UpsTime → Type 0
  Holds w t = decode_optional_schedule (held w) ≡ ok (some t)

  set_wake-held :
      (w : W) (t : UpsTime) (payload : List ℕ)
      → AllBytes payload
      → decode_schedule payload ≡ ok t
      → encode_schedule t ≡ ok payload
      → (UpsRequest.set_wake link instant w t).1 ≡ ok tt
      → held (UpsRequest.set_wake link instant w t).0 ≡ payload
  unfolding set_schedule
  set_wake-held w t payload a d e h =
      elim (Result-cases (link.request w set_wake payload (instant w + request_deadline)).1) [
        | inl (f, g) ↦ elim (List-cases f.payload) [
          | inl n ↦ ground (arith, keeps.set_ok w payload (instant w + request_deadline) f t a d)
          | inr (b, bs, n) ↦ ground arith
        ]
        | inr (x, g) ↦ ground arith
      ]

  pub read_wake-keeps : (w : W) → held (UpsRequest.read_wake link instant w).0 ≡ held w
  unfolding Ups.wake
  read_wake-keeps w = keeps.read_keeps w _

  pub read_wake-true :
      (w : W) (r : Option UpsTime)
      → (UpsRequest.read_wake link instant w).1 ≡ ok r
      → decode_optional_schedule (held w) ≡ ok r
  unfolding Ups.wake
  read_wake-true w r h =
      elim (Result-cases (link.request w get_wake [] (instant w + request_deadline)).1) [
        | inl (f, g) ↦
            let same = keeps.read_true w (instant w + request_deadline) f g in
            elim (Result-cases (decode_optional_schedule f.payload)) [
              | inl (q, k) ↦ ap decode_optional_schedule (sym same) ∙ ground arith
              | inr (x, k) ↦ ground arith
            ]
        | inr (x, g) ↦ ground arith
      ]

  pub park-Holds :
      (w : W)
      → ((UpsRequest.set_wake link instant w park_at).1 ≡ ok tt)
      → Holds (park link instant w).0 park_at
  unfolding park
  park-Holds w h =
      ap decode_optional_schedule
        (set_wake-held w park_at park_bytes (omega arith) parse_park encode_park h)
      ∙ decode_park
