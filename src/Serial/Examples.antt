-- ===== src/Serial/Examples.antt =====
-- Requests on the serial link, and the theorems at them.
use argon_utils.Prelude.{◌≡◌, refl, inl, inr, some, [], ◌∷◌, ok, arith}
use argon_utils.Frame.{Frame, checksum_from, checksum}
use argon_utils.Frame.Layout.{frame_bytes}
use argon_utils.Frame.Stream.{feed}
use argon_utils.Serial.{Reads, bytes, timed_out, interrupted, from_port, read_matching, request}
use argon_utils.Serial.Matching.{
  Returns, returned, found, matched, stream, read_matching-Returns, read_matching-matched,
}
use argon_utils.Serial.Replies.{request-answered}

-- A frame of another command, then an answer to a battery query in three reads.
abbrev other : Frame
other = record { cmd = 5; payload = [] }

abbrev answer : Frame
answer = record { cmd = 0; payload = 93 ∷ 0 ∷ [] }

abbrev reads : Reads
reads =
    (1, bytes (0xfe ∷ 0 ∷ 5 ∷ 3 ∷ 0xfe ∷ []))
    ∷ (2, timed_out)
    ∷ (3, bytes (2 ∷ 0 ∷ 93 ∷ []))
    ∷ (4, interrupted)
    ∷ (5, bytes (0 ∷ 0x5d ∷ 7 ∷ []))
    ∷ []

read_matching-matched_example :
    returned (read_matching 0 9 from_port reads)
    ≡ found (matched 0 (feed (from_port.reader) (stream reads)))
read_matching-matched_example = read_matching-matched 0 9 from_port reads (omega arith)

request-answered_example :
    let (sent, got) = request 0 [] 9 (ok tt) from_port reads in
    (sent ≡ frame_bytes (record { cmd = 0; payload = [] })) × (returned got ≡ some (ok answer))
request-answered_example =
    request-answered 0 [] 9 from_port reads (other ∷ []) answer (7 ∷ []) refl (omega arith)
      (omega arith) (unfold checksum checksum_from in refl)
      (record { cmd_byte = omega arith; payload_bytes = tt; fits = omega arith }, tt)
      ((λ e. absurd (omega arith)), tt)
      (record { cmd_byte = omega arith; payload_bytes = omega arith; fits = omega arith }) refl
      (omega arith)

-- Nothing comes before the deadline.
abbrev silence : Reads
silence = (1, timed_out) ∷ (5, timed_out) ∷ (9, timed_out) ∷ []

read_matching-Returns_example : Returns (read_matching 0 9 from_port silence)
read_matching-Returns_example =
    read_matching-Returns 0 9 silence from_port (inr (inr (inl (omega arith))))
