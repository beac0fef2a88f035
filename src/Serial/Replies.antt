-- ===== src/Serial/Replies.antt =====
-- A request and its reply, byte by byte.
use argon_utils.Prelude.{
  ℕ, ◌+◌, ◌≤◌, ◌≡◌, ◌≢◌, ◌∙◌, refl, ap, subst, inl, inr, some, List, [], ◌∷◌, ◌++◌, append_assoc,
  length, length-append, take, take-append, replicate, drop, AllBytes, ok, arith,
}
use argon_utils.Frame
use argon_utils.Frame.{Frame, encode_into}
use argon_utils.Frame.Layout.{body, frame_bytes, encode_into_lem}
use argon_utils.Frame.Reader.{FrameReader, reset, new}
use argon_utils.Frame.Refinement.{Holds}
use argon_utils.Frame.Stream.{
  feed, Outcome, IsFrame, AllFrames, bytes_of, feed-frame_bytes, AllBytes-append,
  frame_bytes-AllBytes, bytes_of-AllBytes,
}
use argon_utils.Frame.Refinement.{new-Holds}
use argon_utils.Serial.{SerialLink, Reads, request}
use argon_utils.Serial.Matching.{matched, stream, IsTimely, returned, found, read_matching-matched}

-- None of the frames answers the command.
abbrev pub NoAnswer : ℕ → List Frame → Type 0
NoAnswer cmd [] = Unit {0}
NoAnswer cmd (f ∷ fs) = (f.cmd ≢ cmd) × NoAnswer cmd fs

matched-hit :
    (cmd : ℕ) (f : Frame) (rest : List Outcome) → f.cmd ≡ cmd → matched cmd (ok f ∷ rest) ≡ some f
matched-hit cmd f rest e = ground arith

matched-miss :
    (cmd : ℕ) (f : Frame) (rest : List Outcome)
    → f.cmd ≢ cmd
    → matched cmd (ok f ∷ rest) ≡ matched cmd rest
matched-miss cmd f rest n = ground arith

-- A reader that has just been reset, and one that is new, read the frames that come first, and then
-- the answer.
matched-replies :
    (cmd : ℕ) (r : FrameReader) (fs : List Frame) (f : Frame) (rest : List ℕ)
    → Holds r []
    → r.dropped ≡ 0
    → AllFrames fs
    → NoAnswer cmd fs
    → IsFrame f
    → f.cmd ≡ cmd
    → AllBytes rest
    → matched cmd (feed r (bytes_of fs ++ (frame_bytes f ++ rest))) ≡ some f
matched-replies cmd r [] f rest h z vs n v e a =
    ap (matched cmd) (feed-frame_bytes r f rest h v a) ∙ rw z (matched-hit cmd f (feed new rest) e)
matched-replies cmd r (g ∷ fs) f rest h z vs n v e a =
    ap (λ bs. matched cmd (feed r bs))
      (append_assoc (frame_bytes g) (bytes_of fs) (frame_bytes f ++ rest))
    ∙ ap (matched cmd) (
        feed-frame_bytes r g (bytes_of fs ++ (frame_bytes f ++ rest)) h vs.0 (
          AllBytes-append (bytes_of fs) _ (bytes_of-AllBytes fs vs.1)
            (AllBytes-append (frame_bytes f) rest (frame_bytes-AllBytes f v) a)))
    ∙ rw z (
        matched-miss cmd g (feed new (bytes_of fs ++ (frame_bytes f ++ rest))) n.0
        ∙ matched-replies cmd new fs f rest new-Holds refl vs.1 n.1 v e a)

reset-Holds : (r : FrameReader) → length r.buf ≡ 259 → Holds (reset r) []
unfolding reset
reset-Holds r l = record { array = l; count = refl; prefix = refl; mode = tt }

pub new-ok :
    (cmd : ℕ) (payload : List ℕ)
    → length payload ≤ 255
    → Frame.new cmd payload ≡ ok (record { cmd = cmd; payload = payload })
unfolding Frame.new
new-ok cmd payload l = ground arith

frame_bytes-length : (g : Frame) → length (frame_bytes g) ≡ length g.payload + 4
frame_bytes-length g = omega (arith, length-append {0} g.payload (Frame.checksum (body g) ∷ []))

pub encoded_bytes :
    (g : Frame)
    → length g.payload ≤ 255
    → (rest : List ℕ) × (encode_into g (replicate 260 0)
        ≡ (frame_bytes g ++ rest, ok (length g.payload + 4)))
      × (take (length g.payload + 4) (frame_bytes g ++ rest) ≡ frame_bytes g)
encoded_bytes g l = elim (encode_into_lem g (replicate 260 0)) [
  | inl (fits, e) ↦
      let rest = drop (length g.payload + 4) (replicate 260 0) in
      (
        rest,
        e,
        subst (λ n. take n (frame_bytes g ++ rest) ≡ frame_bytes g) (frame_bytes-length g)
            (take-append (frame_bytes g) rest),
      )
  | inr (small, e) ↦ absurd (omega arith)
]

-- What a request sends, whatever is read then.
pub request-sends :
    (cmd : ℕ) (payload : List ℕ) (deadline : ℕ) (link : SerialLink) (reads : Reads)
    → length payload ≤ 255
    → (request cmd payload deadline (ok tt) link reads).0
      ≡ frame_bytes (record { cmd = cmd; payload = payload })
unfolding request
request-sends cmd payload deadline link reads l =
    let (more, enc, took) = encoded_bytes (record { cmd = cmd; payload = payload }) l in
    rw (new-ok cmd payload l) (rw enc took)

-- A request whose reads are all in time and do not fail sends exactly the bytes of its frame, and
-- returns the first frame with its command, where those before it are whole frames with other
-- commands: however the bytes are split over reads, and whatever the link had read before.
pub request-answered :
    (cmd : ℕ) (payload : List ℕ) (deadline : ℕ) (link : SerialLink) (reads : Reads)
    (fs : List Frame) (f : Frame) (rest : List ℕ)
    → length link.reader.buf ≡ 259
    → length payload ≤ 255
    → IsTimely deadline reads
    → stream reads ≡ bytes_of fs ++ (frame_bytes f ++ rest)
    → AllFrames fs
    → NoAnswer cmd fs
    → IsFrame f
    → f.cmd ≡ cmd
    → AllBytes rest
    → let (sent, answer) = request cmd payload deadline (ok tt) link reads in
      (sent ≡ frame_bytes (record { cmd = cmd; payload = payload }))
      × (returned answer ≡ some (ok f))
unfolding request
request-answered cmd payload deadline link reads fs f rest b l t s vs n v e a =
    let g : Frame = record { cmd = cmd; payload = payload } in
    let (more, enc, took) = encoded_bytes g l in
    rw (new-ok cmd payload l) (
      rw enc (
        took,
        read_matching-matched cmd deadline (record link { reader = reset link.reader }) reads t
            ∙ ap (λ bs. found (matched cmd (feed (reset link.reader) bs))) s
            ∙ ap found (
                matched-replies cmd (reset link.reader) fs f rest (reset-Holds link.reader b)
                  (unfold reset in refl) vs n v e a),
      ))
