-- ===== src/Frame/Stream.antt =====
-- Streams of bytes through the reader: every frame that is sent is decoded, also after noise, and
-- nothing else is.
use argon_utils.Prelude.{
  ℕ, ◌+◌, ◌%◌, ◌≤◌, ◌<◌, ◌≡◌, ◌∙◌, ap, sym, refl, none, some, List, [], ◌∷◌, ◌++◌, Result, ok, err,
  arith, length, length-append, append_assoc, append-nil, false, AllBytes, ltb, ◌==◌, if◌then◌else◌,
  map,
}
use argon_utils.Frame
use argon_utils.Frame.{Frame, FrameError, checksum, desync, start_byte}
use argon_utils.Frame.Layout.{body, frame_bytes}
use argon_utils.Frame.Reader.{FrameReader, Event, push, new}
use argon_utils.Frame.Refinement.{Held, Holds, accept, push-refines, new-Holds}

abbrev pub Outcome : Type 0
Outcome = Result Frame FrameError

abbrev pub list_of : Event → List Outcome → List Outcome
list_of none rest = rest
list_of (some x) rest = x ∷ rest

-- What a reader returns over a stream of bytes, as the callers of `push` collect it.
unfoldable pub feed : FrameReader → List ℕ → List Outcome
feed r [] = []
feed r (b ∷ bytes) = let (r', event) = push r b in list_of event (feed r' bytes)

unfoldable pub run : FrameReader → List ℕ → FrameReader
run r [] = r
run r (b ∷ bytes) = run (push r b).0 bytes

-- The same over the list of bytes held.
accept_all : Held → List ℕ → List Outcome
accept_all h [] = []
accept_all h (b ∷ bytes) = let (h', event) = accept h b in list_of event (accept_all h' bytes)

feed-accept_all :
    (r : FrameReader) (held : List ℕ) (bytes : List ℕ)
    → AllBytes bytes
    → Holds r held
    → feed r bytes ≡ accept_all (held, r.dropped) bytes
unfolding feed accept_all
feed-accept_all r held [] a v = refl
feed-accept_all r held (b ∷ bytes) a v =
    let g = push-refines r held b a.0 v in
    let h = accept (held, r.dropped) b in
    rw (g.same_event) (
      ap (list_of h.1) (
        feed-accept_all (push r b).0 h.0.0 bytes a.1 g.holds
        ∙ ap (λ d. accept_all (h.0.0, d) bytes) g.same_dropped))

-- The payload of a frame in progress, up to its checksum.
accept-payload :
    (s c d l : ℕ) (held more rest : List ℕ)
    → length held + length more ≡ l
    → accept_all (s ∷ l ∷ c ∷ held, d) (more ++ rest)
      ≡ accept_all (s ∷ l ∷ c ∷ (held ++ more), d) rest
unfolding accept_all accept
accept-payload s c d l held [] rest e = rw (append-nil held)
accept-payload s c d l held (b ∷ more) rest e =
    let going : (length held == l) ≡ false = ground arith in
    rw going (
      accept-payload s c d l (held ++ b ∷ []) more rest (omega (arith, length-append held (b ∷ [])))
      ∙ ap (λ xs. accept_all (s ∷ l ∷ c ∷ xs, d) rest) (append_assoc held (b ∷ []) more))

accept-checksum :
    (s c d : ℕ) (payload rest : List ℕ)
    → accept_all
        (s ∷ length payload ∷ c ∷ payload, d)
        (checksum (s ∷ length payload ∷ c ∷ payload) ∷ rest)
      ≡ ok (record { cmd = c; payload = payload }) ∷ accept_all ([], d) rest
unfolding accept_all accept
accept-checksum s c d payload rest = ground arith

-- The report of the bytes dropped before a frame.
abbrev pub resync : ℕ → List Outcome
resync d = if ltb 0 d then err (desync d) ∷ [] else []

accept-frame :
    (f : Frame) (d : ℕ) (rest : List ℕ)
    → accept_all ([], d) (frame_bytes f ++ rest) ≡ resync d ++ ok f ∷ accept_all ([], 0) rest
unfolding accept_all accept
accept-frame f d rest =
    let sum = checksum (body f) in
    let tail : accept_all (start_byte ∷ length f.payload ∷ f.cmd ∷ [], 0)
          ((f.payload ++ sum ∷ []) ++ rest)
        ≡ ok f ∷ accept_all ([], 0) rest =
      rw (append_assoc f.payload (sum ∷ []) rest) (
        accept-payload start_byte f.cmd 0 (length f.payload) [] f.payload (sum ∷ rest) (omega arith)
        ∙ accept-checksum start_byte f.cmd 0 f.payload rest) in
    ground (arith, tail)

-- A frame that `Frame::new` can make.
pub record IsFrame (f : Frame) : Type 0 where
  pub cmd_byte : f.cmd < 256
  pub payload_bytes : AllBytes f.payload
  pub fits : length f.payload ≤ 255

pub AllBytes-append : (xs ys : List ℕ) → AllBytes xs → AllBytes ys → AllBytes (xs ++ ys)
AllBytes-append [] ys a b = b
AllBytes-append (x ∷ xs) ys a b = (a.0, AllBytes-append xs ys a.1 b)

checksum_from-lt : (acc : ℕ) (bytes : List ℕ) → acc < 256 → Frame.checksum_from acc bytes < 256
unfolding Frame.checksum_from
checksum_from-lt acc [] h = h
checksum_from-lt acc (b ∷ bytes) h = checksum_from-lt ((acc + b) % 256) bytes (omega arith)

checksum-lt : (bytes : List ℕ) → checksum bytes < 256
unfolding checksum
checksum-lt bytes = checksum_from-lt 0 bytes (omega arith)

pub frame_bytes-AllBytes : (f : Frame) → IsFrame f → AllBytes (frame_bytes f)
frame_bytes-AllBytes f v = (
  omega arith,
  (
    omega (arith, v.fits),
    (v.cmd_byte, AllBytes-append f.payload _ v.payload_bytes (checksum-lt (body f), tt)),
  ),
)

-- A reader between frames decodes the bytes of a frame to that frame, after a report of the bytes
-- that it had dropped, if any; what follows is read as by a new reader.
pub feed-frame_bytes :
    (r : FrameReader) (f : Frame) (rest : List ℕ)
    → Holds r []
    → IsFrame f
    → AllBytes rest
    → feed r (frame_bytes f ++ rest) ≡ resync r.dropped ++ ok f ∷ feed new rest
feed-frame_bytes r f rest h v a =
    feed-accept_all r [] (frame_bytes f ++ rest)
      (AllBytes-append (frame_bytes f) rest (frame_bytes-AllBytes f v) a) h
    ∙ accept-frame f r.dropped rest
    ∙ ap (λ out. resync r.dropped ++ ok f ∷ out) (sym (feed-accept_all new [] rest a new-Holds))

abbrev pub AllFrames : List Frame → Type 0
AllFrames [] = Unit {0}
AllFrames (f ∷ fs) = IsFrame f × AllFrames fs

abbrev pub bytes_of : List Frame → List ℕ
bytes_of [] = []
bytes_of (f ∷ fs) = frame_bytes f ++ bytes_of fs

pub bytes_of-AllBytes : (fs : List Frame) → AllFrames fs → AllBytes (bytes_of fs)
bytes_of-AllBytes [] v = tt
bytes_of-AllBytes (f ∷ fs) v =
    AllBytes-append (frame_bytes f) (bytes_of fs) (frame_bytes-AllBytes f v.0)
      (bytes_of-AllBytes fs v.1)

-- Frames sent one after another are decoded to exactly these frames, with no error.
pub feed-bytes_of : (fs : List Frame) → AllFrames fs → feed new (bytes_of fs) ≡ map ok fs
unfolding feed
feed-bytes_of [] v = refl
feed-bytes_of (f ∷ fs) v =
    feed-frame_bytes new f (bytes_of fs) new-Holds v.0 (bytes_of-AllBytes fs v.1)
    ∙ ap (◌∷◌ (ok f)) (feed-bytes_of fs v.1)
