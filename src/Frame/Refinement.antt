-- ===== src/Frame/Refinement.antt =====
-- The reader with its array, indices and modes implements a reader that holds the list of bytes of
-- the frame in progress.
use argon_utils.Prelude.{
  ℕ, ◌+◌, ◌<◌, ◌≡◌, ap, refl, min, none, some, List, [], ◌∷◌, ◌++◌, Result, ok, err, arith, length,
  take, drop, length-append, take-set, get_or-take, length-set, ltb, ◌==◌, if◌then◌else◌,
}
use argon_utils.Frame
use argon_utils.Frame.{Frame, bad_checksum, desync, start_byte, max_frame}
use argon_utils.Frame.Reader.{FrameReader, State, Event, push, push_in, usize_max, new}

-- The reader as a list: the bytes held and the count dropped, and what a byte brings about.
abbrev pub Held : Type 0
Held = List ℕ × ℕ

abbrev pub verdict : ℕ → List ℕ → List ℕ → ℕ → Result Frame Frame.FrameError
verdict c payload held byte =
    if byte == Frame.checksum held
    then ok (record { cmd = c; payload = payload })
    else err (bad_checksum byte (Frame.checksum held))

unfoldable pub accept : Held → ℕ → Held × Event
accept ([], dropped) byte =
    if byte == start_byte
    then ((byte ∷ [], 0), if ltb 0 dropped then some (err (desync dropped)) else none)
    else (([], min (dropped + 1) usize_max), none)
accept (s ∷ [], dropped) byte = ((s ∷ byte ∷ [], dropped), none)
accept (s ∷ l ∷ [], dropped) byte = ((s ∷ l ∷ byte ∷ [], dropped), none)
accept (s ∷ l ∷ c ∷ payload, dropped) byte =
    if length payload == l
    then (([], dropped), some (verdict c payload (s ∷ l ∷ c ∷ payload) byte))
    else ((s ∷ l ∷ c ∷ payload ++ byte ∷ [], dropped), none)

-- What the mode says of the bytes held.
abbrev pub InMode : State → ℕ → List ℕ → Type 0
InMode State.hunting w [] = Unit {0}
InMode State.len w (s ∷ []) = Unit {0}
InMode State.cmd w (s ∷ l ∷ []) = (w ≡ l) × (l < 256)
InMode State.payload w (s ∷ l ∷ c ∷ payload) = (w ≡ l) × (l < 256) × (length payload < l)
InMode State.checksum w (s ∷ l ∷ c ∷ payload) = (w ≡ l) × (l < 256) × (length payload ≡ l)
InMode _ _ _ = ⊥

-- A reader stands for the bytes held: they are the first `have` of its array.
pub record Holds (r : FrameReader) (held : List ℕ) : Type 0 where
  pub array : length r.buf ≡ 259
  pub count : r.have ≡ length held
  pub prefix : take r.have r.buf ≡ held
  pub mode : InMode r.state r.want_payload held

pub new-Holds : Holds new []
new-Holds = record { array = refl; count = refl; prefix = refl; mode = tt }

-- One byte leaves the array and the list in step, with the same count and the same event.
pub record Agrees (p : FrameReader × Event) (q : Held × Event) : Type 0 where
  pub holds : Holds p.0 q.0.0
  pub same_dropped : p.0.dropped ≡ q.0.1
  pub same_event : p.1 ≡ q.1

new_lem :
    (c : ℕ) (payload : List ℕ)
    → length payload < 256
    → Frame.new c payload ≡ ok (record { cmd = c; payload = payload })
unfolding Frame.new
new_lem c payload h = ground arith

-- `push` with the mode given beside the reader.
push-in :
    (st : State) (r : FrameReader) (held : List ℕ) (byte : ℕ)
    → byte < 256
    → r.state ≡ st
    → Holds r held
    → InMode st r.want_payload held
    → Agrees (push_in st r byte) (accept (held, r.dropped) byte)
unfolding accept
push-in State.hunting r [] byte b e v m =
    ground (arith, take-set r.buf 0 byte, length-set {0} r.buf 0 byte)
push-in State.hunting r (_ ∷ _) byte b e v m = absurd m
push-in State.len r (s ∷ []) byte b e v m =
    ground (arith, take-set r.buf 1 byte, length-set {0} r.buf 1 byte)
push-in State.cmd r (s ∷ l ∷ []) byte b e v m =
    ground (arith, take-set r.buf 2 byte, length-set {0} r.buf 2 byte)
push-in State.payload r (s ∷ l ∷ c ∷ payload) byte b e v m = ground (
  arith,
  take-set r.buf r.have byte,
  length-set {0} r.buf r.have byte,
  length-append payload (byte ∷ []),
)
push-in State.checksum r (s ∷ l ∷ c ∷ payload) byte b e v m =
    ground (arith, get_or-take r.buf r.have 2 0, ap (drop 3) v.prefix, new_lem c payload)
push-in _ r _ byte b e v m = absurd m

-- The array, its indices and the mode implement the list: from readers that agree, every byte leads
-- to readers that agree, with the same count of dropped bytes and the same event.
pub push-refines :
    (r : FrameReader) (held : List ℕ) (byte : ℕ)
    → byte < 256
    → Holds r held
    → Agrees (push r byte) (accept (held, r.dropped) byte)
unfolding push
push-refines r held byte b v = push-in r.state r held byte b refl v v.mode
