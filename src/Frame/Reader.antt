-- ===== src/Frame/Reader.antt =====
-- The incremental frame decoder (crates/argon-proto/src/ups/frame.rs: `FrameReader`). A usize has 64 bits.
use argon_utils.Prelude.{
  ℕ, ◌+◌, min, Option, none, some, List, Result, err, set, get_or, take, drop, replicate, ltb, ◌==◌,
  if◌then◌else◌,
}
use argon_utils.Frame
use argon_utils.Frame.{Frame, FrameError, bad_checksum, desync, start_byte, max_frame}

pub data State : Type 0 where
  hunting len cmd payload checksum : State

pub record FrameReader : Type 0 where
  pub state : State
  pub buf : List ℕ
  pub have : ℕ
  pub want_payload : ℕ
  pub dropped : ℕ

abbrev pub new : FrameReader
new = record {
  state = State.hunting;
  buf = replicate max_frame 0;
  have = 0;
  want_payload = 0;
  dropped = 0;
}

unfoldable pub reset : FrameReader → FrameReader
reset r = record r { state = State.hunting; have = 0; want_payload = 0; dropped = 0 }

abbrev pub usize_max : ℕ
usize_max = 18446744073709551615

abbrev pub Event : Type 0
Event = Option (Result Frame FrameError)

abbrev pub hunt : FrameReader → ℕ → FrameReader × Event
hunt r byte =
    let started = record r { buf = set r.buf 0 byte; have = 1; state = State.len } in
    if byte == start_byte
    then (if ltb 0 r.dropped
        then (record started { dropped = 0 }, some (err (desync r.dropped)))
        else (started, none))
    else (record r { dropped = min (r.dropped + 1) usize_max }, none)

abbrev pub take_len : FrameReader → ℕ → FrameReader × Event
take_len r byte =
    (record r { buf = set r.buf 1 byte; have = 2; want_payload = byte; state = State.cmd }, none)

abbrev pub take_cmd : FrameReader → ℕ → FrameReader × Event
take_cmd r byte = (
  record r {
    buf = set r.buf 2 byte;
    have = 3;
    state = if r.want_payload == 0 then State.checksum else State.payload;
  },
  none,
)

abbrev pub take_payload : FrameReader → ℕ → FrameReader × Event
take_payload r byte = (
  record r {
    buf = set r.buf r.have byte;
    have = r.have + 1;
    state = if r.have + 1 == r.want_payload + 3 then State.checksum else State.payload;
  },
  none,
)

abbrev pub take_checksum : FrameReader → ℕ → FrameReader × Event
take_checksum r byte =
    let want = Frame.checksum (take r.have r.buf) in
    let result =
      (if byte == want
        then Frame.new (get_or r.buf 2 0) (drop 3 (take r.have r.buf))
        else err (bad_checksum byte want)) in
    (record r { state = State.hunting; have = 0; want_payload = 0 }, some result)

abbrev pub push_in : State → FrameReader → ℕ → FrameReader × Event
push_in State.hunting r byte = hunt r byte
push_in State.len r byte = take_len r byte
push_in State.cmd r byte = take_cmd r byte
push_in State.payload r byte = take_payload r byte
push_in State.checksum r byte = take_checksum r byte

-- `FrameReader::push`.
unfoldable pub push : FrameReader → ℕ → FrameReader × Event
push r byte = push_in r.state r byte
