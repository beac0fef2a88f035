-- ===== src/Frame.antt =====
-- The UPS serial frames (crates/argon-proto/src/ups/frame.rs). A byte is a number below 256. The array
-- of a `Frame` and its length are the list of its payload; the reader's array is modelled as it is.
pub mod Layout
pub mod Reader
pub mod Refinement
pub mod Stream
pub mod Sound
mod Examples
use argon_utils.Prelude.{
  ℕ, zero, suc, ◌+◌, ◌-◌, ◌%◌, min, Option, none, some, List, [], ◌∷◌, ◌++◌, Result, ok, err,
  length, set, get_or, take, drop, replicate, copy_at, ltb, ◌==◌, if◌then◌else◌,
}

abbrev pub start_byte : ℕ
start_byte = 0xfe

abbrev pub max_payload : ℕ
max_payload = 255

abbrev pub max_frame : ℕ
max_frame = max_payload + 4

pub record Frame : Type 0 where
  pub cmd : ℕ
  pub payload : List ℕ

pub data FrameError : Type 0 where
  payload_too_long : ℕ → FrameError
  buffer_too_small : ℕ → ℕ → FrameError
  bad_checksum : ℕ → ℕ → FrameError
  desync : ℕ → FrameError

-- `Frame::new`: the length must fit in a byte.
unfoldable pub new : ℕ → List ℕ → Result Frame FrameError
new cmd payload =
    if ltb max_payload (length payload)
    then err (payload_too_long (length payload))
    else ok (record { cmd = cmd; payload = payload })

-- The fold of `wrapping_add`.
unfoldable pub checksum_from : ℕ → List ℕ → ℕ
checksum_from acc [] = acc
checksum_from acc (b ∷ bytes) = checksum_from ((acc + b) % 256) bytes

unfoldable pub checksum : List ℕ → ℕ
unfolding checksum_from
checksum bytes = checksum_from 0 bytes

-- `Frame::encode_into`: the buffer it leaves, and what it returns.
unfoldable pub encode_into : Frame → List ℕ → List ℕ × Result ℕ FrameError
encode_into f out =
    let len = length f.payload in
    let total = len + 4 in
    if ltb (length out) total
    then (out, err (buffer_too_small total (length out)))
    else (let filled = copy_at (set (set (set out 0 start_byte) 1 len) 2 f.cmd) 3 f.payload in
        (set filled (total - 1) (checksum (take (total - 1) filled)), ok total))

-- The read request of an empty payload.
unfoldable pub encode_read : ℕ → List ℕ
encode_read cmd = start_byte ∷ 0 ∷ cmd ∷ (cmd + start_byte) % 256 ∷ []
