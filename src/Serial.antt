-- ===== src/Serial.antt =====
-- The UPS's serial link (crates/argon-hal/src/serial.rs: `SerialLink`, `request`, `read_matching`). The
-- port is what its reads return, one after another, each with the time of the look at the clock before
-- it. Times are nanoseconds.
pub mod Matching
pub mod Replies
mod Examples
use argon_utils.Prelude.{
  ℕ, ◌+◌, min, Bool, Option, none, some, List, [], ◌∷◌, ◌++◌, Result, ok, err, String, leb, ◌==◌,
  take, replicate, if◌then◌else◌,
}
use argon_utils.Frame
use argon_utils.Frame.{Frame, FrameError, encode_into}
use argon_utils.Frame.Reader
use argon_utils.Frame.Reader.{FrameReader, Event, push}
use argon_utils.I2c.{Error, io, timeout}

pub data Read : Type 0 where
  bytes : List ℕ → Read
  timed_out interrupted : Read
  failed : String → Read

-- What the port does while one request waits.
abbrev pub Reads : Type 0
Reads = List (ℕ × Read)

pub record SerialLink : Type 0 where
  pub reader : FrameReader
  pub discarded : ℕ

-- `SerialLink::from_port`.
abbrev pub from_port : SerialLink
from_port = record { reader = Reader.new; discarded = 0 }

-- The largest u64.
abbrev pub max_u64 : ℕ
max_u64 = 18446744073709551615

-- The frame of an event, if it answers the command.
abbrev pub answer_in : ℕ → Event → Option Frame
answer_in cmd none = none
answer_in cmd (some (err _)) = none
answer_in cmd (some (ok f)) = if f.cmd == cmd then some f else none

-- The count of what is discarded, after an event that does not answer.
abbrev pub count : ℕ → Event → ℕ
count discarded none = discarded
count discarded (some _) = min (discarded + 1) max_u64

-- The loop over the bytes of one read: what follows a frame that answers is dropped.
unfoldable pub scan : ℕ → SerialLink → List ℕ → SerialLink × Option Frame
scan cmd link [] = (link, none)
scan cmd link (b ∷ more) =
    let (reader, event) = push link.reader b in
    let rest = scan cmd (record { reader = reader; discarded = count link.discarded event }) more in
    elim (answer_in cmd event) [ some f ↦ (record link { reader = reader }, some f) | none ↦ rest ]

abbrev pub or_wait :
    SerialLink
    → Option Frame
    → Option (SerialLink × Result Frame Error)
    → Option (SerialLink × Result Frame Error)
or_wait link none rest = rest
or_wait link (some f) rest = some (link, ok f)

-- `read_matching`; none while it waits for more than these reads.
unfoldable pub read_matching : ℕ → ℕ → SerialLink → Reads → Option (SerialLink × Result Frame Error)
read_matching cmd deadline link [] = none
read_matching cmd deadline link ((now, bytes read) ∷ reads) =
    let (link', found) = scan cmd link read in
    let rest = read_matching cmd deadline link' reads in
    if leb deadline now then some (link, err timeout) else or_wait link' found rest
read_matching cmd deadline link ((now, timed_out) ∷ reads) =
    let rest = read_matching cmd deadline link reads in
    if leb deadline now then some (link, err timeout) else rest
read_matching cmd deadline link ((now, interrupted) ∷ reads) =
    let rest = read_matching cmd deadline link reads in
    if leb deadline now then some (link, err timeout) else rest
read_matching cmd deadline link ((now, failed e) ∷ reads) =
    if leb deadline now then some (link, err timeout) else some (link, err (io e))

-- What a request sends, and what it returns.
abbrev pub Exchange : Type 0
Exchange = List ℕ × Option (SerialLink × Result Frame Error)

abbrev pub written : ℕ → ℕ → SerialLink → Reads → List ℕ → Result (Unit {0}) String → Exchange
written cmd deadline link reads out (err e) = (out, some (link, err (io e)))
written cmd deadline link reads out (ok _) = (out, read_matching cmd deadline link reads)

abbrev pub encoded :
    ℕ → ℕ → SerialLink → Reads → Result (Unit {0}) String → List ℕ × Result ℕ FrameError → Exchange
encoded cmd deadline link reads write (out, err _) = ([], some (link, err (io "a frame error")))
encoded cmd deadline link reads write (out, ok n) =
    written cmd deadline (record link { reader = Reader.reset link.reader }) reads (take n out)
      write

abbrev pub made :
    ℕ → ℕ → SerialLink → Reads → Result (Unit {0}) String → Result Frame FrameError → Exchange
made cmd deadline link reads write (err _) = ([], some (link, err (io "a frame error")))
made cmd deadline link reads write (ok f) =
    encoded cmd deadline link reads write (encode_into f (replicate 260 0))

-- `request`; `write` is how the writing and the flushing go.
unfoldable pub request : ℕ → List ℕ → ℕ → Result (Unit {0}) String → SerialLink → Reads → Exchange
request cmd payload deadline write link reads =
    made cmd deadline link reads write (Frame.new cmd payload)
