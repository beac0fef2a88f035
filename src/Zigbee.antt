-- ===== src/Zigbee.antt =====
-- The framing of Z-Stack's monitor and test interface (crates/argon-proto/src/zigbee.rs). An array with
-- the count of what was put in it is the list of what was put in it: nothing else of it is read.
pub mod Frames
mod Examples
use argon_utils.Prelude.{
  ℕ, ◌+◌, ◌*◌, ◌%◌, bit_xor, ◌&&◌, ◌++◌, Bool, true, false, Option, none, some, List, [], ◌∷◌,
  Result, ok, err, length, get_or, take, drop, ltb, ◌==◌, if◌then◌else◌, map_ok,
}

-- `SOF`.
abbrev pub sof : ℕ
sof = 0xfe

abbrev pub max_data : ℕ
max_data = 250

-- `SYS_PING` and the other commands, each with its type and subsystem first.
abbrev pub sys_ping : ℕ × ℕ
sys_ping = (0x21, 0x01)

abbrev pub sys_ping_rsp : ℕ × ℕ
sys_ping_rsp = (0x61, 0x01)

abbrev pub sys_version : ℕ × ℕ
sys_version = (0x21, 0x02)

abbrev pub sys_version_rsp : ℕ × ℕ
sys_version_rsp = (0x61, 0x02)

abbrev pub sys_reset_ind : ℕ × ℕ
sys_reset_ind = (0x41, 0x80)

pub record MtFrame : Type 0 where
  pub cmd0 : ℕ
  pub cmd1 : ℕ
  pub payload : List ℕ

-- `MtFrame::new`.
unfoldable pub new : ℕ × ℕ → List ℕ → Option MtFrame
new (cmd0, cmd1) payload =
    if ltb max_data (length payload)
    then none
    else some (record { cmd0 = cmd0; cmd1 = cmd1; payload = payload })

unfoldable pub is : MtFrame → ℕ × ℕ → Bool
is f (cmd0, cmd1) = (f.cmd0 == cmd0) && (f.cmd1 == cmd1)

abbrev pub fcs_from : ℕ → List ℕ → ℕ
fcs_from acc [] = acc
fcs_from acc (b ∷ more) = fcs_from (bit_xor acc b) more

unfoldable pub fcs : List ℕ → ℕ
fcs bytes = fcs_from 0 bytes

-- The bytes that the check byte is computed of; the length is cast to a byte.
abbrev pub checked : MtFrame → List ℕ
checked f = length f.payload % 256 ∷ f.cmd0 ∷ f.cmd1 ∷ f.payload

-- `encode_into`: what `out` then holds, and the length written.
unfoldable pub encode_into : MtFrame → List ℕ → List ℕ × Option ℕ
encode_into f out =
    let n = length f.payload + 5 in
    if ltb (length out) n
    then (out, none)
    else ((sof ∷ checked f) ++ (fcs (checked f) ∷ drop n out), some n)

pub data MtError : Type 0 where
  bad_fcs : ℕ → ℕ → MtError
  too_long : ℕ → MtError

-- The bytes that were taken.
pub record MtReader : Type 0 where
  pub taken : List ℕ

abbrev pub new_reader : MtReader
new_reader = record { taken = [] }

abbrev pub Event : Type 0
Event = Option (Result MtFrame MtError)

abbrev pub or_nothing : Option MtFrame → Event
or_nothing none = none
or_nothing (some f) = some (ok f)

-- Of a frame that is all there, with `n` bytes of data.
abbrev pub finish : List ℕ → ℕ → Event
finish t n =
    let want = fcs (take (n + 3) (drop 1 t)) in
    let got = get_or t (n + 4) 0 in
    if got == want
    then or_nothing (new (get_or t 2 0, get_or t 3 0) (take n (drop 4 t)))
    else some (err (bad_fcs got want))

-- After the byte `b` was put behind the others.
abbrev pub took : List ℕ → ℕ → MtReader × Event
took t b =
    if (length t == 2) && ltb max_data b
    then (new_reader, some (err (too_long b)))
    else (let n = get_or t 1 0 in
        if ltb (length t) (n + 5) then (record { taken = t }, none) else (new_reader, finish t n))

abbrev pub push_on : List ℕ → ℕ → MtReader × Event
push_on [] b = if b == sof then (record { taken = b ∷ [] }, none) else (new_reader, none)
push_on (x ∷ taken) b = took ((x ∷ taken) ++ (b ∷ [])) b

unfoldable pub push : MtReader → ℕ → MtReader × Event
push r b = push_on r.taken b

pub record Version : Type 0 where
  pub transport_rev : ℕ
  pub product : ℕ
  pub major : ℕ
  pub minor : ℕ
  pub maint : ℕ
  pub revision : Option ℕ

-- By what follows the five bytes.
abbrev pub revision_of : List ℕ → Option (Option ℕ)
revision_of [] = some none
revision_of (_ ∷ []) = none
revision_of (_ ∷ _ ∷ []) = none
revision_of (_ ∷ _ ∷ _ ∷ []) = none
revision_of (r0 ∷ r1 ∷ r2 ∷ r3 ∷ _) = some (some (r0 + 256 * r1 + 65_536 * r2 + 16_777_216 * r3))

unfoldable pub decode : List ℕ → Option Version
decode (transport_rev ∷ product ∷ major ∷ minor ∷ maint ∷ more) = elim (revision_of more) [
  | none ↦ none
  | some revision ↦ some (record {
    transport_rev = transport_rev;
    product = product;
    major = major;
    minor = minor;
    maint = maint;
    revision = revision;
  })
]
decode (_ ∷ _ ∷ _ ∷ _ ∷ []) = none
decode (_ ∷ _ ∷ _ ∷ []) = none
decode (_ ∷ _ ∷ []) = none
decode (_ ∷ []) = none
decode [] = none
