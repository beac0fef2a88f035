-- ===== src/Zigbee/Examples.antt =====
-- A ping and its answer on the line, and the theorem at them.
use argon_utils.Prelude.{◌≡◌, refl, true, some, [], ◌∷◌, ok, err, arith}
use argon_utils.Zigbee.{
  MtFrame, new_reader, new, is, encode_into, fcs, push, decode, sys_ping, sys_ping_rsp, bad_fcs,
  too_long,
}
use argon_utils.Zigbee.Frames.{Line, wire, carried, feed, feed-carried}

abbrev ping : MtFrame
ping = record { cmd0 = 0x21; cmd1 = 0x01; payload = [] }

abbrev answer : MtFrame
answer = record { cmd0 = 0x61; cmd1 = 0x01; payload = 0x59 ∷ 0x06 ∷ [] }

ping_is_new : new sys_ping [] ≡ some ping
unfolding new
ping_is_new = refl

answer_is : is answer sys_ping_rsp ≡ true
unfolding is
answer_is = refl

ping_bytes : wire ping ≡ 0xfe ∷ 0 ∷ 0x21 ∷ 0x01 ∷ 0x20 ∷ []
unfolding encode_into fcs
ping_bytes = refl

abbrev line : Line
line = (0x00 ∷ 0x17 ∷ [], ping) ∷ ([], answer) ∷ []

feed-carried_example : feed new_reader (carried line) ≡ (new_reader, ok ping ∷ ok answer ∷ [])
feed-carried_example =
    feed-carried line
      (((λ e. ground arith), ((λ e. ground arith), tt)), (omega arith), (tt, (omega arith), tt))

bad_check :
    feed new_reader (0xfe ∷ 0 ∷ 0x21 ∷ 0x01 ∷ 0x21 ∷ [])
    ≡ (new_reader, err (bad_fcs 0x21 0x20) ∷ [])
unfolding feed push fcs
bad_check = refl

length_refused : feed new_reader (0xfe ∷ 251 ∷ []) ≡ (new_reader, err (too_long 251) ∷ [])
unfolding feed push
length_refused = refl

version_read :
    decode (2 ∷ 1 ∷ 2 ∷ 7 ∷ 1 ∷ 0x5f ∷ 0xae ∷ 0x34 ∷ 0x01 ∷ [])
    ≡ some (record {
      transport_rev = 2;
      product = 1;
      major = 2;
      minor = 7;
      maint = 1;
      revision = some 20_229_727;
    })
unfolding decode
version_read = refl
