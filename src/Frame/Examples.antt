-- ===== src/Frame/Examples.antt =====
-- A frame on the wire, with noise before it.
use argon_utils.Prelude.{ℕ, ◌≡◌, refl, some, List, [], ◌∷◌, ◌++◌, ok, err, arith}
use argon_utils.Frame
use argon_utils.Frame.{Frame, checksum, encode_into, encode_read, buffer_too_small, desync}
use argon_utils.Frame.Layout.{frame_bytes}
use argon_utils.Frame.Reader.{new, push}
use argon_utils.Frame.Refinement.{Agrees, accept, push-refines, new-Holds}
use argon_utils.Frame.Stream.{feed, run, feed-frame_bytes}
use argon_utils.Frame.Sound.{push-ok_sound}

-- The battery reply of 87 % on mains.
abbrev reply : Frame
reply = record { cmd = 0; payload = 0x57 ∷ 0 ∷ [] }

reply_bytes : frame_bytes reply ≡ 0xfe ∷ 2 ∷ 0 ∷ 0x57 ∷ 0 ∷ 0x57 ∷ []
unfolding checksum
reply_bytes = refl

noise : feed new (7 ∷ 9 ∷ 0xfe ∷ 2 ∷ 0 ∷ 0x57 ∷ 0 ∷ 0x57 ∷ []) ≡ err (desync 2) ∷ ok reply ∷ []
unfolding feed push Frame.new checksum
noise = refl

push-refines_example : Agrees (push new 0xfe) (accept ([], 0) 0xfe)
push-refines_example = push-refines new [] 0xfe (omega arith) new-Holds

feed-frame_bytes_example :
    feed new (frame_bytes reply ++ (1 ∷ 2 ∷ [])) ≡ ok reply ∷ feed new (1 ∷ 2 ∷ [])
feed-frame_bytes_example =
    feed-frame_bytes new reply (1 ∷ 2 ∷ []) new-Holds (omega arith) (omega arith)

reply_pushed : (push (run new (7 ∷ 0xfe ∷ 2 ∷ 0 ∷ 0x57 ∷ 0 ∷ [])) 0x57).1 ≡ some (ok reply)
unfolding run push Frame.new checksum
reply_pushed = refl

push-ok_sound_example :
    (before : List ℕ) × (7 ∷ 0xfe ∷ 2 ∷ 0 ∷ 0x57 ∷ 0 ∷ 0x57 ∷ [] ≡ before ++ frame_bytes reply)
push-ok_sound_example =
    push-ok_sound (7 ∷ 0xfe ∷ 2 ∷ 0 ∷ 0x57 ∷ 0 ∷ []) 0x57 reply (omega arith) (omega arith)
      reply_pushed
