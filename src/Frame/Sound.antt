-- ===== src/Frame/Sound.antt =====
-- What the reader accepts is on the wire, and its indices stay in the array.
use argon_utils.Prelude.{
  ℕ, ◌<◌, ◌≡◌, ◌∙◌, ap, sym, refl, ◌⊎◌, inl, inr, some, List, [], ◌∷◌, ◌++◌, ok, arith, length,
  append_assoc, append-nil, AllBytes,
}
use argon_utils.Frame.{Frame, start_byte}
use argon_utils.Frame.Layout.{frame_bytes}
use argon_utils.Frame.Reader.{FrameReader, State, push, new}
use argon_utils.Frame.Refinement.{Holds, InMode, accept, push-refines, new-Holds}
use argon_utils.Frame.Stream.{run}

abbrev IsStarted : List ℕ → Type 0
IsStarted [] = Unit {0}
IsStarted (s ∷ _) = s ≡ start_byte

-- The bytes held are the end of what was received, and begin with the start byte.
record Received (seen held : List ℕ) : Type 0 where
  before : List ℕ
  split : seen ≡ before ++ held
  started : IsStarted held

-- A byte is added to what is held, or nothing is held.
abbrev Extends : List ℕ → ℕ → List ℕ → Type 0
Extends held byte held' =
    (held' ≡ []) ⊎ ((held' ≡ held ++ byte ∷ []) × IsStarted (held ++ byte ∷ []))

accept-Extends :
    (held : List ℕ) (d byte : ℕ) → IsStarted held → Extends held byte (accept (held, d) byte).0.0
unfolding accept
accept-Extends [] d byte h = ground arith
accept-Extends (s ∷ []) d byte h = ground arith
accept-Extends (s ∷ l ∷ []) d byte h = ground arith
accept-Extends (s ∷ l ∷ c ∷ payload) d byte h = ground arith

Received-accept :
    (seen held : List ℕ) (d byte : ℕ)
    → Received seen held
    → Received (seen ++ byte ∷ []) (accept (held, d) byte).0.0
Received-accept seen held d byte v = elim (accept-Extends held d byte v.started) [
  | inl e ↦ rw e (record { before = seen ++ byte ∷ []; split = sym (append-nil _); started = tt })
  | inr (e, s) ↦ rw e (record {
    before = v.before;
    split = rw v.split (append_assoc v.before held (byte ∷ []));
    started = s;
  })
]

-- The only frame that can be returned is the one held, with the byte as its checksum.
accept-ok :
    (held : List ℕ) (d byte : ℕ) (f : Frame)
    → IsStarted held
    → (accept (held, d) byte).1 ≡ some (ok f)
    → held ++ byte ∷ [] ≡ frame_bytes f
unfolding accept
accept-ok [] d byte f h e = ground arith
accept-ok (s ∷ []) d byte f h e = ground arith
accept-ok (s ∷ l ∷ []) d byte f h e = ground arith
accept-ok (s ∷ l ∷ c ∷ payload) d byte f h e = ground arith

-- A reader after a stream of bytes.
record Reached (r : FrameReader) (seen : List ℕ) : Type 0 where
  held : List ℕ
  holds : Holds r held
  received : Received seen held

Reached-push :
    (r : FrameReader) (seen : List ℕ) (byte : ℕ)
    → byte < 256
    → Reached r seen
    → Reached (push r byte).0 (seen ++ byte ∷ [])
Reached-push r seen byte b v = record {
  held = (accept (v.held, r.dropped) byte).0.0;
  holds = (push-refines r v.held byte b v.holds).holds;
  received = Received-accept seen v.held r.dropped byte v.received;
}

Reached-run :
    (r : FrameReader) (seen bytes : List ℕ)
    → AllBytes bytes
    → Reached r seen
    → Reached (run r bytes) (seen ++ bytes)
unfolding run
Reached-run r seen [] a v = rw (append-nil seen) v
Reached-run r seen (b ∷ bytes) a v =
    rw (← append_assoc seen (b ∷ []) bytes)
      (Reached-run (push r b).0 (seen ++ b ∷ []) bytes a.1 (Reached-push r seen b a.0 v))

Reached-new : (bytes : List ℕ) → AllBytes bytes → Reached (run new bytes) bytes
Reached-new bytes a = Reached-run new [] bytes a (record {
  held = [];
  holds = new-Holds;
  received = record { before = []; split = refl; started = tt };
})

-- Whatever was received before, a frame is returned only if the bytes received end with exactly the
-- bytes of that frame, its checksum included.
pub push-ok_sound :
    (bytes : List ℕ) (byte : ℕ) (f : Frame)
    → AllBytes bytes
    → byte < 256
    → (push (run new bytes) byte).1 ≡ some (ok f)
    → (before : List ℕ) × (bytes ++ byte ∷ [] ≡ before ++ frame_bytes f)
push-ok_sound bytes byte f a b e =
    let v = Reached-new bytes a in
    let r = run new bytes in
    let g = push-refines r v.held byte b v.holds in
    let whole = accept-ok v.held r.dropped byte f v.received.started (sym g.same_event ∙ e) in
    (
      v.received.before,
      rw (v.received.split)
          (append_assoc v.received.before v.held (byte ∷ []) ∙ ap (◌++◌ v.received.before) whole),
    )

Holds-have :
    (st : State) (r : FrameReader) (held : List ℕ)
    → Holds r held
    → InMode st r.want_payload held
    → r.have < 259
Holds-have State.hunting r [] v m = omega arith
Holds-have State.len r (_ ∷ []) v m = omega arith
Holds-have State.cmd r (_ ∷ _ ∷ []) v m = omega arith
Holds-have State.payload r (_ ∷ _ ∷ _ ∷ _) v m = omega arith
Holds-have State.checksum r (_ ∷ _ ∷ _ ∷ _) v m = omega arith
Holds-have _ r _ v m = absurd m

-- After any stream of bytes the index of the next write is inside the array, whose size never
-- changes: the reader cannot panic, nor grow.
pub have-in_bounds :
    (bytes : List ℕ)
    → AllBytes bytes
    → (length (run new bytes).buf ≡ 259) × ((run new bytes).have < length (run new bytes).buf)
have-in_bounds bytes a =
    let v = Reached-new bytes a in
    let below = Holds-have (run new bytes).state (run new bytes) v.held v.holds v.holds.mode in
    (v.holds.array, omega arith)
