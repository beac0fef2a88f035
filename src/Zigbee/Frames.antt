-- ===== src/Zigbee/Frames.antt =====
-- Frames through the reader.
use argon_utils.Prelude.{
  ℕ, ◌+◌, ◌%◌, ◌≤◌, ◌<◌, ◌≡◌, ◌≢◌, ◌∙◌, ap, sym, refl, suc, zero, none, some, List, [], ◌∷◌, ◌++◌,
  Result, ok, length, get_or, take, drop, length-append, take-append, append_assoc, append-nil,
  replicate, length-replicate, arith,
}
use argon_utils.Zigbee.{
  MtFrame, MtReader, MtError, Event, push, new_reader, new, fcs, checked, encode_into, sof,
  max_data, finish,
}

-- A reader within the data of a frame of `n` bytes.
abbrev inside : ℕ → ℕ → ℕ → List ℕ → MtReader
inside n c0 c1 d = record { taken = sof ∷ n ∷ c0 ∷ c1 ∷ d }

push-data :
    (n c0 c1 x : ℕ) (d : List ℕ)
    → length d < n
    → push (inside n c0 c1 d) x ≡ (inside n c0 c1 (d ++ x ∷ []), none)
unfolding push
push-data n c0 c1 x d h = let l = length-append d (x ∷ []) in ground (arith, l)

get_or-append : (d : List ℕ) (k : ℕ) → get_or (d ++ k ∷ []) (length d) 0 ≡ k
get_or-append [] k = refl
get_or-append (x ∷ d) k = get_or-append d k

-- What the check is computed of, what it is compared with, and the data.
parts :
    (n c0 c1 k : ℕ) (d : List ℕ)
    → n ≡ length d
    → let t = sof ∷ n ∷ c0 ∷ c1 ∷ (d ++ k ∷ []) in
      (take (n + 3) (drop 1 t) ≡ n ∷ c0 ∷ c1 ∷ d)
      × (get_or t (n + 4) 0 ≡ k)
      × (take n (drop 4 t) ≡ d)
parts n c0 c1 k d e =
    let three : n + 3 ≡ length (n ∷ c0 ∷ c1 ∷ d) = omega arith in
    let four : n + 4 ≡ length (sof ∷ n ∷ c0 ∷ c1 ∷ d) = omega arith in
    (
      ap (λ i. take i (n ∷ c0 ∷ c1 ∷ (d ++ k ∷ []))) three ∙ take-append (n ∷ c0 ∷ c1 ∷ d) (k ∷ []),
      ap (λ i. get_or (sof ∷ n ∷ c0 ∷ c1 ∷ (d ++ k ∷ [])) i 0) four
          ∙ get_or-append (sof ∷ n ∷ c0 ∷ c1 ∷ d) k,
      ap (λ i. take i (d ++ k ∷ [])) e ∙ take-append d (k ∷ []),
    )

finish-ok :
    (n c0 c1 : ℕ) (d : List ℕ)
    → n ≡ length d
    → n ≤ max_data
    → let k = fcs (n ∷ c0 ∷ c1 ∷ d) in
      finish (sof ∷ n ∷ c0 ∷ c1 ∷ (d ++ k ∷ [])) n
      ≡ some (ok (record { cmd0 = c0; cmd1 = c1; payload = d }))
unfolding new
finish-ok n c0 c1 d e h =
    let k = fcs (n ∷ c0 ∷ c1 ∷ d) in let (a, b, c) = parts n c0 c1 k d e in ground (arith, a, b, c)

push-last :
    (n c0 c1 : ℕ) (d : List ℕ)
    → n ≡ length d
    → n ≤ max_data
    → push (inside n c0 c1 d) (fcs (n ∷ c0 ∷ c1 ∷ d))
      ≡ (new_reader, some (ok (record { cmd0 = c0; cmd1 = c1; payload = d })))
unfolding push
push-last n c0 c1 d e h =
    let k = fcs (n ∷ c0 ∷ c1 ∷ d) in
    let l = length-append d (k ∷ []) in let f = finish-ok n c0 c1 d e h in ground (arith, l, f)

-- What a stream of bytes leaves and reports.
abbrev pub report : Event → List (Result MtFrame MtError) → List (Result MtFrame MtError)
report none more = more
report (some r) more = r ∷ more

unfoldable pub feed : MtReader → List ℕ → MtReader × List (Result MtFrame MtError)
feed r [] = (r, [])
feed r (b ∷ bytes) =
    let (r', event) = push r b in let (last, more) = feed r' bytes in (last, report event more)

feed-data :
    (n c0 c1 : ℕ) (d e more : List ℕ)
    → length d + length e ≤ n
    → feed (inside n c0 c1 d) (e ++ more) ≡ feed (inside n c0 c1 (d ++ e)) more
unfolding feed
feed-data n c0 c1 d [] more h = ap (λ t. feed (inside n c0 c1 t) more) (sym (append-nil d))
feed-data n c0 c1 d (x ∷ e) more h =
    let l = length-append d (x ∷ []) in
    rw (push-data n c0 c1 x d (omega arith)) (
      feed-data n c0 c1 (d ++ x ∷ []) e more (omega arith)
      ∙ ap (λ t. feed (inside n c0 c1 t) more) (append_assoc d (x ∷ []) e))

push-header :
    (n c0 c1 : ℕ)
    → n ≤ max_data
    → (push (record { taken = sof ∷ [] }) n ≡ (record { taken = sof ∷ n ∷ [] }, none))
      × (push (record { taken = sof ∷ n ∷ [] }) c0 ≡ (record { taken = sof ∷ n ∷ c0 ∷ [] }, none))
      × (push (record { taken = sof ∷ n ∷ c0 ∷ [] }) c1 ≡ (inside n c0 c1 [], none))
unfolding push
push-header n c0 c1 h = (ground arith, ground arith, ground arith)

feed-header :
    (n c0 c1 : ℕ) (more : List ℕ)
    → n ≤ max_data
    → feed new_reader (sof ∷ n ∷ c0 ∷ c1 ∷ more) ≡ feed (inside n c0 c1 []) more
unfolding feed
feed-header n c0 c1 more h =
    let (a, b, c) = push-header n c0 c1 h in
    let first : push new_reader sof ≡ (record { taken = sof ∷ [] }, none) = unfold push in refl in
    rw (first, a, b, c) refl

-- What `encode_into` writes to an array of just the length.
abbrev pub wire : MtFrame → List ℕ
wire f = (encode_into f (replicate (length f.payload + 5) 0)).0

drop-replicate : (n : ℕ) → drop {A = ℕ} n (replicate n 0) ≡ []
drop-replicate zero = refl
drop-replicate (suc n) = drop-replicate n

encode_into-fits :
    (f : MtFrame) (out : List ℕ)
    → length out ≡ length f.payload + 5
    → (encode_into f out).0
      ≡ (sof ∷ checked f) ++ (fcs (checked f) ∷ drop (length f.payload + 5) out)
unfolding encode_into
encode_into-fits f out h = ground (arith, h)

wire_lem :
    (f : MtFrame)
    → length f.payload ≤ max_data
    → let n = length f.payload in
      wire f
      ≡ sof ∷ n ∷ f.cmd0 ∷ f.cmd1 ∷ (f.payload ++ (fcs (n ∷ f.cmd0 ∷ f.cmd1 ∷ f.payload) ∷ []))
wire_lem f h =
    let m = length f.payload + 5 in
    let byte : length f.payload % 256 ≡ length f.payload = omega arith in
    encode_into-fits f (replicate m 0) (length-replicate {A = ℕ} m 0)
    ∙ rw (drop-replicate m, byte) refl

feed-wire :
    (f : MtFrame) (more : List ℕ)
    → length f.payload ≤ max_data
    → let (last, rest) = feed new_reader more in
      feed new_reader (wire f ++ more) ≡ (last, ok f ∷ rest)
unfolding feed
feed-wire f more h =
    let n = length f.payload in
    let d = f.payload in
    let k = fcs (n ∷ f.cmd0 ∷ f.cmd1 ∷ d) in
    let data_read = feed-data n f.cmd0 f.cmd1 [] d (k ∷ more) (omega arith) in
    let last = push-last n f.cmd0 f.cmd1 d refl h in
    rw (wire_lem f h, append_assoc d (k ∷ []) more)
      (feed-header n f.cmd0 f.cmd1 (d ++ k ∷ more) h ∙ data_read ∙ rw last refl)

-- Bytes between frames.
abbrev pub IsNoise : List ℕ → Type 0
IsNoise [] = Unit {0}
IsNoise (b ∷ bytes) = (b ≢ sof) × IsNoise bytes

feed-noise :
    (noise more : List ℕ) → IsNoise noise → feed new_reader (noise ++ more) ≡ feed new_reader more
unfolding feed
feed-noise [] more n = refl
feed-noise (b ∷ noise) more n =
    let skipped : push new_reader b ≡ (new_reader, none) = unfold push in ground arith in
    rw skipped (feed-noise noise more n.1)

-- What a line carries: frames, each after noise.
abbrev pub Line : Type 0
Line = List (List ℕ × MtFrame)

abbrev pub carried : Line → List ℕ
carried [] = []
carried ((noise, f) ∷ line) = noise ++ (wire f ++ carried line)

abbrev pub frames_of : Line → List (Result MtFrame MtError)
frames_of [] = []
frames_of ((noise, f) ∷ line) = ok f ∷ frames_of line

abbrev pub IsCarried : Line → Type 0
IsCarried [] = Unit {0}
IsCarried ((noise, f) ∷ line) = IsNoise noise × (length f.payload ≤ max_data) × IsCarried line

-- A new reader that is fed what is encoded of frames, with at most 250 bytes of data each, and bytes
-- other than the start byte before each: it returns just these frames, in order, reports no error,
-- and is as new.
pub feed-carried :
    (line : Line) → IsCarried line → feed new_reader (carried line) ≡ (new_reader, frames_of line)
feed-carried [] c = unfold feed in refl
feed-carried ((noise, f) ∷ line) (n, short, c) =
    feed-noise noise (wire f ++ carried line) n
    ∙ feed-wire f (carried line) short
    ∙ ap (λ x. (x.0, ok f ∷ x.1)) (feed-carried line c)
