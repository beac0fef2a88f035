-- ===== src/Serial/Matching.antt =====
-- What a request returns, against the stream of bytes that the port delivers.
use argon_utils.Prelude.{
  ℕ, ◌<◌, ◌≤◌, ◌≡◌, ◌∙◌, ◌⊎◌, refl, ap, sym, inl, inr, Bool, Bool-cases, true, false, Option,
  Option-cases, none, some, List, [], ◌∷◌, ◌++◌, Result, ok, err, leb, ◌==◌, arith, if◌then◌else◌,
}
use argon_utils.Frame.{Frame}
use argon_utils.Frame.Reader.{Event, push}
use argon_utils.Frame.Stream.{feed, Outcome, list_of}
use argon_utils.I2c.{Error, timeout, io}
use argon_utils.Serial.{
  Read, bytes, timed_out, interrupted, failed, Reads, SerialLink, answer_in, count, scan, or_wait,
  read_matching,
}

-- The first of the outcomes that answers the command.
abbrev pub matched : ℕ → List Outcome → Option Frame
matched cmd [] = none
matched cmd (err e ∷ outcomes) = matched cmd outcomes
matched cmd (ok f ∷ outcomes) = if f.cmd == cmd then some f else matched cmd outcomes

matched-event :
    (cmd : ℕ) (e : Event) (rest : List Outcome)
    → matched cmd (list_of e rest)
      ≡ elim (answer_in cmd e) [ some f ↦ some f | none ↦ matched cmd rest ]
matched-event cmd none rest = refl
matched-event cmd (some (err e)) rest = refl
matched-event cmd (some (ok f)) rest = elim (Bool-cases (f.cmd == cmd)) [
  | inl e ↦ rw e refl
  | inr e ↦ rw e refl
]

-- The bytes of all reads.
abbrev pub stream : Reads → List ℕ
stream [] = []
stream ((now, bytes read) ∷ reads) = read ++ stream reads
stream ((now, timed_out) ∷ reads) = stream reads
stream ((now, interrupted) ∷ reads) = stream reads
stream ((now, failed e) ∷ reads) = stream reads

-- No read fails, and all are before the deadline.
abbrev pub IsTimely : ℕ → Reads → Type 0
IsTimely deadline [] = Unit {0}
IsTimely deadline ((now, bytes read) ∷ reads) = (now < deadline) × IsTimely deadline reads
IsTimely deadline ((now, timed_out) ∷ reads) = (now < deadline) × IsTimely deadline reads
IsTimely deadline ((now, interrupted) ∷ reads) = (now < deadline) × IsTimely deadline reads
IsTimely deadline ((now, failed e) ∷ reads) = ⊥

-- Some look at the clock is not before the deadline.
abbrev pub ReachesDeadline : ℕ → Reads → Type 0
ReachesDeadline deadline [] = ⊥
ReachesDeadline deadline ((now, read) ∷ reads) = (deadline ≤ now) ⊎ ReachesDeadline deadline reads

abbrev pub returned : Option (SerialLink × Result Frame Error) → Option (Result Frame Error)
returned none = none
returned (some (link, r)) = some r

abbrev pub found : Option Frame → Option (Result Frame Error)
found none = none
found (some f) = some (ok f)

-- The first that answers, after a read and with the rest of the stream still to come.
abbrev after : ℕ → List ℕ → SerialLink × Option Frame → Option Frame
after cmd more (link, some f) = some f
after cmd more (link, none) = matched cmd (feed link.reader more)

module _ (cmd : ℕ) (link : SerialLink) (b : ℕ) (read : List ℕ) where
  scan-none :
      answer_in cmd (push link.reader b).1 ≡ none
      → scan cmd link (b ∷ read)
        ≡ scan cmd
            (record {
              reader = (push link.reader b).0;
              discarded = count link.discarded (push link.reader b).1;
            })
            read
  unfolding scan
  scan-none n = rw (n, scan) refl

  scan-some :
      (f : Frame)
      → answer_in cmd (push link.reader b).1 ≡ some f
      → scan cmd link (b ∷ read) ≡ (record link { reader = (push link.reader b).0 }, some f)
  unfolding scan
  scan-some f e = rw (e, scan) refl

scan-matched :
    (cmd : ℕ) (link : SerialLink) (read more : List ℕ)
    → matched cmd (feed link.reader (read ++ more)) ≡ after cmd more (scan cmd link read)
unfolding feed
scan-matched cmd link [] more = unfold scan in refl
scan-matched cmd link (b ∷ read) more =
    let (reader, event) = push link.reader b in
    let next : SerialLink = record { reader = reader; discarded = count link.discarded event } in
    matched-event cmd event (feed reader (read ++ more))
    ∙ elim (Option-cases (answer_in cmd event)) [
      | inl n ↦
          rw n (scan-matched cmd next read more)
          ∙ sym (ap (after cmd more) (scan-none cmd link b read n))
      | inr (f, e) ↦ rw e refl ∙ sym (ap (after cmd more) (scan-some cmd link b read f e))
    ]

late-false : (deadline now : ℕ) → now < deadline → leb deadline now ≡ false
late-false deadline now h = ground arith

waited :
    (s : SerialLink × Option Frame) (rest : Option (SerialLink × Result Frame Error)) (cmd : ℕ)
    (more : List ℕ)
    → returned rest ≡ found (matched cmd (feed s.0.reader more))
    → returned (or_wait s.0 s.1 rest) ≡ found (after cmd more s)
waited (link, none) rest cmd more h = h
waited (link, some f) rest cmd more h = refl

-- However the bytes are split over reads, and whatever timeouts and interruptions come between: a
-- request whose reads are all in time and do not fail returns the first frame of the stream that
-- answers its command, and waits on where there is none.
pub read_matching-matched :
    (cmd deadline : ℕ) (link : SerialLink) (reads : Reads)
    → IsTimely deadline reads
    → returned (read_matching cmd deadline link reads)
      ≡ found (matched cmd (feed link.reader (stream reads)))
unfolding read_matching
read_matching-matched cmd deadline link [] t = unfold feed in refl
read_matching-matched cmd deadline link ((now, bytes read) ∷ reads) t =
    let ih = read_matching-matched cmd deadline (scan cmd link read).0 reads t.1 in
    rw (late-false deadline now t.0) (
      waited (scan cmd link read) (read_matching cmd deadline (scan cmd link read).0 reads) cmd
        (stream reads) ih
      ∙ ap found (sym (scan-matched cmd link read (stream reads))))
read_matching-matched cmd deadline link ((now, timed_out) ∷ reads) t =
    ground (arith, read_matching-matched cmd deadline link reads)
read_matching-matched cmd deadline link ((now, interrupted) ∷ reads) t =
    ground (arith, read_matching-matched cmd deadline link reads)
read_matching-matched cmd deadline link ((now, failed e) ∷ reads) t = elim t [ ]

-- A request that has an answer, or has failed.
abbrev pub Returns : Option (SerialLink × Result Frame Error) → Type 0
Returns none = ⊥
Returns (some x) = Unit {0}

if-Returns :
    (b : Bool) (x : SerialLink × Result Frame Error)
    (rest : Option (SerialLink × Result Frame Error))
    → Returns rest
    → Returns (if b then some x else rest)
if-Returns true x rest r = tt
if-Returns false x rest r = r

or_wait-Returns :
    (link : SerialLink) (o : Option Frame) (rest : Option (SerialLink × Result Frame Error))
    → Returns rest
    → Returns (or_wait link o rest)
or_wait-Returns link none rest r = r
or_wait-Returns link (some f) rest r = tt

le→leb : (a b : ℕ) → a ≤ b → leb a b ≡ true
le→leb a b h = ground arith

late-Returns :
    (cmd deadline : ℕ) (link : SerialLink) (now : ℕ) (read : Read) (reads : Reads)
    → deadline ≤ now
    → Returns (read_matching cmd deadline link ((now, read) ∷ reads))
unfolding read_matching
late-Returns cmd deadline link now (bytes read) reads l = rw (le→leb deadline now l) tt
late-Returns cmd deadline link now timed_out reads l = rw (le→leb deadline now l) tt
late-Returns cmd deadline link now interrupted reads l = rw (le→leb deadline now l) tt
late-Returns cmd deadline link now (failed e) reads l = rw (le→leb deadline now l) tt

next-Returns :
    (cmd deadline : ℕ) (link : SerialLink) (now : ℕ) (read : Read) (reads : Reads)
    → ((l : SerialLink) → Returns (read_matching cmd deadline l reads))
    → Returns (read_matching cmd deadline link ((now, read) ∷ reads))
unfolding read_matching
next-Returns cmd deadline link now (bytes read) reads ih =
    if-Returns (leb deadline now) (link, err timeout) _
      (or_wait-Returns (scan cmd link read).0 (scan cmd link read).1 _ (ih (scan cmd link read).0))
next-Returns cmd deadline link now timed_out reads ih =
    if-Returns (leb deadline now) (link, err timeout) _ (ih link)
next-Returns cmd deadline link now interrupted reads ih =
    if-Returns (leb deadline now) (link, err timeout) _ (ih link)
next-Returns cmd deadline link now (failed e) reads ih =
    if-Returns (leb deadline now) (link, err timeout) (some (link, err (io e))) tt

-- A request returns at the latest at the first look at the clock that is not before its deadline,
-- whatever the port delivers until then: a byte before each timeout included.
pub read_matching-Returns :
    (cmd deadline : ℕ) (reads : Reads) (link : SerialLink)
    → ReachesDeadline deadline reads
    → Returns (read_matching cmd deadline link reads)
read_matching-Returns cmd deadline [] link d = elim d [ ]
read_matching-Returns cmd deadline ((now, read) ∷ reads) link (inl l) =
    late-Returns cmd deadline link now read reads l
read_matching-Returns cmd deadline ((now, read) ∷ reads) link (inr d) =
    next-Returns cmd deadline link now read reads
      (λ l. read_matching-Returns cmd deadline reads l d)
