-- ===== src/Domain/Sse/Events.antt =====
-- The events of a stream without the queue: as long as no event is dropped, they are what is queued.
use stackchan_atoms3r.Base.{
  ℕ, ◌≤◌, Bool, true, false, List, [], ◌∷◌, ◌++◌, ◌≡◌, ◌⊎◌, inl, inr, refl, ap, sym, subst, ◌∙◌,
  length, length-append, drop, if◌then◌else◌, Bytes, Bool-cases, ◌==◌, append_assoc, append-nil,
  arith,
}
use stackchan_atoms3r.Domain.Sse.{
  SseReader, max_event_bytes, frame, dispatch, add_data, split_field, take_line, feed_char,
  feed_loop, rewind, feed, next_event,
}
use stackchan_atoms3r.Domain.Sse.Queue.{Waiting, Waiting-frame}

-- What is left of a reader without its queue and its count.
abbrev pub bare : SseReader → SseReader
bare r = record r { fifo = []; fifo_read = 0; dropped = 0 }

-- A step from `r` to `t` does what it does from `bare r` to `s`, and queues the same unless it drops.
abbrev Follows : SseReader → SseReader → SseReader → Type 0
Follows r t s =
    (bare t ≡ bare s)
    × (t.fifo_read ≡ r.fifo_read)
    × (r.dropped ≤ t.dropped)
    × (t.dropped ≡ r.dropped
        → ((s.fifo ≡ []) × (t.fifo ≡ r.fifo))
          ⊎ ((s.fifo ≡ frame r.event) × (t.fifo ≡ r.fifo ++ frame r.event)))

dispatch-Follows : (r : SseReader) → Follows r (dispatch r) (dispatch (bare r))
unfolding dispatch
dispatch-Follows r = ground arith

take_line-Follows : (r : SseReader) → Follows r (take_line r) (take_line (bare r))
unfolding take_line add_data
take_line-Follows r = ground (arith, dispatch-Follows r)

feed_char-Follows : (r : SseReader) (c : ℕ) → Follows r (feed_char r c) (feed_char (bare r) c)
unfolding feed_char
feed_char-Follows r c = ground (arith, take_line-Follows r)

-- The event under construction is no longer than it may be.
abbrev pub Small : SseReader → Type 0
Small r = length r.event ≤ max_event_bytes

dispatch-Small : (r : SseReader) → Small r → Small (dispatch r)
unfolding dispatch
dispatch-Small r h = ground (arith, h)

take_line-Small : (r : SseReader) → Small r → Small (take_line r)
unfolding take_line add_data
take_line-Small r h =
    let value = (split_field r.line).1 in
    let glued = (if r.event_has_data then r.event ++ 10 ∷ [] else r.event) in
    ground (arith, h, dispatch-Small r, length-append glued value, length-append r.event (10 ∷ []))

feed_char-Small : (r : SseReader) (c : ℕ) → Small r → Small (feed_char r c)
unfolding feed_char
feed_char-Small r c h = ground (arith, h, take_line-Small r)

abbrev is_empty : Bytes → Bool
is_empty [] = true
is_empty (_ ∷ _) = false

-- The events that a reader without a queue completes, and the reader behind them.
unfoldable pub events : SseReader → Bytes → List Bytes
events s [] = []
events s (c ∷ cs) =
    (if is_empty (feed_char s c).fifo then [] else s.event ∷ []) ++ events (bare (feed_char s c)) cs

unfoldable pub behind : SseReader → Bytes → SseReader
behind s [] = s
behind s (c ∷ cs) = behind (bare (feed_char s c)) cs

pub behind-append : (s : SseReader) (a b : Bytes) → behind s (a ++ b) ≡ behind (behind s a) b
unfolding behind
behind-append s [] b = refl
behind-append s (c ∷ a) b = behind-append (bare (feed_char s c)) a b

pub events-append :
    (s : SseReader) (a b : Bytes) → events s (a ++ b) ≡ events s a ++ events (behind s a) b
unfolding events behind
events-append s [] b = refl
events-append s (c ∷ a) b =
    let first = if is_empty (feed_char s c).fifo then [] else s.event ∷ [] in
    ap (λ es. first ++ es) (events-append (bare (feed_char s c)) a b)
    ∙ sym (
        append_assoc first (events (bare (feed_char s c)) a)
          (events (behind (bare (feed_char s c)) a) b))

feed_loop_dropped : (r : SseReader) (cs : Bytes) → r.dropped ≤ (feed_loop r cs).dropped
unfolding feed_loop
feed_loop_dropped r [] = omega arith
feed_loop_dropped r (c ∷ cs) =
    omega (arith, (feed_char-Follows r c).2, feed_loop_dropped (feed_char r c) cs)

Waiting-same :
    (r s : SseReader) (es : List Bytes)
    → Waiting r es
    → s.fifo ≡ r.fifo
    → s.fifo_read ≡ r.fifo_read
    → Waiting s es
Waiting-same r s es w fifo front = record {
  packed = ap (λ n. drop n s.fifo) front ∙ ap (drop r.fifo_read) fifo ∙ w.packed;
  front = omega (arith, w.front, front, ap length fifo);
  fit = w.fit;
}

-- What the queue holds behind a step.
feed_char-Waiting :
    (r : SseReader) (c : ℕ) (es : List Bytes)
    → Small r
    → Waiting r es
    → (feed_char r c).dropped ≡ r.dropped
    → Waiting
        (feed_char r c)
        (es ++ (if is_empty (feed_char (bare r) c).fifo then [] else r.event ∷ []))
unfolding frame
feed_char-Waiting r c es small w kept =
    let (same, front, mono, queued) = feed_char-Follows r c in
    elim (queued kept) [
      | inl (none_there, fifo) ↦ rw none_there (
          subst (Waiting (feed_char r c)) (sym (append-nil es))
            (Waiting-same r (feed_char r c) es w fifo front))
      | inr (one, fifo) ↦ rw one (
          Waiting-same (record r { fifo = r.fifo ++ frame r.event }) (feed_char r c)
            (es ++ r.event ∷ []) (Waiting-frame r es r.event w small) fifo front)
    ]

-- As long as nothing is dropped, the events behind those that waited are those of the stream.
pub feed_loop-Waiting :
    (r : SseReader) (cs : Bytes) (es : List Bytes)
    → Small r
    → Waiting r es
    → (feed_loop r cs).dropped ≡ r.dropped
    → Waiting (feed_loop r cs) (es ++ events (bare r) cs)
      × (bare (feed_loop r cs) ≡ behind (bare r) cs)
      × Small (feed_loop r cs)
unfolding feed_loop events behind
feed_loop-Waiting r [] es small w kept = (subst (Waiting r) (sym (append-nil es)) w, refl, small)
feed_loop-Waiting r (c ∷ cs) es small w kept =
    let next = feed_char r c in
    let (same, front, mono, queued) = feed_char-Follows r c in
    let later = feed_loop_dropped next cs in
    let still : next.dropped ≡ r.dropped = omega (arith, mono, later, kept) in
    let first = if is_empty (feed_char (bare r) c).fifo then [] else r.event ∷ [] in
    let (waiting, after, fits) =
      feed_loop-Waiting next cs (es ++ first) (feed_char-Small r c small)
        (feed_char-Waiting r c es small w still) (omega (arith, still, kept)) in
    (
      subst (Waiting (feed_loop next cs))
          (append_assoc es first (events (bare next) cs)
            ∙ ap (λ s. es ++ (first ++ events s cs)) same)
          waiting,
      after ∙ ap (λ s. behind s cs) same,
      fits,
    )

-- A reader that has been drained, and whose event under construction is no longer than it may be.
abbrev pub Drained : SseReader → Type 0
Drained r = Waiting r [] × Small r

rewind-Drained :
    (r : SseReader)
    → Drained r
    → Drained (rewind r) × (bare (rewind r) ≡ bare r) × ((rewind r).dropped ≡ r.dropped)
unfolding rewind
rewind-Drained r (w, small) = elim (Bool-cases (r.fifo_read == length r.fifo)) [
  | inl e ↦ rw e ((record { packed = refl; front = omega arith; fit = tt }, small), refl, refl)
  | inr e ↦ rw e ((w, small), refl, refl)
]

-- A block that is fed to a drained reader, if nothing is dropped, leaves the events that it completes
-- waiting, and the reader as the stream without a queue has it.
pub feed-Waiting :
    (r : SseReader) (block : Bytes)
    → Drained r
    → (feed r block).dropped ≡ r.dropped
    → Waiting (feed r block) (events (bare r) block)
      × (bare (feed r block) ≡ behind (bare r) block)
      × Small (feed r block)
unfolding feed
feed-Waiting r block d kept =
    let ((w, small), same, count) = rewind-Drained r d in
    let (waiting, after, fits) = feed_loop-Waiting (rewind r) block [] small w (kept ∙ sym count) in
    (
      subst (λ s. Waiting (feed_loop (rewind r) block) (events s block)) same waiting,
      after ∙ ap (λ s. behind s block) same,
      fits,
    )

pub feed_dropped : (r : SseReader) (block : Bytes) → r.dropped ≤ (feed r block).dropped
unfolding feed rewind
feed_dropped r block = ground (arith, feed_loop_dropped (rewind r) block)

-- Taking an event only moves the front of the queue.
pub next_event-bare :
    (r : SseReader) → (bare (next_event r).0 ≡ bare r) × ((next_event r).0.dropped ≡ r.dropped)
unfolding next_event
next_event-bare r = ground arith
