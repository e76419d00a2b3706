-- ===== src/Domain/Sse/Stream.antt =====
-- A stream of events, however it is cut into blocks, comes out whole and in order.
use stackchan_atoms3r.Base.{
  ℕ, zero, suc, ◌+◌, ◌*◌, ◌≤◌, List, [], ◌∷◌, ◌++◌, none, some, ◌≡◌, refl, ap, sym, subst, ◌∙◌,
  length, length-append, map, Bytes, append_assoc, append-nil, All, arith, concat,
}
use stackchan_atoms3r.Domain.Sse.{
  SseReader, max_event_bytes, frame, feed_loop, rewind, feed, next_event,
}
use stackchan_atoms3r.Domain.Sse.Split.{feed_loop-append, feed-append}
use stackchan_atoms3r.Domain.Sse.Queue.{
  Waiting, frames, next_event-Waiting, next_event-empty, Waiting-frame,
}
use stackchan_atoms3r.Domain.Sse.Lines.{AtRest}
use stackchan_atoms3r.Domain.Sse.DataLines.{
  Event, event_bytes, body_of, IsEvent, feed_loop-event_bytes,
}

-- Events one after the other.
abbrev pub stream : List Event → Bytes
stream [] = []
stream (e ∷ es) = event_bytes e ++ stream es

length-frame : (b : Bytes) → length (frame b) ≡ 2 + length b
unfolding frame
length-frame b = omega arith

feed_loop-stream :
    (r : SseReader) (bodies : List Bytes) (es : List Event)
    → AtRest r
    → Waiting r bodies
    → All IsEvent es
    → length r.fifo + length (frames (map body_of es)) ≤ max_event_bytes * 2
    → Waiting (feed_loop r (stream es)) (bodies ++ map body_of es)
feed_loop-stream r bodies [] rest w h room =
    unfold feed_loop in subst (λ t. Waiting r t) (sym (append-nil bodies)) w
feed_loop-stream r bodies (e ∷ es) rest w h room =
    let b = body_of e in
    let size = length-frame b in
    let more = length-append (frame b) (frames (map body_of es)) in
    let whole = length-append r.fifo (frame b) in
    let one = feed_loop-event_bytes r e rest h.0 (omega (arith, size, more, room)) in
    let next : SseReader = record r { fifo = r.fifo ++ frame b } in
    let added = Waiting-frame r bodies b w (omega (arith, h.0.2)) in
    let others =
      feed_loop-stream next (bodies ++ b ∷ []) es rest added h.1
        (omega (arith, more, whole, room)) in
    rw (feed_loop-append r (event_bytes e) (stream es), one)
      (subst (λ t. Waiting (feed_loop next (stream es)) t)
        (append_assoc bodies (b ∷ []) (map body_of es)) others)

-- The caller's `while (next_event(...))`, for this many events at most.
abbrev pub drain : ℕ → SseReader → List Bytes
drain zero r = []
drain (suc n) r = elim ((next_event r).1) [ none ↦ [] | some e ↦ e ∷ drain n (next_event r).0 ]

drain-Waiting :
    (n : ℕ) (r : SseReader) (es : List Bytes) → Waiting r es → length es ≤ n → drain n r ≡ es
drain-Waiting zero r [] w h = refl
drain-Waiting zero r (e ∷ es) w h = absurd (omega arith)
drain-Waiting (suc n) r [] w h = rw (next_event-empty r w, drain) refl
drain-Waiting (suc n) r (e ∷ es) w h =
    let first = next_event-Waiting r e es w in
    rw (first.0, drain)
      (ap (λ t. e ∷ t) (drain-Waiting n (next_event r).0 es first.1 (omega arith)))

-- Blocks in the order in which they arrive.
abbrev pub feed_blocks : SseReader → List Bytes → SseReader
feed_blocks r [] = r
feed_blocks r (b ∷ bs) = feed_blocks (feed r b) bs

feed_blocks-concat :
    (r : SseReader) (first : Bytes) (blocks : List Bytes)
    → r.fifo_read ≤ length r.fifo
    → feed_blocks (feed r first) blocks ≡ feed r (first ++ concat blocks)
feed_blocks-concat r first [] h = ap (feed r) (sym (append-nil first))
feed_blocks-concat r first (b ∷ bs) h =
    ap (λ s. feed_blocks s bs) (feed-append r first b h)
    ∙ feed_blocks-concat r (first ++ b) bs h
    ∙ ap (feed r) (append_assoc first b (concat bs))

length-bodies : (es : List Event) → length (map body_of es) ≡ length es
length-bodies [] = refl
length-bodies (e ∷ es) = omega (arith, length-bodies es)

rewound-Waiting : (r : SseReader) → Waiting (record r { fifo = []; fifo_read = 0 }) []
rewound-Waiting r = record { packed = refl; front = omega arith; fit = tt }

-- A stream of events, cut into any blocks, is taken out of the reader as those events, whole and in
-- order, each received as its lines with a line feed between each and the next. An event is sent as
-- one or more lines `data: ` with a text and a line feed, and then a blank line. No text holds a line
-- feed or a carriage return, each has at most 8186 bytes and each event at most 8192; all of them
-- fit the queue together; and the reader starts between two events with its queue drained.
pub drain-feed_blocks :
    (r : SseReader) (es : List Event) (first : Bytes) (blocks : List Bytes) (n : ℕ)
    → AtRest r
    → r.fifo_read ≡ length r.fifo
    → All IsEvent es
    → length (frames (map body_of es)) ≤ max_event_bytes * 2
    → first ++ concat blocks ≡ stream es
    → length es ≤ n
    → drain n (feed_blocks (feed r first) blocks) ≡ map body_of es
drain-feed_blocks r es first blocks n rest drained events fits cut enough =
    let again : SseReader = record r { fifo = []; fifo_read = 0 } in
    let start : rewind r ≡ again = unfold rewind in ground (arith, drained) in
    let waiting =
      feed_loop-stream again [] es rest (rewound-Waiting r) events (omega (arith, fits)) in
    let few : length (map body_of es) ≤ n = omega (arith, enough, length-bodies es) in
    rw (feed_blocks-concat r first blocks (omega (arith, drained)), cut)
      (unfold feed in rw start (drain-Waiting n _ (map body_of es) waiting few))
