-- ===== src/Domain/Sse/Split.antt =====
-- How the stream is cut into blocks makes no difference.
use stackchan_atoms3r.Base.{
  ℕ, ◌≤◌, ◌<◌, [], ◌∷◌, ◌++◌, ◌≡◌, ◌⊎◌, refl, ap, sym, ◌∙◌, length, length-append, Bytes, arith,
}
use stackchan_atoms3r.Domain.Sse.{
  SseReader, frame, dispatch, add_data, split_field, take_line, feed_char, feed_loop, rewind, feed,
}

-- The queue is longer, or it is what it was, and its front has not moved.
abbrev pub Grows : SseReader → SseReader → Type 0
Grows r s = (s.fifo_read ≡ r.fifo_read) × ((s.fifo ≡ r.fifo) ⊎ (length r.fifo < length s.fifo))

dispatch-Grows : (r : SseReader) → Grows r (dispatch r)
unfolding dispatch frame
dispatch-Grows r = (ground arith, ground (arith, length-append r.fifo (frame r.event)))

add_data-Grows : (r : SseReader) (v : Bytes) → Grows r (add_data r v)
unfolding add_data
add_data-Grows r v = (ground arith, ground arith)

take_line-Grows : (r : SseReader) → Grows r (take_line r)
unfolding take_line
take_line-Grows r =
    let gone = dispatch-Grows r in
    let added = add_data-Grows r (split_field r.line).1 in
    (ground (arith, gone, added), ground (arith, gone, added))

feed_char-Grows : (r : SseReader) (c : ℕ) → Grows r (feed_char r c)
unfolding feed_char
feed_char-Grows r c = (ground (arith, take_line-Grows r), ground (arith, take_line-Grows r))

-- The queue is drained only if it is empty and stands at its start.
abbrev Rewound : SseReader → Type 0
Rewound r = (r.fifo_read < length r.fifo) ⊎ ((r.fifo ≡ []) × (r.fifo_read ≡ 0))

Rewound-Grows : (r s : SseReader) → Rewound r → Grows r s → Rewound s
Rewound-Grows r s h g = ground (arith, h, g)

rewind-Rewound : (r : SseReader) → r.fifo_read ≤ length r.fifo → Rewound (rewind r)
unfolding rewind
rewind-Rewound r h = ground arith

Rewound-rewind : (r : SseReader) → Rewound r → rewind r ≡ r
unfolding rewind
Rewound-rewind r h = ground arith

feed_loop-Rewound : (r : SseReader) (bs : Bytes) → Rewound r → Rewound (feed_loop r bs)
unfolding feed_loop
feed_loop-Rewound r [] h = h
feed_loop-Rewound r (c ∷ cs) h =
    feed_loop-Rewound (feed_char r c) cs (Rewound-Grows r (feed_char r c) h (feed_char-Grows r c))

pub feed_loop-append :
    (r : SseReader) (a b : Bytes) → feed_loop r (a ++ b) ≡ feed_loop (feed_loop r a) b
unfolding feed_loop
feed_loop-append r [] b = refl
feed_loop-append r (c ∷ a) b = feed_loop-append (feed_char r c) a b

-- Two blocks that arrive one after the other leave the reader as one block would, whatever the cut.
pub feed-append :
    (r : SseReader) (a b : Bytes)
    → r.fifo_read ≤ length r.fifo
    → feed (feed r a) b ≡ feed r (a ++ b)
unfolding feed
feed-append r a b h =
    let first = feed_loop-Rewound (rewind r) a (rewind-Rewound r h) in
    ap (λ s. feed_loop s b) (Rewound-rewind (feed_loop (rewind r) a) first)
    ∙ sym (feed_loop-append (rewind r) a b)
