-- ===== src/Domain/Speech/Split.antt =====
-- How the text is cut into deltas makes no difference.
use stackchan_atoms3r.Base.{
  ℕ, ◌≤◌, ◌<◌, Bool, true, false, Option, none, some, [], ◌∷◌, ◌++◌, ◌≡◌, ◌⊎◌, inl, refl, ap, sym,
  ◌∙◌, length, length-append, take, drop, Bytes, arith,
}
use stackchan_atoms3r.Domain.Expression.{Expression, parse_expression}
use stackchan_atoms3r.Domain.Speech.{
  SpeechSegmenter, frame, emit, cut_point, cut_text, append_text, append_all, dump_marker_as_text,
  resolve_pending_dot, close_marker, consume_into_marker, put_text, end_sentence, when, resolve_dot,
  consume_marker, put_marked, put_char, put_all, rewind, feed,
}

-- The queue is longer, or it is what it was, and its front has not moved.
abbrev Grows : SpeechSegmenter → SpeechSegmenter → Type 0
Grows r s = (s.fifo_read ≡ r.fifo_read) × ((s.fifo ≡ r.fifo) ⊎ (length r.fifo < length s.fifo))

Grows-trans : (r s t : SpeechSegmenter) → Grows r s → Grows s t → Grows r t
Grows-trans r s t g h = (ground (arith, g, h), ground (arith, g, h))

emit-Grows : (s : SpeechSegmenter) → Grows s (emit s)
unfolding emit frame
emit-Grows s = (ground arith, ground (arith, length-append s.fifo (frame s.expression s.pending)))

cut_text-Grows : (s : SpeechSegmenter) → Grows s (cut_text s)
unfolding cut_text
cut_text-Grows s =
    let emitted = emit-Grows (record s { pending = take (cut_point s.pending) s.pending }) in
    (ground (arith, emitted), ground (arith, emitted))

append_text-Grows : (s : SpeechSegmenter) (c : ℕ) → Grows s (append_text s c)
unfolding append_text
append_text-Grows s c =
    let cut = cut_text-Grows (record s { pending = s.pending ++ c ∷ [] }) in
    (ground (arith, cut), ground (arith, cut))

append_all-Grows : (s : SpeechSegmenter) (cs : Bytes) → Grows s (append_all s cs)
unfolding append_all
append_all-Grows s [] = (refl, inl refl)
append_all-Grows s (c ∷ cs) =
    let next = append_text s c in
    Grows-trans s next (append_all next cs) (append_text-Grows s c) (append_all-Grows next cs)

close_marker-Grows :
    (s : SpeechSegmenter) (name : Bytes) (parsed : Option Expression)
    → Grows s (close_marker s name parsed)
unfolding close_marker
close_marker-Grows s name none =
    let first = append_text s b'[' in
    let middle = append_all first name in
    Grows-trans s first (append_text middle b']') (append_text-Grows s b'[') (
      Grows-trans first middle (append_text middle b']') (append_all-Grows first name)
        (append_text-Grows middle b']'))
close_marker-Grows s name (some e) = emit-Grows s

resolve_pending_dot-Grows : (s : SpeechSegmenter) (c : ℕ) → Grows s (resolve_pending_dot s c).0
unfolding resolve_pending_dot
resolve_pending_dot-Grows s c =
    let emitted = emit-Grows (record s { dot_pending = false }) in
    (ground (arith, emitted), ground (arith, emitted))

consume_into_marker-Grows : (s : SpeechSegmenter) (c : ℕ) → Grows s (consume_into_marker s c).0
unfolding consume_into_marker dump_marker_as_text
consume_into_marker-Grows s c =
    let name = drop 1 s.marker in
    let closed = close_marker-Grows (record s { marker = [] }) name (parse_expression name) in
    let dumped = append_all-Grows (record s { marker = [] }) s.marker in
    (ground (arith, closed, dumped), ground (arith, closed, dumped))

put_text-Grows : (s : SpeechSegmenter) (c : ℕ) → Grows s (put_text s c)
unfolding put_text end_sentence
put_text-Grows s c =
    let next = append_text s c in
    let appended = append_text-Grows s c in
    let emitted = Grows-trans s next (emit next) appended (emit-Grows next) in
    (
      ground (arith, appended, emitted, emit-Grows s),
      ground (arith, appended, emitted, emit-Grows s),
    )

when-Grows :
    (b : Bool) (step : SpeechSegmenter → SpeechSegmenter × Bool) (s : SpeechSegmenter)
    → Grows s (step s).0
    → Grows s (when b step s).0
when-Grows true step s h = h
when-Grows false step s h = (refl, inl refl)

put_marked-Grows : (s : SpeechSegmenter) (c : ℕ) → Grows s (put_marked s c)
unfolding put_marked
put_marked-Grows s c =
    let marked = consume_marker s c in
    let first = when-Grows _ (λ t. consume_into_marker t c) s (consume_into_marker-Grows s c) in
    let both = Grows-trans s marked.0 (put_text marked.0 c) first (put_text-Grows marked.0 c) in
    (ground (arith, first, both), ground (arith, first, both))

put_char-Grows : (s : SpeechSegmenter) (c : ℕ) → Grows s (put_char s c)
unfolding put_char
put_char-Grows s c =
    let dotted = resolve_dot s c in
    let first =
      when-Grows s.dot_pending (λ t. resolve_pending_dot t c) s (resolve_pending_dot-Grows s c) in
    let both = Grows-trans s dotted.0 (put_marked dotted.0 c) first (put_marked-Grows dotted.0 c) in
    (ground (arith, first, both), ground (arith, first, both))

-- The queue is drained only if it is empty and stands at its start.
abbrev Rewound : SpeechSegmenter → Type 0
Rewound s = (s.fifo_read < length s.fifo) ⊎ ((s.fifo ≡ []) × (s.fifo_read ≡ 0))

Rewound-Grows : (r s : SpeechSegmenter) → Rewound r → Grows r s → Rewound s
Rewound-Grows r s h g = ground (arith, h, g)

rewind-Rewound : (s : SpeechSegmenter) → s.fifo_read ≤ length s.fifo → Rewound (rewind s)
unfolding rewind
rewind-Rewound s h = ground arith

Rewound-rewind : (s : SpeechSegmenter) → Rewound s → rewind s ≡ s
unfolding rewind
Rewound-rewind s h = ground arith

put_all-Rewound : (s : SpeechSegmenter) (cs : Bytes) → Rewound s → Rewound (put_all s cs)
unfolding put_all
put_all-Rewound s [] h = h
put_all-Rewound s (c ∷ cs) h =
    put_all-Rewound (put_char s c) cs (Rewound-Grows s (put_char s c) h (put_char-Grows s c))

pub put_all-append :
    (s : SpeechSegmenter) (a b : Bytes) → put_all s (a ++ b) ≡ put_all (put_all s a) b
unfolding put_all
put_all-append s [] b = refl
put_all-append s (c ∷ a) b = put_all-append (put_char s c) a b

-- Two deltas that arrive one after the other, with nothing taken in between, leave the segmenter as
-- one delta would, whatever the cut, in the middle of a marker or of a character too, if the front of
-- the queue stands within it.
pub feed-feed :
    (s : SpeechSegmenter) (a b : Bytes)
    → s.fifo_read ≤ length s.fifo
    → feed (feed s a) b ≡ feed s (a ++ b)
unfolding feed
feed-feed s a b h =
    let first = put_all-Rewound (rewind s) a (rewind-Rewound s h) in
    ap (λ t. put_all t b) (Rewound-rewind (put_all (rewind s) a) first)
    ∙ sym (put_all-append (rewind s) a b)
