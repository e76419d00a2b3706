-- ===== src/Domain/Speech/Bounds.antt =====
-- No buffer of the segmenter is written past its end, whatever bytes it is fed.
use stackchan_atoms3r.Base.{
  ℕ, zero, suc, ◌+◌, ◌-◌, ◌≤◌, Bool, true, false, Option, none, some, [], ◌∷◌, ◌++◌, ◌≡◌, length,
  length-append, length-take, length-drop, take, drop, Bytes, arith, get_or, ltb,
}
use stackchan_atoms3r.Domain.Expression.{Expression, parse_expression}
use stackchan_atoms3r.Domain.Speech.{
  SpeechSegmenter, max_segment_capacity, max_marker_bytes, fifo_size, segmenter, utf8_length, frame,
  emit, find_lead, cut_point, cut_text, append_text, append_all, dump_marker_as_text,
  resolve_pending_dot, close_marker, consume_into_marker, put_text, end_sentence, when, resolve_dot,
  consume_marker, put_marked, put_char, put_all, rewind, feed, flush,
}

utf8_length_le : (c : ℕ) → utf8_length c ≤ 4
unfolding utf8_length
utf8_length_le c = ground arith

find_lead_le : (p : Bytes) (n : ℕ) → find_lead p n ≤ n
unfolding find_lead
find_lead_le p zero = omega arith
find_lead_le p (suc n) = ground (arith, find_lead_le p n)

-- At most the last three bytes of a full buffer are kept back.
pub cut_point_bounds : (p : Bytes) → (cut_point p ≤ length p) × (length p ≤ cut_point p + 3)
unfolding cut_point
cut_point_bounds p =
    let lead = find_lead p (length p) in
    let size = utf8_length_le (get_or p (lead - 1) 0) in
    let low = find_lead_le p (length p) in (ground (arith, size, low), ground (arith, size, low))

-- The lengths that the arrays allow, with a limit of `m` and at most `n` bytes under construction.
abbrev pub Within : ℕ → ℕ → SpeechSegmenter → Type 0
Within m n s =
    (s.max_bytes ≡ m)
    × (8 ≤ m)
    × (m ≤ max_segment_capacity)
    × (length s.pending ≤ n)
    × (length s.marker ≤ max_marker_bytes)
    × (length s.fifo ≤ fifo_size)
    × (s.fifo_read ≤ length s.fifo)

-- Between two calls there is room for one more byte at least.
abbrev pub IsValid : SpeechSegmenter → Type 0
IsValid s = Within s.max_bytes (s.max_bytes - 1) s

pub segmenter-IsValid : (n : ℕ) → IsValid (segmenter n)
unfolding segmenter
segmenter-IsValid n = ground arith

module _ (m : ℕ) where
  pub emit-Within : (s : SpeechSegmenter) → Within m m s → Within m 0 (emit s)
  unfolding emit frame
  emit-Within s h = ground (arith, h, length-append s.fifo (frame s.expression s.pending))

  cut_text-Within :
      (s : SpeechSegmenter) → Within m m s → m ≤ length s.pending → Within m (m - 1) (cut_text s)
  unfolding cut_text
  cut_text-Within s h full =
      let cut = cut_point s.pending in
      let emitted = emit-Within (record s { pending = take cut s.pending }) in
      ground (
        arith,
        h,
        full,
        emitted,
        cut_point_bounds s.pending,
        length-take cut s.pending,
        length-drop cut s.pending,
      )

  pub append_text-Within :
      (s : SpeechSegmenter) (c : ℕ) → Within m (m - 1) s → Within m (m - 1) (append_text s c)
  unfolding append_text
  append_text-Within s c h =
      let grown = record s { pending = s.pending ++ c ∷ [] } in
      ground (arith, h, cut_text-Within grown, length-append s.pending (c ∷ []))

  pub append_all-Within :
      (s : SpeechSegmenter) (cs : Bytes) → Within m (m - 1) s → Within m (m - 1) (append_all s cs)
  unfolding append_all
  append_all-Within s [] h = h
  append_all-Within s (c ∷ cs) h = append_all-Within (append_text s c) cs (append_text-Within s c h)

  close_marker-Within :
      (s : SpeechSegmenter) (name : Bytes) (parsed : Option Expression)
      → Within m (m - 1) s
      → Within m (m - 1) (close_marker s name parsed)
  unfolding close_marker
  close_marker-Within s name none h =
      append_text-Within _ b']' (append_all-Within _ name (append_text-Within s b'[' h))
  close_marker-Within s name (some e) h = ground (arith, h, emit-Within s)

  pub resolve_pending_dot-Within :
      (s : SpeechSegmenter) (c : ℕ)
      → Within m (m - 1) s
      → Within m (m - 1) (resolve_pending_dot s c).0
  unfolding resolve_pending_dot
  resolve_pending_dot-Within s c h =
      ground (arith, h, emit-Within (record s { dot_pending = false }))

  dump_marker_as_text-Within :
      (s : SpeechSegmenter) → Within m (m - 1) s → Within m (m - 1) (dump_marker_as_text s)
  unfolding dump_marker_as_text
  dump_marker_as_text-Within s h =
      append_all-Within (record s { marker = [] }) s.marker (ground (arith, h))

  pub consume_into_marker-Within :
      (s : SpeechSegmenter) (c : ℕ)
      → Within m (m - 1) s
      → Within m (m - 1) (consume_into_marker s c).0
  unfolding consume_into_marker
  consume_into_marker-Within s c h =
      let name = drop 1 s.marker in
      ground (
        arith,
        h,
        close_marker-Within (record s { marker = [] }) name (parse_expression name),
        dump_marker_as_text-Within s,
        length-append s.marker (c ∷ []),
      )

  pub put_text-Within :
      (s : SpeechSegmenter) (c : ℕ) → Within m (m - 1) s → Within m (m - 1) (put_text s c)
  unfolding put_text end_sentence
  put_text-Within s c h =
      ground (arith, h, append_text-Within s c, emit-Within s, emit-Within (append_text s c))

  when-Within :
      (b : Bool) (step : SpeechSegmenter → SpeechSegmenter × Bool) (s : SpeechSegmenter)
      → Within m (m - 1) s
      → Within m (m - 1) (step s).0
      → Within m (m - 1) (when b step s).0
  when-Within true step s h k = k
  when-Within false step s h k = h

  put_marked-Within :
      (s : SpeechSegmenter) (c : ℕ) → Within m (m - 1) s → Within m (m - 1) (put_marked s c)
  unfolding put_marked
  put_marked-Within s c h =
      let marked = consume_marker s c in
      let first =
        when-Within (ltb 0 (length s.marker)) (λ t. consume_into_marker t c) s h
          (consume_into_marker-Within s c h) in
      ground (arith, first, put_text-Within marked.0 c)

  put_char-Within :
      (s : SpeechSegmenter) (c : ℕ) → Within m (m - 1) s → Within m (m - 1) (put_char s c)
  unfolding put_char
  put_char-Within s c h =
      let dotted = resolve_dot s c in
      let first =
        when-Within s.dot_pending (λ t. resolve_pending_dot t c) s h
          (resolve_pending_dot-Within s c h) in
      ground (arith, first, put_marked-Within dotted.0 c)

  put_all-Within :
      (s : SpeechSegmenter) (cs : Bytes) → Within m (m - 1) s → Within m (m - 1) (put_all s cs)
  unfolding put_all
  put_all-Within s [] h = h
  put_all-Within s (c ∷ cs) h = put_all-Within (put_char s c) cs (put_char-Within s c h)

  pub rewind-Within : (s : SpeechSegmenter) (n : ℕ) → Within m n s → Within m n (rewind s)
  unfolding rewind
  rewind-Within s n h = ground (arith, h)

  -- Feeding any bytes to a segmenter of which this holds keeps every buffer inside its array: the
  -- sentence under construction stays shorter than the limit, a marker within eight bytes, the
  -- queue within 512.
  pub feed-Within :
      (s : SpeechSegmenter) (text : Bytes) → Within m (m - 1) s → Within m (m - 1) (feed s text)
  unfolding feed
  feed-Within s text h = put_all-Within (rewind s) text (rewind-Within s (m - 1) h)

  -- Flushing leaves no text behind, and keeps the queue inside its array.
  pub flush-Within : (s : SpeechSegmenter) → Within m (m - 1) s → Within m 0 (flush s)
  unfolding flush
  flush-Within s h =
      let ready = rewind s in
      let kept = rewind-Within s (m - 1) h in
      ground (
        arith,
        kept,
        emit-Within ready,
        emit-Within (dump_marker_as_text ready),
        dump_marker_as_text-Within ready kept,
      )
