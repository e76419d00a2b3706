-- ===== src/Domain/Sse/DataLines.antt =====
-- One event of several `data` lines, from its first byte to the blank line.
use stackchan_atoms3r.Base.{
  ◌+◌, ◌*◌, ◌≤◌, true, false, List, [], ◌∷◌, ◌++◌, ◌≡◌, ap, sym, ◌∙◌, length, length-append, Bytes,
  bytes_eq, append_assoc, append-nil, All, All-append, arith,
}
use stackchan_atoms3r.Domain.Sse.{
  SseReader, max_event_bytes, frame, dispatch, add_data, take_line, feed_char, feed_loop,
}
use stackchan_atoms3r.Domain.Sse.Split.{feed_loop-append}
use stackchan_atoms3r.Domain.Sse.Lines.{
  Inline, AtRest, with_line, prefix, prefix-Inline, at_rest, feed_text, split_field_data,
}

-- `data: `, a text, and the end of the line.
abbrev pub data_line : Bytes → Bytes
data_line v = (prefix ++ v) ++ 10 ∷ []

-- The lines of an event one after the other, and the blank line.
abbrev pub event_lines : List Bytes → Bytes
event_lines [] = 10 ∷ []
event_lines (v ∷ vs) = data_line v ++ event_lines vs

-- An event is its first line and the lines behind it.
abbrev pub Event : Type 0
Event = Bytes × List Bytes

abbrev pub event_bytes : Event → Bytes
event_bytes (v, vs) = event_lines (v ∷ vs)

-- Each with the line feed in front of it.
abbrev pub more_lines : List Bytes → Bytes
more_lines [] = []
more_lines (v ∷ vs) = 10 ∷ (v ++ more_lines vs)

-- What is to be received: the lines with a line feed between each and the next.
abbrev pub body_of : Event → Bytes
body_of (v, vs) = v ++ more_lines vs

-- The text of a line that fits with its `data: `.
abbrev pub IsLine : Bytes → Type 0
IsLine v = All Inline v × (length v + 6 ≤ max_event_bytes)

abbrev pub IsEvent : Event → Type 0
IsEvent (v, vs) = IsLine v × All IsLine vs × (length (body_of (v, vs)) ≤ max_event_bytes)

-- The reader at the start of a line.
abbrev at_line : SseReader → SseReader
at_line r = with_line r [] false

end_line :
    (r : SseReader) (v : Bytes)
    → feed_loop (with_line r (prefix ++ v) false) (10 ∷ []) ≡ at_line (add_data r v)
unfolding feed_loop feed_char take_line add_data bytes_eq
end_line r v = rw split_field_data (ground arith)

feed_loop-data_line :
    (r : SseReader) (v : Bytes)
    → IsLine v
    → feed_loop (at_line r) (data_line v) ≡ at_line (add_data r v)
feed_loop-data_line r v h =
    let plain = All-append Inline prefix v prefix-Inline h.0 in
    feed_loop-append (at_line r) (prefix ++ v) (10 ∷ [])
    ∙ ap (λ s. feed_loop s (10 ∷ []))
        (feed_text r [] (prefix ++ v) plain (omega (arith, h.1, length-append prefix v)))
    ∙ end_line r v

-- An event has been started, and this is what it holds.
abbrev holding : SseReader → Bytes → SseReader
holding r event = record r { event = event; event_has_data = true; event_overflow = false }

add_data_first :
    (r : SseReader) (v : Bytes) → AtRest r → length v ≤ max_event_bytes → add_data r v ≡ holding r v
unfolding add_data
add_data_first r v h l = ground (arith, h)

add_data_more :
    (r : SseReader) (event v : Bytes)
    → length event + (1 + length v) ≤ max_event_bytes
    → add_data (holding r event) v ≡ holding r (event ++ 10 ∷ v)
unfolding add_data
add_data_more r event v l = ground (arith, l, append_assoc event (10 ∷ []) v)

blank_line :
    (r : SseReader) (event : Bytes)
    → AtRest r
    → length r.fifo + (2 + length event) ≤ max_event_bytes * 2
    → feed_loop (at_line (holding r event)) (10 ∷ []) ≡ record r { fifo = r.fifo ++ frame event }
unfolding feed_loop feed_char take_line dispatch
blank_line r event h l = ground (arith, h)

-- The lines behind the first one, and the blank line.
feed_loop-event_lines :
    (r : SseReader) (event : Bytes) (vs : List Bytes)
    → AtRest r
    → All IsLine vs
    → length (event ++ more_lines vs) ≤ max_event_bytes
    → length r.fifo + (2 + length (event ++ more_lines vs)) ≤ max_event_bytes * 2
    → feed_loop (at_line (holding r event)) (event_lines vs)
      ≡ record r { fifo = r.fifo ++ frame (event ++ more_lines vs) }
feed_loop-event_lines r event [] h lines fits room =
    let whole = append-nil event in
    blank_line r event h (omega (arith, room, ap length whole))
    ∙ ap (λ e. record r { fifo = r.fifo ++ frame e }) (sym whole)
feed_loop-event_lines r event (v ∷ vs) h lines fits room =
    let whole = append_assoc event (10 ∷ v) (more_lines vs) in
    let size = length-append event (10 ∷ (v ++ more_lines vs)) in
    let line_size = length-append v (more_lines vs) in
    feed_loop-append (at_line (holding r event)) (data_line v) (event_lines vs)
    ∙ ap (λ s. feed_loop s (event_lines vs))
        (feed_loop-data_line (holding r event) v lines.0
          ∙ ap at_line (add_data_more r event v (omega (arith, fits, size, line_size))))
    ∙ feed_loop-event_lines r (event ++ 10 ∷ v) vs h lines.1 (omega (arith, fits, ap length whole))
        (omega (arith, room, ap length whole))
    ∙ ap (λ e. record r { fifo = r.fifo ++ frame e }) whole

-- An event whose lines fit is queued with its lines joined, and nothing else changes.
pub feed_loop-event_bytes :
    (r : SseReader) (e : Event)
    → AtRest r
    → IsEvent e
    → length r.fifo + (2 + length (body_of e)) ≤ max_event_bytes * 2
    → feed_loop r (event_bytes e) ≡ record r { fifo = r.fifo ++ frame (body_of e) }
feed_loop-event_bytes r (v, vs) h (line, lines, fits) room =
    let short : length v ≤ max_event_bytes = omega (arith, line.1) in
    ap (λ s. feed_loop s (event_bytes (v, vs))) (at_rest r h)
    ∙ feed_loop-append (at_line r) (data_line v) (event_lines vs)
    ∙ ap (λ s. feed_loop s (event_lines vs))
        (feed_loop-data_line r v line ∙ ap at_line (add_data_first r v h short))
    ∙ feed_loop-event_lines r v vs h lines fits room
