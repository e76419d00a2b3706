-- ===== src/Domain/Sse/Lines.antt =====
-- One event of one line, from its first byte to the blank line.
use stackchan_atoms3r.Base.{
  ℕ, ◌+◌, ◌≤◌, ◌<◌, Bool, true, false, [], ◌∷◌, ◌++◌, ◌≡◌, refl, ap, sym, ◌∙◌, ltb, ◌==◌, length,
  length-append, Bytes, codes, bytes_eq, append_assoc, append-nil, All, arith, Bool-cases, inl, inr,
}
use stackchan_atoms3r.Domain.Sse.{
  SseReader, max_event_bytes, dispatch, split_colon, strip_space, split_field, take_line, feed_char,
  feed_loop,
}
use stackchan_atoms3r.Domain.Sse.Split.{feed_loop-append}

-- A character that does not end a line.
abbrev pub Inline : ℕ → Type 0
Inline c = ((c == 13) ≡ false) × ((c == 10) ≡ false)

-- Between two events: no line and no event has been started.
abbrev pub AtRest : SseReader → Type 0
AtRest r =
    (r.line ≡ [])
    × (r.line_overflow ≡ false)
    × (r.last_was_cr ≡ false)
    × (r.event ≡ [])
    × (r.event_has_data ≡ false)
    × (r.event_overflow ≡ false)

abbrev pub with_line : SseReader → Bytes → Bool → SseReader
with_line r line overflow = record r { line = line; line_overflow = overflow; last_was_cr = false }

feed_char_room :
    (r : SseReader) (line : Bytes) (c : ℕ)
    → Inline c
    → length line < max_event_bytes
    → feed_char (with_line r line false) c ≡ with_line r (line ++ c ∷ []) false
unfolding feed_char
feed_char_room r line c h l = ground (arith, h)

feed_char_full :
    (r : SseReader) (line : Bytes) (o : Bool) (c : ℕ)
    → Inline c
    → max_event_bytes ≤ length line
    → feed_char (with_line r line o) c ≡ with_line r line true
unfolding feed_char
feed_char_full r line o c h l = ground (arith, h)

pub feed_text :
    (r : SseReader) (line bs : Bytes)
    → All Inline bs
    → length line + length bs ≤ max_event_bytes
    → feed_loop (with_line r line false) bs ≡ with_line r (line ++ bs) false
unfolding feed_loop
feed_text r line [] h l = ap (λ t. with_line r t false) (sym (append-nil line))
feed_text r line (c ∷ cs) h l =
    ap (λ s. feed_loop s cs) (feed_char_room r line c h.0 (omega arith))
    ∙ feed_text r (line ++ c ∷ []) cs h.1 (omega (arith, length-append line (c ∷ [])))
    ∙ ap (λ t. with_line r t false) (append_assoc line (c ∷ []) cs)

feed_full :
    (r : SseReader) (line bs : Bytes)
    → All Inline bs
    → max_event_bytes ≤ length line
    → feed_loop (with_line r line true) bs ≡ with_line r line true
unfolding feed_loop
feed_full r line [] h l = refl
feed_full r line (c ∷ cs) h l =
    ap (λ s. feed_loop s cs) (feed_char_full r line true c h.0 l) ∙ feed_full r line cs h.1 l

-- A line that is too long: its beginning is kept, and it is marked.
feed_long :
    (r : SseReader) (line bs : Bytes)
    → All Inline bs
    → length line ≤ max_event_bytes
    → max_event_bytes < length line + length bs
    → (kept : Bytes) × (feed_loop (with_line r line false) bs ≡ with_line r (line ++ kept) true)
unfolding feed_loop
feed_long r line [] h l k = absurd (omega arith)
feed_long r line (c ∷ cs) h l k = elim (Bool-cases (ltb (length line) max_event_bytes)) [
  | inl room ↦
      let size = length-append line (c ∷ []) in
      let further =
        feed_long r (line ++ c ∷ []) cs h.1 (ground (arith, room, size)) (ground (arith, size)) in
      (
        c ∷ further.0,
        ap (λ s. feed_loop s cs) (feed_char_room r line c h.0 (ground (arith, room)))
            ∙ further.1
            ∙ ap (λ t. with_line r t true) (append_assoc line (c ∷ []) further.0),
      )
  | inr full ↦
      let reached : max_event_bytes ≤ length line = ground (arith, full) in
      (
        [],
        ap (λ s. feed_loop s cs) (feed_char_full r line false c h.0 reached)
            ∙ feed_full r line cs h.1 reached
            ∙ ap (λ t. with_line r t true) (sym (append-nil line)),
      )
]

abbrev line_ends : Bytes
line_ends = 10 ∷ 10 ∷ []

-- `data: `, a text, and a blank line.
abbrev pub event_text : Bytes → Bytes
event_text body = codes "data: " ++ (body ++ line_ends)

abbrev pub prefix : Bytes
prefix = codes "data: "

pub split_field_data : (v : Bytes) → split_field (prefix ++ v) ≡ (codes "data", v)
unfolding split_field split_colon strip_space
split_field_data v = refl

finish_long :
    (r : SseReader) (kept : Bytes)
    → AtRest r
    → feed_loop (with_line r (prefix ++ kept) true) line_ends ≡ record r { dropped = r.dropped + 1 }
unfolding feed_loop feed_char take_line dispatch bytes_eq
finish_long r kept h = rw split_field_data (ground (arith, h))

pub at_rest : (r : SseReader) → AtRest r → r ≡ with_line r [] false
at_rest r h = ground (arith, h)

pub prefix-Inline : All Inline prefix
prefix-Inline = (
  (refl, refl),
  ((refl, refl), ((refl, refl), ((refl, refl), ((refl, refl), ((refl, refl), tt))))),
)

-- An event of one line whose data is longer than 8186 bytes, `data: ` being counted in, is not
-- delivered in part: it is counted as dropped, and nothing else changes.
pub feed_loop-event_text_long :
    (r : SseReader) (body : Bytes)
    → AtRest r
    → All Inline body
    → max_event_bytes < length body + 6
    → feed_loop r (event_text body) ≡ record r { dropped = r.dropped + 1 }
feed_loop-event_text_long r body rest plain long =
    let start = feed_text r [] prefix prefix-Inline (omega arith) in
    let over = feed_long r prefix body plain (omega arith) (omega (arith, long)) in
    ap (λ s. feed_loop s (event_text body)) (at_rest r rest)
    ∙ feed_loop-append (with_line r [] false) prefix (body ++ line_ends)
    ∙ ap (λ s. feed_loop s (body ++ line_ends)) start
    ∙ feed_loop-append (with_line r prefix false) body line_ends
    ∙ ap (λ s. feed_loop s line_ends) over.1
    ∙ finish_long r over.0 rest
