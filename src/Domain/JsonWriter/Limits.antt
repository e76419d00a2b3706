-- ===== src/Domain/JsonWriter/Limits.antt =====
-- A document is whole or it is refused.
use stackchan_atoms3r.Base.{
  ℕ, ◌+◌, ◌≤◌, true, false, not, [], ◌∷◌, ◌++◌, ◌≡◌, ◌↔◌, refl, ap, sym, Bool-cases, inl, inr, ◌∙◌,
  ltb, leb, length, length-append, Bytes, append-nil, append_assoc, arith,
}
use stackchan_atoms3r.Domain.JsonWriter.{
  Sink, JsonWriter, max_depth, make_writer, put, put_text, valid,
}
use stackchan_atoms3r.Domain.JsonWriter.Document.{Json, emit, render, height}
use stackchan_atoms3r.Domain.JsonWriter.Emit.{emit_lem}

put_text_overflowed :
    (s : Sink) (bs : Bytes)
    → s.overflowed ≡ true
    → ((put_text s bs).overflowed ≡ true)
      × ((put_text s bs).required ≡ s.required + length bs)
      × ((put_text s bs).out ≡ s.out)
unfolding put_text put
put_text_overflowed s [] h = (h, omega arith, refl)
put_text_overflowed s (c ∷ bs) h = ground (arith, put_text_overflowed (put s c) bs)

put_full :
    (s : Sink) (c : ℕ)
    → s.overflowed ≡ false
    → ltb s.capacity (length s.out + 1) ≡ true
    → ((put s c).overflowed ≡ true) × ((put s c).required ≡ s.required + 1)
unfolding put
put_full s c h full = (ground arith, ground arith)

put_room :
    (s : Sink) (c : ℕ)
    → s.overflowed ≡ false
    → ltb s.capacity (length s.out + 1) ≡ false
    → ((put s c).overflowed ≡ false)
      × ((put s c).required ≡ s.required + 1)
      × (((put s c).out ≡ s.out ++ c ∷ []) × ((put s c).capacity ≡ s.capacity))
unfolding put
put_room s c h room = (ground arith, ground arith, (ground arith, ground arith))

-- What a text does to a buffer that has not overflowed.
pub put_text_lem :
    (s : Sink) (bs : Bytes)
    → s.overflowed ≡ false
    → length s.out ≤ s.capacity
    → ((put_text s bs).required ≡ s.required + length bs)
      × ((put_text s bs).overflowed ≡ not (leb (length s.out + length bs) s.capacity))
      × (length s.out + length bs ≤ s.capacity → (put_text s bs).out ≡ s.out ++ bs)
unfolding put_text
put_text_lem s [] h l = (omega arith, ground arith, λ k. sym (append-nil s.out))
put_text_lem s (c ∷ bs) h l = elim (Bool-cases (ltb s.capacity (length s.out + 1))) [
  | inl full ↦
      let stopped = put_full s c h full in
      let rest = put_text_overflowed (put s c) bs stopped.0 in
      (ground (arith, stopped, rest), ground (arith, stopped, rest), λ k. ground arith)
  | inr room ↦
      let step = put_room s c h room in
      let rest =
        put_text_lem (put s c) bs (step.0) (ground (arith, step, length-append s.out (c ∷ []))) in
      let size = length-append s.out (c ∷ []) in
      (
        ground (arith, step, rest),
        ground (arith, step, rest, size),
        λ k.
            rest.2 (ground (arith, step, size))
            ∙ ap (λ o. o ++ bs) step.2.0
            ∙ append_assoc s.out (c ∷ []) bs,
      )
]

abbrev closed_writer : Sink → Bytes → JsonWriter
closed_writer s bs = record { sink = put_text s bs; open_levels = []; needs_comma = true }

valid_closed :
    (s : Sink) (bs : Bytes)
    → s.overflowed ≡ false
    → s.out ≡ []
    → s.required ≡ 0
    → ((valid (closed_writer s bs) ≡ true) ↔ (length bs ≤ s.capacity))
      × (valid (closed_writer s bs) ≡ true → (closed_writer s bs).out ≡ bs)
      × ((closed_writer s bs).required ≡ length bs)
unfolding valid
valid_closed s bs fresh bare unasked =
    let text = put_text_lem s bs fresh (ground (arith, bare)) in
    (
      (λ v. ground (arith, text, bare), λ l. ground (arith, text, bare)),
      λ v. ground (arith, text, bare),
      ground (arith, text, bare),
    )

-- Writing a document with room for its brackets: the result is valid exactly when the whole text fits,
-- a valid result is the whole text, and the size that was needed is counted either way.
pub emit-make_writer :
    (x : Json) (capacity : ℕ)
    → height x ≤ max_depth
    → let w = emit (make_writer capacity) x in
      ((valid w ≡ true) ↔ (length (render x) ≤ capacity))
      × (valid w ≡ true → w.out ≡ render x)
      × (w.required ≡ length (render x))
unfolding make_writer
emit-make_writer x capacity h =
    rw (emit_lem (make_writer capacity) x (omega arith))
      (valid_closed (make_writer capacity).sink (render x) refl refl refl)
