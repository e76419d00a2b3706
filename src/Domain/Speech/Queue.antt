-- ===== src/Domain/Speech/Queue.antt =====
-- The queue of sentences: what is packed into it comes out again, first in, first out.
use stackchan_atoms3r.Base.{
  ◌+◌, ◌%◌, ◌≤◌, false, List, [], ◌∷◌, ◌++◌, none, some, ◌≡◌, refl, ap, sym, ◌∙◌, ◌==◌, length,
  length-append, length-drop, take, drop, take-append, drop-append, drop-drop, drop-append_le,
  drop-all, Bool-cases, inl, inr, get_or-drop, get_or, Bytes, append_assoc, All, All-append, arith,
}
use stackchan_atoms3r.Domain.Expression.{Expression, expression_cast}
use stackchan_atoms3r.Domain.Expression.Names.{cast-value}
use stackchan_atoms3r.Domain.Speech.{
  SpeechSegmenter, max_segment_capacity, frame, next_segment, Segment, rewind,
}

-- A sentence with the expression it is spoken under.
abbrev pub Sentence : Type 0
Sentence = Expression × Bytes

-- The bytes of the sentences that wait.
abbrev pub frames : List Sentence → Bytes
frames [] = []
frames (e ∷ es) = frame e.0 e.1 ++ frames es

abbrev pub Fits : Sentence → Type 0
Fits e = length e.1 ≤ max_segment_capacity

abbrev pub segment : Sentence → Segment
segment e = record { expression = some e.0; text = e.1 }

-- These sentences wait in the queue, the first of them first.
pub record Waiting (s : SpeechSegmenter) (es : List Sentence) : Type 0 where
  pub packed : drop s.fifo_read s.fifo ≡ frames es
  pub front : s.fifo_read ≤ length s.fifo
  pub fit : All Fits es

-- Where the front of the queue stands at a sentence.
module _ (s : SpeechSegmenter) (e : Sentence) (rest : Bytes)
    (packed : drop s.fifo_read s.fifo ≡ frame e.0 e.1 ++ rest) where
  behind_size : drop (s.fifo_read + 2) s.fifo ≡ e.1 ++ rest
  unfolding frame
  behind_size = drop-drop s.fifo_read s.fifo 2 ∙ ap (drop 2) packed

  behind_sentence : drop (s.fifo_read + (2 + length e.1)) s.fifo ≡ rest
  behind_sentence =
      let step : s.fifo_read + (2 + length e.1) ≡ (s.fifo_read + 2) + length e.1 = omega arith in
      ap (λ n. drop n s.fifo) step
      ∙ drop-drop (s.fifo_read + 2) s.fifo (length e.1)
      ∙ ap (drop (length e.1)) behind_size
      ∙ drop-append e.1 rest

  size_read : Fits e → get_or s.fifo s.fifo_read 0 ≡ length e.1
  unfolding frame
  size_read h =
      let low : length e.1 % 256 ≡ length e.1 = omega arith in
      get_or-drop s.fifo_read s.fifo 0 ∙ ap (λ t. get_or t 0 0) packed ∙ low

  expression_read : expression_cast (get_or s.fifo (s.fifo_read + 1) 0) ≡ some e.0
  unfolding frame
  expression_read =
      let second = drop-drop s.fifo_read s.fifo 1 ∙ ap (drop 1) packed in
      let value = get_or-drop (s.fifo_read + 1) s.fifo 0 ∙ ap (λ t. get_or t 0 0) second in
      ap expression_cast value ∙ cast-value e.0

  room : s.fifo_read + (2 + length e.1) ≤ length s.fifo
  unfolding frame
  room =
      let size = ap length packed in
      omega (arith, size, length-append e.1 rest, length-drop s.fifo_read s.fifo)

-- Taking a sentence gives the first that waits under its expression, and leaves the others.
pub next_segment-Waiting :
    (s : SpeechSegmenter) (e : Sentence) (es : List Sentence)
    → Waiting s (e ∷ es)
    → ((next_segment s).1 ≡ some (segment e)) × Waiting (next_segment s).0 es
unfolding next_segment
next_segment-Waiting s e es w =
    let inside = room s e (frames es) w.packed in
    let ahead : (s.fifo_read == length s.fifo) ≡ false = ground (arith, inside) in
    rw (ahead, size_read s e (frames es) w.packed w.fit.0, expression_read s e (frames es) w.packed)
      (
        ap (λ t. some (record { expression = some e.0; text = t }))
            (ap (take (length e.1)) (behind_size s e (frames es) w.packed)
              ∙ take-append e.1 (frames es)),
        record { packed = behind_sentence s e (frames es) w.packed; front = inside; fit = w.fit.1 },
      )

-- With nothing waiting nothing is taken.
pub next_segment-empty : (s : SpeechSegmenter) → Waiting s [] → next_segment s ≡ (s, none)
unfolding next_segment
next_segment-empty s w =
    let size = ap length w.packed in ground (arith, size, w.front, length-drop s.fifo_read s.fifo)

pub frames-append : (es fs : List Sentence) → frames (es ++ fs) ≡ frames es ++ frames fs
frames-append [] fs = refl
frames-append (x ∷ es) fs =
    ap (λ t. frame x.0 x.1 ++ t) (frames-append es fs)
    ∙ sym (append_assoc (frame x.0 x.1) (frames es) (frames fs))

-- Sentences packed behind the queue wait behind the others.
pub Waiting-append :
    (s t : SpeechSegmenter) (es fs : List Sentence)
    → Waiting s es
    → All Fits fs
    → t.fifo ≡ s.fifo ++ frames fs
    → t.fifo_read ≡ s.fifo_read
    → Waiting t (es ++ fs)
Waiting-append s t es fs w fits queue front = record {
  packed =
      ap (λ n. drop n t.fifo) front
      ∙ ap (drop s.fifo_read) queue
      ∙ drop-append_le s.fifo_read s.fifo (frames fs) w.front
      ∙ ap (λ q. q ++ frames fs) w.packed
      ∙ sym (frames-append es fs);
  front = omega (arith, w.front, front, ap length queue, length-append s.fifo (frames fs));
  fit = All-append Fits es fs w.fit fits;
}

-- Starting the queue again moves nothing that waits.
pub rewind-Waiting :
    (s : SpeechSegmenter) (es : List Sentence) → Waiting s es → Waiting (rewind s) es
unfolding rewind
rewind-Waiting s es w = elim (Bool-cases (s.fifo_read == length s.fifo)) [
  | inl e ↦ rw e (record {
    packed = sym (drop-all s.fifo_read s.fifo (ground arith)) ∙ w.packed;
    front = omega arith;
    fit = w.fit;
  })
  | inr e ↦ rw e w
]
