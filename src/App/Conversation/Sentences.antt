-- ===== src/App/Conversation/Sentences.antt =====
-- The sentences that the segmenter has finished are all told, in order.
use stackchan_atoms3r.Base.{
  ℕ, zero, suc, ◌≤◌, List, [], ◌∷◌, ◌++◌, none, some, ◌≡◌, refl, ap, sym, subst, ◌∙◌, length,
  length-append, length-drop, map, append-nil, append_assoc, arith,
}
use stackchan_atoms3r.Domain.Speech.{SpeechSegmenter, Segment, frame, next_segment}
use stackchan_atoms3r.Domain.Speech.Queue.{
  Sentence, frames, Waiting, segment, next_segment-Waiting, next_segment-empty,
}
use stackchan_atoms3r.App.Conversation.{
  Call, on_sentence, ConversationTurn, drain_loop, drain_segments,
}

abbrev pub told : Sentence → Call
told e = on_sentence (segment e)

length-frames : (es : List Sentence) → length es ≤ length (frames es)
unfolding frame
length-frames [] = omega arith
length-frames (e ∷ es) = omega (arith, length-frames es, length-append e.1 (frames es))

length-Waiting :
    (s : SpeechSegmenter) (es : List Sentence) → Waiting s es → length es ≤ length s.fifo
length-Waiting s es w =
    let size = ap length w.packed in
    omega (arith, size, length-frames es, length-drop s.fifo_read s.fifo)

-- What is told of these sentences, and that none is left.
abbrev Told : ConversationTurn → List Sentence → ConversationTurn → Type 0
Told t es u =
    (u ≡ record t { speech = u.speech; calls = t.calls ++ map told es }) × Waiting u.speech []

drain_loop-none : (n : ℕ) (t : ConversationTurn) → Waiting t.speech [] → Told t [] (drain_loop n t)
unfolding drain_loop
drain_loop-none zero t w = (ap (λ cs. record t { calls = cs }) (sym (append-nil t.calls)), w)
drain_loop-none (suc n) t w =
    let nothing : (next_segment t.speech).1 ≡ none =
      ap (λ p. p.1) (next_segment-empty t.speech w) in
    let same : drain_loop (suc n) t ≡ t = rw (nothing, drain_loop) refl in
    subst (Told t []) (sym same) (ap (λ cs. record t { calls = cs }) (sym (append-nil t.calls)), w)

drain_loop-next :
    (n : ℕ) (t : ConversationTurn) (s : Segment)
    → (next_segment t.speech).1 ≡ some s
    → drain_loop (suc n) t
      ≡ drain_loop n
          (record t { speech = (next_segment t.speech).0; calls = t.calls ++ on_sentence s ∷ [] })
unfolding drain_loop
drain_loop-next n t s found = rw (found, drain_loop) refl

drain_loop-Told :
    (n : ℕ) (t : ConversationTurn) (es : List Sentence)
    → Waiting t.speech es
    → length es ≤ n
    → Told t es (drain_loop n t)
unfolding drain_loop
drain_loop-Told n t [] w h = drain_loop-none n t w
drain_loop-Told zero t (e ∷ es) w h = absurd (omega (arith, h))
drain_loop-Told (suc n) t (e ∷ es) w h =
    let (found, left) = next_segment-Waiting t.speech e es w in
    let next = record t { speech = (next_segment t.speech).0; calls = t.calls ++ told e ∷ [] } in
    let (all, none_left) = drain_loop-Told n next es left (omega (arith, h)) in
    let last = drain_loop n next in
    subst (Told t (e ∷ es)) (sym (drain_loop-next n t (segment e) found)) (
      all
          ∙ ap (λ cs. record t { speech = last.speech; calls = cs })
              (append_assoc t.calls (told e ∷ []) (map told es)),
      none_left,
    )

-- All the sentences that wait are told, in order, each under its expression, and none is left.
pub drain_segments-Told :
    (t : ConversationTurn) (es : List Sentence)
    → Waiting t.speech es
    → ((drain_segments t).calls ≡ t.calls ++ map told es) × Waiting (drain_segments t).speech []
unfolding drain_segments
drain_segments-Told t es w =
    let (all, left) =
      drain_loop-Told (length t.speech.fifo) t es w (length-Waiting t.speech es w) in
    (ap (λ u. u.calls) all, left)
