-- ===== src/Domain/Speech/Moves.antt =====
-- A step of the segmenter packs sentences behind the queue and changes nothing else there.
use stackchan_atoms3r.Base.{
  ◌+◌, ◌<◌, List, [], ◌∷◌, ◌++◌, ◌≡◌, inl, inr, refl, ap, sym, ◌∙◌, ◌==◌, length, All, All-append,
  append-nil, append_assoc, arith, Bool-cases, ltb, true, false, Bool, length-zero,
}
use stackchan_atoms3r.Domain.Speech.{SpeechSegmenter, fifo_size, frame, emit, when}
use stackchan_atoms3r.Domain.Speech.Queue.{Sentence, frames, frames-append}

pub emit-empty : (s : SpeechSegmenter) → (emit s).pending ≡ []
unfolding emit
emit-empty s = ground (arith, length-zero s.pending)

pub when_both :
    (Q : SpeechSegmenter × Bool → Type 0) (b : Bool)
    (step : SpeechSegmenter → SpeechSegmenter × Bool) (s : SpeechSegmenter)
    → (b ≡ true → Q (step s))
    → (b ≡ false → Q (s, false))
    → Q (when b step s)
when_both Q true step s taken skipped = taken refl
when_both Q false step s taken skipped = skipped refl

module _ (P : Sentence → Type 0) where
  -- The sentences that a step packs all satisfy `P`.
  pub record Moves (s t : SpeechSegmenter) : Type 0 where
    pub packed : List Sentence
    pub sound : All P packed
    pub queue : t.fifo ≡ s.fifo ++ frames packed
    pub front : t.fifo_read ≡ s.fifo_read

  pub still : (s t : SpeechSegmenter) → t.fifo ≡ s.fifo → t.fifo_read ≡ s.fifo_read → Moves s t
  still s t queue front = record {
    packed = [];
    sound = tt;
    queue = queue ∙ sym (append-nil s.fifo);
    front = front;
  }

  pub Moves-trans : (s t u : SpeechSegmenter) → Moves s t → Moves t u → Moves s u
  Moves-trans s t u g h = record {
    packed = g.packed ++ h.packed;
    sound = All-append P g.packed h.packed g.sound h.sound;
    queue =
        h.queue
        ∙ ap (λ q. q ++ frames h.packed) g.queue
        ∙ append_assoc s.fifo (frames g.packed) (frames h.packed)
        ∙ ap (λ q. s.fifo ++ q) (sym (frames-append g.packed h.packed));
    front = h.front ∙ g.front;
  }

  -- What `emit` packs, if anything, is the sentence under construction.
  pub emit-Moves :
      (s : SpeechSegmenter)
      → (0 < length s.pending → P (s.expression, s.pending))
      → Moves s (emit s)
  unfolding emit
  emit-Moves s h = elim (Bool-cases (length s.pending == 0)) [
    | inl e ↦ rw e (still s (record s { dot_pending = false }) refl refl)
    | inr e ↦ elim (Bool-cases (ltb fifo_size (length s.fifo + (2 + length s.pending)))) [
      | inl f ↦ rw (e, f) (still s _ refl refl)
      | inr f ↦
          rw (e, f)
            (record {
              packed = (s.expression, s.pending) ∷ [];
              sound = (h (ground (arith, e)), tt);
              queue = ap (λ q. s.fifo ++ q) (sym (append-nil (frame s.expression s.pending)));
              front = refl;
            })
    ]
  ]
