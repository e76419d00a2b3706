-- ===== src/Domain/Speech/Whole/Stream.antt =====
-- A whole text, fed in deltas and flushed.
use stackchan_atoms3r.Base.{
  ℕ, some, List, [], ◌∷◌, ◌++◌, ◌≡◌, inl, inr, refl, ◌==◌, ltb, length, Bytes, All, All-append,
  arith, Bool-cases,
}
use stackchan_atoms3r.Domain.Speech.{
  SpeechSegmenter, segmenter, dump_marker_as_text, emit, append_all, put_all, rewind, feed, flush,
}
use stackchan_atoms3r.Domain.Speech.Queue.{Sentence, Fits, Waiting, Waiting-append, rewind-Waiting}
use stackchan_atoms3r.Domain.Speech.Bounds.{segmenter-IsValid}
use stackchan_atoms3r.Domain.Speech.Utf8.{scan}
use stackchan_atoms3r.Domain.Speech.Moves.{Moves, still}
use stackchan_atoms3r.Domain.Speech.Whole.{
  Whole, Mid, Result, Result-trans, emit-Result, append_all-Result,
}
use stackchan_atoms3r.Domain.Speech.Whole.Text.{Ready}
use stackchan_atoms3r.Domain.Speech.Whole.Steps.{put_all-Step}

Whole-Fits : (es : List Sentence) → All Whole es → All Fits es
Whole-Fits [] h = tt
Whole-Fits (e ∷ es) h = (h.0.2, Whole-Fits es h.1)

-- Sentences of whole characters have come to wait behind those that did.
abbrev pub Behind : List Sentence → SpeechSegmenter → Type 0
Behind es t = (fs : List Sentence) × Waiting t (es ++ fs) × All Whole fs

Moves-Behind :
    (s t : SpeechSegmenter) (es : List Sentence) → Waiting s es → Moves Whole s t → Behind es t
Moves-Behind s t es w g = (
  g.packed,
  Waiting-append s t es g.packed w (Whole-Fits g.packed g.sound) g.queue g.front,
  g.sound,
)

module _ (m : ℕ) where
  rewind-Ready : (s : SpeechSegmenter) (j : ℕ) → Ready m j s → Ready m j (rewind s)
  unfolding rewind
  rewind-Ready s j ((scanned, within), ascii, free) =
      elim (Bool-cases (s.fifo_read == length s.fifo)) [
        | inl e ↦ rw e ((scanned, ground (arith, within)), ascii, free)
        | inr e ↦ rw e ((scanned, within), ascii, free)
      ]

  -- However a delta cuts a character, the sentences it completes are of whole characters and at most
  -- as long as the capacity, and the rest is waited for.
  pub feed-Behind :
      (s : SpeechSegmenter) (es : List Sentence) (text : Bytes) (j k : ℕ)
      → Waiting s es
      → Ready m j s
      → scan j text ≡ some k
      → Behind es (feed s text) × Ready m k (feed s text)
  unfolding feed
  feed-Behind s es text j k w h scanned =
      let ready = rewind s in
      let (moved, after) = put_all-Step m ready text j k (rewind-Ready s j h) scanned in
      (Moves-Behind ready (put_all ready text) es (rewind-Waiting s es w) moved, after)

  flush-Result : (s : SpeechSegmenter) → Ready m 0 s → Result m 0 (rewind s) (flush s)
  unfolding flush dump_marker_as_text
  flush-Result s h =
      let ready = rewind s in
      let (mid, ascii, free) = rewind-Ready s 0 h in
      let bare = record ready { marker = [] } in
      let bare_mid : Mid m 0 bare = (mid.0, ground (arith, mid.1)) in
      let dumped = append_all-Result m bare ready.marker bare_mid ascii in
      let text = append_all bare ready.marker in
      elim (Bool-cases (ltb 0 (length ready.marker))) [
        | inl e ↦ rw e (
            Result-trans m 0 ready bare (emit text) (still Whole ready bare refl refl)
              (Result-trans m 0 bare text (emit text) dumped.0 (emit-Result m text dumped.1)))
        | inr e ↦ rw e (emit-Result m ready mid)
      ]

  pub flush-Behind :
      (s : SpeechSegmenter) (es : List Sentence) → Waiting s es → Ready m 0 s → Behind es (flush s)
  flush-Behind s es w h =
      Moves-Behind (rewind s) (flush s) es (rewind-Waiting s es w) (flush-Result s h).0

-- After a text of UTF-8 has been fed to a new segmenter, of any limit, and flushed, what waits to be
-- taken are sentences that are each UTF-8 text, not empty and at most 200 bytes long.
pub flush-feed :
    (n : ℕ) (text : Bytes)
    → scan 0 text ≡ some 0
    → (es : List Sentence) × Waiting (flush (feed (segmenter n) text)) es × All Whole es
unfolding segmenter scan
flush-feed n text h =
    let start = segmenter n in
    let empty : Waiting start [] = record { packed = refl; front = omega arith; fit = tt } in
    let ready : Ready start.max_bytes 0 start = ((refl, segmenter-IsValid n), tt, inl refl) in
    let ((fs, w, whole), after) = feed-Behind start.max_bytes start [] text 0 0 empty ready h in
    let (gs, waiting, more) = flush-Behind start.max_bytes (feed start text) fs w after in
    (fs ++ gs, waiting, All-append Whole fs gs whole more)
