-- ===== src/Domain/Speech/Whole.antt =====
-- UTF-8 text comes out as sentences of whole characters, wherever a long sentence is cut.
mod Text
mod Steps
pub mod Stream
use stackchan_atoms3r.Base.{
  ℕ, zero, suc, ◌+◌, ◌-◌, ◌≤◌, ◌<◌, Bool, true, false, Option, none, some, List, [], ◌∷◌, ◌++◌, ◌≡◌,
  ◌⊎◌, inl, inr, refl, ap, sym, ◌∙◌, ◌==◌, ◌||◌, ltb, length, length-append, length-take, take,
  drop, get_or, Bytes, bytes_eq, bytes_eq_iff, All, All-append, arith, Bool-cases, Option-cases,
  bind_option, some_inj, length-zero,
}
use stackchan_atoms3r.Domain.Expression.{Expression, parse_expression}
use stackchan_atoms3r.Domain.Speech.{
  SpeechSegmenter, max_segment_capacity, is_space, is_newline, is_marker_char, max_marker_bytes,
  terminators, ends_with, any_end, tail_is_terminator, emit, cut_point, cut_text, append_text,
  append_all, dump_marker_as_text, resolve_pending_dot, close_marker, consume_into_marker, put_text,
  when, resolve_dot, consume_marker, put_marked, put_char, put_all, rewind, feed, flush,
}
use stackchan_atoms3r.Domain.Speech.Queue.{
  Sentence, frames, Fits, Waiting, Waiting-append, rewind-Waiting,
}
use stackchan_atoms3r.Domain.Speech.Bounds.{
  cut_point_bounds, Within, append_text-Within, emit-Within,
}
use stackchan_atoms3r.Domain.Speech.Utf8.{
  scan_byte, scan, scan-append, scan-snoc, scan_byte-ascii, cut_point-scan, take-drop,
}
use stackchan_atoms3r.Domain.Speech.Moves.{emit-empty, Moves, still, Moves-trans, emit-Moves}

-- A sentence of whole characters, not empty and at most as long as the capacity.
abbrev pub Whole : Sentence → Type 0
Whole e = (scan 0 e.1 ≡ some 0) × (0 < length e.1) × (length e.1 ≤ max_segment_capacity)

-- A text that ends with one of the terminators ends with a whole character.
ends_with-whole :
    (p t : Bytes) (j : ℕ)
    → scan 0 t ≡ some 0
    → ((i : ℕ) → scan (suc i) t ≡ none)
    → ends_with p t ≡ true
    → scan 0 p ≡ some j
    → j ≡ 0
unfolding ends_with
ends_with-whole p t j whole lead ends h =
    let n = length p - length t in
    let tail : drop n p ≡ t = ground (arith, ends, bytes_eq_iff (drop n p) t) in
    let joined = sym (scan-append 0 (take n p) (drop n p)) ∙ ap (scan 0) (take-drop n p) ∙ h in
    let by_tail = sym (ap (λ u. bind_option (scan 0 (take n p)) (λ i. scan i u)) tail) ∙ joined in
    elim (Option-cases (scan 0 (take n p))) [
      | inl e ↦ ground (arith, sym (ap (λ o. bind_option o (λ i. scan i t)) e) ∙ by_tail)
      | inr (zero, e) ↦ some_inj (sym by_tail ∙ ap (λ o. bind_option o (λ i. scan i t)) e ∙ whole)
      | inr (suc i, e) ↦
          ground (arith, sym (lead i) ∙ (sym (ap (λ o. bind_option o (λ i. scan i t)) e) ∙ by_tail))
    ]

pub tail_is_terminator-whole :
    (s : SpeechSegmenter) (j : ℕ) → tail_is_terminator s ≡ true → scan 0 s.pending ≡ some j → j ≡ 0
unfolding tail_is_terminator any_end scan scan_byte
tail_is_terminator-whole s j tail h =
    let full = ends_with-whole s.pending (0xE3 ∷ 0x80 ∷ 0x82 ∷ []) j refl (λ i. refl) in
    let bang = ends_with-whole s.pending (0xEF ∷ 0xBC ∷ 0x81 ∷ []) j refl (λ i. refl) in
    let ask = ends_with-whole s.pending (0xEF ∷ 0xBC ∷ 0x9F ∷ []) j refl (λ i. refl) in
    ground (arith, tail, full, bang, ask, h)

abbrev pub Ascii : ℕ → Type 0
Ascii c = c < 128

pub scan_byte-of_ascii : (c : ℕ) → c < 128 → scan_byte 0 c ≡ some 0
unfolding scan_byte
scan_byte-of_ascii c h = ground arith

module _ (m : ℕ) where
  -- A segmenter whose sentence under construction wants `j` more bytes.
  abbrev pub Mid : ℕ → SpeechSegmenter → Type 0
  Mid j s = (scan 0 s.pending ≡ some j) × Within m (m - 1) s

  emit-Whole :
      (s : SpeechSegmenter) → scan 0 s.pending ≡ some 0 → Within m m s → Moves Whole s (emit s)
  emit-Whole s h w = emit-Moves Whole s (λ full. (h, full, omega (arith, w)))

  cut_text-Whole :
      (s : SpeechSegmenter) (k : ℕ)
      → scan 0 s.pending ≡ some k
      → Within m m s
      → m ≤ length s.pending
      → Moves Whole s (cut_text s) × (scan 0 (cut_text s).pending ≡ some k)
  unfolding cut_text
  cut_text-Whole s k h w full =
      let cut = cut_point s.pending in
      let some_cut : (cut == 0) ≡ false = ground (arith, w, full, cut_point_bounds s.pending) in
      let (before, behind) = cut_point-scan s.pending k (omega (arith, w, full)) h in
      let shortened = record s { pending = take cut s.pending } in
      let short : Within m m shortened = ground (arith, w, length-take cut s.pending) in
      let moved = emit-Whole shortened before short in
      rw some_cut (
        record {
          packed = moved.packed;
          sound = moved.sound;
          queue = moved.queue;
          front = moved.front;
        },
        behind,
      )

  append_text-Whole :
      (s : SpeechSegmenter) (c j k : ℕ)
      → Mid j s
      → scan_byte j c ≡ some k
      → Moves Whole s (append_text s c) × (scan 0 (append_text s c).pending ≡ some k)
  unfolding append_text
  append_text-Whole s c j k h byte =
      let grown = record s { pending = s.pending ++ c ∷ [] } in
      let scanned = scan-snoc 0 j s.pending c h.0 ∙ byte in
      elim (Bool-cases (ltb (length grown.pending) s.max_bytes)) [
        | inl e ↦ rw e (still Whole s grown refl refl, scanned)
        | inr e ↦ rw e (
            let grown_within : Within m m grown =
              ground (arith, h.1, length-append s.pending (c ∷ [])) in
            let full : m ≤ length grown.pending = ground (arith, e, h.1) in
            let cut = cut_text-Whole grown k scanned grown_within full in
            (
              Moves-trans Whole s grown (cut_text grown) (still Whole s grown refl refl) cut.0,
              cut.1,
            ))
      ]

  -- The sentences that were packed are whole, and `j` more bytes are wanted.
  abbrev pub Result : ℕ → SpeechSegmenter → SpeechSegmenter → Type 0
  Result j s t = Moves Whole s t × Mid j t

  pub Result-trans :
      (j : ℕ) (s t u : SpeechSegmenter) → Moves Whole s t → Result j t u → Result j s u
  Result-trans j s t u g h = (Moves-trans Whole s t u g h.0, h.1)

  pub append_text-Result :
      (s : SpeechSegmenter) (c j k : ℕ)
      → Mid j s
      → scan_byte j c ≡ some k
      → Result k s (append_text s c)
  append_text-Result s c j k h byte =
      let (moved, scanned) = append_text-Whole s c j k h byte in
      (moved, (scanned, append_text-Within m s c h.1))

  pub append_all-Result :
      (s : SpeechSegmenter) (cs : Bytes) → Mid 0 s → All Ascii cs → Result 0 s (append_all s cs)
  unfolding append_all
  append_all-Result s [] h ascii = (still Whole s s refl refl, h)
  append_all-Result s (c ∷ cs) h ascii =
      let next = append_text s c in
      let first = append_text-Result s c 0 0 h (scan_byte-of_ascii c ascii.0) in
      Result-trans 0 s next (append_all next cs) first.0 (append_all-Result next cs first.1 ascii.1)

  pub emit-Result : (s : SpeechSegmenter) → Mid 0 s → Result 0 s (emit s)
  unfolding scan
  emit-Result s h =
      let within : Within m m s = ground (arith, h.1) in
      let emitted = emit-Within m s within in
      (emit-Whole s h.0 within, (ap (scan 0) (emit-empty s), ground (arith, emitted)))

  pub close_marker-Result :
      (s : SpeechSegmenter) (name : Bytes) (parsed : Option Expression)
      → Mid 0 s
      → All Ascii name
      → Result 0 s (close_marker s name parsed)
  unfolding close_marker scan_byte
  close_marker-Result s name none h ascii =
      let opened = append_text s b'[' in
      let first = append_text-Result s b'[' 0 0 h refl in
      let named = append_all opened name in
      let second = append_all-Result opened name first.1 ascii in
      Result-trans 0 s opened (append_text named b']') first.0 (
        Result-trans 0 opened named (append_text named b']') second.0
          (append_text-Result named b']' 0 0 second.1 refl))
  close_marker-Result s name (some e) h ascii =
      let (moved, (scanned, within)) = emit-Result s h in
      (
        record {
          packed = moved.packed;
          sound = moved.sound;
          queue = moved.queue;
          front = moved.front;
        },
        (scanned, ground (arith, within)),
      )
