-- ===== src/Domain/Speech/Whole/Steps.antt =====
-- One byte after another: what a character does to the segmenter.
use stackchan_atoms3r.Base.{
  ℕ, ◌-◌, ◌<◌, Bool, true, false, some, [], ◌∷◌, ◌++◌, ◌≡◌, inl, inr, refl, ap, sym, subst, ◌&&◌,
  ◌∙◌, ◌==◌, ◌||◌, ltb, length, length-append, drop, Bytes, All, All-append, All-drop,
  if◌then◌else◌, arith, Bool-cases, Option-cases, bind_option, some_inj, length-zero,
}
use stackchan_atoms3r.Domain.Expression.{parse_expression}
use stackchan_atoms3r.Domain.Speech.{
  SpeechSegmenter, is_space, is_newline, is_marker_char, max_marker_bytes, emit, append_all,
  dump_marker_as_text, resolve_pending_dot, close_marker, consume_into_marker, put_text,
  resolve_dot, consume_marker, put_marked, put_char, put_all,
}
use stackchan_atoms3r.Domain.Speech.Bounds.{Within}
use stackchan_atoms3r.Domain.Speech.Utf8.{scan_byte, scan, scan_byte-ascii}
use stackchan_atoms3r.Domain.Speech.Moves.{when_both, Moves, still, Moves-trans}
use stackchan_atoms3r.Domain.Speech.Whole.{
  Whole, Ascii, Mid, emit-Result, append_all-Result, close_marker-Result,
}
use stackchan_atoms3r.Domain.Speech.Whole.Text.{
  Ready, Step, at_start, Plain-Step, Step-trans, put_text-Step, close_marker-Plain, emit-marker,
  emit-dot, append_all-Plain, Plain,
}

module _ (m : ℕ) where
  resolve_pending_dot-Step :
      (s : SpeechSegmenter) (c : ℕ)
      → Ready m 0 s
      → Step m 0 s (resolve_pending_dot s c).0
        × ((resolve_pending_dot s c).0.dot_pending ≡ false)
        × ((resolve_pending_dot s c).1 ≡ true → c < 128)
  unfolding resolve_pending_dot
  resolve_pending_dot-Step s c (h, ascii, free) =
      let resolved = record s { dot_pending = false } in
      let (moved, mid) = emit-Result m resolved h in
      let same = emit-marker resolved in
      elim (Bool-cases (is_space c || is_newline c)) [
        | inl e ↦ rw e (
          (
            Moves-trans Whole s resolved (emit resolved) (still Whole s resolved refl refl) moved,
            (mid, subst (All Ascii) (sym same) ascii, inl refl),
          ),
          emit-dot resolved,
          λ f. ground (arith, f),
        )
        | inr e ↦
            rw e (
              (still Whole s resolved refl refl, (h, ascii, inl refl)),
              refl,
              λ f. ground (arith, f),
            )
      ]

  -- The '.' is not waited on any more, and what it consumed was white space.
  abbrev Dotted : SpeechSegmenter → ℕ → ℕ → SpeechSegmenter × Bool → Type 0
  Dotted s c j r = Step m j s r.0 × (r.0.dot_pending ≡ false) × (r.1 ≡ true → c < 128)

  resolve_dot-Step : (s : SpeechSegmenter) (c j : ℕ) → Ready m j s → Dotted s c j (resolve_dot s c)
  resolve_dot-Step s c j h =
      when_both (Dotted s c j) s.dot_pending (λ t. resolve_pending_dot t c) s
        (λ e.
          let z : j ≡ 0 = ground (arith, h.2, e) in
          subst (λ i. Dotted s c i (resolve_pending_dot s c)) (sym z)
            (resolve_pending_dot-Step s c (subst (λ i. Ready m i s) z h)))
        (λ e. ((still Whole s s refl refl, h), e, λ f. ground (arith, f)))

  -- A byte that the marker does not consume finds no marker there.
  Consumed : SpeechSegmenter → ℕ → ℕ → SpeechSegmenter → Bool → Type 0
  Consumed s j k t true = Step m k s t
  Consumed s j k t false = Moves Whole s t × Mid m j t × Plain t

  consume_into_marker-Step :
      (s : SpeechSegmenter) (c k : ℕ)
      → Ready m 0 s
      → s.dot_pending ≡ false
      → scan_byte 0 c ≡ some k
      → Consumed s 0 k (consume_into_marker s c).0 (consume_into_marker s c).1
  unfolding consume_into_marker Consumed dump_marker_as_text
  consume_into_marker-Step s c k (h, ascii, free) dot byte =
      let low = scan_byte-ascii 0 k c byte in
      let bare = record s { marker = [] } in
      let bared = still Whole s bare refl refl in
      let bare_mid : Mid m 0 bare = (h.0, ground (arith, h.1)) in
      let name = drop 1 s.marker in
      let parsed = parse_expression name in
      let closed =
        close_marker-Result m bare name parsed bare_mid (All-drop Ascii 1 s.marker ascii) in
      let dumped = append_all-Result m bare s.marker bare_mid ascii in
      elim (Bool-cases (c == b']')) [
        | inl e ↦ rw e (
            at_start m k s (close_marker bare name parsed) (low (ground (arith, e))).1 (
              Step-trans m 0 s bare (close_marker bare name parsed) bared (
                Plain-Step m 0 bare (close_marker bare name parsed) closed
                  (close_marker-Plain bare name parsed (refl, dot)))))
        | inr e ↦ elim (Bool-cases (is_marker_char c && ltb (length s.marker) max_marker_bytes)) [
          | inl f ↦
              let z = low (ground (arith, f)) in
              let longer = record s { marker = s.marker ++ c ∷ [] } in
              let within : Within m (m - 1) longer =
                ground (arith, h.1, f, length-append s.marker (c ∷ [])) in
              rw (e, f)
                (at_start m k s longer z.1 (
                  still Whole s longer refl refl,
                  (
                    (h.0, within),
                    All-append Ascii s.marker (c ∷ []) ascii (ground (arith, f), tt),
                    inl refl,
                  ),
                ))
          | inr f ↦
              rw (e, f)
                (
                  Moves-trans Whole s bare (append_all bare s.marker) bared dumped.0,
                  dumped.1,
                  append_all-Plain bare s.marker (refl, dot),
                )
        ]
      ]

  consume_marker-Step :
      (s : SpeechSegmenter) (c j k : ℕ)
      → Ready m j s
      → s.dot_pending ≡ false
      → scan_byte j c ≡ some k
      → Consumed s j k (consume_marker s c).0 (consume_marker s c).1
  unfolding Consumed
  consume_marker-Step s c j k h dot byte =
      when_both (λ r. Consumed s j k r.0 r.1) (ltb 0 (length s.marker))
        (λ t. consume_into_marker t c) s
        (λ e.
          let z : j ≡ 0 = ground (arith, h.2, e) in
          subst (λ i. Consumed s i k (consume_into_marker s c).0 (consume_into_marker s c).1)
            (sym z)
            (consume_into_marker-Step s c k (subst (λ i. Ready m i s) z h) dot
              (subst (λ i. scan_byte i c ≡ some k) z byte)))
        (λ e. (still Whole s s refl refl, h.0, (length-zero s.marker (ground (arith, e)), dot)))

  Consumed-text :
      (s : SpeechSegmenter) (c j k : ℕ) (t : SpeechSegmenter) (b : Bool)
      → scan_byte j c ≡ some k
      → Consumed s j k t b
      → Step m k s (if b then t else put_text t c)
  unfolding Consumed
  Consumed-text s c j k t true byte h = h
  Consumed-text s c j k t false byte (moved, mid, plain) =
      Step-trans m k s t (put_text t c) moved (put_text-Step m t c j k mid plain byte)

  put_marked-Step :
      (s : SpeechSegmenter) (c j k : ℕ)
      → Ready m j s
      → s.dot_pending ≡ false
      → scan_byte j c ≡ some k
      → Step m k s (put_marked s c)
  unfolding put_marked
  put_marked-Step s c j k h dot byte =
      Consumed-text s c j k (consume_marker s c).0 (consume_marker s c).1 byte
        (consume_marker-Step s c j k h dot byte)

  put_char-Step :
      (s : SpeechSegmenter) (c j k : ℕ)
      → Ready m j s
      → scan_byte j c ≡ some k
      → Step m k s (put_char s c)
  unfolding put_char
  put_char-Step s c j k h byte =
      let ((moved, ready), dot, low) = resolve_dot-Step s c j h in
      let next = (resolve_dot s c).0 in
      elim (Bool-cases (resolve_dot s c).1) [
        | inl e ↦
            let z = scan_byte-ascii j k c byte (low e) in
            rw e (at_start m k s next z.1 (moved, subst (λ i. Ready m i next) z.0 ready))
        | inr e ↦ rw e (
            Step-trans m k s next (put_marked next c) moved
              (put_marked-Step next c j k ready dot byte))
      ]

  pub put_all-Step :
      (s : SpeechSegmenter) (cs : Bytes) (j k : ℕ)
      → Ready m j s
      → scan j cs ≡ some k
      → Step m k s (put_all s cs)
  unfolding put_all scan
  put_all-Step s [] j k h scanned =
      (still Whole s s refl refl, subst (λ i. Ready m i s) (some_inj scanned) h)
  put_all-Step s (c ∷ cs) j k h scanned = elim (Option-cases (scan_byte j c)) [
    | inl e ↦ ground (arith, sym (ap (λ o. bind_option o (λ i. scan i cs)) e) ∙ scanned)
    | inr (i, e) ↦
        let (moved, ready) = put_char-Step s c j i h e in
        let rest = sym (ap (λ o. bind_option o (λ i. scan i cs)) e) ∙ scanned in
        Step-trans m k s (put_char s c) (put_all (put_char s c) cs) moved
          (put_all-Step (put_char s c) cs i k ready rest)
  ]
