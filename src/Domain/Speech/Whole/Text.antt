-- ===== src/Domain/Speech/Whole/Text.antt =====
-- What a character does to the segmenter while it waits for nothing.
use stackchan_atoms3r.Base.{
  ℕ, ◌-◌, true, false, Option, none, some, [], ◌∷◌, ◌++◌, ◌≡◌, ◌⊎◌, inl, inr, refl, sym, subst,
  ◌&&◌, ◌==◌, ◌||◌, length, take, Bytes, All, arith, Bool-cases,
}
use stackchan_atoms3r.Domain.Expression.{Expression}
use stackchan_atoms3r.Domain.Speech.{
  SpeechSegmenter, is_space, is_newline, tail_is_terminator, emit, cut_text, cut_point, append_text,
  append_all, close_marker, put_text, end_sentence,
}
use stackchan_atoms3r.Domain.Speech.Bounds.{Within}
use stackchan_atoms3r.Domain.Speech.Utf8.{scan_byte, scan_byte-ascii}
use stackchan_atoms3r.Domain.Speech.Moves.{Moves, still, Moves-trans}
use stackchan_atoms3r.Domain.Speech.Whole.{
  Whole, tail_is_terminator-whole, Ascii, Mid, Result, emit-Result, append_text-Result,
}

-- Neither a candidate marker nor a '.' is waited on.
abbrev pub Plain : SpeechSegmenter → Type 0
Plain s = (s.marker ≡ []) × (s.dot_pending ≡ false)

emit-Plain : (s : SpeechSegmenter) → s.marker ≡ [] → Plain (emit s)
unfolding emit
emit-Plain s h = ground (arith, h)

append_text-Plain : (s : SpeechSegmenter) (c : ℕ) → Plain s → Plain (append_text s c)
unfolding append_text cut_text
append_text-Plain s c h =
    let grown = s.pending ++ c ∷ [] in
    ground (
      arith,
      h,
      emit-Plain
          (record s { pending = take (cut_point (s.pending ++ c ∷ [])) (s.pending ++ c ∷ []) }),
    )

pub append_all-Plain : (s : SpeechSegmenter) (cs : Bytes) → Plain s → Plain (append_all s cs)
unfolding append_all
append_all-Plain s [] h = h
append_all-Plain s (c ∷ cs) h = append_all-Plain (append_text s c) cs (append_text-Plain s c h)

pub close_marker-Plain :
    (s : SpeechSegmenter) (name : Bytes) (parsed : Option Expression)
    → Plain s
    → Plain (close_marker s name parsed)
unfolding close_marker
close_marker-Plain s name none h =
    append_text-Plain _ b']' (append_all-Plain _ name (append_text-Plain s b'[' h))
close_marker-Plain s name (some e) h = emit-Plain s h.0

pub emit-marker : (s : SpeechSegmenter) → (emit s).marker ≡ s.marker
unfolding emit
emit-marker s = ground arith

pub emit-dot : (s : SpeechSegmenter) → (emit s).dot_pending ≡ false
unfolding emit
emit-dot s = ground arith

module _ (m : ℕ) where
  -- Between two bytes: in the middle of a character nothing else is waited on.
  abbrev pub Ready : ℕ → SpeechSegmenter → Type 0
  Ready j s = Mid m j s × All Ascii s.marker × ((j ≡ 0) ⊎ Plain s)

  abbrev pub Step : ℕ → SpeechSegmenter → SpeechSegmenter → Type 0
  Step j s t = Moves Whole s t × Ready j t

  pub at_start : (k : ℕ) (s t : SpeechSegmenter) → k ≡ 0 → Step 0 s t → Step k s t
  at_start k s t z = subst (λ i. Step i s t) (sym z)

  pub Plain-Step : (k : ℕ) (s t : SpeechSegmenter) → Result m k s t → Plain t → Step k s t
  Plain-Step k s t r plain = (r.0, (r.1, subst (All Ascii) (sym plain.0) tt, inr plain))

  emit-Step : (s : SpeechSegmenter) → Mid m 0 s → s.marker ≡ [] → Step 0 s (emit s)
  emit-Step s h empty = Plain-Step 0 s (emit s) (emit-Result m s h) (emit-Plain s empty)

  pub Step-trans : (k : ℕ) (s t u : SpeechSegmenter) → Moves Whole s t → Step k t u → Step k s u
  Step-trans k s t u g h = (Moves-trans Whole s t u g h.0, h.1)

  end_sentence-Step :
      (s : SpeechSegmenter) (c j k : ℕ)
      → Mid m j s
      → Plain s
      → scan_byte j c ≡ some k
      → Step k s (end_sentence (append_text s c) c)
  unfolding end_sentence
  end_sentence-Step s c j k h plain byte =
      let next = append_text s c in
      let (moved, mid) = append_text-Result m s c j k h byte in
      let rest = append_text-Plain s c plain in
      let ascii = scan_byte-ascii j k c byte in
      let here = Plain-Step k s next (moved, mid) rest in
      let emitting = λ (z : k ≡ 0). at_start k s (emit next) z (
        Step-trans 0 s next (emit next) moved
          (emit-Step next (subst (λ i. Mid m i next) z mid) rest.0)) in
      elim (Bool-cases (c == b'!' || c == b'?')) [
        | inl e ↦ rw e (emitting (ascii (ground (arith, e))).1)
        | inr e ↦ elim (Bool-cases (c == b'.')) [
          | inl f ↦
              rw (e, f)
                (
                  Moves-trans Whole s next (record next { dot_pending = true }) moved
                      (still Whole next (record next { dot_pending = true }) refl refl),
                  (mid, here.1.1, inl (ascii (ground (arith, f))).1),
                )
          | inr f ↦ elim (Bool-cases (tail_is_terminator next)) [
            | inl g ↦ rw (e, f, g) (emitting (tail_is_terminator-whole next k g mid.0))
            | inr g ↦ rw (e, f, g) here
          ]
        ]
      ]

  pub put_text-Step :
      (s : SpeechSegmenter) (c j k : ℕ)
      → Mid m j s
      → Plain s
      → scan_byte j c ≡ some k
      → Step k s (put_text s c)
  unfolding put_text
  put_text-Step s c j k h plain byte =
      let ascii = scan_byte-ascii j k c byte in
      let start = λ (z : j ≡ 0). subst (λ i. Mid m i s) z h in
      elim (Bool-cases (c == b'[')) [
        | inl e ↦
            let (z, y) = ascii (ground (arith, e)) in
            let opened = record s { marker = b'[' ∷ [] } in
            let within : Within m (m - 1) opened = ground (arith, h.1) in
            rw e (
              at_start k s opened y (
                still Whole s opened refl refl,
                (((start z).0, within), (omega arith, tt), inl refl),
              ))
        | inr e ↦ elim (Bool-cases (is_newline c)) [
          | inl f ↦
              let (z, y) = ascii (ground (arith, f)) in
              rw (e, f) (at_start k s (emit s) y (emit-Step s (start z) plain.0))
          | inr f ↦ elim (Bool-cases (length s.pending == 0 && is_space c)) [
            | inl g ↦
                let (z, y) = ascii (ground (arith, g)) in
                rw (e, f, g)
                  (at_start k s s y (Plain-Step 0 s s (still Whole s s refl refl, start z) plain))
            | inr g ↦ rw (e, f, g) (end_sentence-Step s c j k h plain byte)
          ]
        ]
      ]
