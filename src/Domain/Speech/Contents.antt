-- ===== src/Domain/Speech/Contents.antt =====
-- Ordinary text comes out as it went in.
use stackchan_atoms3r.Base.{
  ℕ, ◌+◌, ◌≤◌, true, false, List, [], ◌∷◌, ◌++◌, ◌≡◌, inl, inr, refl, ap, sym, subst, ◌∙◌, ◌==◌,
  ◌||◌, ◌&&◌, ltb, length, take, drop, Bytes, All, All-append, arith, Bool-cases, append-nil,
  append_assoc, length-zero, if◌then◌else◌, ltb→lt,
}
use stackchan_atoms3r.Domain.Speech.{
  SpeechSegmenter, fifo_size, frame, is_space, is_newline, tail_is_terminator, emit, cut_point,
  cut_text, append_text, resolve_pending_dot, consume_into_marker, end_sentence, put_text,
  put_marked, put_char, put_all,
}
use stackchan_atoms3r.Domain.Speech.Queue.{Sentence, frames, frames-append}
use stackchan_atoms3r.Domain.Speech.Utf8.{take-drop}
use stackchan_atoms3r.Domain.Speech.Moves.{emit-empty, when_both}

-- The text of sentences, one behind the other.
abbrev pub spoken : List Sentence → Bytes
spoken [] = []
spoken (e ∷ es) = e.1 ++ spoken es

spoken-append : (es fs : List Sentence) → spoken (es ++ fs) ≡ spoken es ++ spoken fs
spoken-append [] fs = refl
spoken-append (e ∷ es) fs =
    ap (λ t. e.1 ++ t) (spoken-append es fs) ∙ sym (append_assoc e.1 (spoken es) (spoken fs))

-- The sentences packed on the way from `s` to `t`, with what is still under construction, are the
-- text that was under construction and `text` behind it, under the expression in force.
pub record Kept (s t : SpeechSegmenter) (text : Bytes) : Type 0 where
  pub packed : List Sentence
  pub queue : t.fifo ≡ s.fifo ++ frames packed
  pub contents : spoken packed ++ t.pending ≡ s.pending ++ text
  pub under : All (λ e. e.0 ≡ s.expression) packed
  pub force : t.expression ≡ s.expression

-- Nothing is lost as long as no sentence is dropped for want of room.
abbrev pub Says : SpeechSegmenter → SpeechSegmenter → Bytes → Type 0
Says s t text =
    (s.dropped ≤ t.dropped) × (t.marker ≡ s.marker) × (t.dropped ≡ s.dropped → Kept s t text)

Kept-trans : (s t u : SpeechSegmenter) (a b : Bytes) → Kept s t a → Kept t u b → Kept s u (a ++ b)
Kept-trans s t u a b g h = record {
  packed = g.packed ++ h.packed;
  queue =
      h.queue
      ∙ ap (λ q. q ++ frames h.packed) g.queue
      ∙ append_assoc s.fifo (frames g.packed) (frames h.packed)
      ∙ ap (λ q. s.fifo ++ q) (sym (frames-append g.packed h.packed));
  contents =
      ap (λ x. x ++ u.pending) (spoken-append g.packed h.packed)
      ∙ append_assoc (spoken g.packed) (spoken h.packed) u.pending
      ∙ ap (λ x. spoken g.packed ++ x) h.contents
      ∙ sym (append_assoc (spoken g.packed) t.pending b)
      ∙ ap (λ x. x ++ b) g.contents
      ∙ append_assoc s.pending a b;
  under =
      All-append (λ e. e.0 ≡ s.expression) g.packed h.packed g.under
        (subst (λ x. All (λ e. e.0 ≡ x) h.packed) g.force h.under);
  force = h.force ∙ g.force;
}

Says-trans : (s t u : SpeechSegmenter) (a b : Bytes) → Says s t a → Says t u b → Says s u (a ++ b)
Says-trans s t u a b g h = (
  omega (arith, g.0, h.0),
  h.1 ∙ g.1,
  λ e. Kept-trans s t u a b (g.2 (omega (arith, g.0, h.0, e))) (h.2 (omega (arith, g.0, h.0, e))),
)

-- A step that only touches the text under construction.
writes :
    (s t : SpeechSegmenter) (text : Bytes)
    → t.dropped ≡ s.dropped
    → t.fifo ≡ s.fifo
    → t.pending ≡ s.pending ++ text
    → t.expression ≡ s.expression
    → t.marker ≡ s.marker
    → Says s t text
writes s t text dropped queue pending force bare = (
  omega (arith, dropped),
  bare,
  λ e. record {
    packed = [];
    queue = queue ∙ sym (append-nil s.fifo);
    contents = pending;
    under = tt;
    force = force;
  },
)

-- What is taken off the end of the text before `emit` and put back behind it stays in the text.
emit_keeping :
    (s : SpeechSegmenter) (keep : Bytes)
    → Says (record s { pending = s.pending ++ keep }) (record (emit s) { pending = keep }) []
unfolding emit
emit_keeping s keep =
    let start = record s { pending = s.pending ++ keep } in
    elim (Bool-cases (length s.pending == 0)) [
      | inl e ↦
          let empty = length-zero s.pending (ground (arith, e)) in
          rw e (
            writes start (record s { pending = keep; dot_pending = false }) [] refl refl
              (sym (append-nil (s.pending ++ keep) ∙ ap (λ x. x ++ keep) empty)) refl refl)
      | inr e ↦ elim (Bool-cases (ltb fifo_size (length s.fifo + (2 + length s.pending)))) [
        | inl f ↦ rw (e, f) (omega arith, refl, λ g. absurd (omega (arith, g)))
        | inr f ↦
            rw (e, f)
              (
                omega arith,
                refl,
                λ g. record {
                  packed = (s.expression, s.pending) ∷ [];
                  queue = ap (λ q. s.fifo ++ q) (sym (append-nil (frame s.expression s.pending)));
                  contents =
                      ap (λ x. x ++ keep) (append-nil s.pending)
                      ∙ sym (append-nil (s.pending ++ keep));
                  under = (refl, tt);
                  force = refl;
                },
              )
      ]
    ]

emit-Says : (s : SpeechSegmenter) → Says s (emit s) []
emit-Says s =
    let before : record s { pending = s.pending ++ [] } ≡ s =
      λ i. record s { pending = append-nil s.pending i } in
    let after : record (emit s) { pending = [] } ≡ emit s =
      λ i. record (emit s) { pending = sym (emit-empty s) i } in
    subst (λ t. Says s t []) after
      (subst (λ r. Says r (record (emit s) { pending = [] }) []) before (emit_keeping s []))

cut_text-Says : (s : SpeechSegmenter) → Says s (cut_text s) []
unfolding cut_text
cut_text-Says s =
    let cut = cut_point s.pending in
    let shortened = record s { pending = take cut s.pending } in
    let before : record s { pending = take cut s.pending ++ drop cut s.pending } ≡ s =
      λ i. record s { pending = take-drop cut s.pending i } in
    elim (Bool-cases (cut == 0)) [
      | inl e ↦ rw e (writes s s [] refl refl (sym (append-nil s.pending)) refl refl)
      | inr e ↦ rw e (
          subst (λ r. Says r (record (emit shortened) { pending = drop cut s.pending }) []) before
            (emit_keeping shortened (drop cut s.pending)))
    ]

append_text-Says : (s : SpeechSegmenter) (c : ℕ) → Says s (append_text s c) (c ∷ [])
unfolding append_text
append_text-Says s c =
    let grown = record s { pending = s.pending ++ c ∷ [] } in
    let written = writes s grown (c ∷ []) refl refl refl refl refl in
    elim (Bool-cases (ltb (length grown.pending) s.max_bytes)) [
      | inl e ↦ rw e written
      | inr e ↦ rw e (Says-trans s grown (cut_text grown) (c ∷ []) [] written (cut_text-Says grown))
    ]

end_sentence-Says : (s : SpeechSegmenter) (c : ℕ) → Says s (end_sentence s c) []
unfolding end_sentence
end_sentence-Says s c =
    let same = sym (append-nil s.pending) in
    let dotted = writes s (record s { dot_pending = true }) [] refl refl same refl refl in
    let still = writes s s [] refl refl same refl refl in
    elim (Bool-cases (c == b'!' || c == b'?')) [
      | inl e ↦ rw e (emit-Says s)
      | inr e ↦ elim (Bool-cases (c == b'.')) [
        | inl f ↦ rw (e, f) dotted
        | inr f ↦ elim (Bool-cases (tail_is_terminator s)) [
          | inl g ↦ rw (e, f, g) (emit-Says s)
          | inr g ↦ rw (e, f, g) still
        ]
      ]
    ]

-- Neither white space nor the start of a marker.
abbrev pub Ordinary : ℕ → Type 0
Ordinary c = ((is_space c || is_newline c) ≡ false) × ((c == b'[') ≡ false)

put_text-Says : (s : SpeechSegmenter) (c : ℕ) → Ordinary c → Says s (put_text s c) (c ∷ [])
unfolding put_text
put_text-Says s c h =
    let newline : is_newline c ≡ false = ground (arith, h.0) in
    let space : (length s.pending == 0 && is_space c) ≡ false = ground (arith, h.0) in
    let next = append_text s c in
    rw (h.1, newline, space)
      (Says-trans s next (end_sentence next c) (c ∷ []) [] (append_text-Says s c)
        (end_sentence-Says next c))

put_marked-Says :
    (s : SpeechSegmenter) (c : ℕ) → s.marker ≡ [] → Ordinary c → Says s (put_marked s c) (c ∷ [])
unfolding put_marked
put_marked-Says s c bare h =
    when_both (λ r. Says s (if r.1 then r.0 else put_text r.0 c) (c ∷ [])) (ltb 0 (length s.marker))
      (λ t. consume_into_marker t c) s
      (λ e. absurd (omega (arith, ltb→lt 0 (length s.marker) e, ap length bare)))
      (λ e. put_text-Says s c h)

put_char-Says :
    (s : SpeechSegmenter) (c : ℕ) → s.marker ≡ [] → Ordinary c → Says s (put_char s c) (c ∷ [])
unfolding put_char resolve_pending_dot
put_char-Says s c bare h =
    let resolved = record s { dot_pending = false } in
    let same = sym (append-nil s.pending) in
    when_both (λ r. Says s (if r.1 then r.0 else put_marked r.0 c) (c ∷ [])) s.dot_pending
      (λ t. resolve_pending_dot t c) s
      (λ e. rw h.0 (
        Says-trans s resolved (put_marked resolved c) [] (c ∷ [])
          (writes s resolved [] refl refl same refl refl) (put_marked-Says resolved c bare h)))
      (λ e. put_marked-Says s c bare h)

-- Text without white space and without '[', while no marker is open, comes out as it went in:
-- unless a sentence was dropped for want of room, the sentences that were packed and what is still
-- under construction are that text, in order, behind what was under construction, all under the
-- expression in force.
pub put_all-Says :
    (s : SpeechSegmenter) (text : Bytes)
    → s.marker ≡ []
    → All Ordinary text
    → Says s (put_all s text) text
unfolding put_all
put_all-Says s [] bare h = writes s s [] refl refl (sym (append-nil s.pending)) refl refl
put_all-Says s (c ∷ text) bare h =
    let next = put_char s c in
    let first = put_char-Says s c bare h.0 in
    Says-trans s next (put_all next text) (c ∷ []) text first
      (put_all-Says next text (first.1 ∙ bare) h.1)
