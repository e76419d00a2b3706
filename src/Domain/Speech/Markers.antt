-- ===== src/Domain/Speech/Markers.antt =====
-- Words in brackets: the name of an expression switches to it, any other stays in the text.
use stackchan_atoms3r.Base.{
  ℕ, suc, ◌+◌, ◌≤◌, ◌<◌, Bool, true, false, none, [], ◌∷◌, ◌++◌, ◌≡◌, refl, ap, sym, append-nil,
  ◌&&◌, ◌∙◌, ◌==◌, ltb, length, length-append, Bytes, codes, All, append_assoc, arith,
}
use stackchan_atoms3r.Domain.Expression.{
  Expression, neutral, happy, sad, doubt, sleepy, angry, to_string, parse_expression,
}
use stackchan_atoms3r.Domain.Expression.Names.{parse_expression-to_string}
use stackchan_atoms3r.Domain.Speech.{
  SpeechSegmenter, max_marker_bytes, is_marker_char, emit, append_text, append_all, close_marker,
  consume_into_marker, put_text, put_marked, put_char, put_all,
}
use stackchan_atoms3r.Domain.Speech.Split.{put_all-append}

abbrev pub Letter : ℕ → Type 0
Letter c = (b'a' ≤ c) × (c ≤ b'z')

append_all-append :
    (s : SpeechSegmenter) (a b : Bytes) → append_all s (a ++ b) ≡ append_all (append_all s a) b
unfolding append_all
append_all-append s [] b = refl
append_all-append s (c ∷ a) b = append_all-append (append_text s c) a b

-- Neither a candidate marker nor a '.' is waited on.
abbrev pub Plain : SpeechSegmenter → Type 0
Plain s = (s.marker ≡ []) × (s.dot_pending ≡ false)

abbrev plain : SpeechSegmenter → SpeechSegmenter
plain s = record s { marker = []; dot_pending = false }

plain_lem : (s : SpeechSegmenter) → Plain s → plain s ≡ s
plain_lem s h = λ i. record s { marker = sym h.0 i; dot_pending = sym h.1 i }

abbrev with_marker : SpeechSegmenter → Bytes → SpeechSegmenter
with_marker s marker = record s { marker = marker; dot_pending = false }

marker_open : (s : SpeechSegmenter) → put_char (plain s) b'[' ≡ with_marker s (b'[' ∷ [])
unfolding put_char put_marked put_text
marker_open s = refl

marker_grows :
    (s : SpeechSegmenter) (c l : ℕ) (read : Bytes)
    → Letter l
    → length read < 7
    → put_char (with_marker s (c ∷ read)) l ≡ with_marker s (c ∷ (read ++ l ∷ []))
unfolding put_char put_marked consume_into_marker
marker_grows s c l read letter room =
    let open_test : ltb 0 (suc (length read)) ≡ true = ground arith in
    let close_test : (l == b']') ≡ false = ground (arith, letter) in
    let letter_test : (is_marker_char l && ltb (suc (length read)) max_marker_bytes) ≡ true =
      ground (arith, letter, room) in
    rw (open_test, close_test, letter_test) refl

markers_grow :
    (s : SpeechSegmenter) (c : ℕ) (read name : Bytes)
    → All Letter name
    → length read + length name < max_marker_bytes
    → put_all (with_marker s (c ∷ read)) name ≡ with_marker s (c ∷ (read ++ name))
unfolding put_all
markers_grow s c read [] letters room = ap (λ t. with_marker s (c ∷ t)) (sym (append-nil read))
markers_grow s c read (l ∷ name) letters room =
    ap (λ t. put_all t name) (marker_grows s c l read letters.0 (omega (arith, room)))
    ∙ markers_grow s c (read ++ l ∷ []) name letters.1
        (omega (arith, room, length-append read (l ∷ [])))
    ∙ ap (λ t. with_marker s (c ∷ t)) (append_assoc read (l ∷ []) name)

marker_close :
    (s : SpeechSegmenter) (name : Bytes)
    → put_char (with_marker s (b'[' ∷ name)) b']'
      ≡ close_marker (plain s) name (parse_expression name)
unfolding put_char put_marked consume_into_marker
marker_close s name =
    let open_test : ltb 0 (suc (length name)) ≡ true = ground arith in rw open_test refl

put_all-bracketed :
    (s : SpeechSegmenter) (name : Bytes)
    → Plain s
    → All Letter name
    → length name < max_marker_bytes
    → put_all s (b'[' ∷ (name ++ b']' ∷ [])) ≡ close_marker s name (parse_expression name)
unfolding put_all
put_all-bracketed s name h letters room =
    ap (λ t. put_all t (b'[' ∷ (name ++ b']' ∷ []))) (sym (plain_lem s h))
    ∙ ap (λ t. put_all t (name ++ b']' ∷ [])) (marker_open s)
    ∙ put_all-append (with_marker s (b'[' ∷ [])) name (b']' ∷ [])
    ∙ ap (λ t. put_all t (b']' ∷ [])) (markers_grow s b'[' [] name letters (omega (arith, room)))
    ∙ marker_close s name
    ∙ ap (λ t. close_marker t name (parse_expression name)) (plain_lem s h)

only_letters : Bytes → Bool
only_letters [] = true
only_letters (c ∷ cs) = is_marker_char c && only_letters cs

only_letters_sound : (cs : Bytes) → only_letters cs ≡ true → All Letter cs
unfolding only_letters
only_letters_sound [] h = tt
only_letters_sound (c ∷ cs) h = (ground (arith, h), only_letters_sound cs (ground (arith, h)))

to_string-letters :
    (e : Expression) → All Letter (to_string e) × (length (to_string e) < max_marker_bytes)
unfolding to_string only_letters
to_string-letters neutral = (only_letters_sound (codes "neutral") refl, omega arith)
to_string-letters happy = (only_letters_sound (codes "happy") refl, omega arith)
to_string-letters sad = (only_letters_sound (codes "sad") refl, omega arith)
to_string-letters doubt = (only_letters_sound (codes "doubt") refl, omega arith)
to_string-letters sleepy = (only_letters_sound (codes "sleepy") refl, omega arith)
to_string-letters angry = (only_letters_sound (codes "angry") refl, omega arith)

-- Where neither a marker nor a '.' is waited on, the name of an expression in brackets ends the
-- sentence under construction, which keeps the expression it had, and is in force from there on; it
-- leaves no text.
pub put_all-marker :
    (s : SpeechSegmenter) (e : Expression)
    → Plain s
    → put_all s (b'[' ∷ (to_string e ++ b']' ∷ [])) ≡ record (emit s) { expression = e }
unfolding close_marker
put_all-marker s e h =
    put_all-bracketed s (to_string e) h (to_string-letters e).0 (to_string-letters e).1
    ∙ ap (close_marker s (to_string e)) (parse_expression-to_string e)

-- Any other word in brackets, of seven letters at most, stays in the text, its brackets included.
pub put_all-no_marker :
    (s : SpeechSegmenter) (name : Bytes)
    → Plain s
    → All Letter name
    → length name < max_marker_bytes
    → parse_expression name ≡ none
    → put_all s (b'[' ∷ (name ++ b']' ∷ [])) ≡ append_all s (b'[' ∷ (name ++ b']' ∷ []))
unfolding close_marker append_all
put_all-no_marker s name h letters room unknown =
    put_all-bracketed s name h letters room
    ∙ ap (close_marker s name) unknown
    ∙ sym (append_all-append (append_text s b'[') name (b']' ∷ []))
