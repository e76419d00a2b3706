-- ===== src/Domain/Speech.antt =====
-- src/core/stackchan_domain/src/speech.cpp and its header: cutting streamed text into sentences, each
-- with its expression. Each buffer is the bytes written to it so far, `pending_[0 .. pending_len_)` and
-- so on, and a byte is its value as `unsigned char`; the sizes of the arrays are kept.
mod Split
pub mod Queue
mod Bounds
pub mod Utf8
mod Moves
pub mod Whole
mod Markers
mod Contents
mod Examples
use Prim.Native.Nat.{bit_and}
use stackchan_atoms3r.Base.{
  ℕ, zero, suc, ◌+◌, ◌-◌, ◌%◌, Bool, true, false, not, ◌&&◌, ◌||◌, List, [], ◌∷◌, ◌++◌, Option,
  none, some, ltb, leb, ◌==◌, if◌then◌else◌, within, min, max, length, take, drop, get_or, Bytes,
  bytes_eq,
}
use stackchan_atoms3r.Base.Words.{u8_mod}
use stackchan_atoms3r.Domain.Expression.{
  Expression, neutral, expression_value, expression_cast, parse_expression,
}

abbrev pub max_segment_capacity : ℕ
max_segment_capacity = 200

abbrev pub max_marker_bytes : ℕ
max_marker_bytes = 1 + 7

-- The size of the array of finished sentences.
abbrev pub fifo_size : ℕ
fifo_size = 512

pub record SpeechSegmenter : Type 0 where
  pub max_bytes : ℕ
  pub expression : Expression
  pub pending : Bytes
  pub marker : Bytes
  pub dot_pending : Bool
  pub fifo : Bytes
  pub fifo_read : ℕ
  pub dropped : ℕ

-- `std::clamp(max_segment_bytes, 8, kMaxSegmentCapacity)`, and every other member as it starts.
unfoldable pub segmenter : ℕ → SpeechSegmenter
segmenter max_segment_bytes = record {
  max_bytes = min (max max_segment_bytes 8) max_segment_capacity;
  expression = neutral;
  pending = [];
  marker = [];
  dot_pending = false;
  fifo = [];
  fifo_read = 0;
  dropped = 0;
}

abbrev pub terminators : List Bytes
terminators = (0xE3 ∷ 0x80 ∷ 0x82 ∷ []) ∷ (0xEF ∷ 0xBC ∷ 0x81 ∷ []) ∷ (0xEF ∷ 0xBC ∷ 0x9F ∷ []) ∷ []

abbrev pub is_marker_char : ℕ → Bool
is_marker_char c = within b'a' b'z' c

abbrev pub is_space : ℕ → Bool
is_space c = c == b' ' || c == 9

abbrev pub is_newline : ℕ → Bool
is_newline c = c == 10 || c == 13

-- Length of a UTF-8 character from its first byte; 0 for a continuation.
unfoldable pub utf8_length : ℕ → ℕ
utf8_length lead =
    if ltb lead 0x80
    then 1
    else if bit_and lead 0xE0 == 0xC0
    then 2
    else if bit_and lead 0xF0 == 0xE0
    then 3
    else if bit_and lead 0xF8 == 0xF0
    then 4
    else 0

-- `[length][expression][body]`, the length in one byte.
unfoldable pub frame : Expression → Bytes → Bytes
frame expression body = length body % u8_mod ∷ expression_value expression ∷ body

unfoldable pub emit : SpeechSegmenter → SpeechSegmenter
emit s =
    if length s.pending == 0
    then record s { dot_pending = false }
    else if ltb fifo_size (length s.fifo + (2 + length s.pending))
    then record s { dot_pending = false; dropped = s.dropped + 1; pending = [] }
    else record s {
      dot_pending = false;
      fifo = s.fifo ++ frame s.expression s.pending;
      pending = [];
    }

-- The loop that steps back from `lead` over continuation bytes.
unfoldable pub find_lead : Bytes → ℕ → ℕ
find_lead pending zero = zero
find_lead pending (suc lead) =
    let before = find_lead pending lead in
    if utf8_length (get_or pending lead 0) == 0 then before else suc lead

-- Where a full buffer is cut: before its last character if that is not whole.
unfoldable pub cut_point : Bytes → ℕ
cut_point pending =
    let lead = find_lead pending (length pending) in
    if ltb 0 lead && ltb (length pending) (lead - 1 + utf8_length (get_or pending (lead - 1) 0))
    then lead - 1
    else length pending

-- The part of `append_text` for a buffer that has reached its limit.
unfoldable pub cut_text : SpeechSegmenter → SpeechSegmenter
cut_text s =
    let cut = cut_point s.pending in
    if cut == 0
    then s
    else let keep = drop cut s.pending in
      record (emit (record s { pending = take cut s.pending })) { pending = keep }

unfoldable pub append_text : SpeechSegmenter → ℕ → SpeechSegmenter
append_text s c =
    let grown = record s { pending = s.pending ++ c ∷ [] } in
    if ltb (length grown.pending) s.max_bytes then grown else cut_text grown

-- The loops that append the bytes of a marker one by one.
unfoldable pub append_all : SpeechSegmenter → Bytes → SpeechSegmenter
append_all s [] = s
append_all s (c ∷ cs) = append_all (append_text s c) cs

unfoldable pub dump_marker_as_text : SpeechSegmenter → SpeechSegmenter
dump_marker_as_text s = append_all (record s { marker = [] }) s.marker

-- A segmenter and whether the byte was consumed.
unfoldable pub resolve_pending_dot : SpeechSegmenter → ℕ → SpeechSegmenter × Bool
resolve_pending_dot s c =
    let resolved = record s { dot_pending = false } in
    if is_space c || is_newline c then (emit resolved, is_space c) else (resolved, false)

-- The part of `consume_into_marker` for a marker that closes, by what its name parses to.
unfoldable pub close_marker : SpeechSegmenter → Bytes → Option Expression → SpeechSegmenter
close_marker s name none = append_text (append_all (append_text s b'[') name) b']'
close_marker s name (some parsed) = record (emit s) { expression = parsed }

unfoldable pub consume_into_marker : SpeechSegmenter → ℕ → SpeechSegmenter × Bool
consume_into_marker s c =
    if c == b']'
    then (let name = drop 1 s.marker in
        (close_marker (record s { marker = [] }) name (parse_expression name), true))
    else if is_marker_char c && ltb (length s.marker) max_marker_bytes
    then (record s { marker = s.marker ++ c ∷ [] }, true)
    else (dump_marker_as_text s, false)

-- `text` ends with `terminator`.
unfoldable pub ends_with : Bytes → Bytes → Bool
ends_with text terminator =
    leb (length terminator) (length text)
    && bytes_eq (drop (length text - length terminator) text) terminator

unfoldable pub any_end : Bytes → List Bytes → Bool
any_end text [] = false
any_end text (t ∷ ts) = ends_with text t || any_end text ts

unfoldable pub tail_is_terminator : SpeechSegmenter → Bool
tail_is_terminator s = any_end s.pending terminators

-- The end of `put_char`, behind its `append_text`.
unfoldable pub end_sentence : SpeechSegmenter → ℕ → SpeechSegmenter
end_sentence appended c =
    if c == b'!' || c == b'?'
    then emit appended
    else if c == b'.'
    then record appended { dot_pending = true }
    else if tail_is_terminator appended
    then emit appended
    else appended

-- The part of `put_char` behind the two early tests.
unfoldable pub put_text : SpeechSegmenter → ℕ → SpeechSegmenter
put_text s c =
    if c == b'['
    then record s { marker = b'[' ∷ [] }
    else if is_newline c
    then emit s
    else if length s.pending == 0 && is_space c
    then s
    else end_sentence (append_text s c) c

-- `test && step(c)`: the step is taken only under the test.
abbrev pub when :
    Bool → (SpeechSegmenter → SpeechSegmenter × Bool) → SpeechSegmenter → SpeechSegmenter × Bool
when false step s = (s, false)
when true step s = step s

abbrev pub resolve_dot : SpeechSegmenter → ℕ → SpeechSegmenter × Bool
resolve_dot s c = when s.dot_pending (λ t. resolve_pending_dot t c) s

abbrev pub consume_marker : SpeechSegmenter → ℕ → SpeechSegmenter × Bool
consume_marker s c = when (ltb 0 (length s.marker)) (λ t. consume_into_marker t c) s

-- The part of `put_char` behind the test of the pending dot.
unfoldable pub put_marked : SpeechSegmenter → ℕ → SpeechSegmenter
put_marked s c =
    let marked = consume_marker s c in if marked.1 then marked.0 else put_text marked.0 c

unfoldable pub put_char : SpeechSegmenter → ℕ → SpeechSegmenter
put_char s c = let dotted = resolve_dot s c in if dotted.1 then dotted.0 else put_marked dotted.0 c

unfoldable pub put_all : SpeechSegmenter → Bytes → SpeechSegmenter
put_all s [] = s
put_all s (c ∷ cs) = put_all (put_char s c) cs

-- The queue starts again once it is drained.
unfoldable pub rewind : SpeechSegmenter → SpeechSegmenter
rewind s = if s.fifo_read == length s.fifo then record s { fifo = []; fifo_read = 0 } else s

unfoldable pub feed : SpeechSegmenter → Bytes → SpeechSegmenter
feed s text = put_all (rewind s) text

unfoldable pub flush : SpeechSegmenter → SpeechSegmenter
flush s =
    let ready = rewind s in
    if ltb 0 (length ready.marker) then emit (dump_marker_as_text ready) else emit ready

pub record Segment : Type 0 where
  pub expression : Option Expression
  pub text : Bytes

unfoldable pub next_segment : SpeechSegmenter → SpeechSegmenter × Option Segment
next_segment s =
    if s.fifo_read == length s.fifo
    then (s, none)
    else let size = get_or s.fifo s.fifo_read 0 in
      (
        record s { fifo_read = s.fifo_read + (2 + size) },
        some (record {
          expression = expression_cast (get_or s.fifo (s.fifo_read + 1) 0);
          text = take size (drop (s.fifo_read + 2) s.fifo);
        }),
      )
