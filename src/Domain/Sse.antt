-- ===== src/Domain/Sse.antt =====
-- src/core/stackchan_domain/src/sse.cpp and its header: the reader of server-sent events. Each buffer is
-- the bytes written to it so far, `line_[0 .. line_len_)` and so on; the sizes of the arrays are kept.
pub mod Split
pub mod Queue
mod Lines
mod DataLines
mod Stream
pub mod Events
mod Examples
use Prim.Native.Nat.{bit_and, bit_or}
use stackchan_atoms3r.Base.{
  ℕ, zero, suc, ◌+◌, ◌*◌, ◌/◌, Bool, true, false, not, ◌&&◌, ◌||◌, List, [], ◌∷◌, ◌++◌, Option,
  none, some, ltb, leb, ◌==◌, if◌then◌else◌, length, take, drop, get_or, Bytes, codes, bytes_eq,
}

abbrev pub max_event_bytes : ℕ
max_event_bytes = 8192

pub record SseReader : Type 0 where
  pub line : Bytes
  pub line_overflow : Bool
  pub last_was_cr : Bool
  pub event : Bytes
  pub event_has_data : Bool
  pub event_overflow : Bool
  pub fifo : Bytes
  pub fifo_read : ℕ
  pub dropped : ℕ

abbrev pub initial : SseReader
initial = record {
  line = [];
  line_overflow = false;
  last_was_cr = false;
  event = [];
  event_has_data = false;
  event_overflow = false;
  fifo = [];
  fifo_read = 0;
  dropped = 0;
}

-- The line up to its first colon, and the text behind it if there is one.
unfoldable pub split_colon : Bytes → Bytes × Option Bytes
split_colon [] = ([], none)
split_colon (c ∷ cs) =
    let rest = split_colon cs in if c == b':' then ([], some cs) else (c ∷ rest.0, rest.1)

unfoldable pub strip_space : Bytes → Bytes
strip_space [] = []
strip_space (c ∷ cs) = if c == b' ' then cs else c ∷ cs

abbrev field_value : Option Bytes → Bytes
field_value none = []
field_value (some v) = strip_space v

-- The name and the value of a field.
unfoldable pub split_field : Bytes → Bytes × Bytes
split_field line = ((split_colon line).0, field_value (split_colon line).1)

abbrev pub starts_with : ℕ → Bytes → Bool
starts_with c [] = false
starts_with c (d ∷ ds) = d == c

abbrev is_empty : Bytes → Bool
is_empty [] = true
is_empty (_ ∷ _) = false

-- `[2-byte length][body]`.
unfoldable pub frame : Bytes → Bytes
frame body = bit_and (length body) 0xFF ∷ bit_and (length body / 256) 0xFF ∷ body

-- The event under construction is given up or has been queued.
abbrev clear_event : SseReader → SseReader
clear_event r = record r { event = []; event_has_data = false; event_overflow = false }

unfoldable pub dispatch : SseReader → SseReader
dispatch r =
    if not r.event_has_data
    then clear_event r
    else if r.event_overflow || ltb (max_event_bytes * 2) (length r.fifo + (2 + length r.event))
    then record (clear_event r) { dropped = r.dropped + 1 }
    else record (clear_event r) { fifo = r.fifo ++ frame r.event }

abbrev overflow_event : SseReader → SseReader
overflow_event r = record r { event_overflow = true; event_has_data = true }

-- The part of `take_line` for a `data` line that is whole.
unfoldable pub add_data : SseReader → Bytes → SseReader
add_data r value =
    let need = length value + (if r.event_has_data then 1 else 0) in
    if ltb max_event_bytes (length r.event + need) then overflow_event r else record r {
      event = (if r.event_has_data then r.event ++ 10 ∷ [] else r.event) ++ value;
      event_has_data = true;
    }

-- The line is the one that the reader has assembled.
unfoldable pub take_line : SseReader → SseReader
take_line r =
    if is_empty r.line && not r.line_overflow
    then dispatch r
    else if starts_with b':' r.line
    then r
    else if not (bytes_eq (split_field r.line).0 (codes "data"))
    then r
    else if r.line_overflow
    then overflow_event r
    else add_data r (split_field r.line).1

abbrev clear_line : SseReader → Bool → SseReader
clear_line r cr = record r { line = []; line_overflow = false; last_was_cr = cr }

-- One round of the loop of `feed`.
unfoldable pub feed_char : SseReader → ℕ → SseReader
feed_char r c =
    if c == 13
    then clear_line (take_line r) true
    else if c == 10
    then (if r.last_was_cr
        then record r { last_was_cr = false }
        else clear_line (take_line r) r.last_was_cr)
    else if ltb (length r.line) max_event_bytes
    then record r { line = r.line ++ c ∷ []; last_was_cr = false }
    else record r { line_overflow = true; last_was_cr = false }

unfoldable pub feed_loop : SseReader → Bytes → SseReader
feed_loop r [] = r
feed_loop r (c ∷ cs) = feed_loop (feed_char r c) cs

-- The queue starts again once it is drained.
unfoldable pub rewind : SseReader → SseReader
rewind r = if r.fifo_read == length r.fifo then record r { fifo = []; fifo_read = 0 } else r

unfoldable pub feed : SseReader → Bytes → SseReader
feed r bytes = feed_loop (rewind r) bytes

unfoldable pub next_event : SseReader → SseReader × Option Bytes
next_event r =
    if r.fifo_read == length r.fifo
    then (r, none)
    else let size =
        bit_or (get_or r.fifo r.fifo_read 0) (get_or r.fifo (r.fifo_read + 1) 0 * 256) in
      (
        record r { fifo_read = r.fifo_read + (2 + size) },
        some (take size (drop (r.fifo_read + 2) r.fifo)),
      )

unfoldable pub finish : SseReader → SseReader
finish r =
    if ltb 0 (length r.line) || r.line_overflow
    then dispatch (let taken = take_line r in record taken { line = []; line_overflow = false })
    else dispatch r
