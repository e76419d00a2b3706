-- ===== src/Domain/Sse/Queue.antt =====
-- The queue of events: what is packed into it comes out again, first in, first out.
use Prim.Native.Nat.{bit_and, bit_or}
use stackchan_atoms3r.Base.{
  drop-drop, get_or-drop, drop-append_le, ℕ, ◌+◌, ◌*◌, ◌/◌, ◌%◌, ◌≤◌, true, false, List, [], ◌∷◌,
  ◌++◌, none, some, ◌≡◌, refl, ap, sym, ◌∙◌, ◌==◌, length, length-append, length-drop, take, drop,
  take-append, drop-append, get_or, Bytes, append_assoc, append-nil, arith,
}
use stackchan_atoms3r.Base.Search.{all_below, agree_below, agree_below_two}
use stackchan_atoms3r.Domain.Sse.{SseReader, max_event_bytes, frame, next_event}

-- The bytes of the events that wait.
abbrev pub frames : List Bytes → Bytes
frames [] = []
frames (e ∷ es) = frame e ++ frames es

abbrev pub AllFit : List Bytes → Type 0
AllFit [] = Unit
AllFit (e ∷ es) = (length e ≤ max_event_bytes) × AllFit es

-- These events wait in the queue, the first of them first.
pub record Waiting (r : SseReader) (es : List Bytes) : Type 0 where
  pub packed : drop r.fifo_read r.fifo ≡ frames es
  pub front : r.fifo_read ≤ length r.fifo
  pub fit : AllFit es

or_table : all_below 256 (λ a. all_below 33 (λ b. bit_or a (b * 256) == a + b * 256)) ≡ true
unfolding all_below
or_table = refl

low_table : all_below 8193 (λ n. bit_and n 0xFF == n % 256) ≡ true
unfolding all_below
low_table = refl

high_table : all_below 33 (λ n. bit_and n 0xFF == n) ≡ true
unfolding all_below
high_table = refl

-- The two bytes of a size give the size back.
size_lem :
    (n : ℕ) → n ≤ max_event_bytes → bit_or (bit_and n 0xFF) (bit_and (n / 256) 0xFF * 256) ≡ n
size_lem n h =
    rw
      (
        agree_below 8193 (λ x. bit_and x 0xFF) (λ x. x % 256) n low_table (omega arith),
        agree_below 33 (λ x. bit_and x 0xFF) (λ x. x) (n / 256) high_table (omega arith),
        agree_below_two 256 33 (λ a b. bit_or a (b * 256)) (λ a b. a + b * 256) (n % 256) (n / 256)
            or_table (omega arith) (omega arith),
      )
      (omega arith)

-- Where the front of the queue stands at a frame.
module _ (r : SseReader) (e rest : Bytes) (packed : drop r.fifo_read r.fifo ≡ frame e ++ rest) where
  behind_size : drop (r.fifo_read + 2) r.fifo ≡ e ++ rest
  unfolding frame
  behind_size = drop-drop r.fifo_read r.fifo 2 ∙ ap (drop 2) packed

  behind_event : drop (r.fifo_read + (2 + length e)) r.fifo ≡ rest
  behind_event =
      let step : r.fifo_read + (2 + length e) ≡ (r.fifo_read + 2) + length e = omega arith in
      ap (λ n. drop n r.fifo) step
      ∙ drop-drop (r.fifo_read + 2) r.fifo (length e)
      ∙ ap (drop (length e)) behind_size
      ∙ drop-append e rest

  size_read :
      length e ≤ max_event_bytes
      → bit_or (get_or r.fifo r.fifo_read 0) (get_or r.fifo (r.fifo_read + 1) 0 * 256) ≡ length e
  unfolding frame
  size_read h =
      let low = get_or-drop r.fifo_read r.fifo 0 ∙ ap (λ t. get_or t 0 0) packed in
      let second = drop-drop r.fifo_read r.fifo 1 ∙ ap (drop 1) packed in
      let high = get_or-drop (r.fifo_read + 1) r.fifo 0 ∙ ap (λ t. get_or t 0 0) second in
      rw (low, high) (size_lem (length e) h)

  room : r.fifo_read + (2 + length e) ≤ length r.fifo
  unfolding frame
  room =
      let size = ap length packed in
      omega (arith, size, length-append e rest, length-drop r.fifo_read r.fifo)

-- Taking an event gives the first that waits, and leaves the others.
pub next_event-Waiting :
    (r : SseReader) (e : Bytes) (es : List Bytes)
    → Waiting r (e ∷ es)
    → ((next_event r).1 ≡ some e) × Waiting (next_event r).0 es
unfolding next_event
next_event-Waiting r e es w =
    let inside = room r e (frames es) w.packed in
    let ahead : (r.fifo_read == length r.fifo) ≡ false = ground (arith, inside) in
    rw (ahead, size_read r e (frames es) w.packed w.fit.0)
      (
        ap some (
            ap (take (length e)) (behind_size r e (frames es) w.packed)
            ∙ take-append e (frames es)),
        record { packed = behind_event r e (frames es) w.packed; front = inside; fit = w.fit.1 },
      )

-- With nothing waiting nothing is taken.
pub next_event-empty : (r : SseReader) → Waiting r [] → next_event r ≡ (r, none)
unfolding next_event
next_event-empty r w =
    let size = ap length w.packed in ground (arith, size, w.front, length-drop r.fifo_read r.fifo)

frames-append : (es : List Bytes) (e : Bytes) → frames (es ++ e ∷ []) ≡ frames es ++ frame e
frames-append [] e = append-nil (frame e)
frames-append (x ∷ es) e =
    ap (λ t. frame x ++ t) (frames-append es e) ∙ sym (append_assoc (frame x) (frames es) (frame e))

AllFit-append :
    (es : List Bytes) (e : Bytes) → AllFit es → length e ≤ max_event_bytes → AllFit (es ++ e ∷ [])
AllFit-append [] e h k = (k, tt)
AllFit-append (x ∷ es) e h k = (h.0, AllFit-append es e h.1 k)

-- A frame put behind the queue is one more event that waits, behind the others.
pub Waiting-frame :
    (r : SseReader) (es : List Bytes) (e : Bytes)
    → Waiting r es
    → length e ≤ max_event_bytes
    → Waiting (record r { fifo = r.fifo ++ frame e }) (es ++ e ∷ [])
Waiting-frame r es e w h = record {
  packed =
      drop-append_le r.fifo_read r.fifo (frame e) w.front
      ∙ ap (λ t. t ++ frame e) w.packed
      ∙ sym (frames-append es e);
  front = omega (arith, w.front, length-append r.fifo (frame e));
  fit = AllFit-append es e w.fit h;
}

length-frames : (es : List Bytes) → length es ≤ length (frames es)
unfolding frame
length-frames [] = omega arith
length-frames (e ∷ es) = omega (arith, length-frames es, length-append e (frames es))

-- Each event that waits takes room in the queue.
pub length-Waiting : (r : SseReader) (es : List Bytes) → Waiting r es → length es ≤ length r.fifo
length-Waiting r es w =
    let size = ap length w.packed in
    omega (arith, size, length-frames es, length-drop r.fifo_read r.fifo)
