-- ===== src/Domain/Sse/Examples.antt =====
-- Two events in blocks that cut the second one, and an event that is one byte too long.
use stackchan_atoms3r.Base.{
  ℕ, zero, suc, List, [], ◌∷◌, ◌++◌, ◌≡◌, refl, replicate, map, Bytes, codes, All, arith,
}
use stackchan_atoms3r.Domain.Sse.{SseReader, initial, frame, feed_loop, feed}
use stackchan_atoms3r.Domain.Sse.Queue.{Waiting}
use stackchan_atoms3r.Domain.Sse.Lines.{Inline, AtRest, event_text, feed_loop-event_text_long}
use stackchan_atoms3r.Domain.Sse.DataLines.{Event, body_of, IsEvent}
use stackchan_atoms3r.Domain.Sse.Stream.{drain, feed_blocks, drain-feed_blocks}

abbrev newline : Bytes
newline = 10 ∷ []

-- The first has two lines.
abbrev two_events : List Event
two_events = (codes "{", codes "}" ∷ []) ∷ (codes "hi", []) ∷ []

abbrev first_block : Bytes
first_block =
    codes "data: {" ++ (newline ++ (codes "data: }" ++ (newline ++ (newline ++ codes "da"))))

abbrev second_block : Bytes
second_block = codes "ta: hi" ++ (newline ++ newline)

initial-AtRest : AtRest initial
initial-AtRest = (refl, refl, refl, refl, refl, refl)

two_events-IsEvent : All IsEvent two_events
two_events-IsEvent = (
  ((((refl, refl), tt), omega arith), ((((refl, refl), tt), omega arith), tt), omega arith),
  (((((refl, refl), ((refl, refl), tt)), omega arith), tt, omega arith), tt),
)

drain-feed_blocks_example :
    drain 3 (feed_blocks (feed initial first_block) (second_block ∷ [])) ≡ map body_of two_events
drain-feed_blocks_example =
    drain-feed_blocks initial two_events first_block (second_block ∷ []) 3 initial-AtRest refl
      two_events-IsEvent (unfold frame in omega arith) refl (omega arith)

letters-Inline : (n : ℕ) → All Inline (replicate n b'x')
letters-Inline zero = tt
letters-Inline (suc n) = ((refl, refl), letters-Inline n)

feed_loop-event_text_long_example :
    feed_loop initial (event_text (replicate 8187 b'x')) ≡ record initial { dropped = 1 }
feed_loop-event_text_long_example =
    feed_loop-event_text_long initial (replicate 8187 b'x') initial-AtRest (letters-Inline 8187)
      (omega arith)

-- The event `hi` waits behind one that has been taken.
abbrev one_waits : SseReader
one_waits = record initial { fifo = 0 ∷ 0 ∷ 2 ∷ 0 ∷ b'h' ∷ b'i' ∷ []; fifo_read = 2 }

one_waits-Waiting : Waiting one_waits (codes "hi" ∷ [])
unfolding frame
one_waits-Waiting = record { packed = refl; front = omega arith; fit = (omega arith, tt) }
