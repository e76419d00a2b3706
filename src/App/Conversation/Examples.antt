-- ===== src/App/Conversation/Examples.antt =====
-- A stream that is cut inside an event, a sentence that waits, and the end of a conversation.
use stackchan_atoms3r.Base.{
  ◌≤◌, true, [], ◌∷◌, ◌++◌, ◌≡◌, refl, inl, ap, ◌∙◌, map, length, Bytes, codes, bytes_eq, arith,
}
use stackchan_atoms3r.Base.Int.{ℤ, pos}
use stackchan_atoms3r.Domain.Decimal.{decimal, reversed_digits}
use stackchan_atoms3r.Domain.Expression.{happy}
use stackchan_atoms3r.Domain.Protocol.{busy, kind_to_string}
use stackchan_atoms3r.Domain.JsonWriter.{make_writer, valid, max_depth}
use stackchan_atoms3r.Domain.JsonWriter.Document.{
  text, object, Members, end, member, render, height, escape, escape_char,
}
use stackchan_atoms3r.Domain.JsonWriter.Limits.{emit-make_writer}
use stackchan_atoms3r.Domain.Speech.{segmenter, frame}
use stackchan_atoms3r.Domain.Speech.Queue.{Waiting}
use stackchan_atoms3r.Domain.Sse.{
  rewind, feed_loop, feed_char, take_line, dispatch, add_data, split_field, split_colon,
  strip_space, next_event,
}
use stackchan_atoms3r.Domain.Sse
use stackchan_atoms3r.App.Envelope.{write_event}
use stackchan_atoms3r.App.Envelope.Document.{event_of, write_event-emit}
use stackchan_atoms3r.App.Conversation.{
  ConversationTurn, running, conversation_turn, drain_segments, handle_event, event_loop,
  take_events, feed,
}
use stackchan_atoms3r.App.Conversation.Once.{fed, closed, aborted, run, run-IsReported, run-ends}
use stackchan_atoms3r.App.Conversation.Ending.{Done, IsReported}
use stackchan_atoms3r.App.Conversation.Reader.{with_sse}
use stackchan_atoms3r.App.Conversation.Sentences.{told, drain_segments-Told}
use stackchan_atoms3r.App.Conversation.Envelopes.{EndsBy, handle_event-finished}
use stackchan_atoms3r.App.Conversation.Blocks.{feed_blocks, feed_blocks_cut}

abbrev all_zero : Bytes → Bytes → ℤ
all_zero body key = pos 0

abbrev newline : Bytes
newline = 10 ∷ []

abbrev first_part : Bytes
first_part = codes "data: [DO"

abbrev second_part : Bytes
second_part = codes "NE]" ++ (newline ++ newline)

parts_kept :
    (feed_blocks all_zero conversation_turn (first_part ∷ second_part ∷ [])).sse.dropped ≡ 0
unfolding feed_blocks conversation_turn feed take_events event_loop handle_event segmenter bytes_eq
    rewind feed_loop feed_char take_line dispatch add_data split_field split_colon strip_space frame
    next_event Sse.feed Sse.frame
parts_kept = refl

whole_kept :
    (feed_blocks all_zero conversation_turn ((first_part ++ second_part) ∷ [])).sse.dropped ≡ 0
unfolding feed_blocks conversation_turn feed take_events event_loop handle_event segmenter bytes_eq
    rewind feed_loop feed_char take_line dispatch add_data split_field split_colon strip_space frame
    next_event Sse.feed Sse.frame
whole_kept = refl

feed_blocks_cut_example :
    with_sse Sse.initial (feed_blocks all_zero conversation_turn (first_part ∷ second_part ∷ []))
    ≡ with_sse Sse.initial
        (feed_blocks all_zero conversation_turn ((first_part ++ second_part) ∷ []))
feed_blocks_cut_example =
    feed_blocks_cut all_zero (first_part ∷ second_part ∷ []) ((first_part ++ second_part) ∷ []) refl
      parts_kept whole_kept

run-IsReported_example :
    IsReported (run all_zero conversation_turn (fed first_part ∷ fed second_part ∷ closed ∷ []))
unfolding conversation_turn
run-IsReported_example =
    run-IsReported all_zero conversation_turn (fed first_part ∷ fed second_part ∷ closed ∷ [])
      (inl (refl, tt))

run-ends_example :
    Done (run all_zero conversation_turn (fed first_part ∷ aborted busy ∷ fed second_part ∷ []))
    × (run all_zero conversation_turn (fed first_part ∷ aborted busy ∷ fed second_part ∷ [])
        ≡ run all_zero conversation_turn (fed first_part ∷ aborted busy ∷ []))
run-ends_example =
    run-ends all_zero (fed first_part ∷ []) (fed second_part ∷ []) (aborted busy) refl

abbrev speaking_turn : ConversationTurn
speaking_turn = record conversation_turn {
  speech = record (segmenter 60) { fifo = frame happy (codes "Hi.") };
}

speaking_turn-Waiting : Waiting speaking_turn.speech ((happy, codes "Hi.") ∷ [])
unfolding segmenter frame
speaking_turn-Waiting = record { packed = refl; front = omega arith; fit = (omega arith, tt) }

drain_segments-Told_example :
    ((drain_segments speaking_turn).calls
      ≡ speaking_turn.calls ++ map told ((happy, codes "Hi.") ∷ []))
    × Waiting (drain_segments speaking_turn).speech []
drain_segments-Told_example =
    drain_segments-Told speaking_turn ((happy, codes "Hi.") ∷ []) speaking_turn-Waiting

abbrev completed_reason : Members
completed_reason = member (codes "reason") (text (codes "completed")) end

finished_valid :
    valid (
      write_event
        (make_writer 200)
        (codes "conversation.finished")
        (render (object completed_reason)))
    ≡ true
finished_valid =
    let envelope = event_of (codes "conversation.finished") (object completed_reason) in
    let low : height envelope ≤ max_depth = unfold height in omega arith in
    let short : length (render envelope) ≤ 200 =
      unfold render escape escape_char kind_to_string decimal reversed_digits in omega arith in
    let written =
      write_event-emit (make_writer 200) (codes "conversation.finished") (object completed_reason)
        (unfold height make_writer in omega arith) in
    ap valid written ∙ (emit-make_writer envelope 200 low).0.1 short

turn_runs : conversation_turn.outcome ≡ running
unfolding conversation_turn
turn_runs = refl

handle_event-finished_example : EndsBy conversation_turn (codes "completed") (
    handle_event all_zero conversation_turn
      (write_event
        (make_writer 200)
        (codes "conversation.finished")
        (render (object completed_reason))).out)
handle_event-finished_example =
    handle_event-finished all_zero conversation_turn 200 (codes "completed") turn_runs
      finished_valid
