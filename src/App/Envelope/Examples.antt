-- ===== src/App/Envelope/Examples.antt =====
-- A result and an event with small payloads.
use stackchan_atoms3r.Base.{◌≤◌, true, some, ◌≡◌, ap, ◌∙◌, length, codes, arith}
use stackchan_atoms3r.Base.Int.{pos}
use stackchan_atoms3r.Domain.Protocol.{kind_to_string}
use stackchan_atoms3r.Domain.Decimal.{decimal, reversed_digits}
use stackchan_atoms3r.Domain.JsonWriter.{make_writer, valid, max_depth}
use stackchan_atoms3r.Domain.JsonWriter.Document.{
  flag, object, Members, end, member, render, height, escape, escape_char,
}
use stackchan_atoms3r.Domain.JsonWriter.Limits.{emit-make_writer}
use stackchan_atoms3r.Domain.JsonScan.{
  json_find_integer, json_find_raw_string, json_find_object, parsed,
}
use stackchan_atoms3r.App.Envelope.{write_event}
use stackchan_atoms3r.App.Envelope.Document.{event_of, write_event-emit, write_event-found}

abbrev button_down : Members
button_down = member (codes "down") (flag true) end

written_valid :
    valid (write_event (make_writer 100) (codes "button") (render (object button_down))) ≡ true
written_valid =
    let envelope = event_of (codes "button") (object button_down) in
    let low : height envelope ≤ max_depth = unfold height in omega arith in
    let short : length (render envelope) ≤ 100 =
      unfold render escape escape_char kind_to_string decimal reversed_digits in omega arith in
    let written =
      write_event-emit (make_writer 100) (codes "button") (object button_down)
        (unfold height make_writer in omega arith) in
    ap valid written ∙ (emit-make_writer envelope 100 low).0.1 short

write_event-found_example :
    let out = (write_event (make_writer 100) (codes "button") (render (object button_down))).out in
    (json_find_integer out (codes "v") ≡ parsed (pos 1))
    × (json_find_raw_string out (codes "kind") ≡ some (codes "event"))
    × (json_find_raw_string out (codes "name") ≡ some (escape (codes "button")))
    × (json_find_object out (codes "payload") ≡ some (render (object button_down)))
write_event-found_example =
    write_event-found 100 (codes "button") button_down (unfold height in omega arith) written_valid
