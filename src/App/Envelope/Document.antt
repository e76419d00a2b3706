-- ===== src/App/Envelope/Document.antt =====
-- The envelopes as documents, and what the scanner finds in them.
use stackchan_atoms3r.Base.{
  ℕ, ◌+◌, ◌≤◌, true, false, [], ◌∷◌, some, ◌≡◌, refl, ap, sym, ◌∙◌, length, Bytes, codes, bytes_eq,
  append-nil, arith,
}
use stackchan_atoms3r.Base.Int.{pos, negsuc}
use stackchan_atoms3r.Domain.Decimal.{decimal}
use stackchan_atoms3r.Domain.Decimal.Value.{decimal-nonempty}
use stackchan_atoms3r.Domain.Protocol.{
  MessageKind, result, event, ErrorCode, error_to_string, kind_to_string, is_retryable,
}
use stackchan_atoms3r.Domain.JsonWriter.{
  JsonWriter, max_depth, make_writer, valid, end_object, open_level, key, value_text, value_bool,
  value_u64, raw_json, member_text, member_bool,
}
use stackchan_atoms3r.Domain.JsonWriter.Document.{
  Json, text, flag, number, null, array, integer, object, Members, end, member, emit, emit_members,
  signed_decimal, render, height, escape, escape_char,
}
use stackchan_atoms3r.Domain.JsonWriter.Emit.{emit_lem, put_separated}
use stackchan_atoms3r.Domain.JsonWriter.Limits.{emit-make_writer}
use stackchan_atoms3r.Domain.JsonScan.{
  find_member, json_find_raw_string, json_find_object, json_find_integer, parsed, integer_found,
  string_found, object_found, integer_of,
}
use stackchan_atoms3r.Domain.JsonScan.Integers.{integer_of-signed_decimal}
use stackchan_atoms3r.Domain.JsonScan.Found.{lookup, find_member-render}
use stackchan_atoms3r.App.Envelope.{
  protocol_version, payload_or_empty, write_header, write_result, write_error, write_event,
}

abbrev header_of : MessageKind → Members → Json
header_of kind ms = object (
    member (codes "v") (number protocol_version)
      (member (codes "kind") (text (kind_to_string kind)) ms))

abbrev pub result_of : Bytes → Json → Json
result_of id payload = header_of result (
    member (codes "id") (text id)
      (member (codes "ok") (flag true) (member (codes "payload") payload end)))

abbrev message_of : Bytes → Members → Members
message_of [] ms = ms
message_of (c ∷ cs) ms = member (codes "message") (text (c ∷ cs)) ms

abbrev pub error_of : Bytes → ErrorCode → Bytes → Json
error_of id code message = header_of result (
    member (codes "id") (text id) (
      member (codes "ok") (flag false) (
        member (codes "error")
          (object (
            member (codes "code") (text (error_to_string code))
              (message_of message (member (codes "retryable") (flag (is_retryable code)) end))))
          end)))

abbrev pub event_of : Bytes → Json → Json
event_of name payload =
    header_of event (member (codes "name") (text name) (member (codes "payload") payload end))

raw_json-render :
    (w : JsonWriter) (x : Json)
    → length w.open_levels + height x ≤ max_depth
    → raw_json w (render x) ≡ emit w x
unfolding raw_json
raw_json-render w x h =
    ap (λ s. record { sink = s; open_levels = w.open_levels; needs_comma = true })
      (put_separated w (render x))
    ∙ sym (emit_lem w x h)

nonempty_payload : (bs : Bytes) → 1 ≤ length bs → payload_or_empty bs ≡ bs
nonempty_payload [] h = absurd (omega arith)
nonempty_payload (c ∷ cs) h = refl

payload_rendered : (x : Json) → payload_or_empty (render x) ≡ render x
unfolding render signed_decimal
payload_rendered (text s) = refl
payload_rendered (flag true) = refl
payload_rendered (flag false) = refl
payload_rendered (number n) = nonempty_payload (decimal n) (decimal-nonempty n)
payload_rendered (integer (pos n)) = nonempty_payload (decimal n) (decimal-nonempty n)
payload_rendered (integer (negsuc n)) = refl
payload_rendered null = refl
payload_rendered (array xs) = refl
payload_rendered (object ms) = refl

-- Writing a result round a payload that is the text of a document is writing the document of the whole
-- envelope, if there is room for the brackets.
pub write_result-emit :
    (w : JsonWriter) (id : Bytes) (payload : Json)
    → length w.open_levels + (height payload + 1) ≤ max_depth
    → write_result w id (render payload) ≡ emit w (result_of id payload)
unfolding write_result write_header emit emit_members
write_result-emit w id payload h =
    let room : length
            (key
              (member_bool (member_text (write_header w result) (codes "id") id) (codes "ok") true)
              (codes "payload")).open_levels
          + height payload
        ≤ max_depth =
      unfold key value_text value_bool value_u64 open_level in ground (arith, h) in
    ap end_object (ap (raw_json _) (payload_rendered payload) ∙ raw_json-render _ payload room)

-- Writing an error is writing the document of its envelope.
pub write_error-emit :
    (w : JsonWriter) (id : Bytes) (code : ErrorCode) (message : Bytes)
    → write_error w id code message ≡ emit w (error_of id code message)
unfolding write_error write_header emit emit_members
write_error-emit w id code [] = refl
write_error-emit w id code (c ∷ cs) = refl

-- Writing an event round a payload that is the text of a document is writing the document of the whole
-- envelope, if there is room for the brackets.
pub write_event-emit :
    (w : JsonWriter) (name : Bytes) (payload : Json)
    → length w.open_levels + (height payload + 1) ≤ max_depth
    → write_event w name (render payload) ≡ emit w (event_of name payload)
unfolding write_event write_header emit emit_members
write_event-emit w name payload h =
    let room : length
            (key (member_text (write_header w event) (codes "name") name)
              (codes "payload")).open_levels
          + height payload
        ≤ max_depth =
      unfold key value_text value_bool value_u64 open_level in ground (arith, h) in
    ap end_object (ap (raw_json _) (payload_rendered payload) ∙ raw_json-render _ payload room)

find_member_whole :
    (ms : Members) (name : Bytes) → find_member (render (object ms)) name ≡ lookup name ms
find_member_whole ms name =
    ap (λ t. find_member t name) (sym (append-nil (render (object ms))))
    ∙ find_member-render ms name []

version_read : integer_of (decimal protocol_version) ≡ parsed (pos 1)
version_read = unfold signed_decimal in integer_of-signed_decimal (pos 1) (omega arith)

-- What a search finds in the text of an event.
event_found :
    (name : Bytes) (ms : Members)
    → let out = render (event_of name (object ms)) in
      (json_find_integer out (codes "v") ≡ parsed (pos 1))
      × (json_find_raw_string out (codes "kind") ≡ some (codes "event"))
      × (json_find_raw_string out (codes "name") ≡ some (escape name))
      × (json_find_object out (codes "payload") ≡ some (render (object ms)))
unfolding json_find_integer json_find_raw_string json_find_object lookup render bytes_eq escape
    escape_char kind_to_string
event_found name ms =
    let members = member (codes "v") (number protocol_version) (
      member (codes "kind") (text (kind_to_string event))
        (member (codes "name") (text name) (member (codes "payload") (object ms) end))) in
    (
      ap integer_found (find_member_whole members (codes "v")) ∙ version_read,
      ap string_found (find_member_whole members (codes "kind")) ∙ refl,
      ap string_found (find_member_whole members (codes "name")) ∙ refl,
      ap object_found (find_member_whole members (codes "payload")) ∙ refl,
    )

-- A valid event whose payload is an object that is nested at most 11 deep is read back by the scanner:
-- its version, its kind, its name with the escapes, and its payload as it was written.
pub write_event-found :
    (capacity : ℕ) (name : Bytes) (ms : Members)
    → height (object ms) + 1 ≤ max_depth
    → let w = write_event (make_writer capacity) name (render (object ms)) in
      valid w ≡ true
      → (json_find_integer w.out (codes "v") ≡ parsed (pos 1))
        × (json_find_raw_string w.out (codes "kind") ≡ some (codes "event"))
        × (json_find_raw_string w.out (codes "name") ≡ some (escape name))
        × (json_find_object w.out (codes "payload") ≡ some (render (object ms)))
write_event-found capacity name ms h ok =
    let written =
      write_event-emit (make_writer capacity) name (object ms)
        (unfold make_writer in omega (arith, h)) in
    let low : height (event_of name (object ms)) ≤ max_depth = unfold height in omega (arith, h) in
    let whole =
      (emit-make_writer (event_of name (object ms)) capacity low).1 (ap valid (sym written) ∙ ok) in
    let same = ap (λ w. w.out) written ∙ whole in rw same (event_found name ms)
