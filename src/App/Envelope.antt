-- ===== src/App/Envelope.antt =====
-- src/core/stackchan_app/src/envelope.cpp: the envelopes round results, errors and events.
pub mod Document
mod Examples
use stackchan_atoms3r.Base.{ℕ, Bool, true, false, List, [], ◌∷◌, if◌then◌else◌, Bytes, codes}
use stackchan_atoms3r.Domain.Protocol.{
  MessageKind, result, event, ErrorCode, error_to_string, kind_to_string, is_retryable,
}
use stackchan_atoms3r.Domain.JsonWriter.{
  JsonWriter, begin_object, end_object, key, raw_json, member_text, member_bool, member_u64,
}

abbrev pub protocol_version : ℕ
protocol_version = 1

abbrev is_empty : Bytes → Bool
is_empty [] = true
is_empty (_ ∷ _) = false

abbrev pub payload_or_empty : Bytes → Bytes
payload_or_empty payload = if is_empty payload then codes "{}" else payload

pub write_header : JsonWriter → MessageKind → JsonWriter
write_header out kind =
    member_text (member_u64 (begin_object out) (codes "v") protocol_version) (codes "kind")
      (kind_to_string kind)

pub write_result : JsonWriter → Bytes → Bytes → JsonWriter
write_result out id payload =
    let answered =
      member_bool (member_text (write_header out result) (codes "id") id) (codes "ok") true in
    end_object (raw_json (key answered (codes "payload")) (payload_or_empty payload))

pub write_error : JsonWriter → Bytes → ErrorCode → Bytes → JsonWriter
write_error out id code message =
    let answered =
      member_bool (member_text (write_header out result) (codes "id") id) (codes "ok") false in
    let coded =
      member_text (begin_object (key answered (codes "error"))) (codes "code")
        (error_to_string code) in
    let told = if is_empty message then coded else member_text coded (codes "message") message in
    end_object (end_object (member_bool told (codes "retryable") (is_retryable code)))

pub write_event : JsonWriter → Bytes → Bytes → JsonWriter
write_event out name payload =
    let named = member_text (write_header out event) (codes "name") name in
    end_object (raw_json (key named (codes "payload")) (payload_or_empty payload))
