-- ===== src/App/RequestRouter.antt =====
-- src/core/stackchan_app/src/request_router.cpp and its header: from the text of a request to the
-- text of its answer. The registry is the list of its entries, whose handlers read `ScanParams`.
mod Answers
mod Examples
use stackchan_atoms3r.Base.{
  ℕ, zero, suc, ◌+◌, Bool, true, false, not, ◌||◌, List, [], ◌∷◌, ◌++◌, Option, none, some, ltb,
  ◌==◌, if◌then◌else◌, length, Bytes, codes,
}
use stackchan_atoms3r.Domain.Protocol.{ErrorCode, no_error, bad_request, internal, error_value}
use stackchan_atoms3r.Domain.AccessToken.{AccessToken, matches}
use stackchan_atoms3r.Domain.JsonWriter.{JsonWriter, make_writer, valid}
use stackchan_atoms3r.Domain.JsonScan.{is_ws, json_find_raw_string, json_unescape}
use stackchan_atoms3r.Domain.JsonScan.Checked.{
  JsonMemberResult, found, missing, invalid, json_find_object_checked,
}
use stackchan_atoms3r.App.ScanParams.{ScanParams, scan_params}
use stackchan_atoms3r.App.CommandRegistry.{Entry, dispatch}
use stackchan_atoms3r.App.Envelope.{write_result, write_error}

abbrev pub max_body_bytes : ℕ
max_body_bytes = 2048

abbrev pub payload_bytes : ℕ
payload_bytes = 4096

abbrev pub envelope_bytes : ℕ
envelope_bytes = payload_bytes + 256

abbrev pub max_id_bytes : ℕ
max_id_bytes = 63

-- `name_text_.size() - 1`.
abbrev pub max_name_bytes : ℕ
max_name_bytes = 63

abbrev pub last_resort : Bytes
last_resort =
    codes "{\"v\":1,\"kind\":\"result\",\"ok\":false,"
    ++ codes "\"error\":{\"code\":\"internal\",\"retryable\":false}}"

unfoldable pub starts_with_object : Bytes → Bool
starts_with_object [] = false
starts_with_object (c ∷ cs) =
    let rest = starts_with_object cs in if is_ws c then rest else c == b'{'

-- `error`.
unfoldable pub answer_error : Bytes → ErrorCode → Bytes → Bytes
answer_error id code message =
    let writer = write_error (make_writer envelope_bytes) id code message in
    if not (valid writer) then last_resort else writer.out

abbrev unescaped_id : Option Bytes → Bytes
unescaped_id none = []
unescaped_id (some id) = id

abbrev id_found : Option Bytes → Bytes
id_found none = []
id_found (some raw_id) = unescaped_id (json_unescape raw_id max_id_bytes)

-- The id of the request, nothing if it cannot be read.
unfoldable pub request_id : Bytes → Bytes
request_id body = id_found (json_find_raw_string body (codes "id"))

abbrev name_unescaped : Option Bytes → Option Bytes
name_unescaped (some (c ∷ cs)) = some (c ∷ cs)
name_unescaped _ = none

abbrev name_found : Option Bytes → Option Bytes
name_found none = none
name_found (some raw_name) = name_unescaped (json_unescape raw_name max_name_bytes)

-- The name of the request; `none` is each of the ways in which it is missing.
unfoldable pub request_name : Bytes → Option Bytes
request_name body = name_found (json_find_raw_string body (codes "name"))

-- The end of `route`, behind the call of the handler.
unfoldable pub answer : Bytes → JsonWriter × ErrorCode → Bytes
answer id (payload, code) =
    if not (error_value code == 0)
    then answer_error id code []
    else if not (valid payload)
    then answer_error id internal (codes "response too large")
    else (let envelope = write_result (make_writer envelope_bytes) id payload.out in
        if not (valid envelope)
        then answer_error id internal (codes "envelope too large")
        else envelope.out)

abbrev pub Registry : Type 0
Registry = List (Entry ScanParams)

-- The call of the handler, by what the payload is.
unfoldable pub route_payload : Registry → Bytes → Bytes → JsonMemberResult → Bytes
route_payload registry id name (found payload) =
    answer id (dispatch ScanParams registry name (scan_params payload) (make_writer payload_bytes))
route_payload registry id name missing =
    answer id (dispatch ScanParams registry name (scan_params []) (make_writer payload_bytes))
route_payload registry id name invalid =
    answer_error id bad_request (codes "request body is invalid")

unfoldable pub route_name : Registry → Bytes → Option Bytes → Bytes
route_name registry body none = answer_error (request_id body) bad_request (codes "name is missing")
route_name registry body (some name) =
    route_payload registry (request_id body) name (json_find_object_checked body (codes "payload"))

unfoldable pub route : Registry → AccessToken → Bytes → Bytes → Bytes
route registry token presented_token body =
    if not (matches token presented_token)
    then answer_error [] bad_request (codes "X-StackChan-Token header is missing or wrong")
    else if length body == 0 || ltb max_body_bytes (length body)
    then answer_error [] bad_request (codes "body is empty or too large")
    else if not (starts_with_object body)
    then answer_error [] bad_request (codes "not json")
    else route_name registry body (request_name body)
