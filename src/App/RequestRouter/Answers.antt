-- ===== src/App/RequestRouter/Answers.antt =====
-- Every answer is a whole document, and a request without the token learns nothing.
use stackchan_atoms3r.Base.{
  ◌+◌, ◌≤◌, ◌<◌, true, false, ◌||◌, [], Option, none, some, ◌≡◌, ◌≢◌, ◌⊎◌, inl, inr, refl, ap, sym,
  ◌∙◌, ◌==◌, ltb, length, Bytes, codes, IsBytes, arith, Bool-cases, some_inj,
}
use stackchan_atoms3r.Domain.Protocol.{ErrorCode, no_error}
use stackchan_atoms3r.Domain.AccessToken.{AccessToken, from_text, matches}
use stackchan_atoms3r.Domain.AccessToken.Matching.{matches-from_text}
use stackchan_atoms3r.Domain.JsonWriter.{max_depth, make_writer, valid}
use stackchan_atoms3r.Domain.JsonWriter.Document.{Json, emit, render, height}
use stackchan_atoms3r.Domain.JsonWriter.Limits.{emit-make_writer}
use stackchan_atoms3r.Domain.JsonScan.Checked.{
  JsonMemberResult, found, missing, invalid, json_find_object_checked,
}
use stackchan_atoms3r.App.ScanParams.{ScanParams, scan_params}
use stackchan_atoms3r.App.CommandRegistry.{dispatch}
use stackchan_atoms3r.App.Envelope.{write_result}
use stackchan_atoms3r.App.Envelope.Document.{error_of, result_of, write_result-emit}
use stackchan_atoms3r.App.RequestRouter.{
  Registry, envelope_bytes, payload_bytes, max_body_bytes, last_resort, starts_with_object, answer,
  request_id, request_name, route_payload, route_name, route,
}

-- A request that does not present the text that the token of the device was made from is answered
-- in the same way whatever it asks for, and whatever the device can do.
pub route-unauthorized :
    (text presented body other : Bytes) (registry beside : Registry)
    → IsBytes text
    → IsBytes presented
    → presented ≢ text
    → route registry (from_text text) presented body ≡ route beside (from_text text) presented other
unfolding route
route-unauthorized text presented body other registry beside h k differs =
    elim (Bool-cases (matches (from_text text) presented)) [
      | inl e ↦ absurd (differs (sym ((matches-from_text text presented h k).0 e).1))
      | inr e ↦ rw e refl
    ]

-- The document of an error if it fits its buffer, and the fixed text if it does not.
abbrev pub IsError : Bytes → Type 0
IsError out =
    (id : Bytes) × (code : ErrorCode) × (message : Bytes) × (((length
            (render (error_of id code message))
          ≤ envelope_bytes)
        × (out ≡ render (error_of id code message)))
      ⊎ ((envelope_bytes < length (render (error_of id code message))) × (out ≡ last_resort)))

-- The text of the parameters, nothing if there are none.
abbrev pub params_of : JsonMemberResult → Option Bytes
params_of (found payload) = some payload
params_of missing = some []
params_of invalid = none

-- What a command wrote with success, whole, in a result that was written whole.
abbrev pub IsResult : Registry → Bytes → Bytes → Bytes → Bytes → Type 0
IsResult registry id name params out =
    let handled =
      dispatch ScanParams registry name (scan_params params) (make_writer payload_bytes) in
    let envelope = write_result (make_writer envelope_bytes) id handled.0.out in
    (handled.1 ≡ no_error)
    × (valid handled.0 ≡ true)
    × (valid envelope ≡ true)
    × (out ≡ envelope.out)

-- The result of the command that the body names, with the parameters that it holds.
abbrev pub IsRequested : Registry → Bytes → Bytes → Type 0
IsRequested registry body out =
    (name params : Bytes) × (request_name body ≡ some name)
    × (params_of (json_find_object_checked body (codes "payload")) ≡ some params)
    × IsResult registry (request_id body) name params out

abbrev IsAnswer : Registry → Bytes → Bytes → Type 0
IsAnswer registry body out = IsError out ⊎ IsRequested registry body out

route_payload-dispatch :
    (registry : Registry) (id name params : Bytes) (r : JsonMemberResult)
    → params_of r ≡ some params
    → route_payload registry id name r
      ≡ answer id
          (dispatch ScanParams registry name (scan_params params) (make_writer payload_bytes))
unfolding route_payload
route_payload-dispatch registry id name params (found payload) h =
    ap
      (λ p.
        answer id (dispatch ScanParams registry name (scan_params p) (make_writer payload_bytes)))
      (some_inj h)
route_payload-dispatch registry id name params missing h =
    ap
      (λ p.
        answer id (dispatch ScanParams registry name (scan_params p) (make_writer payload_bytes)))
      (some_inj h)
route_payload-dispatch registry id name params invalid h = absurd (ground (arith, h))

answer-emit :
    (id : Bytes) (x : Json)
    → height x + 1 ≤ max_depth
    → length (render x) ≤ payload_bytes
    → length (render (result_of id x)) ≤ envelope_bytes
    → answer id (emit (make_writer payload_bytes) x, no_error) ≡ render (result_of id x)
unfolding answer height make_writer
answer-emit id x low short fits =
    let payload = emit (make_writer payload_bytes) x in
    let (ok, whole, size) = emit-make_writer x payload_bytes (omega (arith, low)) in
    let low_result : height (result_of id x) ≤ max_depth = omega (arith, low) in
    let written =
      ap (λ p. write_result (make_writer envelope_bytes) id p) (whole (ok.1 short))
      ∙ write_result-emit (make_writer envelope_bytes) id x (omega (arith, low)) in
    let (good, text, size_result) = emit-make_writer (result_of id x) envelope_bytes low_result in
    rw (ok.1 short, written, good.1 fits) (text (good.1 fits))

-- A handler that has written a document with success is answered by the document of the result round
-- it, if that fits; the id is the one of the request.
pub route-result :
    (registry : Registry) (token : AccessToken) (presented body name params : Bytes) (x : Json)
    → matches token presented ≡ true
    → (length body == 0 || ltb max_body_bytes (length body)) ≡ false
    → starts_with_object body ≡ true
    → request_name body ≡ some name
    → params_of (json_find_object_checked body (codes "payload")) ≡ some params
    → dispatch ScanParams registry name (scan_params params) (make_writer payload_bytes)
      ≡ (emit (make_writer payload_bytes) x, no_error)
    → height x + 1 ≤ max_depth
    → length (render x) ≤ payload_bytes
    → length (render (result_of (request_id body) x)) ≤ envelope_bytes
    → route registry token presented body ≡ render (result_of (request_id body) x)
unfolding route route_name
route-result registry token presented body name params x allowed size object named read told low
      short fits =
    let payload = json_find_object_checked body (codes "payload") in
    rw (allowed, size, object, named)
      (route_payload-dispatch registry (request_id body) name params payload read
        ∙ ap (answer (request_id body)) told
        ∙ answer-emit (request_id body) x low short fits)
