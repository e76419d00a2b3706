-- ===== src/App/Conversation.antt =====
-- src/core/stackchan_app/src/conversation.cpp and its header: the response stream of one conversation.
-- The listener is the list of the calls it was given, in order. `overflow` is what the scanner leaves
-- for an integer that leaves the 64-bit range, which the language does not define.
mod Ending
mod Once
mod Reader
mod Sentences
mod Envelopes
mod Stream
mod Blocks
mod Examples
use stackchan_atoms3r.Base.{
  ℕ, zero, suc, ◌+◌, ◌*◌, ◌%◌, Bool, true, false, not, ◌&&◌, ◌||◌, List, [], ◌∷◌, ◌++◌, Option,
  none, some, ltb, ◌==◌, if◌then◌else◌, length, Bytes, codes, bytes_eq,
}
use stackchan_atoms3r.Base.Int.{ℤ, pos, negsuc}
use stackchan_atoms3r.Domain.Sse.{SseReader}
use stackchan_atoms3r.Domain.Sse
use stackchan_atoms3r.Domain.Speech.{SpeechSegmenter, Segment, segmenter, next_segment}
use stackchan_atoms3r.Domain.Speech
use stackchan_atoms3r.Domain.Protocol.{ErrorCode, no_error, internal, error_value, parse_error_code}
use stackchan_atoms3r.Domain.JsonScan.{
  Parsed, refused, undefined, parsed, json_find_raw_string, json_find_object, json_find_bool,
  json_find_integer, json_unescape,
}
use stackchan_atoms3r.Domain.Base64.{base64_decode}

pub data Outcome : Type 0 where
  running completed cancelled failed : Outcome

-- The calls of the listener; audio is its samples.
pub data Call : Type 0 where
  on_recognized : Bytes → Bool → Call
  on_sentence : Segment → Call
  on_audio : List ℕ → Call
  on_finished : Outcome → ErrorCode → Call

pub record ConversationTurn : Type 0 where
  pub sse : SseReader
  pub speech : SpeechSegmenter
  pub outcome : Outcome
  pub code : ErrorCode
  pub reported_error : ErrorCode
  pub expected_seq : ℕ
  pub dropped : ℕ
  pub calls : List Call

unfoldable pub conversation_turn : ConversationTurn
conversation_turn = record {
  sse = Sse.initial;
  speech = segmenter 60;
  outcome = running;
  code = no_error;
  reported_error = no_error;
  expected_seq = 0;
  dropped = 0;
  calls = [];
}

abbrev pub pcm_bytes : ℕ
pcm_bytes = 2048 * 2

abbrev pub text_capacity : ℕ
text_capacity = 512

abbrev pub is_running : Outcome → Bool
is_running running = true
is_running _ = false

abbrev pub is_failed : Outcome → Bool
is_failed failed = true
is_failed _ = false

unfoldable pub outcome_of : Bytes → Outcome
outcome_of reason =
    if bytes_eq reason (codes "completed")
    then completed
    else if bytes_eq reason (codes "cancelled")
    then cancelled
    else failed

abbrev pub call : ConversationTurn → Call → ConversationTurn
call t c = record t { calls = t.calls ++ c ∷ [] }

abbrev pub drop_event : ConversationTurn → ConversationTurn
drop_event t = record t { dropped = t.dropped + 1 }

unfoldable pub finish : ConversationTurn → Outcome → ErrorCode → ConversationTurn
finish t outcome code =
    if not (is_running t.outcome)
    then t
    else call (record t { outcome = outcome; code = code }) (on_finished outcome code)

-- `code == cancelled`.
abbrev is_cancelled : ErrorCode → Bool
is_cancelled code = error_value code == error_value ErrorCode.cancelled

unfoldable pub abort : ConversationTurn → ErrorCode → ConversationTurn
abort t code = finish t (if is_cancelled code then cancelled else failed) code

-- The loop of `drain_segments`.
unfoldable pub drain_loop : ℕ → ConversationTurn → ConversationTurn
drain_loop zero t = t
drain_loop (suc fuel) t = elim ((next_segment t.speech).1) [
  | none ↦ t
  | some segment ↦
      drain_loop fuel (call (record t { speech = (next_segment t.speech).0 }) (on_sentence segment))
]

-- A sentence takes two bytes of the queue at least.
unfoldable pub drain_segments : ConversationTurn → ConversationTurn
drain_segments t = drain_loop (length t.speech.fifo) t

-- `reported_error_ != none ? reported_error_ : internal`.
abbrev pub reported_or_internal : ErrorCode → ErrorCode
reported_or_internal no_error = internal
reported_or_internal code = code

abbrev pub or_else {ℓ} : {A : Type ℓ} → Option A → A → A
or_else none x = x
or_else (some y) x = y

-- The samples of little-endian bytes.
unfoldable pub samples : Bytes → List ℕ
samples (low ∷ high ∷ bytes) = (low + high * 256) ∷ samples bytes
samples _ = []

abbrev pub is_seq : Option ℤ → ℕ → Bool
is_seq (some (pos n)) m = n == m
is_seq _ m = false

abbrev pub is_text : Option Bytes → Bytes → Bool
is_text (some a) b = bytes_eq a b
is_text none b = false

-- The end of `handle_audio`, behind the decoding.
unfoldable pub play_audio : ConversationTurn → Bytes → Bytes → ConversationTurn
play_audio t payload pcm =
    let ended = record t { speech = Speech.flush t.speech } in
    let told =
      if or_else (json_find_bool payload (codes "last")) false then drain_segments ended else t in
    if ltb 0 (length pcm) then call told (on_audio (samples pcm)) else told

-- The part of `handle_audio` that decodes, by what `base64_decode` gives.
unfoldable pub decoded_audio : ConversationTurn → Bytes → Option Bytes → ConversationTurn
decoded_audio t payload none = finish t failed internal
decoded_audio t payload (some pcm) =
    if not (length pcm % 2 == 0) then finish t failed internal else play_audio t payload pcm

unfoldable pub audio_pcm : ConversationTurn → Bytes → Option Bytes → ConversationTurn
audio_pcm t payload none = drop_event t
audio_pcm t payload (some pcm_b64) = decoded_audio t payload (base64_decode pcm_b64 false pcm_bytes)

abbrev pub find_pcm : ConversationTurn → Bytes → ConversationTurn
find_pcm t payload = audio_pcm t payload (json_find_raw_string payload (codes "pcm"))

-- The part of `handle_audio` for a sentence's text, by what `json_unescape` gives.
unfoldable pub audio_said : ConversationTurn → Bytes → Option Bytes → ConversationTurn
audio_said t payload none = drop_event t
audio_said t payload (some text) =
    find_pcm (drain_segments (record t { speech = Speech.feed t.speech text })) payload

unfoldable pub audio_text : ConversationTurn → Bytes → Option Bytes → ConversationTurn
audio_text t payload none = find_pcm t payload
audio_text t payload (some raw) = audio_said t payload (json_unescape raw text_capacity)

-- The branch of `handle_event` for a recognized text, by its members.
unfoldable pub recognized : ConversationTurn → Bytes → Option Bytes → ConversationTurn
recognized t payload none = drop_event t
recognized t payload (some text) =
    call t (on_recognized text (or_else (json_find_bool payload (codes "final")) true))

unfoldable pub handle_text : ConversationTurn → Bytes → Option Bytes → ConversationTurn
handle_text t payload none = drop_event t
handle_text t payload (some raw) = recognized t payload (json_unescape raw text_capacity)

-- The branch for the end of the conversation, by its reason.
unfoldable pub handle_finished : ConversationTurn → Option Bytes → ConversationTurn
handle_finished t none = drop_event t
handle_finished t (some reason) =
    let outcome = outcome_of reason in
    finish t outcome (if is_failed outcome then reported_or_internal t.reported_error else no_error)

-- The branch for an error that is raised, by the name of its code.
unfoldable pub handle_error : ConversationTurn → Option Bytes → ConversationTurn
handle_error t none = record t { reported_error = internal }
handle_error t (some name) = record t { reported_error = or_else (parse_error_code name) internal }

module _ (overflow : Bytes → Bytes → ℤ) where
  abbrev integer_left : ℤ → Parsed ℤ → Option ℤ
  integer_left left refused = none
  integer_left left undefined = some left
  integer_left left (parsed z) = some z

  unfoldable pub find_integer : Bytes → Bytes → Option ℤ
  find_integer text key = integer_left (overflow text key) (json_find_integer text key)

  unfoldable pub handle_audio : ConversationTurn → Bytes → ConversationTurn
  handle_audio t payload =
      if not (is_seq (find_integer payload (codes "rate")) 16000)
      then drop_event t
      else if not (is_seq (find_integer payload (codes "seq")) t.expected_seq)
      then finish t failed internal
      else audio_text (record t { expected_seq = t.expected_seq + 1 }) payload
          (json_find_raw_string payload (codes "text"))

  -- The part of `handle_event` behind the checks of the envelope.
  unfoldable pub handle_named : ConversationTurn → Bytes → Bytes → ConversationTurn
  handle_named t name payload =
      if bytes_eq name (codes "reply.audio")
      then handle_audio t payload
      else if bytes_eq name (codes "conversation.text")
      then handle_text t payload (json_find_raw_string payload (codes "text"))
      else if bytes_eq name (codes "conversation.finished")
      then handle_finished t (json_find_raw_string payload (codes "reason"))
      else if bytes_eq name (codes "error.raised")
      then handle_error t (json_find_raw_string payload (codes "code"))
      else t

  unfoldable pub handle_payload : ConversationTurn → Option Bytes → Option Bytes → ConversationTurn
  handle_payload t (some name) (some payload) = handle_named t name payload
  handle_payload t _ _ = drop_event t

  unfoldable pub handle_event : ConversationTurn → Bytes → ConversationTurn
  handle_event t body =
      if bytes_eq body (codes "[DONE]")
      then t
      else if not (is_seq (find_integer body (codes "v")) 1)
      then drop_event t
      else if not (is_text (json_find_raw_string body (codes "kind")) (codes "event"))
      then drop_event t
      else handle_payload t (json_find_raw_string body (codes "name"))
          (json_find_object body (codes "payload"))

  -- The loop over the events that wait.
  unfoldable pub event_loop : ℕ → ConversationTurn → ConversationTurn
  event_loop zero t = t
  event_loop (suc fuel) t = elim (is_running t.outcome) [
    | false ↦ t
    | true ↦ elim ((Sse.next_event t.sse).1) [
      | none ↦ t
      | some body ↦
          event_loop fuel (handle_event (record t { sse = (Sse.next_event t.sse).0 }) body)
    ]
  ]

  -- An event takes two bytes of the queue at least.
  unfoldable pub take_events : ConversationTurn → ConversationTurn
  take_events t = event_loop (length t.sse.fifo) t

  unfoldable pub feed : ConversationTurn → Bytes → ConversationTurn
  feed t bytes =
      if not (is_running t.outcome)
      then t
      else take_events (record t { sse = Sse.feed t.sse bytes })

  unfoldable pub finish_input : ConversationTurn → ConversationTurn
  finish_input t =
      if not (is_running t.outcome)
      then t
      else (let taken = take_events (record t { sse = Sse.finish t.sse }) in
          if not (is_running taken.outcome)
          then taken
          else finish taken failed (reported_or_internal taken.reported_error))
