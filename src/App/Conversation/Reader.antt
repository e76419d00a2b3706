-- ===== src/App/Conversation/Reader.antt =====
-- Handling an event leaves the reader of the stream alone.
use stackchan_atoms3r.Base.{
  ℕ, zero, suc, ◌+◌, false, [], ◌∷◌, ◌++◌, Option, none, some, ◌≡◌, inl, inr, refl, ap, ◌∙◌, length,
  Bytes, codes, arith, Option-cases,
}
use stackchan_atoms3r.Base.Int.{ℤ}
use stackchan_atoms3r.Domain.Sse.{SseReader}
use stackchan_atoms3r.Domain.Speech.{Segment, next_segment}
use stackchan_atoms3r.Domain.Speech
use stackchan_atoms3r.Domain.Protocol.{ErrorCode, internal}
use stackchan_atoms3r.Domain.JsonScan.{json_find_raw_string, json_find_object, json_unescape}
use stackchan_atoms3r.Domain.Base64.{base64_decode}
use stackchan_atoms3r.App.Conversation.{
  Outcome, failed, on_sentence, ConversationTurn, finish, drain_loop, drain_segments, play_audio,
  decoded_audio, audio_pcm, find_pcm, audio_said, audio_text, recognized, handle_text,
  handle_finished, handle_error, handle_audio, handle_named, handle_payload, handle_event,
  pcm_bytes, text_capacity,
}

-- A turn with another reader.
abbrev pub with_sse : SseReader → ConversationTurn → ConversationTurn
with_sse r t = record t { sse = r }

finish-with_sse :
    (r : SseReader) (t : ConversationTurn) (o : Outcome) (c : ErrorCode)
    → finish (with_sse r t) o c ≡ with_sse r (finish t o c)
unfolding finish
finish-with_sse r t o c = ground arith

drain_loop-with_sse :
    (r : SseReader) (n : ℕ) (t : ConversationTurn)
    → drain_loop n (with_sse r t) ≡ with_sse r (drain_loop n t)
unfolding drain_loop
drain_loop-with_sse r zero t = refl
drain_loop-with_sse r (suc n) t = elim (Option-cases (next_segment t.speech).1) [
  | inl e ↦ rw (e, drain_loop) refl
  | inr (segment, e) ↦
      rw (e, drain_loop)
        (drain_loop-with_sse r n (record t {
          speech = (next_segment t.speech).0;
          calls = t.calls ++ on_sentence segment ∷ [];
        }))
]

play_audio-with_sse :
    (r : SseReader) (t : ConversationTurn) (payload pcm : Bytes)
    → play_audio (with_sse r t) payload pcm ≡ with_sse r (play_audio t payload pcm)
unfolding play_audio drain_segments
play_audio-with_sse r t payload pcm =
    let ended = record t { speech = Speech.flush t.speech } in
    ground (arith, drain_loop-with_sse r (length ended.speech.fifo) ended)

decoded_audio-with_sse :
    (r : SseReader) (t : ConversationTurn) (payload : Bytes) (o : Option Bytes)
    → decoded_audio (with_sse r t) payload o ≡ with_sse r (decoded_audio t payload o)
unfolding decoded_audio
decoded_audio-with_sse r t payload none = finish-with_sse r t failed internal
decoded_audio-with_sse r t payload (some pcm) =
    ground (arith, finish-with_sse r t failed internal, play_audio-with_sse r t payload pcm)

find_pcm-with_sse :
    (r : SseReader) (t : ConversationTurn) (payload : Bytes)
    → find_pcm (with_sse r t) payload ≡ with_sse r (find_pcm t payload)
unfolding audio_pcm
find_pcm-with_sse r t payload = go (json_find_raw_string payload (codes "pcm"))
  where
    go :
        (o : Option Bytes) → audio_pcm (with_sse r t) payload o ≡ with_sse r (audio_pcm t payload o)
    go none = refl
    go (some pcm_b64) = decoded_audio-with_sse r t payload (base64_decode pcm_b64 false pcm_bytes)

audio_said-with_sse :
    (r : SseReader) (t : ConversationTurn) (payload : Bytes) (o : Option Bytes)
    → audio_said (with_sse r t) payload o ≡ with_sse r (audio_said t payload o)
unfolding audio_said drain_segments
audio_said-with_sse r t payload none = refl
audio_said-with_sse r t payload (some text) =
    let next = record t { speech = Speech.feed t.speech text } in
    ap (λ u. find_pcm u payload) (drain_loop-with_sse r (length next.speech.fifo) next)
    ∙ find_pcm-with_sse r (drain_segments next) payload

audio_text-with_sse :
    (r : SseReader) (t : ConversationTurn) (payload : Bytes) (o : Option Bytes)
    → audio_text (with_sse r t) payload o ≡ with_sse r (audio_text t payload o)
unfolding audio_text
audio_text-with_sse r t payload none = find_pcm-with_sse r t payload
audio_text-with_sse r t payload (some raw) =
    audio_said-with_sse r t payload (json_unescape raw text_capacity)

recognized-with_sse :
    (r : SseReader) (t : ConversationTurn) (payload : Bytes) (o : Option Bytes)
    → recognized (with_sse r t) payload o ≡ with_sse r (recognized t payload o)
unfolding recognized
recognized-with_sse r t payload none = refl
recognized-with_sse r t payload (some text) = refl

handle_text-with_sse :
    (r : SseReader) (t : ConversationTurn) (payload : Bytes) (o : Option Bytes)
    → handle_text (with_sse r t) payload o ≡ with_sse r (handle_text t payload o)
unfolding handle_text
handle_text-with_sse r t payload none = refl
handle_text-with_sse r t payload (some raw) =
    recognized-with_sse r t payload (json_unescape raw text_capacity)

handle_finished-with_sse :
    (r : SseReader) (t : ConversationTurn) (o : Option Bytes)
    → handle_finished (with_sse r t) o ≡ with_sse r (handle_finished t o)
unfolding handle_finished
handle_finished-with_sse r t none = refl
handle_finished-with_sse r t (some reason) = finish-with_sse r t _ _

handle_error-with_sse :
    (r : SseReader) (t : ConversationTurn) (o : Option Bytes)
    → handle_error (with_sse r t) o ≡ with_sse r (handle_error t o)
unfolding handle_error
handle_error-with_sse r t none = refl
handle_error-with_sse r t (some name) = refl

module _ (overflow : Bytes → Bytes → ℤ) where
  handle_audio-with_sse :
      (r : SseReader) (t : ConversationTurn) (payload : Bytes)
      → handle_audio overflow (with_sse r t) payload ≡ with_sse r (handle_audio overflow t payload)
  unfolding handle_audio
  handle_audio-with_sse r t payload =
      let next = record t { expected_seq = t.expected_seq + 1 } in
      let raw = json_find_raw_string payload (codes "text") in
      ground (arith, finish-with_sse r t failed internal, audio_text-with_sse r next payload raw)

  handle_named-with_sse :
      (r : SseReader) (t : ConversationTurn) (name payload : Bytes)
      → handle_named overflow (with_sse r t) name payload
        ≡ with_sse r (handle_named overflow t name payload)
  unfolding handle_named
  handle_named-with_sse r t name payload = ground (
    arith,
    handle_audio-with_sse r t payload,
    handle_text-with_sse r t payload (json_find_raw_string payload (codes "text")),
    handle_finished-with_sse r t (json_find_raw_string payload (codes "reason")),
    handle_error-with_sse r t (json_find_raw_string payload (codes "code")),
  )

  handle_payload-with_sse :
      (r : SseReader) (t : ConversationTurn) (name payload : Option Bytes)
      → handle_payload overflow (with_sse r t) name payload
        ≡ with_sse r (handle_payload overflow t name payload)
  unfolding handle_payload
  handle_payload-with_sse r t (some name) (some payload) = handle_named-with_sse r t name payload
  handle_payload-with_sse r t (some name) none = refl
  handle_payload-with_sse r t none (some payload) = refl
  handle_payload-with_sse r t none none = refl

  -- Handling an event does not touch the reader.
  pub handle_event-with_sse :
      (r : SseReader) (t : ConversationTurn) (body : Bytes)
      → handle_event overflow (with_sse r t) body ≡ with_sse r (handle_event overflow t body)
  unfolding handle_event
  handle_event-with_sse r t body = ground (
    arith,
    handle_payload-with_sse r t (json_find_raw_string body (codes "name"))
        (json_find_object body (codes "payload")),
  )
