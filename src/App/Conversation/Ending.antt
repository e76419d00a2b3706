-- ===== src/App/Conversation/Ending.antt =====
-- Every call that a turn makes before its end is another than that of the end.
use stackchan_atoms3r.Base.{
  ℕ, zero, suc, ◌+◌, ◌%◌, Bool, true, false, List, [], ◌∷◌, ◌++◌, Option, none, some, ◌≡◌, ◌⊎◌, inl,
  inr, refl, ◌==◌, ltb, if◌then◌else◌, length, Bytes, codes, bytes_eq, All, All-append, arith,
  Bool-cases, if_both, Option-cases,
}
use stackchan_atoms3r.Base.Int.{ℤ}
use stackchan_atoms3r.Domain.Sse
use stackchan_atoms3r.Domain.Speech.{Segment, next_segment}
use stackchan_atoms3r.Domain.Speech
use stackchan_atoms3r.Domain.Protocol.{ErrorCode, internal}
use stackchan_atoms3r.Domain.JsonScan.{
  json_find_raw_string, json_find_object, json_find_bool, json_unescape,
}
use stackchan_atoms3r.Domain.Base64.{base64_decode}
use stackchan_atoms3r.App.Conversation.{
  Outcome, running, failed, Call, on_recognized, on_sentence, on_audio, on_finished,
  ConversationTurn, is_running, outcome_of, finish, drain_loop, drain_segments, play_audio,
  decoded_audio, audio_pcm, find_pcm, audio_said, audio_text, recognized, handle_text,
  handle_finished, handle_error, handle_audio, handle_named, handle_payload, handle_event,
  event_loop, pcm_bytes, text_capacity, or_else, samples, find_integer, is_seq, is_text,
}

-- Any call but that of the end.
abbrev pub is_quiet : Call → Bool
is_quiet (on_finished outcome code) = false
is_quiet _ = true

abbrev pub Quiet : Call → Type 0
Quiet c = is_quiet c ≡ true

abbrev pub Going : ConversationTurn → Type 0
Going t = (t.outcome ≡ running) × All Quiet t.calls

-- The last call is that of the end, with the outcome and the code of the turn, and no other is.
abbrev pub Done : ConversationTurn → Type 0
Done t =
    (is_running t.outcome ≡ false)
    × ((cs : List Call) × (t.calls ≡ cs ++ on_finished t.outcome t.code ∷ []) × All Quiet cs)

abbrev pub IsReported : ConversationTurn → Type 0
IsReported t = Going t ⊎ Done t

pub finish-Done :
    (t : ConversationTurn) (o : Outcome) (c : ErrorCode)
    → is_running o ≡ false
    → Going t
    → Done (finish t o c)
unfolding finish
finish-Done t o c ends h = rw h.0 (ends, (t.calls, refl, h.1))

pub finish-IsReported :
    (t : ConversationTurn) (o : Outcome) (c : ErrorCode)
    → is_running o ≡ false
    → IsReported t
    → IsReported (finish t o c)
finish-IsReported t o c ends (inl h) = inr (finish-Done t o c ends h)
finish-IsReported t o c ends (inr h) = unfold finish in rw h.0 (inr h)

-- A call in between.
call-Going :
    (t : ConversationTurn) (c : Call)
    → Quiet c
    → Going t
    → Going (record t { calls = t.calls ++ c ∷ [] })
call-Going t c quiet h = (h.0, All-append Quiet t.calls (c ∷ []) h.1 (quiet, tt))

abbrev told : ConversationTurn → Segment → ConversationTurn
told t segment = record t {
  speech = (next_segment t.speech).0;
  calls = t.calls ++ on_sentence segment ∷ [];
}

drain_loop-Going : (n : ℕ) (t : ConversationTurn) → Going t → Going (drain_loop n t)
unfolding drain_loop
drain_loop-Going zero t h = h
drain_loop-Going (suc n) t h = elim (Option-cases (next_segment t.speech).1) [
  | inl e ↦ rw (e, drain_loop) h
  | inr (segment, e) ↦
      rw (e, drain_loop)
        (drain_loop-Going n (told t segment)
          (h.0, All-append Quiet t.calls (on_sentence segment ∷ []) h.1 (refl, tt)))
]

drain_segments-Going : (t : ConversationTurn) → Going t → Going (drain_segments t)
unfolding drain_segments
drain_segments-Going t h = drain_loop-Going (length t.speech.fifo) t h

play_audio-Going :
    (t : ConversationTurn) (payload pcm : Bytes) → Going t → Going (play_audio t payload pcm)
unfolding play_audio
play_audio-Going t payload pcm h =
    let ended = record t { speech = Speech.flush t.speech } in
    let last = or_else (json_find_bool payload (codes "last")) false in
    let told = if last then drain_segments ended else t in
    let told_Going : Going told =
      if_both Going last (drain_segments ended) t (λ e. drain_segments-Going ended h) (λ e. h) in
    if_both Going (ltb 0 (length pcm))
      (record told { calls = told.calls ++ on_audio (samples pcm) ∷ [] }) told
      (λ e. (
        told_Going.0,
        All-append Quiet told.calls (on_audio (samples pcm) ∷ []) told_Going.1 (refl, tt),
      ))
      (λ e. told_Going)

decoded_audio-IsReported :
    (t : ConversationTurn) (payload : Bytes) (o : Option Bytes)
    → Going t
    → IsReported (decoded_audio t payload o)
unfolding decoded_audio
decoded_audio-IsReported t payload none h = inr (finish-Done t failed internal refl h)
decoded_audio-IsReported t payload (some pcm) h = elim (Bool-cases (length pcm % 2 == 0)) [
  | inl e ↦ rw e (inl (play_audio-Going t payload pcm h))
  | inr e ↦ rw e (inr (finish-Done t failed internal refl h))
]

find_pcm-IsReported :
    (t : ConversationTurn) (payload : Bytes) → Going t → IsReported (find_pcm t payload)
unfolding audio_pcm
find_pcm-IsReported t payload h = go (json_find_raw_string payload (codes "pcm"))
  where
    go : (o : Option Bytes) → IsReported (audio_pcm t payload o)
    go none = inl h
    go (some pcm_b64) = decoded_audio-IsReported t payload (base64_decode pcm_b64 false pcm_bytes) h

audio_said-IsReported :
    (t : ConversationTurn) (payload : Bytes) (o : Option Bytes)
    → Going t
    → IsReported (audio_said t payload o)
unfolding audio_said
audio_said-IsReported t payload none h = inl h
audio_said-IsReported t payload (some text) h =
    find_pcm-IsReported _ payload
      (drain_segments-Going (record t { speech = Speech.feed t.speech text }) h)

audio_text-IsReported :
    (t : ConversationTurn) (payload : Bytes) (o : Option Bytes)
    → Going t
    → IsReported (audio_text t payload o)
unfolding audio_text
audio_text-IsReported t payload none h = find_pcm-IsReported t payload h
audio_text-IsReported t payload (some raw) h =
    audio_said-IsReported t payload (json_unescape raw text_capacity) h

recognized-Going :
    (t : ConversationTurn) (payload : Bytes) (o : Option Bytes)
    → Going t
    → Going (recognized t payload o)
unfolding recognized
recognized-Going t payload none h = h
recognized-Going t payload (some text) h =
    (h.0, All-append Quiet t.calls (on_recognized text _ ∷ []) h.1 (refl, tt))

handle_text-Going :
    (t : ConversationTurn) (payload : Bytes) (o : Option Bytes)
    → Going t
    → Going (handle_text t payload o)
unfolding handle_text
handle_text-Going t payload none h = h
handle_text-Going t payload (some raw) h =
    recognized-Going t payload (json_unescape raw text_capacity) h

outcome_of-ends : (reason : Bytes) → is_running (outcome_of reason) ≡ false
unfolding outcome_of
outcome_of-ends reason = ground arith

handle_finished-IsReported :
    (t : ConversationTurn) (o : Option Bytes) → Going t → IsReported (handle_finished t o)
unfolding handle_finished
handle_finished-IsReported t none h = inl h
handle_finished-IsReported t (some reason) h =
    inr (finish-Done t (outcome_of reason) _ (outcome_of-ends reason) h)

handle_error-Going : (t : ConversationTurn) (o : Option Bytes) → Going t → Going (handle_error t o)
unfolding handle_error
handle_error-Going t none h = h
handle_error-Going t (some name) h = h

module _ (overflow : Bytes → Bytes → ℤ) where
  handle_audio-IsReported :
      (t : ConversationTurn) (payload : Bytes)
      → Going t
      → IsReported (handle_audio overflow t payload)
  unfolding handle_audio
  handle_audio-IsReported t payload h =
      let next = record t { expected_seq = t.expected_seq + 1 } in
      let rate = is_seq (find_integer overflow payload (codes "rate")) 16000 in
      let in_order = is_seq (find_integer overflow payload (codes "seq")) t.expected_seq in
      let said =
        audio_text-IsReported next payload (json_find_raw_string payload (codes "text")) h in
      elim (Bool-cases rate) [
        | inl e ↦ elim (Bool-cases in_order) [
          | inl f ↦ rw (e, f) said
          | inr f ↦ rw (e, f) (inr (finish-Done t failed internal refl h))
        ]
        | inr e ↦ rw e (inl h)
      ]

  handle_named-IsReported :
      (t : ConversationTurn) (name payload : Bytes)
      → Going t
      → IsReported (handle_named overflow t name payload)
  unfolding handle_named
  handle_named-IsReported t name payload h =
      let text = handle_text-Going t payload (json_find_raw_string payload (codes "text")) h in
      let ended = handle_finished-IsReported t (json_find_raw_string payload (codes "reason")) h in
      let raised = handle_error-Going t (json_find_raw_string payload (codes "code")) h in
      elim (Bool-cases (bytes_eq name (codes "reply.audio"))) [
        | inl e ↦ rw e (handle_audio-IsReported t payload h)
        | inr e ↦ elim (Bool-cases (bytes_eq name (codes "conversation.text"))) [
          | inl f ↦ rw (e, f) (inl text)
          | inr f ↦ elim (Bool-cases (bytes_eq name (codes "conversation.finished"))) [
            | inl g ↦ rw (e, f, g) ended
            | inr g ↦ elim (Bool-cases (bytes_eq name (codes "error.raised"))) [
              | inl k ↦ rw (e, f, g, k) (inl raised)
              | inr k ↦ rw (e, f, g, k) (inl h)
            ]
          ]
        ]
      ]

  handle_payload-IsReported :
      (t : ConversationTurn) (name payload : Option Bytes)
      → Going t
      → IsReported (handle_payload overflow t name payload)
  unfolding handle_payload
  handle_payload-IsReported t (some name) (some payload) h =
      handle_named-IsReported t name payload h
  handle_payload-IsReported t (some name) none h = inl h
  handle_payload-IsReported t none (some payload) h = inl h
  handle_payload-IsReported t none none h = inl h

  pub handle_event-IsReported :
      (t : ConversationTurn) (body : Bytes) → Going t → IsReported (handle_event overflow t body)
  unfolding handle_event
  handle_event-IsReported t body h =
      let version = is_seq (find_integer overflow body (codes "v")) 1 in
      let kind = is_text (json_find_raw_string body (codes "kind")) (codes "event") in
      let opened =
        handle_payload-IsReported t (json_find_raw_string body (codes "name"))
          (json_find_object body (codes "payload")) h in
      elim (Bool-cases (bytes_eq body (codes "[DONE]"))) [
        | inl e ↦ rw e (inl h)
        | inr e ↦ elim (Bool-cases version) [
          | inl f ↦ elim (Bool-cases kind) [
            | inl g ↦ rw (e, f, g) opened
            | inr g ↦ rw (e, f, g) (inl h)
          ]
          | inr f ↦ rw (e, f) (inl h)
        ]
      ]

  pub event_loop-IsReported :
      (n : ℕ) (t : ConversationTurn) → IsReported t → IsReported (event_loop overflow n t)
  unfolding event_loop
  event_loop-IsReported zero t h = h
  event_loop-IsReported (suc n) t (inr h) = rw (h.0, event_loop) (inr h)
  event_loop-IsReported (suc n) t (inl h) = elim (Option-cases (Sse.next_event t.sse).1) [
    | inl e ↦ rw (h.0, e, event_loop) (inl h)
    | inr (body, e) ↦
        let taken = record t { sse = (Sse.next_event t.sse).0 } in
        rw (h.0, e, event_loop)
          (event_loop-IsReported n (handle_event overflow taken body)
            (handle_event-IsReported taken body h))
  ]
