-- ===== src/App/Conversation/Envelopes.antt =====
-- The envelopes that the other end writes are taken for what they are.
use stackchan_atoms3r.Base.{
  ℕ, ◌+◌, ◌≤◌, true, false, [], ◌∷◌, ◌++◌, some, ◌≡◌, ◌≢◌, ◌⊎◌, refl, ap, sym, ◌∙◌, subst, ◌==◌,
  length, Bytes, codes, All, append-nil, bytes_eq, bytes_eq_iff, bytes_eq_refl, arith, Bool-cases,
  inl, inr,
}
use stackchan_atoms3r.Base.Int.{ℤ, pos}
use stackchan_atoms3r.Domain.Protocol.{ErrorCode, no_error, internal}
use stackchan_atoms3r.Domain.JsonWriter.{max_depth, make_writer, valid}
use stackchan_atoms3r.Domain.JsonWriter.Document.{
  text, object, Members, end, member, render, height, escape, escape_char,
}
use stackchan_atoms3r.Domain.JsonScan.{
  parsed, find_member, string_found, integer_found, json_find_integer, json_find_raw_string,
}
use stackchan_atoms3r.Domain.JsonScan.Found.{lookup, find_member-render, find_member-array}
use stackchan_atoms3r.App.Envelope.{write_event}
use stackchan_atoms3r.App.Envelope.Document.{write_event-found}
use stackchan_atoms3r.App.Conversation.{
  ConversationTurn, Outcome, running, completed, cancelled, failed, on_finished, outcome_of, finish,
  reported_or_internal, find_integer, handle_named, handle_payload, handle_event, handle_finished,
}

cons_head : {a b : ℕ} {cs bs : Bytes} → a ∷ cs ≡ b ∷ bs → a ≡ b
cons_head h = cc h

cons_tail : {a b : ℕ} {cs bs : Bytes} → a ∷ cs ≡ b ∷ bs → cs ≡ bs
cons_tail h = cc h

-- A character that is no backslash.
abbrev IsPlain : ℕ → Type 0
IsPlain c = (c == b'\\') ≡ false

escape_char_cases :
    (c : ℕ) → (escape_char c ≡ c ∷ []) ⊎ ((more : Bytes) × (escape_char c ≡ b'\\' ∷ more))
unfolding escape_char
escape_char_cases c = ground arith

-- What is plain behind the escapes is so in front of them.
escape-plain : (s t : Bytes) → All IsPlain t → escape s ≡ t → s ≡ t
unfolding escape
escape-plain [] t h e = e
escape-plain (c ∷ cs) [] h e = elim (escape_char_cases c) [
  | inl f ↦ absurd (ground (arith, ap length (ap (λ x. x ++ escape cs) (sym f) ∙ e)))
  | inr f ↦ absurd (ground (arith, ap length (ap (λ x. x ++ escape cs) (sym f.1) ∙ e)))
]
escape-plain (c ∷ cs) (d ∷ ds) h e = elim (escape_char_cases c) [
  | inl f ↦
      let same = ap (λ x. x ++ escape cs) (sym f) ∙ e in
      let others = escape-plain cs ds h.1 (cons_tail same) in
      ap (λ x. x ∷ cs) (cons_head same) ∙ ap (λ x. d ∷ x) others
  | inr f ↦
      let same = ap (λ x. x ++ escape cs) (sym f.1) ∙ e in
      absurd (ground (arith, h.0, cons_head same))
]

-- A turn that has just been told its end.
abbrev pub ended : ConversationTurn → Outcome → ErrorCode → ConversationTurn
ended t outcome code = record t {
  outcome = outcome;
  code = code;
  calls = t.calls ++ on_finished outcome code ∷ [];
}

-- How a turn that runs ends for a reason.
abbrev pub EndsBy : ConversationTurn → Bytes → ConversationTurn → Type 0
EndsBy t reason after =
    ((reason ≡ codes "completed") × (after ≡ ended t completed no_error))
    ⊎ ((reason ≡ codes "cancelled") × (after ≡ ended t cancelled no_error))
    ⊎ ((reason ≢ codes "completed")
        × (reason ≢ codes "cancelled")
        × (((t.reported_error ≡ no_error) × (after ≡ ended t failed internal))
            ⊎ ((t.reported_error ≢ no_error) × (after ≡ ended t failed t.reported_error))))

finish-ended :
    (t : ConversationTurn) (outcome : Outcome) (code : ErrorCode)
    → t.outcome ≡ running
    → finish t outcome code ≡ ended t outcome code
unfolding finish
finish-ended t outcome code runs = rw runs refl

error_cases :
    (code : ErrorCode)
    → ((code ≡ no_error) × (reported_or_internal code ≡ internal))
      ⊎ ((code ≢ no_error) × (reported_or_internal code ≡ code))
error_cases code = ground arith

completed-IsPlain : All IsPlain (codes "completed")
completed-IsPlain = (refl, (refl, (refl, (refl, (refl, (refl, (refl, (refl, (refl, tt)))))))))

cancelled-IsPlain : All IsPlain (codes "cancelled")
cancelled-IsPlain = (refl, (refl, (refl, (refl, (refl, (refl, (refl, (refl, (refl, tt)))))))))

-- The comparison of the code with a plain name is that of the reason with the name.
same_reason :
    (reason name : Bytes) → All IsPlain name → bytes_eq (escape reason) name ≡ true → reason ≡ name
same_reason reason name h e = escape-plain reason name h ((bytes_eq_iff (escape reason) name).0 e)

other_reason :
    (reason name : Bytes)
    → escape name ≡ name
    → bytes_eq (escape reason) name ≡ false
    → reason ≢ name
other_reason reason name h e same =
    absurd (ground (arith, e, (bytes_eq_iff (escape reason) name).1 (ap escape same ∙ h)))

failed_code :
    (t : ConversationTurn)
    → let after = finish t failed (reported_or_internal t.reported_error) in
      t.outcome ≡ running
      → ((t.reported_error ≡ no_error) × (after ≡ ended t failed internal))
        ⊎ ((t.reported_error ≢ no_error) × (after ≡ ended t failed t.reported_error))
failed_code t runs =
    let told = finish-ended t failed (reported_or_internal t.reported_error) runs in
    elim (error_cases t.reported_error) [
      | inl e ↦ inl (e.0, told ∙ ap (ended t failed) e.1)
      | inr e ↦ inr (e.0, told ∙ ap (ended t failed) e.1)
    ]

handle_finished-EndsBy :
    (t : ConversationTurn) (reason : Bytes)
    → t.outcome ≡ running
    → EndsBy t reason (handle_finished t (some (escape reason)))
unfolding handle_finished outcome_of escape escape_char
handle_finished-EndsBy t reason runs =
    elim (Bool-cases (bytes_eq (escape reason) (codes "completed"))) [
      | inl e ↦
          rw e
            (inl (same_reason reason _ completed-IsPlain e, finish-ended t completed no_error runs))
      | inr e ↦ elim (Bool-cases (bytes_eq (escape reason) (codes "cancelled"))) [
        | inl f ↦
            rw (e, f)
              (inr (
                inl (
                  same_reason reason _ cancelled-IsPlain f,
                  finish-ended t cancelled no_error runs,
                )))
        | inr f ↦
            let not_completed = other_reason reason (codes "completed") refl e in
            let not_cancelled = other_reason reason (codes "cancelled") refl f in
            rw (e, f) (inr (inr (not_completed, not_cancelled, failed_code t runs)))
      ]
    ]

module _ (overflow : Bytes → Bytes → ℤ) where
  not_done :
      (body : Bytes)
      → json_find_integer body (codes "v") ≡ parsed (pos 1)
      → bytes_eq body (codes "[DONE]") ≡ false
  unfolding json_find_integer
  not_done body found = elim (Bool-cases (bytes_eq body (codes "[DONE]"))) [
    | inl e ↦
        let same = (bytes_eq_iff body (codes "[DONE]")).0 e in
        let nothing = find_member-array (codes "DONE]") (codes "v") in
        absurd (
          ground (
            arith,
            sym (ap integer_found (ap (λ b. find_member b (codes "v")) same ∙ nothing)) ∙ found,
          ))
    | inr e ↦ e
  ]

  -- A valid event whose payload is an object is handled by its name and its payload.
  pub handle_event-write_event :
      (t : ConversationTurn) (capacity : ℕ) (name : Bytes) (ms : Members)
      → height (object ms) + 1 ≤ max_depth
      → valid (write_event (make_writer capacity) name (render (object ms))) ≡ true
      → handle_event overflow t (write_event (make_writer capacity) name (render (object ms))).out
        ≡ handle_named overflow t (escape name) (render (object ms))
  unfolding handle_event find_integer handle_payload
  handle_event-write_event t capacity name ms low ok =
      let (version, kind, named, payload) = write_event-found capacity name ms low ok in
      let body = (write_event (make_writer capacity) name (render (object ms))).out in
      rw (not_done body version, version, kind, bytes_eq_refl (codes "event"), named, payload) refl

  reason_found :
      (reason : Bytes)
      → json_find_raw_string
          (render (object (member (codes "reason") (text reason) end)))
          (codes "reason")
        ≡ some (escape reason)
  unfolding json_find_raw_string lookup escape escape_char bytes_eq
  reason_found reason =
      let ms = member (codes "reason") (text reason) end in
      let whole = sym (append-nil (render (object ms))) in
      ap (λ b. string_found (find_member b (codes "reason"))) whole
      ∙ ap string_found (find_member-render ms (codes "reason") [])

  -- The event that ends the conversation, written whole with a reason, ends a turn that runs, and the
  -- listener is told the same: `completed` and `cancelled` as such without a code; any other reason
  -- as a failure, under the code of the error that was reported, or the internal one if none was.
  pub handle_event-finished :
      (t : ConversationTurn) (capacity : ℕ) (reason : Bytes)
      → let payload = render (object (member (codes "reason") (text reason) end)) in
        let w = write_event (make_writer capacity) (codes "conversation.finished") payload in
        t.outcome ≡ running → valid w ≡ true → EndsBy t reason (handle_event overflow t w.out)
  unfolding handle_named handle_finished escape escape_char bytes_eq height
  handle_event-finished t capacity reason runs ok =
      let ms = member (codes "reason") (text reason) end in
      let handled =
        handle_event-write_event t capacity (codes "conversation.finished") ms (omega arith) ok
        ∙ ap (handle_finished t) (reason_found reason) in
      subst (EndsBy t reason) (sym handled) (handle_finished-EndsBy t reason runs)
