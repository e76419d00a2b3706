-- ===== src/App/Conversation/Stream.antt =====
-- The events that wait are handled in order, up to the end of the turn.
use stackchan_atoms3r.Base.{
  ℕ, zero, suc, ◌≤◌, true, false, List, [], ◌∷◌, ◌++◌, none, some, ◌≡◌, inl, inr, refl, ap, sym,
  subst, ◌∙◌, if◌then◌else◌, Option-cases, length, Bytes, arith, Bool-cases,
}
use stackchan_atoms3r.Base.Int.{ℤ}
use stackchan_atoms3r.Domain.Sse.{SseReader}
use stackchan_atoms3r.Domain.Sse
use stackchan_atoms3r.Domain.Sse.Queue.{Waiting, next_event-Waiting, next_event-empty}
use stackchan_atoms3r.Domain.Sse.Events.{bare, next_event-bare}
use stackchan_atoms3r.App.Conversation.{ConversationTurn, is_running, handle_event, event_loop}
use stackchan_atoms3r.App.Conversation.Reader.{with_sse, handle_event-with_sse}

module _ (overflow : Bytes → Bytes → ℤ) where
  -- The events one after the other, up to the end of the turn.
  unfoldable pub handle_all : ConversationTurn → List Bytes → ConversationTurn
  handle_all t [] = t
  handle_all t (e ∷ es) =
      let rest = handle_all (handle_event overflow t e) es in
      if is_running t.outcome then rest else t

  pub handle_all-ended :
      (t : ConversationTurn) (es : List Bytes) → is_running t.outcome ≡ false → handle_all t es ≡ t
  unfolding handle_all
  handle_all-ended t [] h = refl
  handle_all-ended t (e ∷ es) h = ground (arith, h)

  pub handle_all-append :
      (t : ConversationTurn) (a b : List Bytes)
      → handle_all t (a ++ b) ≡ handle_all (handle_all t a) b
  unfolding handle_all
  handle_all-append t [] b = refl
  handle_all-append t (e ∷ a) b =
      ground (arith, handle_all-append (handle_event overflow t e) a b, handle_all-ended t b)

  pub handle_all-with_sse :
      (r : SseReader) (t : ConversationTurn) (es : List Bytes)
      → handle_all (with_sse r t) es ≡ with_sse r (handle_all t es)
  unfolding handle_all
  handle_all-with_sse r t [] = refl
  handle_all-with_sse r t (e ∷ es) =
      let one = ap (λ u. handle_all u es) (handle_event-with_sse overflow r t e) in
      ground (arith, one ∙ handle_all-with_sse r (handle_event overflow t e) es)

  handle_event-sse :
      (t : ConversationTurn) (body : Bytes) → (handle_event overflow t body).sse ≡ t.sse
  handle_event-sse t body = ap (λ u. u.sse) (handle_event-with_sse overflow t.sse t body)

  -- The reader may have moved on in its queue, and is drained if the turn goes on.
  abbrev pub Taken : ConversationTurn → List Bytes → ConversationTurn → Type 0
  Taken t es u =
      (u ≡ with_sse u.sse (handle_all t es))
      × (bare u.sse ≡ bare t.sse)
      × (u.sse.dropped ≡ t.sse.dropped)
      × (is_running u.outcome ≡ true → Waiting u.sse [])

  event_loop-empty : (n : ℕ) (t : ConversationTurn) → Waiting t.sse [] → event_loop overflow n t ≡ t
  unfolding event_loop
  event_loop-empty zero t w = refl
  event_loop-empty (suc n) t w =
      let nothing : (Sse.next_event t.sse).1 ≡ none = ap (λ p. p.1) (next_event-empty t.sse w) in
      elim (Bool-cases (is_running t.outcome)) [
        | inl on ↦ rw (on, nothing, event_loop) refl
        | inr off ↦ rw (off, event_loop) refl
      ]

  event_loop-ended :
      (n : ℕ) (t : ConversationTurn) → is_running t.outcome ≡ false → event_loop overflow n t ≡ t
  unfolding event_loop
  event_loop-ended zero t off = refl
  event_loop-ended (suc n) t off = rw (off, event_loop) refl

  event_loop-next :
      (n : ℕ) (t : ConversationTurn) (e : Bytes)
      → is_running t.outcome ≡ true
      → (Sse.next_event t.sse).1 ≡ some e
      → event_loop overflow (suc n) t
        ≡ event_loop overflow n (handle_event overflow (with_sse (Sse.next_event t.sse).0 t) e)
  unfolding event_loop
  event_loop-next n t e on next = rw (on, next, event_loop) refl

  pub event_loop-Taken :
      (n : ℕ) (t : ConversationTurn) (es : List Bytes)
      → Waiting t.sse es
      → length es ≤ n
      → Taken t es (event_loop overflow n t)
  unfolding handle_all
  event_loop-Taken n t [] w le =
      subst (Taken t []) (sym (event_loop-empty n t w)) (refl, refl, refl, λ on. w)
  event_loop-Taken zero t (e ∷ es) w le = absurd (omega (arith, le))
  event_loop-Taken (suc n) t (e ∷ es) w le = elim (Bool-cases (is_running t.outcome)) [
    | inl on ↦
        let r = (Sse.next_event t.sse).0 in
        let next = handle_event overflow (with_sse r t) e in
        let (found, left) = next_event-Waiting t.sse e es w in
        let (same, count) = next_event-bare t.sse in
        let reader = handle_event-sse (with_sse r t) e in
        let (all, after, kept, drained) =
          event_loop-Taken n next es (subst (λ s. Waiting s es) (sym reader) left)
            (omega (arith, le)) in
        let u = event_loop overflow n next in
        let handled =
          ap (λ v. handle_all v es) (handle_event-with_sse overflow r t e)
          ∙ handle_all-with_sse r (handle_event overflow t e) es in
        subst (Taken t (e ∷ es)) (sym (event_loop-next n t e on found)) (
          rw on (all ∙ ap (with_sse u.sse) handled),
          after ∙ ap bare reader ∙ same,
          kept ∙ ap (λ s. s.dropped) reader ∙ count,
          drained,
        )
    | inr off ↦
        subst (Taken t (e ∷ es)) (sym (event_loop-ended (suc n) t off))
          (rw off refl, refl, refl, λ on. absurd (ground (arith, on, off)))
  ]

  pub event_loop-dropped :
      (n : ℕ) (t : ConversationTurn) → (event_loop overflow n t).sse.dropped ≡ t.sse.dropped
  unfolding event_loop
  event_loop-dropped zero t = refl
  event_loop-dropped (suc n) t = elim (Bool-cases (is_running t.outcome)) [
    | inl on ↦ elim (Option-cases (Sse.next_event t.sse).1) [
      | inl e ↦ rw (on, e, event_loop) refl
      | inr (body, e) ↦
          let taken = with_sse (Sse.next_event t.sse).0 t in
          rw (on, e, event_loop)
            (event_loop-dropped n (handle_event overflow taken body)
              ∙ ap (λ s. s.dropped) (handle_event-sse taken body)
              ∙ (next_event-bare t.sse).1)
    ]
    | inr off ↦ rw (off, event_loop) refl
  ]
