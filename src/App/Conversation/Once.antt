-- ===== src/App/Conversation/Once.antt =====
-- The end of a turn is reported once, and nothing is reported behind it.
use stackchan_atoms3r.Base.{
  Bool, true, false, not, List, [], ◌∷◌, ◌++◌, ◌≡◌, inl, inr, refl, ap, sym, subst, ◌∙◌,
  if◌then◌else◌, if_both, ◌==◌, length, Bytes, arith, Bool-cases,
}
use stackchan_atoms3r.Base.Int.{ℤ}
use stackchan_atoms3r.Domain.Sse
use stackchan_atoms3r.Domain.Protocol.{ErrorCode, error_value}
use stackchan_atoms3r.App.Conversation.{
  cancelled, failed, ConversationTurn, conversation_turn, is_running, finish, abort,
  reported_or_internal, take_events, feed, finish_input,
}
use stackchan_atoms3r.App.Conversation.Ending.{
  Going, Done, IsReported, finish-Done, event_loop-IsReported,
}

-- What the owner of a turn may call.
pub data Input : Type 0 where
  fed : Bytes → Input
  closed : Input
  aborted : ErrorCode → Input

abort-Done : (t : ConversationTurn) (code : ErrorCode) → Going t → Done (abort t code)
unfolding abort
abort-Done t code h = elim (Bool-cases (error_value code == error_value ErrorCode.cancelled)) [
  | inl e ↦ rw e (finish-Done t cancelled code refl h)
  | inr e ↦ rw e (finish-Done t failed code refl h)
]

module _ (overflow : Bytes → Bytes → ℤ) where
  unfoldable pub step : ConversationTurn → Input → ConversationTurn
  step t (fed bytes) = feed overflow t bytes
  step t closed = finish_input overflow t
  step t (aborted code) = abort t code

  unfoldable pub run : ConversationTurn → List Input → ConversationTurn
  run t [] = t
  run t (i ∷ is) = run (step t i) is

  take_events-IsReported : (t : ConversationTurn) → Going t → IsReported (take_events overflow t)
  unfolding take_events
  take_events-IsReported t h = event_loop-IsReported overflow (length t.sse.fifo) t (inl h)

  -- Nothing that is called behind the end of a turn changes it: no call is made, no event counted.
  pub step-ended : (t : ConversationTurn) (i : Input) → is_running t.outcome ≡ false → step t i ≡ t
  unfolding step feed finish_input abort finish
  step-ended t (fed bytes) h = rw h refl
  step-ended t closed h = rw h refl
  step-ended t (aborted code) h = rw h refl

  finish_input-Done : (t : ConversationTurn) → Going t → Done (finish_input overflow t)
  unfolding finish_input
  finish_input-Done t h =
      let taken = take_events overflow (record t { sse = Sse.finish t.sse }) in
      let reported = take_events-IsReported (record t { sse = Sse.finish t.sse }) h in
      let last = finish taken failed (reported_or_internal taken.reported_error) in
      if_both Done (not (is_running t.outcome)) t
        (if not (is_running taken.outcome) then taken else last)
        (λ e. absurd (ground (arith, e, ap is_running h.0)))
        (λ e.
          if_both Done (not (is_running taken.outcome)) taken last
            (λ f. elim reported [
              | inl g ↦ absurd (ground (arith, f, ap is_running g.0))
              | inr d ↦ d
            ])
            (λ f. elim reported [
              | inl g ↦ finish-Done taken failed (reported_or_internal taken.reported_error) refl g
              | inr d ↦ absurd (ground (arith, f, d.0))
            ]))

  feed-IsReported :
      (t : ConversationTurn) (bytes : Bytes) → Going t → IsReported (feed overflow t bytes)
  unfolding feed
  feed-IsReported t bytes h =
      let next = record t { sse = Sse.feed t.sse bytes } in
      if_both IsReported (not (is_running t.outcome)) t (take_events overflow next) (λ e. inl h)
        (λ e. take_events-IsReported next h)

  step-IsReported : (t : ConversationTurn) (i : Input) → IsReported t → IsReported (step t i)
  unfolding step
  step-IsReported t i (inr h) = subst IsReported (sym (step-ended t i h.0)) (inr h)
  step-IsReported t (fed bytes) (inl h) = feed-IsReported t bytes h
  step-IsReported t closed (inl h) = inr (finish_input-Done t h)
  step-IsReported t (aborted code) (inl h) = inr (abort-Done t code h)

  -- It holds of a turn, if it does at the start, whatever is called of it in any order: until its end no
  -- call reports the end, and from then on one call does, the last of all, with the outcome and the code
  -- that the turn has.
  pub run-IsReported :
      (t : ConversationTurn) (is : List Input) → IsReported t → IsReported (run t is)
  unfolding run
  run-IsReported t [] h = h
  run-IsReported t (i ∷ is) h = run-IsReported (step t i) is (step-IsReported t i h)

  run-ended : (t : ConversationTurn) (is : List Input) → is_running t.outcome ≡ false → run t is ≡ t
  unfolding run
  run-ended t [] h = refl
  run-ended t (i ∷ is) h = ap (λ u. run u is) (step-ended t i h) ∙ run-ended t is h

  abbrev pub ends : Input → Bool
  ends (fed bytes) = false
  ends _ = true

  step-Done : (t : ConversationTurn) (i : Input) → ends i ≡ true → IsReported t → Done (step t i)
  unfolding step
  step-Done t i h (inr d) = subst Done (sym (step-ended t i d.0)) d
  step-Done t (fed bytes) h (inl g) = absurd (ground (arith, h))
  step-Done t closed h (inl g) = finish_input-Done t g
  step-Done t (aborted code) h (inl g) = abort-Done t code g

  run-append : (t : ConversationTurn) (is js : List Input) → run t (is ++ js) ≡ run (run t is) js
  unfolding run
  run-append t [] js = refl
  run-append t (i ∷ is) js = run-append (step t i) is js

  -- A turn that is closed or aborted, whatever else is called of it before and behind, has reported its
  -- end, once, as its last call, and stays as it was when that came.
  pub run-ends :
      (before behind : List Input) (i : Input)
      → ends i ≡ true
      → Done (run conversation_turn (before ++ i ∷ behind))
        × (run conversation_turn (before ++ i ∷ behind) ≡ run conversation_turn (before ++ i ∷ []))
  unfolding conversation_turn run
  run-ends before behind i h =
      let start : IsReported conversation_turn = inl (refl, tt) in
      let t = run conversation_turn before in
      let ended = step-Done t i h (run-IsReported conversation_turn before start) in
      let same =
        run-append conversation_turn before (i ∷ behind) ∙ run-ended (step t i) behind ended.0 in
      (subst Done (sym same) ended, same ∙ sym (run-append conversation_turn before (i ∷ [])))
