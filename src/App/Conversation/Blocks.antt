-- ===== src/App/Conversation/Blocks.antt =====
-- What a turn is told does not depend on how its stream is cut into blocks.
use stackchan_atoms3r.Base.{
  ◌≤◌, true, false, List, [], ◌∷◌, ◌≡◌, inl, inr, refl, ap, sym, subst, ◌∙◌, length, Bytes, concat,
  arith, Bool-cases,
}
use stackchan_atoms3r.Base.Int.{ℤ}
use stackchan_atoms3r.Domain.Sse.{SseReader}
use stackchan_atoms3r.Domain.Sse
use stackchan_atoms3r.Domain.Sse.Queue.{length-Waiting}
use stackchan_atoms3r.Domain.Sse.Events.{
  bare, events, behind, events-append, Drained, Small, feed-Waiting, feed_dropped,
}
use stackchan_atoms3r.App.Conversation.{
  conversation_turn, ConversationTurn, is_running, event_loop, take_events, feed,
}
use stackchan_atoms3r.App.Conversation.Reader.{with_sse}
use stackchan_atoms3r.App.Conversation.Stream.{
  handle_all, handle_all-ended, handle_all-append, handle_all-with_sse, event_loop-Taken,
  event_loop-dropped,
}

module _ (overflow : Bytes → Bytes → ℤ) where
  feed-ended :
      (t : ConversationTurn) (b : Bytes) → is_running t.outcome ≡ false → feed overflow t b ≡ t
  unfolding feed
  feed-ended t b off = rw off refl

  feed-running :
      (t : ConversationTurn) (b : Bytes)
      → is_running t.outcome ≡ true
      → feed overflow t b ≡ take_events overflow (with_sse (Sse.feed t.sse b) t)
  unfolding feed
  feed-running t b on = rw on refl

  feed-dropped :
      (t : ConversationTurn) (b : Bytes) → t.sse.dropped ≤ (feed overflow t b).sse.dropped
  unfolding take_events
  feed-dropped t b = elim (Bool-cases (is_running t.outcome)) [
    | inl on ↦
        let next = with_sse (Sse.feed t.sse b) t in
        let same = event_loop-dropped overflow (length next.sse.fifo) next in
        let e = ap (λ u. u.sse.dropped) (feed-running t b on) in
        omega (arith, e, same, feed_dropped t.sse b)
    | inr off ↦ let e = ap (λ u. u.sse.dropped) (feed-ended t b off) in omega (arith, e)
  ]

  -- Between two blocks.
  abbrev Between : ConversationTurn → Type 0
  Between t = is_running t.outcome ≡ true → Drained t.sse

  feed-events :
      (t : ConversationTurn) (b : Bytes)
      → is_running t.outcome ≡ true
      → Drained t.sse
      → (feed overflow t b).sse.dropped ≡ t.sse.dropped
      → (feed overflow t b
          ≡ with_sse (feed overflow t b).sse (handle_all overflow t (events (bare t.sse) b)))
        × (bare (feed overflow t b).sse ≡ behind (bare t.sse) b)
        × Between (feed overflow t b)
  unfolding take_events
  feed-events t b on d kept =
      let next = with_sse (Sse.feed t.sse b) t in
      let es = events (bare t.sse) b in
      let u = event_loop overflow (length next.sse.fifo) next in
      let count = ap (λ v. v.sse.dropped) (feed-running t b on) in
      let same = event_loop-dropped overflow (length next.sse.fifo) next in
      let still : (Sse.feed t.sse b).dropped ≡ t.sse.dropped = omega (arith, kept, count, same) in
      let (waiting, after, small) = feed-Waiting t.sse b d still in
      let (all, view, drops, drained) =
        event_loop-Taken overflow (length next.sse.fifo) next es waiting
          (length-Waiting next.sse es waiting) in
      let size : Small u.sse = subst (λ s. Small s) (sym view) small in
      rw (feed-running t b on) (
        all ∙ ap (with_sse u.sse) (handle_all-with_sse overflow (Sse.feed t.sse b) t es),
        view ∙ after,
        λ still_on. (drained still_on, size),
      )

  unfoldable pub feed_blocks : ConversationTurn → List Bytes → ConversationTurn
  feed_blocks t [] = t
  feed_blocks t (b ∷ bs) = feed_blocks (feed overflow t b) bs

  feed_blocks-dropped :
      (t : ConversationTurn) (bs : List Bytes) → t.sse.dropped ≤ (feed_blocks t bs).sse.dropped
  unfolding feed_blocks
  feed_blocks-dropped t [] = omega arith
  feed_blocks-dropped t (b ∷ bs) =
      omega (arith, feed-dropped t b, feed_blocks-dropped (feed overflow t b) bs)

  feed_blocks-ended :
      (t : ConversationTurn) (bs : List Bytes) → is_running t.outcome ≡ false → feed_blocks t bs ≡ t
  unfolding feed_blocks
  feed_blocks-ended t [] off = refl
  feed_blocks-ended t (b ∷ bs) off =
      ap (λ u. feed_blocks u bs) (feed-ended t b off) ∙ feed_blocks-ended t bs off

  -- As long as the reader drops nothing, a turn that is fed blocks handles the events of the whole stream.
  pub feed_blocks-handle_all :
      (t : ConversationTurn) (bs : List Bytes)
      → Between t
      → (feed_blocks t bs).sse.dropped ≡ t.sse.dropped
      → feed_blocks t bs
        ≡ with_sse (feed_blocks t bs).sse (handle_all overflow t (events (bare t.sse) (concat bs)))
  unfolding feed_blocks events handle_all
  feed_blocks-handle_all t [] between kept = refl
  feed_blocks-handle_all t (b ∷ bs) between kept = elim (Bool-cases (is_running t.outcome)) [
    | inl on ↦
        let u = feed overflow t b in
        let here = feed-dropped t b in
        let later = feed_blocks-dropped u bs in
        let still : u.sse.dropped ≡ t.sse.dropped = omega (arith, kept, here, later) in
        let (all, view, ready) = feed-events t b on (between on) still in
        let last = feed_blocks u bs in
        let first = events (bare t.sse) b in
        let rest = events (behind (bare t.sse) b) (concat bs) in
        feed_blocks-handle_all u bs ready (omega (arith, kept, still))
        ∙ ap (λ s. with_sse last.sse (handle_all overflow u (events s (concat bs)))) view
        ∙ ap (λ v. with_sse last.sse (handle_all overflow v rest)) all
        ∙ ap (with_sse last.sse)
            (handle_all-with_sse overflow u.sse (handle_all overflow t first) rest)
        ∙ ap (with_sse last.sse) (sym (handle_all-append overflow t first rest))
        ∙ ap (λ es. with_sse last.sse (handle_all overflow t es))
            (sym (events-append (bare t.sse) b (concat bs)))
    | inr off ↦
        let same = feed_blocks-ended t (b ∷ bs) off in
        same
        ∙ ap (λ s. with_sse s t) (sym (ap (λ u. u.sse) same))
        ∙ ap (with_sse (feed_blocks t (b ∷ bs)).sse)
            (sym (handle_all-ended overflow t (events (bare t.sse) (concat (b ∷ bs))) off))
  ]

  -- Two ways to cut one stream into blocks give a new turn the same calls, the same end and the same
  -- counts, as long as its reader drops nothing either way.
  pub feed_blocks_cut :
      (xs ys : List Bytes)
      → concat xs ≡ concat ys
      → (feed_blocks conversation_turn xs).sse.dropped ≡ 0
      → (feed_blocks conversation_turn ys).sse.dropped ≡ 0
      → with_sse Sse.initial (feed_blocks conversation_turn xs)
        ≡ with_sse Sse.initial (feed_blocks conversation_turn ys)
  unfolding conversation_turn
  feed_blocks_cut xs ys same kept_xs kept_ys =
      let start : Between conversation_turn =
        λ on. (record { packed = refl; front = omega arith; fit = tt }, omega arith) in
      let es = events (bare Sse.initial) in
      ap (with_sse Sse.initial) (feed_blocks-handle_all conversation_turn xs start kept_xs)
      ∙ ap (λ x. with_sse Sse.initial (handle_all overflow conversation_turn (es x))) same
      ∙ ap (with_sse Sse.initial) (sym (feed_blocks-handle_all conversation_turn ys start kept_ys))
