-- ===== src/Runtime/Deadline/Wrap.antt =====
-- What a deadline promises across the wrap of the clock.
use stackchan_atoms3r.Base.{ℕ, ◌+◌, ◌-◌, ◌%◌, ◌≤◌, ◌<◌, ◌≡◌, ◌↔◌, min, true, arith}
use stackchan_atoms3r.Base.Words.{u32_mod}
use stackchan_atoms3r.Runtime.Deadline.{
  Deadline, unbounded, half, after, remaining, expired, earlier_of,
}

-- A deadline set at `now` for at most half the clock's range counts down exactly: after `e`
-- milliseconds, wherever the clock has wrapped to, what remains is the timeout less `e`, or
-- nothing once the timeout has passed, for as long as the deadline has not been past for more
-- than half the range.
pub remaining-after :
    (now timeout e : ℕ)
    → now < u32_mod
    → timeout ≤ half
    → e ≤ timeout + half
    → remaining (after now timeout) ((now + e) % u32_mod) ≡ timeout - e
unfolding remaining after
remaining-after now timeout e hn ht he = ground arith

-- Under the same conditions the deadline has expired exactly when the timeout has passed.
pub expired-after :
    (now timeout e : ℕ)
    → now < u32_mod
    → timeout ≤ half
    → e ≤ timeout + half
    → (expired (after now timeout) ((now + e) % u32_mod) ≡ true) ↔ (timeout ≤ e)
unfolding expired after
expired-after now timeout e hn ht he = (
  λ x. ground (arith, remaining-after now timeout e),
  λ x. ground (arith, remaining-after now timeout e),
)

pub remaining-le : (d : Deadline) (now : ℕ) → remaining d now ≤ unbounded
unfolding remaining
remaining-le d now = ground arith

-- The earlier of two deadlines has the smaller of the two remaining times, an absent bound being
-- the largest value of the clock.
pub remaining-earlier_of :
    (a b : Deadline) (now : ℕ)
    → remaining (earlier_of a b now) now ≡ min (remaining a now) (remaining b now)
unfolding earlier_of remaining
remaining-earlier_of a b now = ground arith

-- A child deadline made from its parent, for a timeout of at most half the clock's range, never
-- outlasts it: now, and at every later moment within half the range, the child has no more time
-- left than the parent.
pub child-le-parent :
    (parent : Deadline) (now timeout e : ℕ)
    → parent.expires_at < u32_mod
    → now < u32_mod
    → timeout ≤ half
    → e ≤ half
    → remaining (earlier_of parent (after now timeout) now) now ≤ remaining parent now
      × (remaining (earlier_of parent (after now timeout) now) ((now + e) % u32_mod)
          ≤ remaining parent ((now + e) % u32_mod))
unfolding earlier_of remaining after
child-le-parent parent now timeout e hp hn ht he = (ground arith, ground arith)
