-- ===== src/Runtime/Mailbox.antt =====
-- src/core/stackchan_runtime/include/stackchan/runtime/mailbox.hpp: a bounded ring of slots. The
-- capacity is a template parameter of the source and a parameter of the section; `blank` is `T{}`.
mod Ring
mod Refinement
mod Examples
use stackchan_atoms3r.Base.{
  ℕ, zero, suc, ◌+◌, ◌-◌, ◌%◌, max, Bool, true, false, List, Option, none, some, ◌==◌,
  if◌then◌else◌, get_or, set, replicate,
}

pub data OverflowPolicy : Type 0 where
  reject_newest drop_oldest : OverflowPolicy

pub record Mailbox {ℓ} (A : Type ℓ) : Type ℓ where
  pub slots : List A
  pub head : ℕ
  pub size : ℕ
  pub dropped : ℕ
  pub high_water : ℕ
  pub policy : OverflowPolicy

-- `policy_ == OverflowPolicy::reject_newest`
abbrev pub rejects : OverflowPolicy → Bool
rejects reject_newest = true
rejects drop_oldest = false

module _ {ℓ} {A : Type ℓ} (capacity : ℕ) (blank : A) where
  pub empty : OverflowPolicy → Mailbox A
  empty policy = record {
    slots = replicate capacity blank;
    head = 0;
    size = 0;
    dropped = 0;
    high_water = 0;
    policy = policy;
  }

  -- The part of `push` behind the overflow test: there is room.
  store : Mailbox A → A → Mailbox A
  store m value = record m {
    slots = set m.slots ((m.head + m.size) % capacity) value;
    size = m.size + 1;
    high_water = max (m.size + 1) m.high_water;
  }

  -- `drop_oldest`: advance the head to make room.
  evict : Mailbox A → Mailbox A
  evict m = record m { head = (m.head + 1) % capacity; size = m.size - 1; dropped = m.dropped + 1 }

  pub push : Mailbox A → A → Mailbox A × Bool
  push m value =
      if m.size == capacity
      then (if rejects m.policy
          then (record m { dropped = m.dropped + 1 }, false)
          else (store (evict m) value, true))
      else (store m value, true)

  -- The part of `pop` behind the test: the slot is cleared, so that nothing is held by it.
  take_first : Mailbox A → Mailbox A
  take_first m = record m {
    slots = set m.slots m.head blank;
    head = (m.head + 1) % capacity;
    size = m.size - 1;
  }

  pub pop : Mailbox A → Mailbox A × Option A
  pop m = if m.size == 0 then (m, none) else (take_first m, some (get_or m.slots m.head blank))

  -- `while (pop().has_value()) {}` on fuel.
  clear_loop : ℕ → Mailbox A → Mailbox A
  clear_loop zero m = m
  clear_loop (suc fuel) m = elim ((pop m).1) [
    | none ↦ (pop m).0
    | some _ ↦ clear_loop fuel (pop m).0
  ]

  -- One round more than there are values.
  pub clear : Mailbox A → Mailbox A
  unfolding clear_loop
  clear m = clear_loop (m.size + 1) m
