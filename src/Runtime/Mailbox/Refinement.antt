-- ===== src/Runtime/Mailbox/Refinement.antt =====
-- A mailbox is a queue with a limit: every operation on the ring does to the values it holds what
-- the operation on a list does.
use native.Mathlib.Nat.{mod-lt, mod-eq_of_lt, mod-mod}
use stackchan_atoms3r.Base.{
  ℕ, zero, suc, ◌+◌, ◌-◌, ◌%◌, ◌≤◌, ◌<◌, List, [], ◌∷◌, ◌++◌, Bool, true, false, none, some, ◌≡◌,
  ◌⊎◌, refl, ap, sym, ◌∙◌, get_or, set, length, arith, ◌==◌, if◌then◌else◌, Bool-cases, inl, inr,
  Option-cases, length-set, get_or-set_self, length-replicate,
}
use stackchan_atoms3r.Runtime.Mailbox.{
  Mailbox, OverflowPolicy, rejects, empty, store, evict, take_first, push, pop, clear_loop, clear,
}
use stackchan_atoms3r.Runtime.Mailbox.Ring.{items, items-mod, items-snoc, items-set, length-items}

abbrev pub without_first {ℓ} : {A : Type ℓ} → List A → List A
without_first [] = []
without_first (x ∷ xs) = xs

module _ {A : Type 0} (capacity : ℕ) (blank : A) where
  -- The values held, oldest first.
  abbrev pub contents : Mailbox A → List A
  contents m = items capacity blank m.slots m.head m.size

  pub record IsValid (m : Mailbox A) : Type 0 where
    pub some_room : 0 < capacity
    pub slots_count : length m.slots ≡ capacity
    pub head_within : m.head < capacity
    pub size_within : m.size ≤ capacity
    pub marked : m.size ≤ m.high_water
    pub mark_within : m.high_water ≤ capacity

  pub empty-IsValid : (p : OverflowPolicy) → 0 < capacity → IsValid (empty capacity blank p)
  unfolding empty
  empty-IsValid p h = ground (arith, length-replicate capacity blank)

  store-IsValid :
      (m : Mailbox A) (v : A) → IsValid m → m.size < capacity → IsValid (store capacity blank m v)
  unfolding store
  store-IsValid m v h room = ground (arith, length-set m.slots ((m.head + m.size) % capacity) v)

  store-contents :
      (m : Mailbox A) (v : A)
      → IsValid m
      → m.size < capacity
      → contents (store capacity blank m v) ≡ contents m ++ v ∷ []
  unfolding store
  store-contents m v h room =
      let t = (m.head + m.size) % capacity in
      let slots' = set m.slots t v in
      let stored : get_or slots' t blank ≡ v =
        get_or-set_self m.slots t v blank
          (ground (arith, mod-lt (m.head + m.size) {m = capacity})) in
      let e : m.size + 1 ≡ suc m.size = omega arith in
      ap (items capacity blank slots' m.head) e
      ∙ items-snoc capacity blank slots' m.head m.size
      ∙ cc (
        stored,
        items-set capacity blank m.slots (m.head + m.size) v m.head m.size (omega arith)
            (omega arith),
      )

  evict-IsValid : (m : Mailbox A) → IsValid m → IsValid (evict capacity blank m)
  unfolding evict
  evict-IsValid m h = ground (arith, mod-lt (m.head + 1) {m = capacity})

  -- Moving the head on by one gives up the oldest value.
  advance-contents :
      (slots : List A) (h n : ℕ)
      → items capacity blank slots h (suc n)
        ≡ get_or slots (h % capacity) blank ∷ items capacity blank slots ((h + 1) % capacity) n
  advance-contents slots h n = ap (◌∷◌ (get_or slots (h % capacity) blank)) (
      sym
        (items-mod capacity blank slots ((h + 1) % capacity) (h + 1) n (mod-mod (h + 1) capacity)))

  evict-contents :
      (m : Mailbox A)
      → 0 < m.size
      → contents m ≡ get_or m.slots (m.head % capacity) blank ∷ contents (evict capacity blank m)
  unfolding evict
  evict-contents m h =
      let e : m.size ≡ suc (m.size - 1) = omega arith in
      ap (items capacity blank m.slots m.head) e ∙ advance-contents m.slots m.head (m.size - 1)

  evict_counts :
      (m : Mailbox A)
      → ((evict capacity blank m).size ≡ m.size - 1)
        × ((evict capacity blank m).dropped ≡ m.dropped + 1)
  unfolding evict
  evict_counts m = (refl, refl)

  store_dropped : (m : Mailbox A) (v : A) → (store capacity blank m v).dropped ≡ m.dropped
  unfolding store
  store_dropped m v = refl

  take_first-IsValid : (m : Mailbox A) → IsValid m → IsValid (take_first capacity blank m)
  unfolding take_first
  take_first-IsValid m h =
      ground (arith, mod-lt (m.head + 1) {m = capacity}, length-set m.slots m.head blank)

  take_first-contents :
      (m : Mailbox A)
      → IsValid m
      → 0 < m.size
      → contents m ≡ get_or m.slots m.head blank ∷ contents (take_first capacity blank m)
  unfolding take_first
  take_first-contents m h lt =
      let e : m.size ≡ suc (m.size - 1) = omega arith in
      let wrap : (m.head + capacity) % capacity ≡ m.head =
        grind (arith, mod-eq_of_lt h.head_within) in
      let slot : m.head % capacity ≡ m.head = mod-eq_of_lt h.head_within in
      let behind = items capacity blank m.slots (m.head + 1) (m.size - 1) in
      let cleared : items capacity blank (set m.slots m.head blank) (m.head + 1) (m.size - 1)
          ≡ behind =
        ap (λ i. items capacity blank (set m.slots i blank) (m.head + 1) (m.size - 1)) (sym wrap)
        ∙ items-set capacity blank m.slots (m.head + capacity) blank (m.head + 1) (m.size - 1)
            (omega arith) (omega arith) in
      let moved =
        items-mod capacity blank (set m.slots m.head blank) ((m.head + 1) % capacity) (m.head + 1)
          (m.size - 1) (mod-mod (m.head + 1) capacity) in
      ap (items capacity blank m.slots m.head) e ∙ cc (slot, moved, cleared)

  -- What `push` does to a queue with a limit; the flag says whether the value was taken.
  abbrev pub push_list : OverflowPolicy → List A → A → List A × Bool
  push_list p xs v =
      if length xs == capacity
      then (if rejects p then (xs, false) else (without_first xs ++ v ∷ [], true))
      else (xs ++ v ∷ [], true)

  -- `push` leaves a valid mailbox that holds what the queue holds after its own push, answers as
  -- the queue does, and counts a discarded value exactly when the mailbox was full, under either
  -- policy.
  pub push-contents :
      (m : Mailbox A) (v : A)
      → IsValid m
      → IsValid (push capacity blank m v).0
        × (contents (push capacity blank m v).0 ≡ (push_list m.policy (contents m) v).0)
        × ((push capacity blank m v).1 ≡ (push_list m.policy (contents m) v).1)
        × ((push capacity blank m v).0.dropped
            ≡ (if length (contents m) == capacity then m.dropped + 1 else m.dropped))
  unfolding push
  push-contents m v h = ground (
    arith,
    length-items capacity blank m.slots m.head m.size,
    store-IsValid m v h,
    store-contents m v h,
    evict-IsValid m h,
    evict_counts m,
    evict-contents m,
    store-IsValid (evict capacity blank m) v,
    store-contents (evict capacity blank m) v,
    store_dropped m v,
    store_dropped (evict capacity blank m) v,
  )

  -- `pop` gives out the oldest value and leaves a valid mailbox that holds the others, in order;
  -- on an empty mailbox it gives nothing and changes nothing.
  pub pop-contents :
      (m : Mailbox A)
      → IsValid m
      → IsValid (pop capacity blank m).0
        × ((contents m ≡ []) × ((pop capacity blank m).1 ≡ none) × ((pop capacity blank m).0 ≡ m)
            ⊎ ((x : A) × ((pop capacity blank m).1 ≡ some x)
                × (contents m ≡ x ∷ contents (pop capacity blank m).0)))
  unfolding pop
  pop-contents m h = elim (Bool-cases (m.size == 0)) [
    | inl drained ↦
        rw drained
          (h, inl (ground (arith, length-items capacity blank m.slots m.head m.size), refl, refl))
    | inr left ↦ rw left (
      take_first-IsValid m h,
      inr (get_or m.slots m.head blank, refl, take_first-contents m h (ground arith)),
    )
  ]

  pop_size :
      (m : Mailbox A) (x : A)
      → (pop capacity blank m).1 ≡ some x
      → suc (pop capacity blank m).0.size ≡ m.size
  unfolding pop take_first
  pop_size m x e = ground arith

  pop_stops : (m : Mailbox A) → (pop capacity blank m).1 ≡ none → (pop capacity blank m).0.size ≡ 0
  unfolding pop take_first
  pop_stops m e = ground arith

  clear_loop_size :
      (fuel : ℕ) (m : Mailbox A) → m.size < fuel → (clear_loop capacity blank fuel m).size ≡ 0
  unfolding clear_loop
  clear_loop_size zero m lt = elim lt [ ]
  clear_loop_size (suc fuel) m lt = elim (Option-cases (pop capacity blank m).1) [
    | inl e ↦ rw (e, clear_loop) (pop_stops m e)
    | inr (x, e) ↦
        rw (e, clear_loop)
          (clear_loop_size fuel (pop capacity blank m).0 (omega (arith, pop_size m x e)))
  ]

  -- `clear` ends, and leaves nothing in the mailbox.
  pub clear-contents : (m : Mailbox A) → contents (clear capacity blank m) ≡ []
  unfolding clear
  clear-contents m = rw (clear_loop_size (m.size + 1) m (omega arith))
