-- ===== src/Runtime/Mailbox/Examples.antt =====
-- A mailbox of two slots that has wrapped: 7 and 8 wait in it, 8 in the first slot.
use stackchan_atoms3r.Base.{
  ℕ, [], ◌∷◌, none, some, ◌≡◌, refl, ◌⊎◌, ◌==◌, if◌then◌else◌, length, arith,
}
use stackchan_atoms3r.Runtime.Mailbox.{Mailbox, drop_oldest, push, pop}
use stackchan_atoms3r.Runtime.Mailbox.Refinement.{
  IsValid, contents, push_list, push-contents, pop-contents,
}

abbrev full : Mailbox ℕ
full = record {
  slots = 8 ∷ 7 ∷ [];
  head = 1;
  size = 2;
  dropped = 3;
  high_water = 2;
  policy = drop_oldest;
}

full-IsValid : IsValid 2 0 full
full-IsValid = record {
  some_room = omega arith;
  slots_count = refl;
  head_within = omega arith;
  size_within = omega arith;
  marked = omega arith;
  mark_within = omega arith;
}

push-contents_example :
    IsValid 2 0 (push 2 0 full 9).0
    × (contents 2 0 (push 2 0 full 9).0 ≡ (push_list 2 0 drop_oldest (contents 2 0 full) 9).0)
    × ((push 2 0 full 9).1 ≡ (push_list 2 0 drop_oldest (contents 2 0 full) 9).1)
    × ((push 2 0 full 9).0.dropped ≡ (if length (contents 2 0 full) == 2 then 4 else 3))
push-contents_example = push-contents 2 0 full 9 full-IsValid

pop-contents_example :
    IsValid 2 0 (pop 2 0 full).0
    × ((contents 2 0 full ≡ []) × ((pop 2 0 full).1 ≡ none) × ((pop 2 0 full).0 ≡ full)
        ⊎ ((x : ℕ) × ((pop 2 0 full).1 ≡ some x)
            × (contents 2 0 full ≡ x ∷ contents 2 0 (pop 2 0 full).0)))
pop-contents_example = pop-contents 2 0 full full-IsValid
