-- ===== src/Runtime/BufferPool/Leases.antt =====
-- The leases that are out are the blocks that are taken, each once.
use stackchan_atoms3r.Base.{
  ℕ, zero, suc, ◌+◌, ◌≤◌, ◌<◌, Bool, true, false, List, [], ◌∷◌, none, some, ◌≡◌, ◌≢◌, ◌⊎◌, inl,
  inr, refl, ap, sym, ◌∙◌, if◌then◌else◌, some_inj, subst, length, length-set, set, get_or,
  get_or-set_self, get_or-set_ne, arith, Option-cases,
}
use stackchan_atoms3r.Runtime.BufferPool.{
  BufferPool, Lease, first_free, next_index, acquire_at, acquire, give_back, release, move, assign,
}

abbrev pub count_taken : List Bool → ℕ
count_taken [] = 0
count_taken (t ∷ ts) = (if t then 1 else 0) + count_taken ts

-- What the source counts is what is taken.
abbrev pub IsValid : BufferPool → Type 0
IsValid p =
    (p.in_use ≡ count_taken p.taken) × (p.in_use ≤ p.high_water) × (p.high_water ≤ length p.taken)

-- A lease that is valid is of a block of the pool that is taken.
abbrev pub Holds : BufferPool → Lease → Type 0
Holds p l = (l.valid ≡ true) × (l.index < length p.taken) × (get_or p.taken l.index false ≡ true)

count_taken_le : (ts : List Bool) → count_taken ts ≤ length ts
count_taken_le [] = omega arith
count_taken_le (true ∷ ts) = omega (arith, count_taken_le ts)
count_taken_le (false ∷ ts) = omega (arith, count_taken_le ts)

count_taken-set_true :
    (ts : List Bool) (i : ℕ)
    → i < length ts
    → get_or ts i false ≡ false
    → count_taken (set ts i true) ≡ count_taken ts + 1
count_taken-set_true [] i h free = elim h [ ]
count_taken-set_true (t ∷ ts) zero h free = ground (arith, free)
count_taken-set_true (t ∷ ts) (suc i) h free =
    omega (arith, count_taken-set_true ts i (omega (arith, h)) free)

count_taken-set_false :
    (ts : List Bool) (i : ℕ)
    → i < length ts
    → get_or ts i false ≡ true
    → count_taken (set ts i false) + 1 ≡ count_taken ts
count_taken-set_false [] i h free = elim h [ ]
count_taken-set_false (t ∷ ts) zero h free = ground (arith, free)
count_taken-set_false (t ∷ ts) (suc i) h free =
    omega (arith, count_taken-set_false ts i (omega (arith, h)) free)

first_free-some :
    (ts : List Bool) (i : ℕ)
    → first_free ts ≡ some i
    → (i < length ts) × (get_or ts i false ≡ false)
unfolding first_free
first_free-some [] i h = ground (arith, h)
first_free-some (false ∷ ts) zero h = (omega arith, refl)
first_free-some (false ∷ ts) (suc i) h = absurd (ground (arith, h))
first_free-some (true ∷ ts) i h = elim (Option-cases (first_free ts)) [
  | inl e ↦ absurd (ground (arith, sym (ap next_index e) ∙ h))
  | inr (j, e) ↦
      let at : suc j ≡ i = some_inj (sym (ap next_index e) ∙ h) in
      let (inside, free) = first_free-some ts j e in
      subst (λ n. (n < suc (length ts)) × (get_or (true ∷ ts) n false ≡ false)) at
        (omega (arith, inside), free)
]

first_free-none : (ts : List Bool) → first_free ts ≡ none → count_taken ts ≡ length ts
unfolding first_free
first_free-none [] h = refl
first_free-none (false ∷ ts) h = ground (arith, h)
first_free-none (true ∷ ts) h = elim (Option-cases (first_free ts)) [
  | inl e ↦ omega (arith, first_free-none ts e)
  | inr (j, e) ↦ absurd (ground (arith, sym (ap next_index e) ∙ h))
]

-- Of a pool whose counts are right, a free block is lent exactly if there is one; the block was not
-- taken and is taken from then on, and every lease that was out still is, of another block. The
-- counts stay what they count.
pub acquire-lease :
    (p : BufferPool)
    → IsValid p
    → IsValid (acquire p).0
      × (((acquire p).1.valid ≡ false)
            × (count_taken p.taken ≡ length p.taken)
            × ((acquire p).0.taken ≡ p.taken)
          ⊎ Holds (acquire p).0 (acquire p).1
            × ((l : Lease) → Holds p l → Holds (acquire p).0 l × (l.index ≢ (acquire p).1.index)))
unfolding acquire acquire_at
acquire-lease p h = elim (Option-cases (first_free p.taken)) [
  | inl e ↦ rw e (h, inl (refl, first_free-none p.taken e, refl))
  | inr (i, e) ↦
      let (inside, free) = first_free-some p.taken i e in
      let size = length-set p.taken i true in
      let more = count_taken-set_true p.taken i inside free in
      let most = count_taken_le (set p.taken i true) in
      rw e (
        (omega (arith, h, more), omega arith, omega (arith, h, more, most, size)),
        inr (
          (refl, omega (arith, inside, size), get_or-set_self p.taken i true false inside),
          λ l held.
              let other : l.index ≢ i = λ same.
                absurd
                  (ground (arith, sym (ap (λ n. get_or p.taken n false) same) ∙ held.2, free)) in
              (
                (
                  held.0,
                  omega (arith, held.1, size),
                  get_or-set_ne p.taken i l.index true false (λ same. other (sym same)) ∙ held.2,
                ),
                other,
              ),
        ),
      )
]

-- In a pool whose counts are right, a lease of it that is given back ends, its block is free, every
-- lease of another block is still out, and the counts stay what they count.
pub release-lease :
    (p : BufferPool) (l : Lease)
    → IsValid p
    → Holds p l
    → IsValid (release p l).0
      × ((release p l).1.valid ≡ false)
      × (get_or (release p l).0.taken l.index true ≡ false)
      × ((k : Lease) → Holds p k → k.index ≢ l.index → Holds (release p l).0 k)
unfolding release give_back
release-lease p l h held =
    let less = count_taken-set_false p.taken l.index held.1 held.2 in
    let size = length-set p.taken l.index false in
    rw held.0 (
      (omega (arith, h, less), omega (arith, h), omega (arith, h, size)),
      refl,
      get_or-set_self p.taken l.index false true held.1,
      λ k other apart. (
        other.0,
        omega (arith, other.1, size),
        get_or-set_ne p.taken l.index k.index false false (λ same. apart (sym same)) ∙ other.2,
      ),
    )

-- Moving a lease over one that is out gives that one back, and hands on the other, which ends there.
pub assign-lease :
    (p : BufferPool) (this other : Lease)
    → IsValid p
    → Holds p this
    → Holds p other
    → other.index ≢ this.index
    → let (after, new, old) = assign p this other in
      IsValid after
      × Holds after new
      × (old.valid ≡ false)
      × (get_or after.taken this.index true ≡ false)
unfolding assign move
assign-lease p this other h held kept apart =
    let (valid, ended, free, others) = release-lease p this h held in
    (valid, others other kept apart, refl, free)
