-- ===== src/Runtime/BufferPool/Examples.antt =====
-- A pool of two blocks, one of them lent.
use stackchan_atoms3r.Base.{◌≡◌, ◌≢◌, ◌⊎◌, refl, true, false, [], ◌∷◌, length, get_or, arith}
use stackchan_atoms3r.Runtime.BufferPool.{BufferPool, Lease, acquire, release}
use stackchan_atoms3r.Runtime.BufferPool.Leases.{
  IsValid, Holds, count_taken, acquire-lease, release-lease,
}

abbrev one_lent : BufferPool
one_lent = record { taken = true ∷ false ∷ []; in_use = 1; high_water = 1; exhausted = 0 }

abbrev lent : Lease
lent = record { index = 0; valid = true }

one_lent-IsValid : IsValid one_lent
one_lent-IsValid = (refl, omega arith, omega arith)

acquire-lease_example :
    IsValid (acquire one_lent).0
    × (((acquire one_lent).1.valid ≡ false)
          × (count_taken one_lent.taken ≡ length one_lent.taken)
          × ((acquire one_lent).0.taken ≡ one_lent.taken)
        ⊎ Holds (acquire one_lent).0 (acquire one_lent).1
          × ((l : Lease)
              → Holds one_lent l
              → Holds (acquire one_lent).0 l × (l.index ≢ (acquire one_lent).1.index)))
acquire-lease_example = acquire-lease one_lent one_lent-IsValid

release-lease_example :
    IsValid (release one_lent lent).0
    × ((release one_lent lent).1.valid ≡ false)
    × (get_or (release one_lent lent).0.taken 0 true ≡ false)
    × ((k : Lease) → Holds one_lent k → k.index ≢ 0 → Holds (release one_lent lent).0 k)
release-lease_example = release-lease one_lent lent one_lent-IsValid (refl, omega arith, refl)
