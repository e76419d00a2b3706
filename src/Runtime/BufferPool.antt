-- ===== src/Runtime/BufferPool.antt =====
-- src/core/stackchan_runtime/include/stackchan/runtime/buffer_pool.hpp: a fixed set of blocks, of which
-- each is lent to one holder at a time. The contents of the blocks are left out.
mod Leases
mod Examples
use stackchan_atoms3r.Base.{
  ℕ, zero, suc, ◌+◌, ◌-◌, max, Bool, true, false, List, [], ◌∷◌, Option, none, some, if◌then◌else◌,
  length, set, replicate,
}

pub record BufferPool : Type 0 where
  pub taken : List Bool
  pub in_use : ℕ
  pub high_water : ℕ
  pub exhausted : ℕ

abbrev pub buffer_pool : ℕ → BufferPool
buffer_pool block_count = record {
  taken = replicate block_count false;
  in_use = 0;
  high_water = 0;
  exhausted = 0;
}

-- A lease that is not valid has no pool.
pub record Lease : Type 0 where
  pub index : ℕ
  pub valid : Bool

abbrev pub no_lease : Lease
no_lease = record { index = 0; valid = false }

abbrev next_index : Option ℕ → Option ℕ
next_index none = none
next_index (some i) = some (suc i)

-- The loop of `acquire`: the first block that is not taken.
unfoldable pub first_free : List Bool → Option ℕ
first_free [] = none
first_free (t ∷ ts) = if t then next_index (first_free ts) else some 0

unfoldable pub acquire_at : BufferPool → Option ℕ → BufferPool × Lease
acquire_at p none = (record p { exhausted = p.exhausted + 1 }, no_lease)
acquire_at p (some i) = (
  record p {
    taken = set p.taken i true;
    in_use = p.in_use + 1;
    high_water = max (p.in_use + 1) p.high_water;
  },
  record { index = i; valid = true },
)

unfoldable pub acquire : BufferPool → BufferPool × Lease
acquire p = acquire_at p (first_free p.taken)

-- A valid lease is counted, so that the count is not zero here; at zero the source's would wrap.
unfoldable pub give_back : BufferPool → ℕ → BufferPool
give_back p index = record p { taken = set p.taken index false; in_use = p.in_use - 1 }

unfoldable pub release : BufferPool → Lease → BufferPool × Lease
release p l = if l.valid then (give_back p l.index, record l { valid = false }) else (p, l)

-- The move constructor: the new lease, and what is left of the other.
unfoldable pub move : Lease → Lease × Lease
move other = (other, record other { valid = false })

-- The move assignment from another lease: the pool, this lease and what is left of the other.
unfoldable pub assign : BufferPool → Lease → Lease → BufferPool × Lease × Lease
assign p this other = ((release p this).0, (move other).0, (move other).1)

abbrev pub available : BufferPool → ℕ
available p = length p.taken - p.in_use
