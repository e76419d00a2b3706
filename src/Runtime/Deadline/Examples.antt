-- ===== src/Runtime/Deadline/Examples.antt =====
-- The theorems of Wrap at a clock that is about to wrap.
use stackchan_atoms3r.Base.{◌+◌, ◌-◌, ◌%◌, ◌≡◌, true, arith}
use stackchan_atoms3r.Base.Words.{u32_mod}
use stackchan_atoms3r.Runtime.Deadline.{Deadline, after, remaining}
use stackchan_atoms3r.Runtime.Deadline.Wrap.{remaining-after}

remaining-after_example : remaining (after 4294967290 100) ((4294967290 + 30) % u32_mod) ≡ 100 - 30
remaining-after_example =
    remaining-after 4294967290 100 30 (omega arith) (omega arith) (omega arith)

abbrev parent : Deadline
parent = record { expires_at = 50; bounded = true }
