-- ===== src/Clock.antt =====
-- `elapsed`, which src/core/stackchan_domain/src/network_policy.cpp, button.cpp and
-- button_gesture.cpp each define in the same words: a difference of two 32-bit clock values.
use stackchan_atoms3r.Base.{ℕ, ◌+◌, ◌-◌, ◌%◌, ◌<◌, ◌≡◌, arith}
use stackchan_atoms3r.Base.Words.{u32_mod}

unfoldable pub elapsed : ℕ → ℕ → ℕ
elapsed from to = (to + u32_mod - from) % u32_mod

pub elapsed-lt : (from to : ℕ) → elapsed from to < u32_mod
unfolding elapsed
elapsed-lt from to = omega arith

-- The difference survives the wrap of the clock.
pub elapsed-add :
    (from e : ℕ) → from < u32_mod → e < u32_mod → elapsed from ((from + e) % u32_mod) ≡ e
unfolding elapsed
elapsed-add from e h k = omega arith
