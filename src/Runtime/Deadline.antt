-- ===== src/Runtime/Deadline.antt =====
-- src/core/stackchan_runtime/src/deadline.cpp. A clock value is a 32-bit count of milliseconds; the
-- two subtractions of the source wrap, and so do those here.
mod Wrap
mod Examples
use stackchan_atoms3r.Base.{
  ℕ, ◌+◌, ◌-◌, ◌/◌, ◌%◌, Bool, true, false, ◌&&◌, ltb, ◌==◌, if◌then◌else◌,
}
use stackchan_atoms3r.Base.Words.{u32_mod}

pub record Deadline : Type 0 where
  pub expires_at : ℕ
  pub bounded : Bool

abbrev pub unbounded : ℕ
unbounded = u32_mod - 1

-- `kHalf`, that is, `UINT32_MAX / 2`.
abbrev pub half : ℕ
half = (u32_mod - 1) / 2

pub never : Deadline
never = record { expires_at = 0; bounded = false }

unfoldable pub after : ℕ → ℕ → Deadline
after now timeout = record { expires_at = (now + timeout) % u32_mod; bounded = true }

unfoldable pub remaining : Deadline → ℕ → ℕ
remaining d now =
    if d.bounded
    then (let delta = (d.expires_at + u32_mod - now) % u32_mod in
        if ltb half delta then 0 else delta)
    else unbounded

unfoldable pub expired : Deadline → ℕ → Bool
expired d now = d.bounded && remaining d now == 0

unfoldable pub earlier_of : Deadline → Deadline → ℕ → Deadline
earlier_of d other now =
    if d.bounded
    then (if other.bounded
        then (if ltb (remaining other now) (remaining d now) then other else d)
        else d)
    else other
