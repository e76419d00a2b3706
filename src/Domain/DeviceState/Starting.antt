-- ===== src/Domain/DeviceState/Starting.antt =====
-- The reason that is given and the test of the start agree.
use stackchan_atoms3r.Base.{true, [], ◌≡◌, ◌↔◌, arith}
use stackchan_atoms3r.Domain.DeviceState.{DeviceState, can_start_conversation, why_cannot_start}

-- A conversation may start exactly if there is no reason why it may not.
pub can_start-why :
    (s : DeviceState) → (can_start_conversation s ≡ true) ↔ (why_cannot_start s ≡ [])
unfolding can_start_conversation why_cannot_start
can_start-why s = ground arith
