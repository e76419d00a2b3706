-- ===== src/Runtime/Cancellation.antt =====
-- src/core/stackchan_runtime/src/cancellation.cpp. The reason is one atomic word that several tasks
-- and interrupts write. Each call is a program counter that advances by one atomic access at a
-- time, and a schedule says which call moves next and whether a weak compare-exchange fails
-- for no cause.
mod Linear
mod Effect
mod Examples
use stackchan_atoms3r.Base.{
  ℕ, zero, suc, Bool, true, false, not, ◌&&◌, List, [], ◌∷◌, ◌++◌, Option, none, some, ltb, ◌==◌,
  if◌then◌else◌, get_elem?, set,
}

pub data CancelReason : Type 0 where
  no_reason timeout requested shutdown emergency_stop : CancelReason

-- The underlying `std::uint8_t` of a reason, which is its gravity.
abbrev pub gravity : CancelReason → ℕ
gravity no_reason = 0
gravity timeout = 1
gravity requested = 2
gravity shutdown = 3
gravity emergency_stop = 4

abbrev pub same : CancelReason → CancelReason → Bool
same a b = gravity a == gravity b

pub data Call : Type 0 where
  cancel : CancelReason → Call
  reset clear_emergency : Call

-- Where a call stands: not begun; in its loop with the value that it last read; or returned.
pub data Pc : Type 0 where
  start : Call → Pc
  cancel_loop : CancelReason → CancelReason → Pc
  reset_loop : CancelReason → Pc
  returned : Call → Pc

-- The loop's test in `cancel`, on the value just read.
cancel_test : CancelReason → CancelReason → Pc
cancel_test reason current =
    if ltb (gravity current) (gravity reason)
    then cancel_loop reason current
    else returned (cancel reason)

-- The loop's test in `reset`.
reset_test : CancelReason → Pc
reset_test current =
    if not (same current emergency_stop)
      && (not (same current shutdown) && not (same current no_reason))
    then reset_loop current
    else returned reset

-- One atomic access of a call, and the tests up to its next access. The flag is a spurious failure
-- of `compare_exchange_weak`.
unfoldable pub advance : Bool → CancelReason → Pc → CancelReason × Pc
unfolding cancel_test reset_test
advance spurious shared (start (cancel reason)) =
    if same reason no_reason
    then (shared, returned (cancel reason))
    else (shared, cancel_test reason shared)
advance spurious shared (start reset) = (shared, reset_test shared)
advance spurious shared (start clear_emergency) =
    if same shared emergency_stop
    then (no_reason, returned clear_emergency)
    else (shared, returned clear_emergency)
advance spurious shared (cancel_loop reason current) =
    if same current shared && not spurious
    then (reason, returned (cancel reason))
    else (shared, cancel_test reason shared)
advance spurious shared (reset_loop current) =
    if same current shared && not spurious
    then (no_reason, returned reset)
    else (shared, reset_test shared)
advance spurious shared (returned c) = (shared, returned c)

-- The shared word, the calls in progress, and the calls that have returned, the last one first.
pub record System : Type 0 where
  pub shared : CancelReason
  pub calls : List Pc
  pub history : List Call

abbrev finished : Pc → Pc → List Call → List Call
finished (returned _) _ h = h
finished _ (returned c) h = c ∷ h
finished _ _ h = h

abbrev step_call : System → ℕ → Bool → Option Pc → System
step_call s i spurious none = s
step_call s i spurious (some pc) =
    let (shared', pc') = advance spurious s.shared pc in
    record { shared = shared'; calls = set s.calls i pc'; history = finished pc pc' s.history }

-- Call number `i` makes its next access.
pub step : System → ℕ × Bool → System
step s (i, spurious) = step_call s i spurious (get_elem? s.calls i)

pub run : System → List (ℕ × Bool) → System
run s [] = s
run s (e ∷ es) = run (step s e) es
