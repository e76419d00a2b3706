-- ===== src/Runtime/Cancellation/Effect.antt =====
-- What survives once a call has returned.
use stackchan_atoms3r.Base.{ℕ, ◌≤◌, Bool, List, [], ◌∷◌, ◌++◌, ◌≡◌, ◌≢◌, refl, arith, All}
use stackchan_atoms3r.Runtime.Cancellation.{
  CancelReason, emergency_stop, gravity, Call, cancel, reset, clear_emergency, run,
}
use stackchan_atoms3r.Runtime.Cancellation.Linear.{effects, launch, run-effects}

effects-append :
    (later earlier : List Call) (s : CancelReason)
    → effects (later ++ earlier) s ≡ effects later (effects earlier s)
effects-append [] earlier s = refl
effects-append (c ∷ later) earlier s = ground (arith, effects-append later earlier s)

emergency_kept :
    (later : List Call) (s : CancelReason)
    → All (λ c. c ≢ clear_emergency) later
    → s ≡ emergency_stop
    → effects later s ≡ emergency_stop
emergency_kept [] s h e = e
emergency_kept (cancel r ∷ later) s h e = ground (arith, emergency_kept later s h.1 e)
emergency_kept (reset ∷ later) s h e = ground (arith, emergency_kept later s h.1 e)
emergency_kept (clear_emergency ∷ later) s h e = absurd (h.0 refl)

-- Once a call of `cancel(emergency_stop)` has returned, the reason is the emergency stop for as
-- long as no later call that returned is `clear_emergency`, whatever other cancellations and resets
-- ran at the same time.
pub emergency_survives :
    (s₀ : CancelReason) (cs : List Call) (es : List (ℕ × Bool)) (later earlier : List Call)
    → (run (launch s₀ cs) es).history ≡ later ++ cancel emergency_stop ∷ earlier
    → All (λ c. c ≢ clear_emergency) later
    → (run (launch s₀ cs) es).shared ≡ emergency_stop
emergency_survives s₀ cs es later earlier h k = ground (
  arith,
  run-effects s₀ cs es,
  effects-append later (cancel emergency_stop ∷ earlier) s₀,
  emergency_kept later (effects (cancel emergency_stop ∷ earlier) s₀) k,
)

-- A cancellation.
abbrev pub IsCancel : Call → Type 0
IsCancel (cancel r) = Unit
IsCancel _ = ⊥

cancel_grows :
    (later : List Call) (s : CancelReason)
    → All IsCancel later
    → gravity s ≤ gravity (effects later s)
cancel_grows [] s h = omega arith
cancel_grows (cancel r ∷ later) s h = ground (arith, cancel_grows later s h.1)
cancel_grows (reset ∷ later) s h = absurd h.0
cancel_grows (clear_emergency ∷ later) s h = absurd h.0

-- A cancellation that has returned is in force, or a graver one is: the reason stays at least as
-- grave for as long as only cancellations return after it.
pub graver_wins :
    (s₀ : CancelReason) (cs : List Call) (es : List (ℕ × Bool)) (r : CancelReason)
    (later earlier : List Call)
    → (run (launch s₀ cs) es).history ≡ later ++ cancel r ∷ earlier
    → All IsCancel later
    → gravity r ≤ gravity (run (launch s₀ cs) es).shared
graver_wins s₀ cs es r later earlier h k = ground (
  arith,
  run-effects s₀ cs es,
  effects-append later (cancel r ∷ earlier) s₀,
  cancel_grows later (effects (cancel r ∷ earlier) s₀) k,
)
