-- ===== src/Runtime/Cancellation/Examples.antt =====
-- Two cancellations and a reset that interleave: the second cancellation fails its exchange once.
use stackchan_atoms3r.Base.{ℕ, ◌≤◌, Bool, true, false, List, [], ◌∷◌, ◌++◌, ◌≡◌, refl}
use stackchan_atoms3r.Runtime.Cancellation.{
  no_reason, timeout, requested, emergency_stop, gravity, Call, cancel, reset, advance, run, step,
}
use stackchan_atoms3r.Runtime.Cancellation.Linear.{effects, launch, run-effects}
use stackchan_atoms3r.Runtime.Cancellation.Effect.{emergency_survives, graver_wins}

abbrev three_calls : List Call
three_calls = cancel timeout ∷ cancel emergency_stop ∷ reset ∷ []

abbrev schedule : List (ℕ × Bool)
schedule =
    (0, false) ∷ (1, false) ∷ (0, false) ∷ (1, false) ∷ (1, true) ∷ (1, false) ∷ (2, false) ∷ []

-- The emergency stop returns after the timeout, and the reset after both.
history_of_three :
    (run (launch no_reason three_calls) schedule).history
    ≡ reset ∷ cancel emergency_stop ∷ cancel timeout ∷ []
unfolding run step advance
history_of_three = refl

run-effects_example :
    (run (launch no_reason three_calls) schedule).shared
    ≡ effects (run (launch no_reason three_calls) schedule).history no_reason
run-effects_example = run-effects no_reason three_calls schedule

emergency_survives_example : (run (launch no_reason three_calls) schedule).shared ≡ emergency_stop
emergency_survives_example =
    emergency_survives no_reason three_calls schedule (reset ∷ []) (cancel timeout ∷ [])
      history_of_three ((λ e. cc), tt)

abbrev two_calls : List Call
two_calls = cancel requested ∷ cancel timeout ∷ []

graver_history :
    (run
      (launch no_reason two_calls)
      ((0, false) ∷ (1, false) ∷ (0, false) ∷ (1, false) ∷ [])).history
    ≡ (cancel timeout ∷ []) ++ cancel requested ∷ []
unfolding run step advance
graver_history = refl

graver_wins_example :
    gravity requested
    ≤ gravity
        (run
          (launch no_reason two_calls)
          ((0, false) ∷ (1, false) ∷ (0, false) ∷ (1, false) ∷ [])).shared
graver_wins_example =
    graver_wins no_reason two_calls ((0, false) ∷ (1, false) ∷ (0, false) ∷ (1, false) ∷ [])
      requested (cancel timeout ∷ []) [] graver_history (tt, tt)
