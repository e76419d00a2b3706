-- ===== src/Domain/Button/Examples.antt =====
-- A button pressed at 100 ms and released at 300 ms, with a settling time of 20 ms.
use stackchan_atoms3r.Base.{◌+◌, ◌%◌, Bool, true, false, List, [], ◌∷◌, ◌≡◌, arith, ℕ}
use stackchan_atoms3r.Base.Words.{u32_mod}
use stackchan_atoms3r.Clock.{elapsed}
use stackchan_atoms3r.Domain.Button.{ButtonDebouncer, make_debouncer, updates}
use stackchan_atoms3r.Domain.Button.Settling.{last_press_from_settling}

abbrev closed : ButtonDebouncer
closed = record {
  stable_ms = 20;
  stable = false;
  candidate = true;
  candidate_since = 100;
  stable_since = 0;
  last_press_ms = 0;
  started = true;
}

abbrev bouncing : List (Bool × ℕ)
bouncing = (true, 103) ∷ (false, 102) ∷ (true, 100) ∷ (false, 0) ∷ []

last_press_from_settling_example :
    (updates (make_debouncer 20) (
      (false, 320)
      ∷ (false, 300)
      ∷ (true, (100 + 20) % u32_mod)
      ∷ (true, 100)
      ∷ (false, 0)
      ∷ [])).last_press_ms
    ≡ elapsed ((100 + 20) % u32_mod) 300
unfolding elapsed
last_press_from_settling_example =
    last_press_from_settling 20 100 20 300 320 (omega arith) (omega arith) (omega arith)
      (omega arith) (omega arith)
