-- ===== src/Domain/ButtonGesture/Examples.antt =====
-- Two short presses, with a window of 300 ms and a hold time of 600 ms.
use stackchan_atoms3r.Base.{ℕ, ◌<◌, min, List, [], ◌∷◌, ◌≡◌, refl}
use stackchan_atoms3r.Clock.{elapsed}
use stackchan_atoms3r.Domain.Button.{ButtonEdge, no_edge, pressed, released}
use stackchan_atoms3r.Domain.ButtonGesture.{
  ButtonGesture, no_gesture, make_gesture, note_edge, judge, update_gesture, gestures,
}
use stackchan_atoms3r.Domain.ButtonGesture.Counting.{presses_since, clicks-gestures}

abbrev two_presses : List (ButtonEdge × ℕ)
two_presses = (released, 250) ∷ (pressed, 200) ∷ (released, 150) ∷ (pressed, 100) ∷ []

clicks-gestures_example :
    (2
      ≡ min 255 (
          presses_since
            ((no_edge, 450) ∷ two_presses)
            (no_gesture ∷ (gestures (make_gesture 300 600) two_presses).1)))
    × (0 < 2)
unfolding gestures update_gesture make_gesture note_edge judge elapsed
clicks-gestures_example = clicks-gestures 300 600 450 2 no_edge two_presses refl

abbrev held : ButtonGesture
held = (gestures (make_gesture 300 600) ((pressed, 100) ∷ [])).0
