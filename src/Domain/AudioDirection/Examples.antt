-- ===== src/Domain/AudioDirection/Examples.antt =====
-- Recording is let through, and playing is tried meanwhile.
use stackchan_atoms3r.Base.{[], ◌∷◌, ◌≡◌, refl}
use stackchan_atoms3r.Domain.AudioDirection.{idle, denied, begin_capture, begin_playback}
use stackchan_atoms3r.Domain.AudioDirection.Exclusion.{
  playback_begins, playback_ends, run, playback_denied,
}

playback_denied_example :
    (begin_playback (run (begin_capture idle).0 (playback_begins ∷ playback_ends ∷ []))).1 ≡ denied
unfolding begin_capture
playback_denied_example =
    playback_denied idle (playback_begins ∷ playback_ends ∷ []) refl (refl, (refl, tt))
