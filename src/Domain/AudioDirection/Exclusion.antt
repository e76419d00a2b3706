-- ===== src/Domain/AudioDirection/Exclusion.antt =====
-- Who has been let through keeps the other direction out until it ends.
use stackchan_atoms3r.Base.{Bool, true, false, List, [], ◌∷◌, ◌≡◌, refl, All, arith}
use stackchan_atoms3r.Domain.AudioDirection.{
  AudioDirectionState, idle, capturing, playing, AudioTransition, proceed, denied, begin_capture,
  begin_playback, end_capture, end_playback,
}

pub data AudioCall : Type 0 where
  capture_begins playback_begins capture_ends playback_ends : AudioCall

-- The answers that a call gives, none for the end of a direction.
unfoldable pub call : AudioDirectionState → AudioCall → AudioDirectionState × List AudioTransition
call s capture_begins = ((begin_capture s).0, (begin_capture s).1 ∷ [])
call s playback_begins = ((begin_playback s).0, (begin_playback s).1 ∷ [])
call s capture_ends = (end_capture s, [])
call s playback_ends = (end_playback s, [])

unfoldable pub run : AudioDirectionState → List AudioCall → AudioDirectionState
run s [] = s
run s (c ∷ cs) = run (call s c).0 cs

-- Any call but the end of recording, or but the end of playing.
abbrev pub keeps_capture : AudioCall → Bool
keeps_capture capture_ends = false
keeps_capture _ = true

abbrev pub keeps_playback : AudioCall → Bool
keeps_playback playback_ends = false
keeps_playback _ = true

abbrev pub KeepsCapture : AudioCall → Type 0
KeepsCapture c = keeps_capture c ≡ true

abbrev pub KeepsPlayback : AudioCall → Type 0
KeepsPlayback c = keeps_playback c ≡ true

run-capturing : (cs : List AudioCall) → All KeepsCapture cs → run capturing cs ≡ capturing
unfolding run call begin_capture begin_playback end_playback
run-capturing [] h = refl
run-capturing (capture_begins ∷ cs) h = run-capturing cs h.1
run-capturing (playback_begins ∷ cs) h = run-capturing cs h.1
run-capturing (capture_ends ∷ cs) h = absurd (ground (arith, h.0))
run-capturing (playback_ends ∷ cs) h = run-capturing cs h.1

run-playing : (cs : List AudioCall) → All KeepsPlayback cs → run playing cs ≡ playing
unfolding run call begin_capture begin_playback end_capture
run-playing [] h = refl
run-playing (capture_begins ∷ cs) h = run-playing cs h.1
run-playing (playback_begins ∷ cs) h = run-playing cs h.1
run-playing (capture_ends ∷ cs) h = run-playing cs h.1
run-playing (playback_ends ∷ cs) h = absurd (ground (arith, h.0))

granted-capture :
    (s : AudioDirectionState) → (begin_capture s).1 ≡ proceed → (begin_capture s).0 ≡ capturing
unfolding begin_capture
granted-capture idle h = refl
granted-capture capturing h = refl
granted-capture playing h = absurd (ground (arith, h))

granted-playback :
    (s : AudioDirectionState) → (begin_playback s).1 ≡ proceed → (begin_playback s).0 ≡ playing
unfolding begin_playback
granted-playback idle h = refl
granted-playback playing h = refl
granted-playback capturing h = absurd (ground (arith, h))

-- Once recording has been let through, whatever is called, playing is denied until recording ends.
pub playback_denied :
    (s : AudioDirectionState) (cs : List AudioCall)
    → (begin_capture s).1 ≡ proceed
    → All KeepsCapture cs
    → (begin_playback (run (begin_capture s).0 cs)).1 ≡ denied
unfolding begin_playback
playback_denied s cs granted h = rw (granted-capture s granted, run-capturing cs h) refl

-- Once playing has been let through, whatever is called, recording is denied until playing ends.
pub capture_denied :
    (s : AudioDirectionState) (cs : List AudioCall)
    → (begin_playback s).1 ≡ proceed
    → All KeepsPlayback cs
    → (begin_capture (run (begin_playback s).0 cs)).1 ≡ denied
unfolding begin_capture
capture_denied s cs granted h = rw (granted-playback s granted, run-playing cs h) refl
