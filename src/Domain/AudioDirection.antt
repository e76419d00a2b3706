-- ===== src/Domain/AudioDirection.antt =====
-- src/core/stackchan_domain/src/audio_direction.cpp and its header: recording and playing exclude
-- each other.
mod Exclusion
mod Examples
use stackchan_atoms3r.Base.{Bytes, codes}

pub data AudioDirectionState : Type 0 where
  idle capturing playing : AudioDirectionState

pub data AudioTransition : Type 0 where
  proceed already_active denied : AudioTransition

unfoldable pub begin_capture : AudioDirectionState → AudioDirectionState × AudioTransition
begin_capture capturing = (capturing, already_active)
begin_capture playing = (playing, denied)
begin_capture idle = (capturing, proceed)

unfoldable pub begin_playback : AudioDirectionState → AudioDirectionState × AudioTransition
begin_playback playing = (playing, already_active)
begin_playback capturing = (capturing, denied)
begin_playback idle = (playing, proceed)

unfoldable pub end_capture : AudioDirectionState → AudioDirectionState
end_capture capturing = idle
end_capture state = state

unfoldable pub end_playback : AudioDirectionState → AudioDirectionState
end_playback playing = idle
end_playback state = state

unfoldable pub state_to_string : AudioDirectionState → Bytes
state_to_string idle = codes "idle"
state_to_string capturing = codes "capturing"
state_to_string playing = codes "playing"

unfoldable pub transition_to_string : AudioTransition → Bytes
transition_to_string proceed = codes "proceed"
transition_to_string already_active = codes "already_active"
transition_to_string denied = codes "denied"
