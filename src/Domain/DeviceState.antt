-- ===== src/Domain/DeviceState.antt =====
-- src/core/stackchan_domain/src/device_state.cpp and its header: what the device is doing, and why a
-- conversation cannot start.
mod Starting
use stackchan_atoms3r.Base.{
  Bool, true, false, not, ◌&&◌, if◌then◌else◌, Bytes, codes, List, [], ◌∷◌,
}
use stackchan_atoms3r.Domain.Expression.{Expression}

pub data ConversationPhase : Type 0 where
  idle listening thinking speaking : ConversationPhase

unfoldable pub phase_to_string : ConversationPhase → Bytes
phase_to_string idle = codes "idle"
phase_to_string listening = codes "listening"
phase_to_string thinking = codes "thinking"
phase_to_string speaking = codes "speaking"

abbrev pub is_idle : ConversationPhase → Bool
is_idle idle = true
is_idle _ = false

pub record DeviceState : Type 0 where
  pub estop : Bool
  pub conversation : ConversationPhase
  pub audio_busy : Bool
  pub expression : Expression
  pub network_connected : Bool
  pub gateway_configured : Bool
  pub last_error : Bytes

unfoldable pub can_start_conversation : DeviceState → Bool
can_start_conversation s =
    not s.estop
    && is_idle s.conversation
    && not s.audio_busy
    && s.network_connected
    && s.gateway_configured

unfoldable pub why_cannot_start : DeviceState → Bytes
why_cannot_start s =
    if s.estop
    then codes "emergency stop is engaged"
    else if not (is_idle s.conversation)
    then codes "a conversation is already running"
    else if s.audio_busy
    then codes "audio is in use"
    else if not s.network_connected
    then codes "not connected to a network"
    else if not s.gateway_configured
    then codes "gateway url is not configured"
    else []
