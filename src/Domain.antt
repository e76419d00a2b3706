-- ===== src/Domain.antt =====
-- src/core/stackchan_domain: the rules of the device that need no hardware.
pub mod NetworkPolicy
pub mod Button
pub mod ButtonGesture
pub mod Base64
pub mod Decimal
pub mod JsonWriter
pub mod JsonScan
pub mod Sse
pub mod Speech
pub mod Protocol
pub mod AccessToken
pub mod Expression
pub mod AudioDirection
pub mod DeviceState
