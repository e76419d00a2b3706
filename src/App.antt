-- ===== src/App.antt =====
-- src/core/stackchan_app: the application's logic, free of hardware and of the network.
pub mod Envelope
pub mod Conversation
pub mod PlaybackStager
pub mod CommandRegistry
pub mod ScanParams
pub mod RequestRouter
