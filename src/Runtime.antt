-- ===== src/Runtime.antt =====
-- src/core/stackchan_runtime: deadlines, cancellation, and the containers that tasks share.
pub mod Deadline
pub mod Cancellation
pub mod Mailbox
pub mod BufferPool
pub mod ReceiveExact
