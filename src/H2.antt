-- ===== src/H2.antt =====
-- src/courierust_h2: flow control, streams, settings and frames of HTTP/2.
pub mod ErrorCode
pub mod Flow
pub mod Streams
pub mod Scheduler
pub mod Settings
pub mod Frame
