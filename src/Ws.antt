-- ===== src/Ws.antt =====
-- src/courierust_ws: the WebSocket protocol, RFC 6455.
pub mod Close
pub mod Frame
pub mod Mask
pub mod Sink
pub mod Utf8
