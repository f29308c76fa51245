-- ===== src/Quic.antt =====
-- src/courierust_quic: integers, packet numbers and headers, stream identifiers and frames.
pub mod Varint
pub mod PacketNumber
pub mod Packet
pub mod StreamId
pub mod Frame
