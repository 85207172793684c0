-- ===== src/Network.antt =====
-- The network package: packets, the wire formats and their manager.
pub mod Packet
pub mod Format
pub mod CloveFormat
pub mod WsFormat
pub mod HttpFormat
pub mod Handshake
pub mod Formats
mod Tests
