-- ===== src/Udp.antt =====
-- The datagram endpoint: fragments, their pipelines, and the controller that sends and reads them.
pub mod Pipeline
pub mod Datagram
mod Tests
