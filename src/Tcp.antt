-- ===== src/Tcp.antt =====
-- The stream endpoint: a connection's controller and the pool of controllers.
pub mod Controller
pub mod Pool
pub mod Connecting
mod Tests
