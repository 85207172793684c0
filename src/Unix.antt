-- ===== src/Unix.antt =====
-- The unix package: datagrams of a socket in the file system.
pub mod Controller
mod Tests
