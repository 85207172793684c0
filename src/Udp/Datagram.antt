-- ===== src/Udp/Datagram.antt =====
-- udp/controller.go: `sendTo`, which cuts data into datagrams, `read`, which takes one in, and what
-- the calls of `sendTo` share.
pub mod Sending
pub mod Receiving
pub mod Sharing
pub mod Loops
