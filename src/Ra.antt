-- ===== src/Ra.antt =====
-- crates/ndhcpd/src/ra: the Router Advertisement server.
pub mod Packet
pub mod Filter
pub mod Server
mod Tests
