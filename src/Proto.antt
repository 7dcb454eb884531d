-- ===== src/Proto.antt =====
-- crates/dhcp-proto: DHCP packets as bytes.
mod Tests
pub mod Mac
pub mod MessageType
pub mod Utf8
pub mod Options
pub mod Packet
