-- ===== src/Net.antt =====
-- crates/ndhcpd/src/utils/network.rs: address arithmetic, the IP checksum and raw frames.
mod Tests
pub mod Mask
pub mod Overlap
pub mod Checksum
pub mod Frame
