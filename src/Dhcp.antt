-- ===== src/Dhcp.antt =====
-- crates/ndhcpd/src/dhcp/server.rs: the DHCP server.
pub mod Reply
pub mod Discover
pub mod Request
pub mod Server
pub mod Exclusive
pub mod Safety
pub mod History
pub mod Matching
pub mod Assign
mod Tests
pub mod Offers
pub mod Honoured
pub mod Static
pub mod Kept
pub mod Leaving
pub mod Conformance
pub mod Allocate
pub mod Replies
pub mod Received
