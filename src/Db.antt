-- ===== src/Db.antt =====
-- crates/ndhcpd/src/db: the interface that the servers use, and its implementation in memory.
mod Tests
pub mod Interface
pub mod LeaseLaws
pub mod Calls
pub mod Memory
pub mod Sql
pub mod Sqlite
