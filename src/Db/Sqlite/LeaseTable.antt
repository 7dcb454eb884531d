-- ===== src/Db/Sqlite/LeaseTable.antt =====
-- The lease table of crates/ndhcpd/src/db/sqlite.rs, as the DHCP server relies on it.
use ndhcpd.Common.{some}
use ndhcpd.Models.Ipv6Servers.{Ipv6Text}
use ndhcpd.Db.LeaseLaws.{LeaseLaws}
use ndhcpd.Db.Sql.Engine.{Engine, SqlLaws}
use ndhcpd.Db.Sqlite.{sqlite}
use ndhcpd.Db.Sqlite.ActiveLease.{get_active_lease-Latest}
use ndhcpd.Db.Sqlite.Leases.{lease_rows, list_active, create, created, expire, delete_expired}

module _ {S : Type 0} (engine : Engine S) (laws : SqlLaws engine) where
  -- The database in SQLite meets the lease laws.
  unfoldable pub sqlite_leases : (ipv6 : Ipv6Text) → LeaseLaws (sqlite ipv6 engine)
  sqlite_leases ipv6 = record {
    leases = lease_rows engine laws;
    list_active = list_active engine laws;
    get_active = λ now mac s l h.
        let (m, (same, active), latest) =
          get_active_lease-Latest engine laws now mac s (some l) h in
        (m, same, active);
    create = create engine laws ipv6;
    created = created engine laws ipv6;
    expire = expire engine laws;
    delete_expired = delete_expired engine laws;
  }
