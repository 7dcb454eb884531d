-- ===== src/System/Sqlite/Tests.antt =====
-- A short run of the daemon over SQLite, with the engine of lists: a subnet and a range are created,
-- then a client asks for an address.
use ndhcpd.Common.{subst, sym, false, [], ◌∷◌, arith}
use ndhcpd.Bytes.{ipv4}
use ndhcpd.Config.{default_config, default_ra_config}
use ndhcpd.Db.Interface.{Database}
use ndhcpd.Db.Sql.{Table}
use ndhcpd.Db.Sql.Store.{Store, store}
use ndhcpd.Db.Sql.Store.Laws.{store_laws, store_rows}
use ndhcpd.Db.Sqlite.{sqlite}
use ndhcpd.Db.Sqlite.Rows.{lease_of_row}
use ndhcpd.Db.Sqlite.Reading.{values_of}
use ndhcpd.Db.Sqlite.Leases.{lease_rows}
use ndhcpd.Db.Sqlite.Readable.{AllReadable}
use ndhcpd.Db.Sqlite.Tests.{binary, binary-IsIpv6Text, empty, empty-AllReadable}
use ndhcpd.Models.Fits.{SubnetFits, RangeFits}
use ndhcpd.Proto.Packet
use ndhcpd.Dhcp.Exclusive.{Exclusive, Exclusive-empty}
use ndhcpd.Dhcp.Server.{serve}
use ndhcpd.Handlers.Routes.{create_subnet, create_range, dispatch}
use ndhcpd.Handlers.Routes.Changes.{RaFits}
use ndhcpd.System.{fresh, then_request, then_datagram}
use ndhcpd.System.Tests.{parse_hash, verify_password, local, lan, pool, asking, clock}
use ndhcpd.System.Sqlite.{Run-Sound_sqlite}

default-RaFits : RaFits default_ra_config
unfolding default_ra_config
default-RaFits = record {
  preferred_lifetime = omega arith;
  valid_lifetime = omega arith;
  dns_lifetime = omega arith;
}

lan-Fits : SubnetFits lan
lan-Fits = record {
  network = omega arith;
  netmask = omega arith;
  gateway = omega arith;
  dns_servers = tt;
}

pool-RangeFits : RangeFits pool
pool-RangeFits = record { range_start = omega arith; range_end = omega arith }

empty-Exclusive : Exclusive 0 (lease_rows store store_laws empty)
unfolding values_of
empty-Exclusive =
    subst (λ z. Exclusive 0 (values_of lease_of_row z)) (sym (store_rows Table.leases empty))
      (Exclusive-empty 0)

abbrev db : Database Store
db = sqlite binary store

abbrev served : Store
served =
    (serve db default_config (Packet.to_bytes asking) (b'e' ∷ b't' ∷ b'h' ∷ b'0' ∷ [])
      (ipv4 192 168 1 1 ∷ []) clock
      (dispatch parse_hash verify_password db default_ra_config 6 false local (create_range pool)
        (dispatch parse_hash verify_password db default_ra_config 5 false local (create_subnet lan)
          empty).0).0).0

Run-Sound_sqlite_example :
    Exclusive 11 (lease_rows store store_laws served) × AllReadable store store_laws binary served
Run-Sound_sqlite_example =
    Run-Sound_sqlite store store_laws binary parse_hash verify_password default_config
      default_ra_config {start = 0} {initial = empty} {t = 11} {s = served} binary-IsIpv6Text
      default-RaFits empty-Exclusive empty-AllReadable
      (then_datagram (Packet.to_bytes asking) (b'e' ∷ b't' ∷ b'h' ∷ b'0' ∷ [])
        (ipv4 192 168 1 1 ∷ []) clock (omega arith) (omega arith)
        (then_request 6 false local (create_range pool) (omega arith) pool-RangeFits
          (then_request 5 false local (create_subnet lan) (omega arith) lan-Fits fresh)))
