-- ===== src/System.antt =====
-- The whole daemon: the tasks that crates/ndhcpd/src/main.rs starts share
-- one database, and each of their rounds is one event.
mod Tests
pub mod Sqlite
pub mod Startup
use ndhcpd.Common.{ℕ, ◌≤◌, Bool, Option, List}
use ndhcpd.Bytes.{Text, Ipv4Addr}
use ndhcpd.Config.{Config, RaConfig}
use ndhcpd.Db.Interface.{Database}
use ndhcpd.Db.Memory
use ndhcpd.Db.Memory.{InMemoryDatabase, memory}
use ndhcpd.Db.Memory.Calls.{WellFormed, new-WellFormed}
use ndhcpd.Db.Memory.Leases.{memory_leases}
use ndhcpd.Auth.{Request}
use ndhcpd.Dhcp.Discover.{Clock}
use ndhcpd.Dhcp.History.{Step, datagram, cleanup, Step-Exclusive}
use ndhcpd.Dhcp.Kept.{serve-WellFormed, clean_up-WellFormed}
use ndhcpd.Dhcp.Exclusive.{Exclusive, Exclusive-empty}
use ndhcpd.Dhcp.Server.{serve, clean_up}
use ndhcpd.Handlers.Routes.{Route, dispatch}
use ndhcpd.Handlers.Routes.Access.{dispatch-Step}

module _ {PasswordHash : Type 0} (parse_hash : Text → Option PasswordHash)
    (verify_password : Text → PasswordHash → Bool) (config : Config) (ra_config : RaConfig) where
  -- The databases that a daemon can have at a time, from the one at its start on: datagrams,
  -- cleanups and admissible requests in any order, while the clock does not run back. The Router
  -- Advertisement server only reads.
  pub data Run {S : Type 0} (db : Database S) (Admissible : Route → Type 0) (start : ℕ)
      (initial : S) : ℕ → S → Type 0 where
    fresh : Run db Admissible start initial start initial
    then_datagram :
        {t : ℕ} {s : S} (bytes : List ℕ) (iface_name : Text) (iface_ips : List Ipv4Addr)
        (clock : Clock)
        → t ≤ clock.first
        → clock.first ≤ clock.second
        → Run db Admissible start initial t s
        → Run db Admissible start initial clock.second
            (serve db config bytes iface_name iface_ips clock s).0
    then_cleanup :
        {t : ℕ} {s : S} (now : ℕ)
        → t ≤ now
        → Run db Admissible start initial t s
        → Run db Admissible start initial now (clean_up db now s)
    then_request :
        {t : ℕ} {s : S} (now : ℕ) (require_auth : Bool) (request : Request) (route : Route)
        → t ≤ now
        → Admissible route
        → Run db Admissible start initial t s
        → Run db Admissible start initial now
            (dispatch parse_hash verify_password db ra_config now require_auth request route s).0

  -- However the daemon runs over the database in memory, from the empty one on, with datagrams,
  -- cleanups and API requests in any order while the clock does not run back, the database is well
  -- formed, and no two clients hold an active lease of one address.
  pub Run-Sound :
      {t : ℕ} {db : InMemoryDatabase}
      → Run memory (λ _. Unit) 0 Memory.new t db
      → WellFormed db × Exclusive t db.leases
  unfolding memory_leases
  Run-Sound fresh = (new-WellFormed, Exclusive-empty 0)
  Run-Sound (then_datagram {s = db} bytes iface_name iface_ips clock h k run) =
      let (w, ex) = Run-Sound run in
      (
        serve-WellFormed config iface_ips bytes iface_name clock db w,
        Step-Exclusive memory memory_leases config (datagram bytes iface_name iface_ips clock h k)
            ex,
      )
  Run-Sound (then_cleanup {s = db} now h run) =
      let (w, ex) = Run-Sound run in
      (clean_up-WellFormed now db w, Step-Exclusive memory memory_leases config (cleanup now h) ex)
  Run-Sound (then_request {t = t} {s = db} now require_auth request route h _ run) =
      let (w, ex) = Run-Sound run in
      let (kept, step) =
        dispatch-Step parse_hash verify_password ra_config now config t require_auth request route
          db h w in
      (kept, Step-Exclusive memory memory_leases config step ex)
