-- ===== src/Dhcp/History.antt =====
-- The histories of a running server: crates/ndhcpd/src/dhcp/server.rs handles the datagrams of all
-- interfaces in one loop, next to the cleanup task and the REST API, which share the database.
use ndhcpd.Common.{ℕ, ◌≤◌, List, In}
use ndhcpd.Bytes.{Text, Ipv4Addr}
use ndhcpd.Config.{Config}
use ndhcpd.Models.{Lease}
use ndhcpd.Db.Interface.{Database}
use ndhcpd.Db.LeaseLaws.{LeaseLaws}
use ndhcpd.Dhcp.Discover.{Clock}
use ndhcpd.Dhcp.Server.{serve, clean_up}
use ndhcpd.Dhcp.Exclusive.{Exclusive, Exclusive-mono}
use ndhcpd.Dhcp.Safety.{serve-Exclusive, clean_up-Exclusive}

module _ {S : Type 0} (db : Database S) (laws : LeaseLaws db) (config : Config) where
  open laws use {leases}

  -- One event, from the database `s` at the time `t`. The REST API is any change that adds no lease:
  -- its handlers do not call `create_lease`.
  pub data Step : ℕ → S → ℕ → S → Type 0 where
    datagram :
        {t : ℕ} {s : S} (bytes : List ℕ) (iface_name : Text) (iface_ips : List Ipv4Addr)
        (clock : Clock)
        → t ≤ clock.first
        → clock.first ≤ clock.second
        → Step t s clock.second (serve db config bytes iface_name iface_ips clock s).0
    cleanup : {t : ℕ} {s : S} (now : ℕ) → t ≤ now → Step t s now (clean_up db now s)
    configure :
        {t : ℕ} {s : S} (now : ℕ) (s' : S)
        → t ≤ now
        → ((l : Lease) → In l (leases s') → In l (leases s))
        → Step t s now s'

  pub data Reach : ℕ → S → ℕ → S → Type 0 where
    start : {t : ℕ} {s : S} → Reach t s t s
    then_step :
        {t t' t'' : ℕ} {s s' s'' : S} → Reach t s t' s' → Step t' s' t'' s'' → Reach t s t'' s''

  pub Step-Exclusive :
      {t t' : ℕ} {s s' : S} → Step t s t' s' → Exclusive t (leases s) → Exclusive t' (leases s')
  Step-Exclusive {t = t} {s = s} (datagram bytes iface_name iface_ips clock h k) ex =
      serve-Exclusive db laws config bytes iface_name iface_ips clock s k
        (Exclusive-mono t clock.first (leases s) (leases s) h (λ l m. m) ex)
  Step-Exclusive {t = t} {s = s} (cleanup now h) ex =
      clean_up-Exclusive db laws now s (Exclusive-mono t now (leases s) (leases s) h (λ l m. m) ex)
  Step-Exclusive {t = t} {s = s} (configure now s' h sub) ex =
      Exclusive-mono t now (leases s) (leases s') h sub ex

  -- For every database that meets the lease laws, no two clients ever hold an active lease of one
  -- address: a lease table that is exclusive stays so over every sequence of datagrams, lease
  -- cleanups and changes that add no lease, with a clock that does not run back.
  pub Reach-Exclusive :
      {t t' : ℕ} {s s' : S} → Reach t s t' s' → Exclusive t (leases s) → Exclusive t' (leases s')
  Reach-Exclusive start ex = ex
  Reach-Exclusive (then_step before last) ex = Step-Exclusive last (Reach-Exclusive before ex)
