-- ===== src/System/Sqlite.antt =====
-- The whole daemon over the database of crates/ndhcpd/src/db/sqlite.rs, as
-- crates/ndhcpd/src/main.rs runs it.
mod Tests
use ndhcpd.Common.{ℕ, ◌≤◌, ◌≡◌, refl, subst, Bool, true, not, Option, List, [], ◌∷◌, In, arith, ◌∷◌}
use ndhcpd.Bytes.{Text, Ipv4Addr}
use ndhcpd.Config.{Config, RaConfig}
use ndhcpd.Models.{Lease}
use ndhcpd.Models.Ipv6Servers.{Ipv6Text, IsIpv6Text}
use ndhcpd.Db.Calls
use ndhcpd.Db.Calls.{Call, spares_leases, apply_to, Changes, unchanged, then_call}
use ndhcpd.Db.Sql.{Table, Row, Statement, insert, update, delete, same_table}
use ndhcpd.Db.Sql.Engine.{Done, Engine, SqlLaws}
use ndhcpd.Db.Sqlite.{sqlite}
use ndhcpd.Db.Sqlite.Answers.{answer, answer-state}
use ndhcpd.Db.Sqlite.Dhcp
use ndhcpd.Db.Sqlite.Others
use ndhcpd.Db.Sqlite.Leases.{lease_rows, lease_rows_mono, Listed-IsU32}
use ndhcpd.Db.Sqlite.LeaseTable.{sqlite_leases}
use ndhcpd.Db.Sqlite.Readable.{AllReadable, apply_to-AllReadable}
use ndhcpd.Dhcp.Discover.{Clock}
use ndhcpd.Dhcp.Kept.{serve_keeps}
use ndhcpd.Dhcp.Server.{serve, clean_up}
use ndhcpd.Dhcp.Exclusive.{Exclusive}
use ndhcpd.Dhcp.History.{Step, datagram, cleanup, configure, Step-Exclusive}
use ndhcpd.Handlers.Routes.Changes.{IsTyped, RaFits, dispatch-Changes}
use ndhcpd.System.{Run, fresh, then_datagram, then_cleanup, then_request}

-- The statements that add no row to the lease table and change none.
abbrev spares : Statement → Bool
spares (insert t sets) = not (same_table t Table.leases)
spares (update t sets c) = not (same_table t Table.leases)
spares (delete t c) = true

module _ {S : Type 0} (engine : Engine S) (laws : SqlLaws engine) (ipv6 : Ipv6Text) where
  open laws use {rows}

  execute-leases :
      (q : Statement) (s : S) (r : Row)
      → spares q ≡ true
      → In r (rows Table.leases (engine.execute q s).0)
      → In r (rows Table.leases s)
  execute-leases (insert t sets) s r h =
      (laws.insert_elsewhere t Table.leases sets s r (ground arith)).0
  execute-leases (update t sets c) s r h =
      (laws.update_elsewhere t Table.leases sets c s r (ground arith)).0
  execute-leases (delete t c) s r h = laws.delete_elsewhere t Table.leases c s r

  answer-leases :
      {A : Type 0} (f : Done → A) (q : Statement) (s : S) (l : Lease)
      → spares q ≡ true
      → In l (lease_rows engine laws (answer f (engine.execute q s)).0)
      → In l (lease_rows engine laws s)
  answer-leases f q s l h m =
      lease_rows_mono engine laws s (engine.execute q s).0 l (λ r. execute-leases q s r h)
        (subst (λ z. In l (lease_rows engine laws z)) (answer-state f (engine.execute q s)) m)

  apply_to-leases :
      (c : Call) (s : S) (l : Lease)
      → spares_leases c ≡ true
      → In l (lease_rows engine laws (apply_to (sqlite ipv6 engine) c s))
      → In l (lease_rows engine laws s)
  unfolding apply_to Dhcp.create_subnet Dhcp.update_subnet Dhcp.delete_subnet Dhcp.create_range
      Dhcp.delete_range Dhcp.create_static_ip Dhcp.update_static_ip_hostname Dhcp.delete_static_ip
      Others.create_ia_prefix Others.update_ia_prefix Others.delete_ia_prefix Others.create_token
      Others.delete_token Others.toggle_token Others.update_token_last_used
  apply_to-leases (Calls.create_subnet x) s l h = answer-leases _ _ s l refl
  apply_to-leases (Calls.update_subnet i x) s l h = answer-leases _ _ s l refl
  apply_to-leases (Calls.delete_subnet i) s l h = answer-leases _ _ s l refl
  apply_to-leases (Calls.create_range x) s l h = answer-leases _ _ s l refl
  apply_to-leases (Calls.delete_range i) s l h = answer-leases _ _ s l refl
  apply_to-leases (Calls.create_static_ip x) s l h = answer-leases _ _ s l refl
  apply_to-leases (Calls.update_static_ip_hostname ip n) s l h = answer-leases _ _ s l refl
  apply_to-leases (Calls.delete_static_ip ip) s l h = answer-leases _ _ s l refl
  apply_to-leases (Calls.create_lease x) s l h = cc
  apply_to-leases (Calls.expire_lease i) s l h = cc
  apply_to-leases (Calls.delete_expired_leases now) s l h = cc
  apply_to-leases (Calls.create_ia_prefix x) s l h = answer-leases _ _ s l refl
  apply_to-leases (Calls.update_ia_prefix i x) s l h = answer-leases _ _ s l refl
  apply_to-leases (Calls.delete_ia_prefix i) s l h = answer-leases _ _ s l refl
  apply_to-leases (Calls.create_token n t salt) s l h = answer-leases _ _ s l refl
  apply_to-leases (Calls.delete_token i) s l h = answer-leases _ _ s l refl
  apply_to-leases (Calls.toggle_token i b) s l h = answer-leases _ _ s l refl
  apply_to-leases (Calls.update_token_last_used t) s l h = answer-leases _ _ s l refl

  Changes-leases :
      {s s' : S}
      → Changes (sqlite ipv6 engine) s s'
      → (l : Lease) → In l (lease_rows engine laws s')
      → In l (lease_rows engine laws s)
  Changes-leases unchanged l m = m
  Changes-leases (then_call {s' = s'} c h fits before) l m =
      Changes-leases before l (apply_to-leases c s' l h m)

  Changes-AllReadable :
      {s s' : S}
      → IsIpv6Text ipv6
      → Changes (sqlite ipv6 engine) s s'
      → AllReadable engine laws ipv6 s
      → AllReadable engine laws ipv6 s'
  Changes-AllReadable v6 unchanged all = all
  Changes-AllReadable v6 (then_call {s' = s'} c h fits before) all =
      apply_to-AllReadable engine laws ipv6 v6 c s' fits (Changes-AllReadable v6 before all)

  serve-AllReadable :
      (v6 : IsIpv6Text ipv6) (config : Config) (iface_ips : List Ipv4Addr) (bytes : List ℕ)
      (iface_name : Text) (clock : Clock) (s : S)
      → AllReadable engine laws ipv6 s
      → AllReadable engine laws ipv6
          (serve (sqlite ipv6 engine) config bytes iface_name iface_ips clock s).0
  unfolding apply_to
  serve-AllReadable v6 =
      serve_keeps (sqlite ipv6 engine) (AllReadable engine laws ipv6)
        (λ i s. apply_to-AllReadable engine laws ipv6 v6 (Calls.expire_lease i) s tt)
        (λ l s listed.
          apply_to-AllReadable engine laws ipv6 v6 (Calls.create_lease l) s
            (Listed-IsU32 engine laws ipv6 l.ip_address listed))

  clean_up-AllReadable :
      (v6 : IsIpv6Text ipv6) (now : ℕ) (s : S)
      → AllReadable engine laws ipv6 s
      → AllReadable engine laws ipv6 (clean_up (sqlite ipv6 engine) now s)
  unfolding clean_up apply_to
  clean_up-AllReadable v6 now s =
      apply_to-AllReadable engine laws ipv6 v6 (Calls.delete_expired_leases now) s tt

  module _ {PasswordHash : Type 0} (parse_hash : Text → Option PasswordHash)
      (verify_password : Text → PasswordHash → Bool) (config : Config) (ra_config : RaConfig) where
    -- However the daemon runs over the database in SQLite, with datagrams, cleanups and requests
    -- whose values are within their types in any order while the clock does not run back, no two
    -- clients hold an active lease of one address, and every row of every table can be read, where
    -- both hold at the start. The engine meets the laws of SQL, an IPv6 address is read back from
    -- its text, and the default lifetimes of the configuration are below 2^32.
    pub Run-Sound_sqlite :
        {start : ℕ} {initial : S} {t : ℕ} {s : S}
        → IsIpv6Text ipv6
        → RaFits ra_config
        → Exclusive start (lease_rows engine laws initial)
        → AllReadable engine laws ipv6 initial
        → Run parse_hash verify_password config ra_config
            (sqlite ipv6 engine)
            IsTyped
            start
            initial
            t
            s
        → Exclusive t (lease_rows engine laws s) × AllReadable engine laws ipv6 s
    unfolding sqlite_leases
    Run-Sound_sqlite v6 ra ex all fresh = (ex, all)
    Run-Sound_sqlite v6 ra ex all (then_datagram {s = s} bytes iface_name iface_ips clock h k run) =
        let (ex', all') = Run-Sound_sqlite v6 ra ex all run in
        (
          Step-Exclusive (sqlite ipv6 engine) (sqlite_leases engine laws ipv6) config
              (datagram bytes iface_name iface_ips clock h k) ex',
          serve-AllReadable v6 config iface_ips bytes iface_name clock s all',
        )
    Run-Sound_sqlite v6 ra ex all (then_cleanup {s = s} now h run) =
        let (ex', all') = Run-Sound_sqlite v6 ra ex all run in
        (
          Step-Exclusive (sqlite ipv6 engine) (sqlite_leases engine laws ipv6) config
              (cleanup now h) ex',
          clean_up-AllReadable v6 now s all',
        )
    Run-Sound_sqlite v6 ra ex all
          (then_request {s = s} now require_auth request route h typed run) =
        let (ex', all') = Run-Sound_sqlite v6 ra ex all run in
        let calls =
          dispatch-Changes (sqlite ipv6 engine) parse_hash verify_password ra_config now
            require_auth request route s ra typed in
        (
          Step-Exclusive (sqlite ipv6 engine) (sqlite_leases engine laws ipv6) config
              (configure now _ h (Changes-leases calls)) ex',
          Changes-AllReadable v6 calls all',
        )
