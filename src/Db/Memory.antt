-- ===== src/Db/Memory.antt =====
-- crates/ndhcpd/src/db/memory.rs: the database in memory. The locks of the source guard one call
-- each, so a call is one step here. No operation fails.
pub mod Tables
pub mod Leases
pub mod Calls
use ndhcpd.Common.{
  ℕ, ◌+◌, ◌-◌, Bool, true, false, ◌&&◌, not, Option, none, some, List, [], ◌∷◌, ◌++◌, map, ltb, leb,
  ◌==◌, if◌then◌else◌, length, find, retain, update_first, Result, ok,
}
use ndhcpd.Bytes.{Text, text_eq, to_lowercase}
use ndhcpd.Addr.{ipv4_to_string}
use ndhcpd.Models.{Subnet, DynamicRange, StaticIp, Lease, IaPrefix, ApiToken}
use ndhcpd.Db.Interface.{DbError, Query, Update, Database, has_id, is_active}

-- A row of the token table: id, name, token_hash, enabled.
pub record Token : Type 0 where
  pub id : ℕ
  pub name : Text
  pub token_hash : Text
  pub enabled : ℕ

pub record InMemoryDatabase : Type 0 where
  pub subnets : List Subnet
  pub ranges : List DynamicRange
  pub static_ips : List StaticIp
  pub leases : List Lease
  pub ia_prefixes : List IaPrefix
  pub tokens : List Token
  pub next_subnet_id : ℕ
  pub next_range_id : ℕ
  pub next_lease_id : ℕ
  pub next_ia_prefix_id : ℕ
  pub next_token_id : ℕ

abbrev pub new : InMemoryDatabase
new = record {
  subnets = [];
  ranges = [];
  static_ips = [];
  leases = [];
  ia_prefixes = [];
  tokens = [];
  next_subnet_id = 1;
  next_range_id = 1;
  next_lease_id = 1;
  next_ia_prefix_id = 1;
  next_token_id = 1;
}

abbrev Db : Type 0
Db = InMemoryDatabase

abbrev pub done : Db → Db × Result DbError (Unit {0})
done db = (db, ok tt)

unfoldable pub create_subnet : Subnet → Update Db ℕ
create_subnet subnet db =
    let new_id = db.next_subnet_id in
    (
      record db {
        next_subnet_id = new_id + 1;
        subnets = db.subnets ++ (record subnet { id = some new_id } ∷ []);
      },
      ok new_id,
    )

unfoldable pub get_subnet : ℕ → Query Db (Option Subnet)
get_subnet i db = ok (find (λ s. has_id i s.id) db.subnets)

unfoldable pub list_subnets : Query Db (List Subnet)
list_subnets db = ok db.subnets

unfoldable pub update_subnet : ℕ → Subnet → Update Db (Unit {0})
update_subnet i subnet db = done (record db {
  subnets = update_first (λ s. has_id i s.id) (λ _. record subnet { id = some i }) db.subnets;
})

unfoldable pub delete_subnet : ℕ → Update Db (Unit {0})
delete_subnet i db = done (record db { subnets = retain (λ s. not (has_id i s.id)) db.subnets })

unfoldable pub create_range : DynamicRange → Update Db ℕ
create_range range db =
    let new_id = db.next_range_id in
    (
      record db {
        next_range_id = new_id + 1;
        ranges = db.ranges ++ (record range { id = some new_id } ∷ []);
      },
      ok new_id,
    )

unfoldable pub list_ranges : Option ℕ → Query Db (List DynamicRange)
list_ranges none db = ok db.ranges
list_ranges (some sid) db = ok (retain (λ r. r.subnet_id == sid) db.ranges)

unfoldable pub delete_range : ℕ → Update Db (Unit {0})
delete_range i db = done (record db { ranges = retain (λ r. not (has_id i r.id)) db.ranges })

unfoldable pub create_static_ip : StaticIp → Update Db (Unit {0})
create_static_ip static_ip db = done (record db { static_ips = db.static_ips ++ (static_ip ∷ []) })

unfoldable pub list_static_ips : Option ℕ → Query Db (List StaticIp)
list_static_ips none db = ok db.static_ips
list_static_ips (some sid) db = ok (retain (λ s. s.subnet_id == sid) db.static_ips)

-- The queries come with the ASCII text of a hardware address. No character outside ASCII has a
-- lower case among its digits, so `to_lowercase` on ASCII decides this comparison.
abbrev pub same_mac : Text → Text → Bool
same_mac mac mac' = text_eq (to_lowercase mac') (to_lowercase mac)

unfoldable pub get_static_ip_by_mac : Text → Query Db (Option StaticIp)
get_static_ip_by_mac mac db = ok (find (λ s. same_mac mac s.mac_address) db.static_ips)

unfoldable pub update_static_ip_hostname : Text → Option Text → Update Db (Unit {0})
update_static_ip_hostname ip hostname db = done (record db {
  static_ips =
      update_first (λ s. text_eq (ipv4_to_string s.ip_address) ip)
        (λ s. record s { hostname = hostname }) db.static_ips;
})

unfoldable pub delete_static_ip : Text → Update Db (Unit {0})
delete_static_ip ip db = done (record db {
  static_ips = retain (λ s. not (text_eq (ipv4_to_string s.ip_address) ip)) db.static_ips;
})

unfoldable pub create_lease : Lease → Update Db ℕ
create_lease lease db =
    let new_id = db.next_lease_id in
    (
      record db {
        next_lease_id = new_id + 1;
        leases = db.leases ++ (record lease { id = some new_id } ∷ []);
      },
      ok new_id,
    )

unfoldable pub get_active_lease : ℕ → Text → Query Db (Option Lease)
get_active_lease now mac db =
    ok (find (λ l. same_mac mac l.mac_address && is_active now l) db.leases)

unfoldable pub list_active_leases : ℕ → Query Db (List Lease)
list_active_leases now db = ok (retain (is_active now) db.leases)

unfoldable pub expire_lease : ℕ → Update Db (Unit {0})
expire_lease i db = done (record db { leases = retain (λ l. not (has_id i l.id)) db.leases })

unfoldable pub delete_expired_leases : ℕ → Update Db ℕ
delete_expired_leases now db =
    let kept = retain (λ l. leb now l.lease_end) db.leases in
    (record db { leases = kept }, ok (length db.leases - length kept))

unfoldable pub create_ia_prefix : IaPrefix → Update Db ℕ
create_ia_prefix prefix db =
    let new_id = db.next_ia_prefix_id in
    (
      record db {
        next_ia_prefix_id = new_id + 1;
        ia_prefixes = db.ia_prefixes ++ (record prefix { id = some new_id } ∷ []);
      },
      ok new_id,
    )

unfoldable pub get_ia_prefix : ℕ → Query Db (Option IaPrefix)
get_ia_prefix i db = ok (find (λ p. has_id i p.id) db.ia_prefixes)

unfoldable pub list_ia_prefixes : Option Text → Query Db (List IaPrefix)
list_ia_prefixes none db = ok db.ia_prefixes
list_ia_prefixes (some iface) db = ok (retain (λ p. text_eq p.interface iface) db.ia_prefixes)

unfoldable pub update_ia_prefix : ℕ → IaPrefix → Update Db (Unit {0})
update_ia_prefix i prefix db = done (record db {
  ia_prefixes =
      update_first (λ p. has_id i p.id) (λ _. record prefix { id = some i }) db.ia_prefixes;
})

unfoldable pub delete_ia_prefix : ℕ → Update Db (Unit {0})
delete_ia_prefix i db =
    done (record db { ia_prefixes = retain (λ p. not (has_id i p.id)) db.ia_prefixes })

unfoldable pub list_tokens : Query Db (List (Text × ℕ))
list_tokens db = ok (map (λ t. (t.token_hash, t.enabled)) (retain (λ t. t.enabled == 1) db.tokens))

pub api_token : Token → ApiToken
api_token t = record {
  id = some t.id;
  name = t.name;
  token_hash = none;
  salt = none;
  created_at = none;
  last_used_at = none;
  enabled = t.enabled == 1;
  token = none;
}

unfoldable pub list_api_tokens : Query Db (List ApiToken)
unfolding api_token
list_api_tokens db = ok (map api_token db.tokens)

unfoldable pub create_token : Text → Text → Text → Update Db ℕ
create_token name token_hash salt db =
    let new_id = db.next_token_id in
    (
      record db {
        next_token_id = new_id + 1;
        tokens =
            db.tokens
            ++ (record { id = new_id; name = name; token_hash = token_hash; enabled = 1 } ∷ []);
      },
      ok new_id,
    )

unfoldable pub delete_token : ℕ → Update Db (Unit {0})
delete_token i db = done (record db { tokens = retain (λ t. not (t.id == i)) db.tokens })

unfoldable pub toggle_token : ℕ → Bool → Update Db (Unit {0})
toggle_token i enabled db = done (record db {
  tokens =
      update_first (λ t. t.id == i) (λ t. record t { enabled = if enabled then 1 else 0 })
        db.tokens;
})

unfoldable pub update_token_last_used : Text → Update Db (Unit {0})
update_token_last_used token_hash db = done db

-- `impl Database for InMemoryDatabase`
abbrev pub memory : Database InMemoryDatabase
memory = record {
  create_subnet = create_subnet;
  get_subnet = get_subnet;
  list_subnets = list_subnets;
  update_subnet = update_subnet;
  delete_subnet = delete_subnet;
  create_range = create_range;
  list_ranges = list_ranges;
  delete_range = delete_range;
  create_static_ip = create_static_ip;
  list_static_ips = list_static_ips;
  get_static_ip_by_mac = get_static_ip_by_mac;
  update_static_ip_hostname = update_static_ip_hostname;
  delete_static_ip = delete_static_ip;
  create_lease = create_lease;
  get_active_lease = get_active_lease;
  list_active_leases = list_active_leases;
  expire_lease = expire_lease;
  delete_expired_leases = delete_expired_leases;
  create_ia_prefix = create_ia_prefix;
  get_ia_prefix = get_ia_prefix;
  list_ia_prefixes = list_ia_prefixes;
  update_ia_prefix = update_ia_prefix;
  delete_ia_prefix = delete_ia_prefix;
  list_tokens = list_tokens;
  list_api_tokens = list_api_tokens;
  create_token = create_token;
  delete_token = delete_token;
  toggle_token = toggle_token;
  update_token_last_used = update_token_last_used;
}
