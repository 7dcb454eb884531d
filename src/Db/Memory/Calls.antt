-- ===== src/Db/Memory/Calls.antt =====
-- Every call that changes the database of crates/ndhcpd/src/db/memory.rs, and what all of them keep.
pub use ndhcpd.Db.Calls.{
  Call, create_subnet, update_subnet, delete_subnet, create_range, delete_range, create_static_ip,
  update_static_ip_hostname, delete_static_ip, create_lease, expire_lease, delete_expired_leases,
  create_ia_prefix, update_ia_prefix, delete_ia_prefix, create_token, delete_token, toggle_token,
  update_token_last_used,
}
use ndhcpd.Common.{
  ℕ, ◌≡◌, ◌≢◌, ◌↔◌, refl, sym, ap, some, arith, ok, In, here, append-In, In-retain, retain-In,
  Bool-cases, inl, inr,
}
use ndhcpd.Models.{Subnet, DynamicRange, Lease, IaPrefix}
use ndhcpd.Db.Interface.{has_id}
use ndhcpd.Db.Memory
use ndhcpd.Db.Calls.{apply_to}
use ndhcpd.Db.Memory.{InMemoryDatabase, Token, memory}
use ndhcpd.Db.Memory.Tables.{
  Numbered, Numbered-empty, Numbered-push, Numbered-retain, Numbered-updated, find_by_id,
  has_id_iff, has_id-some,
}

unfoldable pub apply : Call → InMemoryDatabase → InMemoryDatabase
unfolding apply_to
apply c db = apply_to memory c db

-- The rows of every table have ids of their own, below the table's counter.
pub record WellFormed (db : InMemoryDatabase) : Type 0 where
  pub subnets : Numbered (λ (x : Subnet). x.id) db.next_subnet_id db.subnets
  pub ranges : Numbered (λ (x : DynamicRange). x.id) db.next_range_id db.ranges
  pub leases : Numbered (λ (x : Lease). x.id) db.next_lease_id db.leases
  pub ia_prefixes : Numbered (λ (x : IaPrefix). x.id) db.next_ia_prefix_id db.ia_prefixes
  pub tokens : Numbered (λ (x : Token). some x.id) db.next_token_id db.tokens

rows :
    {db : InMemoryDatabase}
    → Numbered (λ (x : Subnet). x.id) db.next_subnet_id db.subnets
    → Numbered (λ (x : DynamicRange). x.id) db.next_range_id db.ranges
    → Numbered (λ (x : Lease). x.id) db.next_lease_id db.leases
    → Numbered (λ (x : IaPrefix). x.id) db.next_ia_prefix_id db.ia_prefixes
    → Numbered (λ (x : Token). some x.id) db.next_token_id db.tokens
    → WellFormed db
rows a b c d e = record { subnets = a; ranges = b; leases = c; ia_prefixes = d; tokens = e }

-- The empty database is well formed.
pub new-WellFormed : WellFormed Memory.new
new-WellFormed = record {
  subnets = Numbered-empty _;
  ranges = Numbered-empty _;
  leases = Numbered-empty _;
  ia_prefixes = Numbered-empty _;
  tokens = Numbered-empty _;
}

-- Every call that changes the database in memory keeps the ids of every table distinct and below
-- the table's counter.
pub apply-WellFormed : (c : Call) (db : InMemoryDatabase) → WellFormed db → WellFormed (apply c db)
unfolding apply Memory.create_subnet Memory.update_subnet Memory.delete_subnet Memory.create_range
    Memory.delete_range Memory.create_static_ip Memory.update_static_ip_hostname
    Memory.delete_static_ip Memory.create_lease Memory.expire_lease Memory.delete_expired_leases
    Memory.create_ia_prefix Memory.update_ia_prefix Memory.delete_ia_prefix Memory.create_token
    Memory.delete_token Memory.toggle_token Memory.update_token_last_used
apply-WellFormed (create_subnet x) db w =
    rows (Numbered-push _ _ _ _ refl w.subnets) w.ranges w.leases w.ia_prefixes w.tokens
apply-WellFormed (update_subnet i x) db w =
    rows (Numbered-updated _ _ _ (λ y e. sym (has_id_iff i y.id e)) _ _ w.subnets) w.ranges w.leases
      w.ia_prefixes w.tokens
apply-WellFormed (delete_subnet i) db w =
    rows (Numbered-retain _ _ _ _ w.subnets) w.ranges w.leases w.ia_prefixes w.tokens
apply-WellFormed (create_range x) db w =
    rows w.subnets (Numbered-push _ _ _ _ refl w.ranges) w.leases w.ia_prefixes w.tokens
apply-WellFormed (delete_range i) db w =
    rows w.subnets (Numbered-retain _ _ _ _ w.ranges) w.leases w.ia_prefixes w.tokens
apply-WellFormed (create_static_ip x) db w = rows w.subnets w.ranges w.leases w.ia_prefixes w.tokens
apply-WellFormed (update_static_ip_hostname ip h) db w =
    rows w.subnets w.ranges w.leases w.ia_prefixes w.tokens
apply-WellFormed (delete_static_ip ip) db w =
    rows w.subnets w.ranges w.leases w.ia_prefixes w.tokens
apply-WellFormed (create_lease x) db w =
    rows w.subnets w.ranges (Numbered-push _ _ _ _ refl w.leases) w.ia_prefixes w.tokens
apply-WellFormed (expire_lease i) db w =
    rows w.subnets w.ranges (Numbered-retain _ _ _ _ w.leases) w.ia_prefixes w.tokens
apply-WellFormed (delete_expired_leases now) db w =
    rows w.subnets w.ranges (Numbered-retain _ _ _ _ w.leases) w.ia_prefixes w.tokens
apply-WellFormed (create_ia_prefix x) db w =
    rows w.subnets w.ranges w.leases (Numbered-push _ _ _ _ refl w.ia_prefixes) w.tokens
apply-WellFormed (update_ia_prefix i x) db w =
    rows w.subnets w.ranges w.leases
      (Numbered-updated _ _ _ (λ y e. sym (has_id_iff i y.id e)) _ _ w.ia_prefixes) w.tokens
apply-WellFormed (delete_ia_prefix i) db w =
    rows w.subnets w.ranges w.leases (Numbered-retain _ _ _ _ w.ia_prefixes) w.tokens
apply-WellFormed (create_token n h salt) db w =
    rows w.subnets w.ranges w.leases w.ia_prefixes (Numbered-push _ _ _ _ refl w.tokens)
apply-WellFormed (delete_token i) db w =
    rows w.subnets w.ranges w.leases w.ia_prefixes (Numbered-retain _ _ _ _ w.tokens)
apply-WellFormed (toggle_token i b) db w =
    rows w.subnets w.ranges w.leases w.ia_prefixes
      (Numbered-updated _ _ _ (λ y e. refl) _ _ w.tokens)
apply-WellFormed (update_token_last_used h) db w = w

pub new_subnet_found :
    (db : InMemoryDatabase) (subnet : Subnet)
    → WellFormed db
    → Memory.get_subnet db.next_subnet_id (Memory.create_subnet subnet db).0
      ≡ ok (some (record subnet { id = some db.next_subnet_id }))
unfolding Memory.get_subnet Memory.create_subnet
new_subnet_found db subnet w = ap ok (
    find_by_id (λ (x : Subnet). x.id) _ _ _ _ (Numbered-push _ _ _ _ refl w.subnets)
      (append-In db.subnets _ _ (here refl)) refl)

-- In a well-formed database in memory, a subnet or an IPv6 prefix that is created is found under
-- the counter's value, which becomes its id.
pub created_found :
    (db : InMemoryDatabase) (subnet : Subnet) (prefix : IaPrefix)
    → WellFormed db
    → (Memory.get_subnet db.next_subnet_id (Memory.create_subnet subnet db).0
        ≡ ok (some (record subnet { id = some db.next_subnet_id })))
      × (Memory.get_ia_prefix db.next_ia_prefix_id (Memory.create_ia_prefix prefix db).0
          ≡ ok (some (record prefix { id = some db.next_ia_prefix_id })))
unfolding Memory.get_subnet Memory.create_subnet Memory.get_ia_prefix Memory.create_ia_prefix
created_found db subnet prefix w = (
  new_subnet_found db subnet w,
  ap ok (
      find_by_id (λ (x : IaPrefix). x.id) _ _ _ _ (Numbered-push _ _ _ _ refl w.ia_prefixes)
        (append-In db.ia_prefixes _ _ (here refl)) refl),
)

-- `expire_lease` takes away the leases that have the id, and no other.
pub expired_gone :
    (db : InMemoryDatabase) (i : ℕ) (l : Lease)
    → In l (Memory.expire_lease i db).0.leases ↔ (In l db.leases × (l.id ≢ some i))
unfolding Memory.expire_lease
expired_gone db i l = (
  λ m.
      let (a, n) = In-retain _ db.leases l m in
      (n, λ e. ground (arith, a, ap (has_id i) e, has_id-some i)),
  λ (n, e).
      retain-In _ db.leases l
        (elim (Bool-cases (has_id i l.id)) [
          | inl h ↦ absurd (e (has_id_iff i l.id h))
          | inr h ↦ ground (arith, h)
        ])
        n,
)
