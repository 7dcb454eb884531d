-- ===== src/Db/LeaseLaws.antt =====
-- What the DHCP server relies on of the lease table of a `Database`, whatever its implementation:
-- the laws that crates/ndhcpd/src/db/mod.rs states in words. An update may fail.
use ndhcpd.Common.{ℕ, ◌≤◌, ◌≡◌, ◌⊎◌, ◌↔◌, true, none, some, List, ok, In}
use ndhcpd.Bytes.{Text, Ipv4Addr, text_eq, to_lowercase}
use ndhcpd.Models.{DynamicRange, Lease}
use ndhcpd.Db.Interface.{Database, is_active}

-- The parts of a lease that a client knows; a database adds the id.
pub record SameLease (l l' : Lease) : Type 0 where
  pub mac_address : l.mac_address ≡ l'.mac_address
  pub ip_address : l.ip_address ≡ l'.ip_address
  pub lease_end : l.lease_end ≡ l'.lease_end

-- Some listed range reaches up to the address.
abbrev pub Listed : {S : Type 0} → Database S → Ipv4Addr → Type 0
Listed {S} db ip =
    (s : S) × (ranges : List DynamicRange) × (range : DynamicRange) × (db.list_ranges none s
      ≡ ok ranges)
    × In range ranges
    × (ip ≤ range.range_end)

pub record LeaseLaws {S : Type 0} (db : Database S) : Type 0 where
  -- The rows of the table.
  pub leases : S → List Lease
  -- A list of the active leases has the active rows, and no other.
  pub list_active :
      (now : ℕ) (s : S) (ls : List Lease) (l : Lease)
      → db.list_active_leases now s ≡ ok ls
      → In l ls ↔ (In l (leases s) × (is_active now l ≡ true))
  -- The active lease of a client is an active row with its hardware address, in any case.
  pub get_active :
      (now : ℕ) (mac : Text) (s : S) (l : Lease)
      → db.get_active_lease now mac s ≡ ok (some l)
      → In l (leases s)
        × (text_eq (to_lowercase l.mac_address) (to_lowercase mac) ≡ true)
        × (is_active now l ≡ true)
  -- A new lease of an address of some range adds one row at most, that lease.
  pub create :
      (l : Lease) (s : S) (l' : Lease)
      → Listed db l.ip_address
      → In l' (leases (db.create_lease l s).0)
      → In l' (leases s) ⊎ SameLease l' l
  -- A lease whose creation succeeds is in the table.
  pub created :
      (l : Lease) (s : S) (i : ℕ)
      → Listed db l.ip_address
      → (db.create_lease l s).1 ≡ ok i
      → (l' : Lease) × In l' (leases (db.create_lease l s).0) × SameLease l' l
  -- The other two updates add no row.
  pub expire : (i : ℕ) (s : S) (l : Lease) → In l (leases (db.expire_lease i s).0) → In l (leases s)
  pub delete_expired :
      (now : ℕ) (s : S) (l : Lease)
      → In l (leases (db.delete_expired_leases now s).0)
      → In l (leases s)
