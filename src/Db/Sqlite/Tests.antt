-- ===== src/Db/Sqlite/Tests.antt =====
-- Runs of the SQLite database over the engine of lists.
use ndhcpd.Common.{
  ℕ, zero, suc, ◌+◌, ◌*◌, ◌/◌, ◌%◌, ◌^◌, ◌<◌, ◌≡◌, refl, subst, ap, Option, none, some, [], ◌∷◌, ok,
  In, arith,
}
use ndhcpd.Bytes.{Text, ipv4, text_eq, to_lowercase, split}
use ndhcpd.Addr.{decimal, ipv4_to_string, ipv4_from_string, ipv4_of_parts, octet}
use ndhcpd.Models.{Subnet, Lease, Ipv6Addr}
use ndhcpd.Models.DnsServers.{IsPlain}
use ndhcpd.Models.Fits.{SubnetFits}
use ndhcpd.Models.Ipv6Servers.{Ipv6Text, IsIpv6Text, IsU128}
use ndhcpd.Db.Calls
use ndhcpd.Db.Calls.{apply_to}
use ndhcpd.Db.Sql.{Row}
use ndhcpd.Db.Sql.Store.{Store, store, execute, fetch_optional, next_key, first_of, top}
use ndhcpd.Db.Sql.Store.Laws.{store_laws, store_rows}
use ndhcpd.Db.Sqlite.{sqlite}
use ndhcpd.Db.Sqlite.Rows.{lease_of_row, ipv4_of}
use ndhcpd.Db.Sqlite.Dhcp.{
  by_id, select_subnets, create_subnet, get_subnet, create_lease, get_active_lease,
}
use ndhcpd.Db.Sqlite.Leases.{lease_rows}
use ndhcpd.Db.Sqlite.ActiveLease.{Latest, get_active_lease-Latest}
use ndhcpd.Db.Sqlite.Created.{created_subnet_found}
use ndhcpd.Db.Sqlite.NoPanic.{ReadsRows, AllReadable-ReadsRows}
use ndhcpd.Db.Sqlite.Readable.{AllReadable, apply_to-AllReadable}

-- A text form of an address of 128 bits: its binary digits, the lowest first.
bits : ℕ → ℕ → Text
bits zero a = []
bits (suc n) a = (48 + a % 2) ∷ bits n (a / 2)

value : Text → ℕ
value [] = 0
value (c ∷ cs) = c % 2 + 2 * value cs

value-bits : (n a : ℕ) → a < 2 ^ n → value (bits n a) ≡ a
unfolding value bits
value-bits zero a h = omega arith
value-bits (suc n) a h =
    let half : a / 2 < 2 ^ n = omega arith in omega (arith, value-bits n (a / 2) half)

bits-IsPlain : (n a : ℕ) → IsPlain (bits n a)
unfolding bits
bits-IsPlain zero a = tt
bits-IsPlain (suc n) a = ((λ e. absurd (omega (arith, e)), ground arith), bits-IsPlain n (a / 2))

from_bits : Text → Option Ipv6Addr
from_bits [] = none
from_bits (c ∷ cs) = some (value (c ∷ cs))

unfoldable pub binary : Ipv6Text
unfolding bits from_bits value
binary = record { to_string = bits 128; from_string = from_bits }

pub binary-IsIpv6Text : IsIpv6Text binary
unfolding binary
binary-IsIpv6Text = record { read = read; plain = bits-IsPlain 128; empty = refl }
  where
    read : (a : Ipv6Addr) → IsU128 a → from_bits (bits 128 a) ≡ some a
    read a h = ap some (value-bits 128 a h)

abbrev pub empty : Store
empty t = []

pub empty-AllReadable : AllReadable store store_laws binary empty
empty-AllReadable t r m = elim (subst (In r) (store_rows t empty) m) [ ]

abbrev pub lan : Subnet
lan = record {
  id = none;
  network = ipv4 192 168 1 0;
  netmask = 24;
  gateway = ipv4 192 168 1 1;
  dns_servers = ipv4 1 1 1 1 ∷ ipv4 8 8 8 8 ∷ [];
  domain_name = some (b'l' ∷ b'a' ∷ b'n' ∷ []);
}

pub lan-SubnetFits : SubnetFits lan
lan-SubnetFits = record {
  network = omega arith;
  netmask = omega arith;
  gateway = omega arith;
  dns_servers = (omega arith, (omega arith, tt));
}

created_row :
    (r : Row) × (fetch_optional (select_subnets (by_id 1)) (create_subnet store lan empty).0
      ≡ ok (some r))
unfolding fetch_optional create_subnet execute next_key first_of
created_row = (_, refl)

created_subnet_found_example :
    get_subnet store 1 (create_subnet store lan empty).0 ≡ ok (some (record lan { id = some 1 }))
unfolding create_subnet execute next_key
created_subnet_found_example =
    created_subnet_found store store_laws lan empty 1 (some created_row.0) lan-SubnetFits refl
      created_row.1

abbrev mac : Text
mac = b'a' ∷ b'a' ∷ []

abbrev lease : ℕ → Lease
lease until = record {
  id = none;
  subnet_id = 1;
  mac_address = mac;
  ip_address = ipv4 192 168 1 100;
  lease_start = 0;
  lease_end = until;
  hostname = none;
}

abbrev two_leases : Store
two_leases = (create_lease store (lease 200) (create_lease store (lease 100) empty).0).0

active_lease :
    get_active_lease store 50 (b'A' ∷ b'A' ∷ []) two_leases
    ≡ ok (some (record (lease 200) { id = some 2 }))
unfolding get_active_lease create_lease execute next_key fetch_optional first_of top lease_of_row
    ipv4_of ipv4_from_string ipv4_of_parts ipv4_to_string decimal split text_eq to_lowercase octet
active_lease = refl

get_active_lease-Latest_example :
    Latest 50
      (b'A' ∷ b'A' ∷ [])
      (lease_rows store store_laws two_leases)
      (some (record (lease 200) { id = some 2 }))
get_active_lease-Latest_example =
    get_active_lease-Latest store store_laws 50 (b'A' ∷ b'A' ∷ []) two_leases
      (some (record (lease 200) { id = some 2 })) active_lease

apply_to-AllReadable_example :
    AllReadable store store_laws binary
      (apply_to (sqlite binary store) (Calls.create_subnet lan) empty)
apply_to-AllReadable_example =
    apply_to-AllReadable store store_laws binary binary-IsIpv6Text (Calls.create_subnet lan) empty
      lan-SubnetFits empty-AllReadable

AllReadable-ReadsRows_example :
    ReadsRows store binary
      (apply_to (sqlite binary store) (Calls.create_subnet lan) empty)
      1
      50
      (some 1)
      mac
      none
AllReadable-ReadsRows_example =
    AllReadable-ReadsRows store store_laws binary
      (apply_to (sqlite binary store) (Calls.create_subnet lan) empty) 1 50 (some 1) mac none
      (apply_to-AllReadable store store_laws binary binary-IsIpv6Text (Calls.create_subnet lan)
        empty lan-SubnetFits empty-AllReadable)
