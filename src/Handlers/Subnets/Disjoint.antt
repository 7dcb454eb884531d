-- ===== src/Handlers/Subnets/Disjoint.antt =====
-- The overlap check of `create_subnet` of crates/ndhcpd/src/handlers/subnets.rs, over the database in
-- memory: no two subnets share an address.
use ndhcpd.Common.{
  ℕ, ◌≤◌, ◌≡◌, ◌↔◌, inl, inr, true, some, arith, err, In, any, any-In, In-any, Bool-cases, All,
  All-In, In-All, All-append, All-retain, Pairwise, Pairwise-push, Pairwise-retain,
}
use ndhcpd.Bytes.{IsU32}
use ndhcpd.Models.{Subnet}
use ndhcpd.Net.Overlap.{InSubnet, subnets_overlap_iff}
use ndhcpd.Db.Memory
use ndhcpd.Db.Memory.{InMemoryDatabase, memory}
use ndhcpd.Handlers.{conflict}
use ndhcpd.Handlers.Subnets.{create_subnet, delete_subnet, overlap}

-- A 32-bit network address and a prefix length of at most 32.
pub record IsNetwork (a : Subnet) : Type 0 where
  pub network : IsU32 a.network
  pub netmask : a.netmask ≤ 32

-- An address that lies in both subnets.
pub record Shared (a b : Subnet) : Type 0 where
  pub ip : ℕ
  pub is_address : IsU32 ip
  pub in_first : InSubnet a.network a.netmask ip
  pub in_second : InSubnet b.network b.netmask ip

-- No address lies in two subnets of the table, whose rows are networks.
pub record Disjoint (db : InMemoryDatabase) : Type 0 where
  pub networks : All IsNetwork db.subnets
  pub apart : Pairwise (λ a b. Shared b a → ⊥) db.subnets

overlap_iff : (a b : Subnet) → IsNetwork a → IsNetwork b → (overlap a b ≡ true) ↔ Shared a b
overlap_iff a b ha hb =
    let (f, g) =
      subnets_overlap_iff a.network a.netmask b.network b.netmask ha.network hb.network ha.netmask
        hb.netmask in
    (
      λ e.
          let (ip, u, l, r) = f e in
          record { ip = ip; is_address = u; in_first = l; in_second = r },
      λ s. g (s.ip, s.is_address, s.in_first, s.in_second),
    )

-- Over the database in memory, `create_subnet` answers CONFLICT exactly when an address of the new
-- subnet lies in a subnet of the table, where the new subnet and the rows are networks.
pub create_subnet_conflict :
    (db : InMemoryDatabase) (subnet : Subnet)
    → All IsNetwork db.subnets
    → IsNetwork subnet
    → ((create_subnet memory subnet db).1 ≡ err conflict)
      ↔ ((old : Subnet) × In old db.subnets × Shared subnet old)
unfolding create_subnet Memory.list_subnets Memory.create_subnet
create_subnet_conflict db subnet networks h = (
  λ e. elim (Bool-cases (any (overlap subnet) db.subnets)) [
    | inr clear ↦ absurd (ground (arith, clear))
    | inl hit ↦
        let (old, q, m) = any-In (overlap subnet) db.subnets hit in
        (old, m, (overlap_iff subnet old h (All-In IsNetwork db.subnets old networks m)).0 q)
  ],
  λ (old, m, shared).
      let hit =
        In-any (overlap subnet) db.subnets old
          ((overlap_iff subnet old h (All-In IsNetwork db.subnets old networks m)).1 shared) m in
      ground (arith, hit),
)

-- Creating a subnet that is a network and deleting a subnet through the API over the database in
-- memory keep every two subnets of the table disjoint.
pub handlers-Disjoint :
    (db : InMemoryDatabase) (subnet : Subnet) (i : ℕ)
    → IsNetwork subnet
    → Disjoint db
    → Disjoint (create_subnet memory subnet db).0 × Disjoint (delete_subnet memory i db).0
unfolding create_subnet delete_subnet Memory.list_subnets Memory.create_subnet Memory.delete_subnet
handlers-Disjoint db subnet i h d = (
  elim (Bool-cases (any (overlap subnet) db.subnets)) [
    | inl hit ↦ rw (hit, create_subnet) d
    | inr clear ↦
        rw (clear, create_subnet)
          (record {
            networks = All-append IsNetwork db.subnets _ d.networks (new, tt);
            apart = Pairwise-push _ db.subnets _ d.apart (
                In-All _ db.subnets (λ old m shared.
                  let hit =
                    In-any (overlap subnet) db.subnets old
                      ((overlap_iff subnet old h (All-In IsNetwork db.subnets old d.networks m)).1
                        (again shared))
                      m in
                  ground (arith, hit, clear)));
          })
  ],
  record {
    networks = All-retain IsNetwork _ db.subnets d.networks;
    apart = Pairwise-retain _ _ db.subnets d.apart;
  },
)
  where
    row : Subnet
    row = record subnet { id = some db.next_subnet_id }

    new : IsNetwork row
    new = record { network = h.network; netmask = h.netmask }

    again : {old : Subnet} → Shared row old → Shared subnet old
    again s = record {
      ip = s.ip;
      is_address = s.is_address;
      in_first = s.in_first;
      in_second = s.in_second;
    }
