-- ===== src/Db/Memory/Leases.antt =====
-- The lease table of crates/ndhcpd/src/db/memory.rs meets the laws that the DHCP server needs.
use ndhcpd.Common.{
  ℕ, ◌≡◌, refl, subst, sym, ◌⊎◌, ◌↔◌, inl, inr, true, List, ok, In, here, there, In-retain,
  retain-In, In-append, append-In, some, retain, arith, find-In, and_parts, ◌&&◌,
}
use ndhcpd.Models.{Lease}
use ndhcpd.Bytes.{Text}
use ndhcpd.Db.Interface.{is_active}
use ndhcpd.Db.LeaseLaws.{SameLease, LeaseLaws}
use ndhcpd.Db.Memory.{
  get_active_lease, same_mac, InMemoryDatabase, memory, create_lease, list_active_leases,
  expire_lease, delete_expired_leases,
}

pub list_active :
    (now : ℕ) (s : InMemoryDatabase) (ls : List Lease) (l : Lease)
    → list_active_leases now s ≡ ok ls
    → In l ls ↔ (In l s.leases × (is_active now l ≡ true))
unfolding list_active_leases
list_active now s ls l e =
    let f : retain (is_active now) s.leases ≡ ls = ground arith in
    (
      λ m. let (a, n) = In-retain (is_active now) s.leases l (subst (In l) (sym f) m) in (n, a),
      λ (m, a). subst (In l) f (retain-In (is_active now) s.leases l a m),
    )

pub create :
    (l : Lease) (s : InMemoryDatabase) (l' : Lease)
    → In l' (create_lease l s).0.leases
    → In l' s.leases ⊎ SameLease l' l
unfolding create_lease
create l s l' m = elim (In-append s.leases _ l' m) [
  | inl old ↦ inl old
  | inr (here e) ↦ inr (rw e (record { mac_address = refl; ip_address = refl; lease_end = refl }))
  | inr (there n) ↦ elim n [ ]
]

pub created :
    (l : Lease) (s : InMemoryDatabase) (i : ℕ)
    → (create_lease l s).1 ≡ ok i
    → (l' : Lease) × In l' (create_lease l s).0.leases × SameLease l' l
unfolding create_lease
created l s i h = (
  record l { id = some s.next_lease_id },
  append-In s.leases _ _ (here refl),
  record { mac_address = refl; ip_address = refl; lease_end = refl },
)

pub expire :
    (i : ℕ) (s : InMemoryDatabase) (l : Lease) → In l (expire_lease i s).0.leases → In l s.leases
unfolding expire_lease
expire i s l m = (In-retain _ s.leases l m).1

pub delete_expired :
    (now : ℕ) (s : InMemoryDatabase) (l : Lease)
    → In l (delete_expired_leases now s).0.leases
    → In l s.leases
unfolding delete_expired_leases
delete_expired now s l m = (In-retain _ s.leases l m).1

pub get_active :
    (now : ℕ) (mac : Text) (s : InMemoryDatabase) (l : Lease)
    → get_active_lease now mac s ≡ ok (some l)
    → In l s.leases × (same_mac mac l.mac_address ≡ true) × (is_active now l ≡ true)
unfolding get_active_lease
get_active now mac s l h =
    let (hit, m) =
      find-In (λ (x : Lease). same_mac mac x.mac_address && is_active now x) s.leases l
        (ground (arith, h)) in
    let (same, active) = and_parts _ _ hit in (m, same, active)

-- The database in memory meets the lease laws.
unfoldable pub memory_leases : LeaseLaws memory
memory_leases = record {
  leases = λ s. s.leases;
  list_active = list_active;
  get_active = get_active;
  create = λ l s l' listed. create l s l';
  created = λ l s i listed. created l s i;
  expire = expire;
  delete_expired = delete_expired;
}
