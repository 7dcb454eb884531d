-- ===== src/Dhcp/Leaving.antt =====
-- How leases end (`handle_release` and the cleanup task of crates/ndhcpd/src/dhcp/server.rs), over
-- the database of crates/ndhcpd/src/db/memory.rs.
use ndhcpd.Common.{
  ℕ, ◌≤◌, ◌≡◌, ◌≢◌, ◌↔◌, refl, sym, subst, ap, ◌∙◌, inl, inr, Bool, true, some, List, [], ◌∷◌, ok,
  In, find, find-In, retain, arith, All-In, if◌then◌else◌, Pairwise-In, Bool-cases, leb, ◌&&◌,
  and_parts, ltb→lt, le→leb,
}
use ndhcpd.Bytes.{Text}
use ndhcpd.Models.{Lease}
use ndhcpd.Db.Interface.{is_active}
use ndhcpd.Db.Memory
use ndhcpd.Db.Memory.{InMemoryDatabase, memory, same_mac}
use ndhcpd.Db.Memory.Calls.{WellFormed, expired_gone}
use ndhcpd.Db.Memory.Tables.{Below, Differ}
use ndhcpd.Proto.Mac.{to_string}
use ndhcpd.Proto.Packet.{DhcpPacket}
use ndhcpd.Dhcp.Request.{handle_release}
use ndhcpd.Dhcp.Server.{clean_up}

-- A filter that keeps all that a later search looks for does not change what it finds.
module _ {A : Type 0} (p q : A → Bool) (weaker : (a : A) → p a ≡ true → q a ≡ true) where
  retain-retain : (xs : List A) → retain p (retain q xs) ≡ retain p xs
  retain-retain [] = refl
  retain-retain (x ∷ xs) = elim (Bool-cases (q x)) [
    | inl e ↦ rw e (ap (λ z. if p x then x ∷ z else z) (retain-retain xs))
    | inr e ↦ elim (Bool-cases (p x)) [
      | inl f ↦ absurd (ground (arith, e, weaker x f))
      | inr f ↦ rw (e, f) (retain-retain xs)
    ]
  ]

  find-retain : (xs : List A) → find p (retain q xs) ≡ find p xs
  find-retain [] = refl
  find-retain (x ∷ xs) = elim (Bool-cases (q x)) [
    | inl e ↦ rw e (ap (λ z. if p x then some x else z) (find-retain xs))
    | inr e ↦ elim (Bool-cases (p x)) [
      | inl f ↦ absurd (ground (arith, e, weaker x f))
      | inr f ↦ rw (e, f) (find-retain xs)
    ]
  ]

-- A lease that is active later has not ended now.
active_kept : (now t : ℕ) (l : Lease) → now ≤ t → is_active t l ≡ true → leb now l.lease_end ≡ true
active_kept now t l h a = le→leb now l.lease_end (omega (arith, ltb→lt t l.lease_end a))

-- The cleanup cannot be seen: from its time on, the servers find the same active leases in the
-- database in memory, with it or without it.
pub clean_up_unseen :
    (db : InMemoryDatabase) (now t : ℕ) (mac : Text)
    → now ≤ t
    → (Memory.list_active_leases t (clean_up memory now db) ≡ Memory.list_active_leases t db)
      × (Memory.get_active_lease t mac (clean_up memory now db) ≡ Memory.get_active_lease t mac db)
unfolding clean_up Memory.delete_expired_leases Memory.list_active_leases Memory.get_active_lease
clean_up_unseen db now t mac h = (
  ap ok (retain-retain (is_active t) _ (λ l a. active_kept now t l h a) db.leases),
  ap ok (find-retain _ _ (λ (l : Lease) a. active_kept now t l h (and_parts _ _ a).1) db.leases),
)

held_row :
    (db : InMemoryDatabase) (now : ℕ) (mac : Text) (lease : Lease)
    → Memory.get_active_lease now mac db ≡ ok (some lease)
    → In lease db.leases
unfolding Memory.get_active_lease
held_row db now mac lease held =
    (find-In (λ (l : Lease). same_mac mac l.mac_address && is_active now l) db.leases lease
      (ground (arith, held))).1

released :
    (db : InMemoryDatabase) (packet : DhcpPacket) (now : ℕ) (lease : Lease) (i : ℕ)
    → Memory.get_active_lease now (to_string packet.chaddr) db ≡ ok (some lease)
    → lease.id ≡ some i
    → handle_release memory packet now db ≡ (Memory.expire_lease i db).0
unfolding handle_release
released db packet now lease i held has = ground (arith, held, has)

-- In a well-formed database in memory a RELEASE takes away the active lease that the client has,
-- and no other lease.
pub handle_release_exact :
    (db : InMemoryDatabase) (packet : DhcpPacket) (now : ℕ) (lease l : Lease)
    → WellFormed db
    → Memory.get_active_lease now (to_string packet.chaddr) db ≡ ok (some lease)
    → In l (handle_release memory packet now db).leases ↔ (In l db.leases × (l ≢ lease))
handle_release_exact db packet now lease l w held =
    let row = held_row db now (to_string packet.chaddr) lease held in
    let b =
      All-In (Below (λ (x : Lease). x.id) db.next_lease_id) db.leases lease w.leases.ids row in
    let gone = expired_gone db b.i l in
    let after : (handle_release memory packet now db).leases
        ≡ (Memory.expire_lease b.i db).0.leases =
      ap (λ (z : InMemoryDatabase). z.leases) (released db packet now lease b.i held b.has) in
    (
      λ m.
          let (k, other) = gone.0 (subst (In l) after m) in
          (k, λ same. other (ap (λ (z : Lease). z.id) same ∙ b.has)),
      λ (k, other). subst (In l) (sym after) (
          gone.1 (
            k,
            λ same.
                elim (Pairwise-In (Differ (λ (x : Lease). x.id)) db.leases l lease w.leases.unique k
                  row) [
                    | inl eq ↦ other eq
                    | inr (inl differ) ↦ differ (same ∙ sym b.has)
                    | inr (inr differ) ↦ differ (b.has ∙ sym same)
                  ],
          )),
    )
