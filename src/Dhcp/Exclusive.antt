-- ===== src/Dhcp/Exclusive.antt =====
-- Lease tables without two clients on one address, for crates/ndhcpd/src/dhcp/server.rs.
use ndhcpd.Common.{
  ℕ, ◌≤◌, ◌≡◌, sym, ◌∙◌, ◌⊎◌, inl, inr, true, List, [], ◌∷◌, In, here, there, arith, ltb→lt, lt→ltb,
}
use ndhcpd.Bytes.{Text, Ipv4Addr}
use ndhcpd.Models.{Lease}
use ndhcpd.Db.Interface.{is_active}
use ndhcpd.Db.LeaseLaws.{SameLease}

-- At the time `t` every two leases that are still active on one address belong to one client.
unfoldable pub Exclusive : ℕ → List Lease → Type 0
Exclusive t ls =
    (l l' : Lease)
    → In l ls
    → In l' ls
    → is_active t l ≡ true
    → is_active t l' ≡ true
    → l.ip_address ≡ l'.ip_address
    → l.mac_address ≡ l'.mac_address

pub Exclusive-empty : (t : ℕ) → Exclusive t []
unfolding Exclusive
Exclusive-empty t l l' m m' a a' same = elim m [ ]

pub Exclusive-single : (t : ℕ) (l : Lease) → Exclusive t (l ∷ [])
unfolding Exclusive
Exclusive-single t l a b (here e) (here f) p q same = ground (arith, e, f)
Exclusive-single t l a b (there m) n p q same = elim m [ ]
Exclusive-single t l a b (here e) (there n) p q same = elim n [ ]

-- What is active later is active now.
pub is_active_mono : (t t' : ℕ) (l : Lease) → t ≤ t' → is_active t' l ≡ true → is_active t l ≡ true
is_active_mono t t' l h a = lt→ltb t l.lease_end (omega (arith, ltb→lt t' l.lease_end a))

-- Fewer rows and a later time keep the table exclusive.
pub Exclusive-mono :
    (t t' : ℕ) (ls ls' : List Lease)
    → t ≤ t'
    → ((l : Lease) → In l ls' → In l ls)
    → Exclusive t ls
    → Exclusive t' ls'
unfolding Exclusive
Exclusive-mono t t' ls ls' h sub e l l' m m' a a' =
    e l l' (sub l m) (sub l' m') (is_active_mono t t' l h a) (is_active_mono t t' l' h a')

-- The address is free for the client: whoever holds it at `t` is that client.
unfoldable pub FreeFor : ℕ → Text → Ipv4Addr → List Lease → Type 0
FreeFor t mac ip ls =
    (l : Lease) → In l ls → is_active t l ≡ true → l.ip_address ≡ ip → l.mac_address ≡ mac

pub FreeFor-mono :
    (t t' : ℕ) (mac : Text) (ip : Ipv4Addr) (ls ls' : List Lease)
    → t ≤ t'
    → ((l : Lease) → In l ls' → In l ls)
    → FreeFor t mac ip ls
    → FreeFor t' mac ip ls'
unfolding FreeFor
FreeFor-mono t t' mac ip ls ls' h sub f l m a = f l (sub l m) (is_active_mono t t' l h a)

-- A lease of an address that is free for the client keeps the table exclusive.
pub Exclusive-insert :
    (t : ℕ) (ls ls' : List Lease) (new : Lease)
    → Exclusive t ls
    → FreeFor t new.mac_address new.ip_address ls
    → ((l : Lease) → In l ls' → In l ls ⊎ SameLease l new)
    → Exclusive t ls'
unfolding Exclusive FreeFor
Exclusive-insert t ls ls' new e free rows l l' m m' a a' same = elim (rows l m) [
  | inl old ↦ elim (rows l' m') [
    | inl old' ↦ e l l' old old' a a' same
    | inr s' ↦ free l old a (same ∙ s'.ip_address) ∙ sym s'.mac_address
  ]
  | inr s ↦ elim (rows l' m') [
    | inl old' ↦ s.mac_address ∙ sym (free l' old' a' (sym same ∙ s.ip_address))
    | inr s' ↦ s.mac_address ∙ sym s'.mac_address
  ]
]
