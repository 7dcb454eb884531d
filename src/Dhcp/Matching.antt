-- ===== src/Dhcp/Matching.antt =====
-- The search of `handle_request` (crates/ndhcpd/src/dhcp/server.rs) for a range that covers the
-- address: what it finds, and that it finds one where there is one.
use ndhcpd.Common.{
  ◌≡◌, ◌≢◌, refl, subst, inl, inr, true, none, some, List, [], ◌∷◌, ok, In, here, there,
  Option-cases, Bool-cases, Result-cases, arith,
}
use ndhcpd.Bytes.{Ipv4Addr}
use ndhcpd.Models.{Subnet, DynamicRange}
use ndhcpd.Db.Interface.{Database}
use ndhcpd.Db.LeaseLaws.{Listed}
use ndhcpd.Dhcp.Reply.{iface_in_subnet}
use ndhcpd.Dhcp.Request.{covers, matching_range}

module _ {S : Type 0} (db : Database S) (iface_ips : List Ipv4Addr) where
  -- An enabled range of the table that covers the address, with its subnet, which is reachable.
  pub record Matches (ip : Ipv4Addr) (s : S) (ranges : List DynamicRange) (range : DynamicRange)
      (subnet : Subnet) : Type 0 where
    pub listed : In range ranges
    pub enabled : range.enabled ≡ true
    pub covered : covers range ip ≡ true
    pub subnet_of : db.get_subnet range.subnet_id s ≡ ok (some subnet)
    pub reachable : iface_in_subnet iface_ips subnet ≡ true

  later_match :
      {ip : Ipv4Addr} {s : S} {r : DynamicRange} {rs : List DynamicRange} {range : DynamicRange}
      {subnet : Subnet}
      → Matches ip s rs range subnet
      → Matches ip s (r ∷ rs) range subnet
  later_match m = record {
    listed = there m.listed;
    enabled = m.enabled;
    covered = m.covered;
    subnet_of = m.subnet_of;
    reachable = m.reachable;
  }

  pub matching_range-Matches :
      (ip : Ipv4Addr) (ranges : List DynamicRange) (s : S) (range : DynamicRange) (subnet : Subnet)
      → matching_range db iface_ips ip ranges s ≡ some (range, subnet)
      → Matches ip s ranges range subnet
  unfolding matching_range
  matching_range-Matches ip [] s range subnet h = cc
  matching_range-Matches ip (r ∷ rs) s range subnet h =
      let later : matching_range db iface_ips ip rs s ≡ some (range, subnet)
          → Matches ip s (r ∷ rs) range subnet =
        λ k. later_match (matching_range-Matches ip rs s range subnet k) in
      elim (Bool-cases r.enabled) [
        | inr e ↦ later (ground (arith, e))
        | inl e ↦ elim (Bool-cases (covers r ip)) [
          | inr c ↦ later (ground (arith, e, c))
          | inl c ↦ elim (Result-cases (db.get_subnet r.subnet_id s)) [
            | inr (_, g) ↦ later (ground (arith, e, c, g))
            | inl (answer, g) ↦ elim (Option-cases answer) [
              | inl n ↦ later (ground (arith, e, c, g, n))
              | inr (found, f) ↦ elim (Bool-cases (iface_in_subnet iface_ips found)) [
                | inr out ↦ later (ground (arith, e, c, g, f, out))
                | inl reach ↦
                    let p : ◌≡◌ {A = DynamicRange × Subnet} (r, found) (range, subnet) =
                      ground (arith, e, c, g, f, reach) in
                    subst (λ z. Matches ip s (r ∷ rs) z.0 z.1) p
                      (record {
                        listed = here refl;
                        enabled = e;
                        covered = c;
                        subnet_of = rw f at g;
                        reachable = reach;
                      })
              ]
            ]
          ]
        ]
      ]

  -- Where a range matches, the search finds one.
  pub Matches-matching_range :
      (ip : Ipv4Addr) (ranges : List DynamicRange) (s : S) (range : DynamicRange) (subnet : Subnet)
      → Matches ip s ranges range subnet
      → matching_range db iface_ips ip ranges s ≢ none
  unfolding matching_range
  Matches-matching_range ip ranges s range subnet m = go ranges m.listed
    where
      go : (rs : List DynamicRange) → In range rs → matching_range db iface_ips ip rs s ≢ none
      go [] k h = elim k [ ]
      go (r ∷ rs) (here e) h =
          let f = m.enabled in
          let c = m.covered in
          let g = m.subnet_of in ground (arith, rw e at f, rw e at c, rw e at g, m.reachable)
      go (r ∷ rs) (there k) h = ground (arith, go rs k)

  -- The address of a match lies in a listed range.
  pub Matches-Listed :
      (ip : Ipv4Addr) (ranges : List DynamicRange) (s : S) (range : DynamicRange) (subnet : Subnet)
      → db.list_ranges none s ≡ ok ranges
      → matching_range db iface_ips ip ranges s ≡ some (range, subnet)
      → Listed db ip
  Matches-Listed ip ranges s range subnet listed found =
      let m = matching_range-Matches ip ranges s range subnet found in
      let within = m.covered in (s, ranges, range, listed, m.listed, ground (arith, within))
