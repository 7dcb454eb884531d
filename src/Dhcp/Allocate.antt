-- ===== src/Dhcp/Allocate.antt =====
-- The search of `handle_discover` of crates/ndhcpd/src/dhcp/server.rs for a free address: it finds
-- one that is free, and misses none.
use ndhcpd.Common.{
  ℕ, zero, suc, ◌+◌, ◌-◌, ◌≤◌, ◌<◌, ◌≡◌, refl, sym, ap, subst, ◌∙◌, inl, inr, true, false, none,
  some, List, [], ◌∷◌, ok, In, here, there, arith, ◌==◌, ==_iff, Option-cases, Bool-cases,
  Result-cases,
}
use ndhcpd.Bytes.{Ipv4Addr}
use ndhcpd.Models.{Subnet, DynamicRange}
use ndhcpd.Db.Interface.{Database}
use ndhcpd.Dhcp.Reply.{iface_in_subnet}
use ndhcpd.Dhcp.Request.{covers}
use ndhcpd.Dhcp.Discover.{contains, first_free, free_in_ranges, free_in_subnets}

first_free_found :
    (n start : ℕ) (leased : List Ipv4Addr) (ip : Ipv4Addr)
    → first_free n start leased ≡ some ip
    → (start ≤ ip) × (ip < start + n) × (contains leased ip ≡ false)
unfolding first_free
first_free_found zero start leased ip h = cc
first_free_found (suc n) start leased ip h = elim (Bool-cases (contains leased start)) [
  | inl taken ↦
      let (a, b, c) = first_free_found n (start + 1) leased ip (ground (arith, taken)) in
      (omega arith, omega arith, c)
  | inr free ↦ let e : start ≡ ip = ground (arith, free) in (omega arith, omega arith, rw e at free)
]

first_free_missed :
    (n start : ℕ) (leased : List Ipv4Addr) (ip : Ipv4Addr)
    → first_free n start leased ≡ none
    → start ≤ ip
    → ip < start + n
    → contains leased ip ≡ true
unfolding first_free
first_free_missed zero start leased ip h a b = absurd (omega arith)
first_free_missed (suc n) start leased ip h a b = elim (Bool-cases (contains leased start)) [
  | inr free ↦ absurd (ground (arith, free))
  | inl taken ↦ elim (Bool-cases (start == ip)) [
    | inl e ↦ subst (λ z. contains leased z ≡ true) ((==_iff _ _).0 e) taken
    | inr e ↦
        first_free_missed n (start + 1) leased ip (ground (arith, taken)) (ground arith)
          (omega arith)
  ]
]

abbrev size_of : DynamicRange → ℕ
size_of r = r.range_end + 1 - r.range_start

-- An address of an enabled range.
pub record InRange (ip : Ipv4Addr) (r : DynamicRange) : Type 0 where
  pub enabled : r.enabled ≡ true
  pub covered : covers r ip ≡ true

pub free_in_ranges_found :
    (rs : List DynamicRange) (leased : List Ipv4Addr) (ip : Ipv4Addr)
    → free_in_ranges rs leased ≡ some ip
    → ((r : DynamicRange) × In r rs × InRange ip r) × (contains leased ip ≡ false)
unfolding free_in_ranges
free_in_ranges_found [] leased ip h = cc
free_in_ranges_found (r ∷ rs) leased ip h =
    let later : free_in_ranges rs leased ≡ some ip
        → ((r' : DynamicRange) × In r' (r ∷ rs) × InRange ip r') × (contains leased ip ≡ false) =
      λ k. let ((r', m, i), f) = free_in_ranges_found rs leased ip k in ((r', there m, i), f) in
    elim (Bool-cases r.enabled) [
      | inr e ↦ later (ground (arith, e))
      | inl e ↦ elim (Option-cases (first_free (size_of r) r.range_start leased)) [
        | inl missed ↦ later (ground (arith, e, missed))
        | inr (found, f) ↦
            let same : found ≡ ip = ground (arith, e, f) in
            let (a, b, c) =
              first_free_found (size_of r) r.range_start leased ip (f ∙ ap some same) in
            ((r, here refl, record { enabled = e; covered = ground (arith, a, b) }), c)
      ]
    ]

pub free_in_ranges_missed :
    (rs : List DynamicRange) (leased : List Ipv4Addr) (r : DynamicRange) (ip : Ipv4Addr)
    → free_in_ranges rs leased ≡ none
    → In r rs
    → InRange ip r
    → contains leased ip ≡ true
unfolding free_in_ranges
free_in_ranges_missed [] leased r ip h m i = elim m [ ]
free_in_ranges_missed (q ∷ rs) leased r ip h (here e) i =
    let on : q.enabled ≡ true = ap (λ (z : DynamicRange). z.enabled) (sym e) ∙ i.enabled in
    let cov : covers q ip ≡ true = ap (λ z. covers z ip) (sym e) ∙ i.covered in
    elim (Option-cases (first_free (size_of q) q.range_start leased)) [
      | inr (found, f) ↦ absurd (ground (arith, on, f))
      | inl missed ↦
          first_free_missed (size_of q) q.range_start leased ip missed (ground arith) (ground arith)
    ]
free_in_ranges_missed (q ∷ rs) leased r ip h (there m) i =
    free_in_ranges_missed rs leased r ip
      (elim (Bool-cases q.enabled) [
        | inr e ↦ ground (arith, e)
        | inl e ↦ elim (Option-cases (first_free (size_of q) q.range_start leased)) [
          | inl missed ↦ ground (arith, e, missed)
          | inr (found, f) ↦ absurd (ground (arith, e, f))
        ]
      ])
      m i

module _ {S : Type 0} (db : Database S) (iface_ips : List Ipv4Addr) (s : S) where
  -- An address of an enabled range of a reachable subnet.
  pub record Allocatable (subnets : List Subnet) (ip : Ipv4Addr) (subnet : Subnet) : Type 0 where
    pub listed : In subnet subnets
    pub reachable : iface_in_subnet iface_ips subnet ≡ true
    pub i : ℕ
    pub has : subnet.id ≡ some i
    pub ranges : List DynamicRange
    pub ranges_of : db.list_ranges (some i) s ≡ ok ranges
    pub range : DynamicRange
    pub range_listed : In range ranges
    pub in_range : InRange ip range

  later-Allocatable :
      {q : Subnet} {subnets : List Subnet} {ip : Ipv4Addr} {subnet : Subnet}
      → Allocatable subnets ip subnet
      → Allocatable (q ∷ subnets) ip subnet
  later-Allocatable a = record {
    listed = there a.listed;
    reachable = a.reachable;
    i = a.i;
    has = a.has;
    ranges = a.ranges;
    ranges_of = a.ranges_of;
    range = a.range;
    range_listed = a.range_listed;
    in_range = a.in_range;
  }

  -- What the search finds is allocatable and not leased.
  pub free_in_subnets_found :
      (subnets : List Subnet) (leased : List Ipv4Addr) (ip : Ipv4Addr) (subnet : Subnet)
      → free_in_subnets db iface_ips subnets leased s ≡ some (ip, subnet)
      → Allocatable subnets ip subnet × (contains leased ip ≡ false)
  unfolding free_in_subnets
  free_in_subnets_found [] leased ip subnet h = cc
  free_in_subnets_found (q ∷ subnets) leased ip subnet h =
      let later : free_in_subnets db iface_ips subnets leased s ≡ some (ip, subnet)
          → Allocatable (q ∷ subnets) ip subnet × (contains leased ip ≡ false) =
        λ k.
          let (a, f) = free_in_subnets_found subnets leased ip subnet k in
          (later-Allocatable a, f) in
      elim (Bool-cases (iface_in_subnet iface_ips q)) [
        | inr out ↦ later (ground (arith, out))
        | inl reach ↦ elim (Option-cases q.id) [
          | inl n ↦ later (ground (arith, reach, n))
          | inr (i, has) ↦ elim (Result-cases (db.list_ranges (some i) s)) [
            | inr (_, e) ↦ later (ground (arith, reach, has, e))
            | inl (ranges, e) ↦ elim (Option-cases (free_in_ranges ranges leased)) [
              | inl missed ↦ later (ground (arith, reach, has, e, missed))
              | inr (found, f) ↦
                  let p : ◌≡◌ {A = Ipv4Addr × Subnet} (found, q) (ip, subnet) =
                    ground (arith, reach, has, e, f) in
                  let ((r, m, k), free) = free_in_ranges_found ranges leased found f in
                  subst (λ z. Allocatable (q ∷ subnets) z.0 z.1 × (contains leased z.0 ≡ false)) p
                    (
                      record {
                        listed = here refl;
                        reachable = reach;
                        i = i;
                        has = has;
                        ranges = ranges;
                        ranges_of = e;
                        range = r;
                        range_listed = m;
                        in_range = k;
                      },
                      free,
                    )
            ]
          ]
        ]
      ]

  -- Where the search fails, every allocatable address is leased.
  pub free_in_subnets_missed :
      (subnets : List Subnet) (leased : List Ipv4Addr) (ip : Ipv4Addr) (subnet : Subnet)
      → free_in_subnets db iface_ips subnets leased s ≡ none
      → Allocatable subnets ip subnet
      → contains leased ip ≡ true
  unfolding free_in_subnets
  free_in_subnets_missed subnets leased ip subnet h a = go subnets h a.listed
    where
      go :
          (qs : List Subnet)
          → free_in_subnets db iface_ips qs leased s ≡ none
          → In subnet qs
          → contains leased ip ≡ true
      go [] h m = elim m [ ]
      go (q ∷ qs) h (here e) =
          let reach = a.reachable in
          let has = a.has in
          elim (Option-cases (free_in_ranges a.ranges leased)) [
            | inl missed ↦
                free_in_ranges_missed a.ranges leased a.range ip missed a.range_listed a.in_range
            | inr (found, f) ↦ absurd (ground (arith, rw e at reach, rw e at has, a.ranges_of, f))
          ]
      go (q ∷ qs) h (there m) = go qs (ground arith) m
