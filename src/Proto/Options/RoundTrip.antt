-- ===== src/Proto/Options/RoundTrip.antt =====
-- What `to_bytes` of crates/dhcp-proto/src/option.rs writes, `parse` reads back.
use ndhcpd.Common.{
  ℕ, ◌*◌, ◌%◌, ◌≤◌, ◌<◌, ◌≡◌, ◌≢◌, refl, ap, ap₂, List, [], ◌∷◌, arith, length, All,
}
use ndhcpd.Bytes.{IsU32, be32, Ipv4Addr, from_be32-be32}
use ndhcpd.Proto.MessageType
use ndhcpd.Proto.MessageType.{from_u8-to_u8}
use ndhcpd.Proto.Utf8.{IsUtf8, from_utf8_lossy-valid}
use ndhcpd.Proto.Options.{
  DhcpOption, subnet_mask, router, dns_server, domain_name, requested_ip_address, lease_time,
  message_type, server_identifier, renewal_time, rebinding_time, hostname, end, unknown,
  addr_chunks, addr_bytes, message_type_of, parse, to_bytes,
}

-- A code that is no pad, no end, and none that `parse` gives a meaning to.
pub record IsFree (c : ℕ) : Type 0 where
  pub pos : 0 < c
  pub lt : c < 255
  pub other :
      (c ≢ 1)
      × (c ≢ 3)
      × (c ≢ 6)
      × (c ≢ 12)
      × (c ≢ 15)
      × (c ≢ 50)
      × (c ≢ 51)
      × (c ≢ 53)
      × (c ≢ 54)
      × (c ≢ 58)
      × (c ≢ 59)

-- The options that fit the wire format: 32-bit values, at most 63 addresses, valid text and data of
-- at most 255 bytes, a code of its own for an unknown option. `end` is not an element of the list.
abbrev pub IsSendable : DhcpOption → Type 0
IsSendable (subnet_mask a) = IsU32 a
IsSendable (router as') = All IsU32 as' × (length as' ≤ 63)
IsSendable (dns_server as') = All IsU32 as' × (length as' ≤ 63)
IsSendable (domain_name name) = IsUtf8 name × (length name ≤ 255)
IsSendable (requested_ip_address a) = IsU32 a
IsSendable (lease_time t) = IsU32 t
IsSendable (message_type mt) = Unit {0}
IsSendable (server_identifier a) = IsU32 a
IsSendable (renewal_time t) = IsU32 t
IsSendable (rebinding_time t) = IsU32 t
IsSendable (hostname name) = IsUtf8 name × (length name ≤ 255)
IsSendable end = ⊥
IsSendable (unknown c bytes) = IsFree c × (length bytes ≤ 255)

addr_chunks-addr_bytes : (as' : List Ipv4Addr) → All IsU32 as' → addr_chunks (addr_bytes as') ≡ as'
unfolding addr_chunks addr_bytes
addr_chunks-addr_bytes [] h = refl
addr_chunks-addr_bytes (a ∷ as') (h, hs) =
    ap₂ ◌∷◌ (from_be32-be32 a h) (addr_chunks-addr_bytes as' hs)

length-addr_bytes : (as' : List Ipv4Addr) → length (addr_bytes as') ≡ length as' * 4
unfolding addr_bytes
length-addr_bytes [] = refl
length-addr_bytes (a ∷ as') = omega (arith, length-addr_bytes as')

-- A code and a value: what `to_bytes` writes of a sendable option.
pub record Wire (o : DhcpOption) : Type 0 where
  pub code : ℕ
  pub value : List ℕ
  pub code_pos : 0 < code
  pub code_lt : code < 255
  pub fits : length value ≤ 255
  pub written : to_bytes o ≡ code ∷ length value ∷ value
  pub read : parse code value ≡ o

-- The text of at most 255 bytes fits its length byte.
byte_length : (bytes : List ℕ) → length bytes ≤ 255 → length bytes % 256 ≡ length bytes
byte_length bytes h = omega arith

-- The options of 32 bits.
quad-Wire :
    (o : DhcpOption) (c a : ℕ)
    → 0 < c
    → c < 255
    → to_bytes o ≡ c ∷ 4 ∷ be32 a
    → parse c (be32 a) ≡ o
    → Wire o
quad-Wire o c a p q w r = record {
  code = c;
  value = be32 a;
  code_pos = p;
  code_lt = q;
  fits = omega arith;
  written = w;
  read = r;
}

addrs-Wire :
    (o : DhcpOption) (c : ℕ) (as' : List Ipv4Addr)
    → 0 < c
    → c < 255
    → length as' ≤ 63
    → to_bytes o ≡ c ∷ (length as' * 4 % 256) ∷ addr_bytes as'
    → parse c (addr_bytes as') ≡ o
    → Wire o
addrs-Wire o c as' p q n w r = record {
  code = c;
  value = addr_bytes as';
  code_pos = p;
  code_lt = q;
  fits = omega (arith, length-addr_bytes as');
  written =
      let e : length as' * 4 % 256 ≡ length (addr_bytes as') =
        omega (arith, length-addr_bytes as') in
      rw (w, e);
  read = r;
}

data-Wire :
    (o : DhcpOption) (c : ℕ) (bytes : List ℕ)
    → 0 < c
    → c < 255
    → length bytes ≤ 255
    → to_bytes o ≡ c ∷ (length bytes % 256) ∷ bytes
    → parse c bytes ≡ o
    → Wire o
data-Wire o c bytes p q n w r = record {
  code = c;
  value = bytes;
  code_pos = p;
  code_lt = q;
  fits = n;
  written = rw (w, byte_length bytes n);
  read = r;
}

unknown-parse : (c : ℕ) (bytes : List ℕ) → IsFree c → parse c bytes ≡ unknown c bytes
unfolding parse
unknown-parse c bytes h = ground arith

-- A sendable option is written as a code that is neither 0 nor 255, the length of its value and the
-- value, and `parse` gives the option back from that code and value.
pub to_bytes-Wire : (o : DhcpOption) → IsSendable o → Wire o
unfolding to_bytes parse
to_bytes-Wire (subnet_mask a) h =
    quad-Wire _ 1 a (omega arith) (omega arith) refl (ap subnet_mask (from_be32-be32 a h))
to_bytes-Wire (router as') (h, n) =
    addrs-Wire _ 3 as' (omega arith) (omega arith) n refl (ap router (addr_chunks-addr_bytes as' h))
to_bytes-Wire (dns_server as') (h, n) =
    addrs-Wire _ 6 as' (omega arith) (omega arith) n refl
      (ap dns_server (addr_chunks-addr_bytes as' h))
to_bytes-Wire (domain_name name) (u, n) =
    data-Wire _ 15 name (omega arith) (omega arith) n refl
      (ap domain_name (from_utf8_lossy-valid name u))
to_bytes-Wire (requested_ip_address a) h =
    quad-Wire _ 50 a (omega arith) (omega arith) refl (ap requested_ip_address (from_be32-be32 a h))
to_bytes-Wire (lease_time t) h =
    quad-Wire _ 51 t (omega arith) (omega arith) refl (ap lease_time (from_be32-be32 t h))
to_bytes-Wire (message_type mt) h = record {
  code = 53;
  value = MessageType.to_u8 mt ∷ [];
  code_pos = omega arith;
  code_lt = omega arith;
  fits = omega arith;
  written = refl;
  read = rw (from_u8-to_u8 mt) (unfold message_type_of in refl);
}
to_bytes-Wire (server_identifier a) h =
    quad-Wire _ 54 a (omega arith) (omega arith) refl (ap server_identifier (from_be32-be32 a h))
to_bytes-Wire (renewal_time t) h =
    quad-Wire _ 58 t (omega arith) (omega arith) refl (ap renewal_time (from_be32-be32 t h))
to_bytes-Wire (rebinding_time t) h =
    quad-Wire _ 59 t (omega arith) (omega arith) refl (ap rebinding_time (from_be32-be32 t h))
to_bytes-Wire (hostname name) (u, n) =
    data-Wire _ 12 name (omega arith) (omega arith) n refl
      (ap hostname (from_utf8_lossy-valid name u))
to_bytes-Wire end h = absurd h
to_bytes-Wire (unknown c bytes) (h, n) =
    data-Wire _ c bytes h.pos h.lt n refl (unknown-parse c bytes h)
