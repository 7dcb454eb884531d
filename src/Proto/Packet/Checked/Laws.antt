-- ===== src/Proto/Packet/Checked/Laws.antt =====
-- That `DhcpPacket::parse` of crates/dhcp-proto/src/packet.rs never indexes out of range.
use ndhcpd.Common.{
  ℕ, zero, suc, ◌+◌, ◌-◌, ◌≤◌, ◌<◌, ◌≡◌, refl, sym, ap, ◌∙◌, true, false, some, List, [], ◌∷◌,
  arith, ◌==◌, leb, ltb, le→leb, length, take, drop, get_or, length-drop, ◌⊎◌, Bool-cases,
  Option-cases, inl, inr,
}
use ndhcpd.Bytes.{Ipv4Addr, ipv4, from_be16, from_be32, text_eq}
use ndhcpd.Proto.Mac.{from_slice}
use ndhcpd.Proto.Packet.{magic_cookie, parse_options, options_of, packet_of, parse}
use ndhcpd.Proto.Packet.Parsing.{parse_options_fuel}
use ndhcpd.Proto.Packet.Checked.{
  byte, slice, be16_at, be32_at, ipv4_at, options_from, options_at, or_invalid, parse_checked,
}

abbrev be16_of : List ℕ → ℕ → ℕ
be16_of bytes i = from_be16 (get_or bytes i 0) (get_or bytes (i + 1) 0)

abbrev be32_of : List ℕ → ℕ → ℕ
be32_of bytes i =
    from_be32 (get_or bytes i 0) (get_or bytes (i + 1) 0) (get_or bytes (i + 2) 0)
      (get_or bytes (i + 3) 0)

abbrev ipv4_of : List ℕ → ℕ → Ipv4Addr
ipv4_of bytes i =
    ipv4 (get_or bytes i 0) (get_or bytes (i + 1) 0) (get_or bytes (i + 2) 0)
      (get_or bytes (i + 3) 0)

byte_in : (bytes : List ℕ) (i : ℕ) → i < length bytes → byte bytes i ≡ some (get_or bytes i 0)
unfolding byte
byte_in [] i h = absurd (omega arith)
byte_in (x ∷ xs) zero h = refl
byte_in (x ∷ xs) (suc i) h = byte_in xs i (omega arith)

slice_in :
    (bytes : List ℕ) (a b : ℕ)
    → a ≤ b
    → b ≤ length bytes
    → slice bytes a b ≡ some (take (b - a) (drop a bytes))
unfolding slice
slice_in bytes a b h k = rw (le→leb a b h, le→leb b (length bytes) k) refl

slice_from :
    (bytes : List ℕ) (a n : ℕ)
    → a + n ≤ length bytes
    → slice bytes a (a + n) ≡ some (take n (drop a bytes))
slice_from bytes a n h =
    slice_in bytes a (a + n) (omega arith) h ∙ ap (λ k. some (take k (drop a bytes))) (omega arith)

shifted : (i : ℕ) → suc (i + 1) ≡ suc i + 1
shifted i = omega arith

-- What is left of the input at `i`: nothing, or a byte and the rest.
left_at :
    (bytes : List ℕ) (i : ℕ)
    → ((length bytes ≤ i) × (drop i bytes ≡ []))
      ⊎ ((i < length bytes)
          × ((c : ℕ) × (byte bytes i ≡ some c) × (drop i bytes ≡ c ∷ drop (i + 1) bytes)))
unfolding byte
left_at [] zero = inl (omega arith, refl)
left_at [] (suc i) = inl (omega arith, refl)
left_at (x ∷ xs) zero = inr (omega arith, (x, refl, refl))
left_at (x ∷ xs) (suc i) = elim (left_at xs i) [
  | inl (h, e) ↦ inl (omega arith, e)
  | inr (h, (c, b, e)) ↦ inr (omega arith, (c, b, e ∙ ap (λ n. c ∷ drop n (x ∷ xs)) (shifted i)))
]

drop-nil : (n : ℕ) → drop {A = ℕ} n [] ≡ []
drop-nil zero = refl
drop-nil (suc n) = refl

drop-drop : (bytes : List ℕ) (a b n : ℕ) → n ≡ a + b → drop n bytes ≡ drop b (drop a bytes)
drop-drop bytes zero b n h = ap (λ k. drop k bytes) (omega arith)
drop-drop [] (suc a) b n h = drop-nil n ∙ sym (drop-nil b)
drop-drop (x ∷ xs) (suc a) b zero h = absurd (omega arith)
drop-drop (x ∷ xs) (suc a) b (suc n) h = drop-drop xs a b n (omega arith)

parse_options-nil : (fuel : ℕ) → parse_options fuel [] ≡ []
unfolding parse_options
parse_options-nil zero = refl
parse_options-nil (suc fuel) = refl

-- Moving the index is dropping from the front: the loop over an index reads the options that
-- `parse_options` reads from what is left, and it never indexes out of range.
options_from-parse_options :
    (fuel : ℕ) (bytes : List ℕ) (i : ℕ)
    → options_from fuel bytes i ≡ some (parse_options fuel (drop i bytes))
unfolding options_from parse_options
options_from-parse_options zero bytes i = refl
options_from-parse_options (suc fuel) bytes i = elim (left_at bytes i) [
  | inl (h, e) ↦ let outside : ltb i (length bytes) ≡ false = ground arith in rw (e, outside) refl
  | inr (h, (c, b, e)) ↦
      let inside : ltb i (length bytes) ≡ true = ground arith in
      let skip = options_from-parse_options fuel bytes (i + 1) in
      elim (left_at bytes (i + 1)) [
        | inl (h', e') ↦
            let ends : leb (length bytes) (i + 1) ≡ true = ground arith in
            elim (Bool-cases (c == 255)) [
              | inl last ↦ rw (e, e', inside, b, last) refl
              | inr more ↦ elim (Bool-cases (c == 0)) [
                | inl pad ↦ rw (e, e', inside, b, more, pad, skip, e', parse_options-nil fuel) refl
                | inr other ↦ rw (e, e', inside, b, more, other, ends) refl
              ]
            ]
        | inr (h', (n, b', e')) ↦
            let goes_on : leb (length bytes) (i + 1) ≡ false = ground arith in
            let next : drop (i + 1) bytes ≡ n ∷ drop (i + 2) bytes =
              e' ∙ ap (λ k. n ∷ drop k bytes) (omega arith) in
            let rest : options_from fuel bytes (i + 2 + n)
                ≡ some (parse_options fuel (drop n (drop (i + 2) bytes))) =
              options_from-parse_options fuel bytes (i + 2 + n)
              ∙ ap (λ l. some (parse_options fuel l)) (drop-drop bytes (i + 2) n _ refl) in
            let left = length-drop (i + 2) bytes in
            elim (Bool-cases (c == 255)) [
              | inl last ↦ rw (e, next, inside, b, last) refl
              | inr more ↦ elim (Bool-cases (c == 0)) [
                | inl pad ↦ rw (e, inside, b, more, pad, skip, next, more, pad) refl
                | inr other ↦ elim (Bool-cases (leb n (length (drop (i + 2) bytes)))) [
                  | inl fits ↦
                      let room : ltb (length bytes) (i + 2 + n) ≡ false = ground (arith, left) in
                      let body = slice_from bytes (i + 2) n (ground (arith, left)) in
                      rw (e, next, inside, b, more, other, goes_on, b', room, body, rest, fits) refl
                  | inr cut ↦
                      let short : ltb (length bytes) (i + 2 + n) ≡ true = ground (arith, left) in
                      rw (e, next, inside, b, more, other, goes_on, b', short, cut) refl
                ]
              ]
            ]
      ]
]

be16_in : (bytes : List ℕ) (i : ℕ) → i + 1 < length bytes → be16_at bytes i ≡ some (be16_of bytes i)
unfolding be16_at
be16_in bytes i h = rw (byte_in bytes i (omega arith), byte_in bytes (i + 1) (omega arith)) refl

be32_in : (bytes : List ℕ) (i : ℕ) → i + 3 < length bytes → be32_at bytes i ≡ some (be32_of bytes i)
unfolding be32_at
be32_in bytes i h =
    rw
      (
        byte_in bytes i (omega arith),
        byte_in bytes (i + 1) (omega arith),
        byte_in bytes (i + 2) (omega arith),
        byte_in bytes (i + 3) (omega arith),
      )
      refl

ipv4_in : (bytes : List ℕ) (i : ℕ) → i + 3 < length bytes → ipv4_at bytes i ≡ some (ipv4_of bytes i)
unfolding ipv4_at
ipv4_in bytes i h =
    rw
      (
        byte_in bytes i (omega arith),
        byte_in bytes (i + 1) (omega arith),
        byte_in bytes (i + 2) (omega arith),
        byte_in bytes (i + 3) (omega arith),
      )
      refl

options_in : (bytes : List ℕ) → 240 ≤ length bytes → options_at bytes ≡ some (options_of bytes)
unfolding options_at options_of
options_in bytes h =
    let cookie = slice_from bytes 236 4 h in
    let read =
      options_from-parse_options (length bytes) bytes 240
      ∙ ap some (
          parse_options_fuel (length bytes) (length (drop 240 bytes)) (drop 240 bytes)
            (omega (arith, length-drop 240 bytes)) (omega arith)) in
    elim (Bool-cases (ltb 240 (length bytes))) [
      | inl more ↦ elim (Bool-cases (text_eq (take 4 (drop 236 bytes)) magic_cookie)) [
        | inl is ↦ rw (more, cookie, is, read) refl
        | inr is_not ↦ rw (more, cookie, is_not) refl
      ]
      | inr none_left ↦ rw none_left refl
    ]

-- On every input, `parse` with each index and slice tested against the length of the input, and the
-- options read by an index into all of it, never indexes out of range, and returns what `parse` on
-- the remaining bytes returns.
pub parse_checked-parse : (bytes : List ℕ) → parse_checked bytes ≡ some (parse bytes)
unfolding parse_checked or_invalid parse packet_of
parse_checked-parse bytes = elim (Bool-cases (ltb (length bytes) 240)) [
  | inl e ↦ rw e refl
  | inr e ↦
      let h : 240 ≤ length bytes = ground arith in
      let hardware = slice_from bytes 28 6 (omega arith) in
      let xid = be32_in bytes 4 (omega arith) in
      let secs = be16_in bytes 8 (omega arith) in
      let flags = be16_in bytes 10 (omega arith) in
      let ciaddr = ipv4_in bytes 12 (omega arith) in
      let yiaddr = ipv4_in bytes 16 (omega arith) in
      let siaddr = ipv4_in bytes 20 (omega arith) in
      let giaddr = ipv4_in bytes 24 (omega arith) in
      elim (Option-cases (from_slice (take 6 (drop 28 bytes)))) [
        | inl bad ↦ rw (e, xid, secs, flags, ciaddr, yiaddr, siaddr, giaddr, hardware, bad) refl
        | inr (m, good) ↦
            rw
              (
                e,
                xid,
                secs,
                flags,
                ciaddr,
                yiaddr,
                siaddr,
                giaddr,
                hardware,
                good,
                options_in bytes h,
                byte_in bytes 0 (omega arith),
                byte_in bytes 1 (omega arith),
                byte_in bytes 2 (omega arith),
                byte_in bytes 3 (omega arith),
              )
              refl
      ]
]
