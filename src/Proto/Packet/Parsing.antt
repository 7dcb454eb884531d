-- ===== src/Proto/Packet/Parsing.antt =====
-- `DhcpPacket::parse` of crates/dhcp-proto/src/packet.rs on any input, well formed or not.
use ndhcpd.Common.{
  ℕ, zero, suc, ◌≤◌, ◌<◌, ◌≡◌, ◌≢◌, refl, List, [], ◌∷◌, arith, ◌==◌, leb, length, take, drop,
  length-drop, subst, ◌↔◌, Bool-cases, inl, inr,
}
use ndhcpd.Proto.Options
use ndhcpd.Proto.Options.{DhcpOption, end, message_type}
use ndhcpd.Proto.Packet.{parse_options}

-- The loop takes a byte in each round, so fuel beyond the input's length changes nothing.
pub parse_options_fuel :
    (f g : ℕ) (bytes : List ℕ)
    → length bytes ≤ f
    → length bytes ≤ g
    → parse_options f bytes ≡ parse_options g bytes
unfolding parse_options
parse_options_fuel zero zero [] p q = refl
parse_options_fuel zero (suc g) [] p q = refl
parse_options_fuel (suc f) zero [] p q = refl
parse_options_fuel (suc f) (suc g) [] p q = refl
parse_options_fuel zero g (c ∷ bytes) p q = absurd (omega arith)
parse_options_fuel (suc f) zero (c ∷ bytes) p q = absurd (omega arith)
parse_options_fuel (suc f) (suc g) (c ∷ []) p q = refl
parse_options_fuel (suc f) (suc g) (c ∷ n ∷ body) p q = ground (
  arith,
  parse_options_fuel f g (n ∷ body),
  parse_options_fuel f g (drop n body),
  length-drop n body,
)

-- The format of the options on the wire, without fuel: pad bytes are skipped, `end` stops, and an
-- option that is cut short ends the list.
pub data Reads : List ℕ → List DhcpOption → Type 0 where
  stop : Reads [] []
  finish : {c : ℕ} {rest : List ℕ} → c ≡ 255 → Reads (c ∷ rest) (end ∷ [])
  pad : {c : ℕ} {rest : List ℕ} {os : List DhcpOption} → c ≡ 0 → Reads rest os → Reads (c ∷ rest) os
  option :
      {c n : ℕ} {body : List ℕ} {os : List DhcpOption}
      → c ≢ 0
      → c ≢ 255
      → n ≤ length body
      → Reads (drop n body) os
      → Reads (c ∷ n ∷ body) (Options.parse c (take n body) ∷ os)
  cut_code : {c : ℕ} → c ≢ 0 → c ≢ 255 → Reads (c ∷ []) []
  cut_value :
      {c n : ℕ} {body : List ℕ} → c ≢ 0 → c ≢ 255 → length body < n → Reads (c ∷ n ∷ body) []

Reads-last : (c : ℕ) → c ≢ 255 → Reads (c ∷ []) []
Reads-last c h = elim (Bool-cases (c == 0)) [
  | inl e ↦ pad (ground arith) stop
  | inr e ↦ cut_code (ground arith) h
]

parse_options-Reads :
    (f : ℕ) (bytes : List ℕ) → length bytes ≤ f → Reads bytes (parse_options f bytes)
unfolding parse_options
parse_options-Reads zero [] h = stop
parse_options-Reads (suc f) [] h = stop
parse_options-Reads zero (c ∷ bytes) h = absurd (omega arith)
parse_options-Reads (suc f) (c ∷ []) h = elim (Bool-cases (c == 255)) [
  | inl e ↦ rw e (finish (ground arith))
  | inr e ↦ rw e (Reads-last c (ground arith))
]
parse_options-Reads (suc f) (c ∷ n ∷ body) h =
    let skip = parse_options-Reads f (n ∷ body) (omega arith) in
    let next = parse_options-Reads f (drop n body) (omega (arith, length-drop n body)) in
    elim (Bool-cases (c == 255)) [
      | inl e ↦ rw e (finish (ground arith))
      | inr e ↦ elim (Bool-cases (c == 0)) [
        | inl z ↦ rw (e, z) (pad (ground arith) skip)
        | inr z ↦ elim (Bool-cases (leb n (length body))) [
          | inl l ↦ rw (e, z, l) (option (ground arith) (ground arith) (ground arith) next)
          | inr l ↦ rw (e, z, l) (cut_value (ground arith) (ground arith) (ground arith))
        ]
      ]
    ]

-- So the relation decides the list: whatever stands in it is what `parse_options` returns.
Reads-parse_options :
    {bytes : List ℕ} {os : List DhcpOption}
    → Reads bytes os
    → (f : ℕ) → length bytes ≤ f
    → parse_options f bytes ≡ os
unfolding parse_options
Reads-parse_options stop zero h = refl
Reads-parse_options stop (suc f) h = refl
Reads-parse_options (finish {rest = []} e) (suc f) h = ground arith
Reads-parse_options (finish {rest = n ∷ rest} e) (suc f) h = ground arith
Reads-parse_options (pad {rest = []} e stop) (suc f) h = ground arith
Reads-parse_options (pad {rest = n ∷ rest} e r) (suc f) h =
    ground (arith, Reads-parse_options r f (omega arith))
Reads-parse_options (option {n = n} {body = body} z e l r) (suc f) h =
    ground (arith, Reads-parse_options r f (omega (arith, length-drop n body)))
Reads-parse_options (cut_code z e) (suc f) h = ground arith
Reads-parse_options (cut_value z e l) (suc f) h = ground arith
Reads-parse_options (finish e) zero h = absurd (omega arith)
Reads-parse_options (pad e r) zero h = absurd (omega arith)
Reads-parse_options (option z e l r) zero h = absurd (omega arith)
Reads-parse_options (cut_code z e) zero h = absurd (omega arith)
Reads-parse_options (cut_value z e l) zero h = absurd (omega arith)

-- On every input, with fuel for each byte, `parse_options` returns exactly the list of options that
-- the wire format `Reads` gives it: the result stands in that relation, and no other list does.
pub parse_options_exact :
    (f : ℕ) (bytes : List ℕ) (os : List DhcpOption)
    → length bytes ≤ f
    → (parse_options f bytes ≡ os) ↔ Reads bytes os
parse_options_exact f bytes os h =
    (λ e. subst (Reads bytes) e (parse_options-Reads f bytes h), λ r. Reads-parse_options r f h)
