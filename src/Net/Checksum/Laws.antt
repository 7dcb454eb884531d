-- ===== src/Net/Checksum/Laws.antt =====
-- The checksum loop in closed form, and the check that a receiver makes.
use ndhcpd.Common.{
  ℕ, zero, suc, ◌+◌, ◌-◌, ◌*◌, ◌/◌, ◌%◌, ◌^◌, ◌≤◌, ◌<◌, ◌≡◌, refl, arith, ◌∙◌, sym, List, [], ◌∷◌,
  ◌++◌, ◌==◌, if◌then◌else◌, All, length, Bool-cases, inl, inr,
}
use ndhcpd.Bytes.{IsByte}
use ndhcpd.Net.Checksum.{sum_words, fold_carries, ip_checksum}

-- The value of 1 to 65535 that is equal to the sum modulo 65535; 0 only for the sum 0.
abbrev pub ones_sum : ℕ → ℕ
ones_sum s = if s == 0 then 0 else (s - 1) % 65535 + 1

ones_sum_small : (s : ℕ) → s < 2 ^ 16 → ones_sum s ≡ s
ones_sum_small s h = ground arith

-- A round of the loop keeps the sum modulo 65535.
ones_sum_round : (s : ℕ) → ones_sum (s % 2 ^ 16 + s / 2 ^ 16) ≡ ones_sum s
ones_sum_round s = ground arith

fold_small : (fuel s : ℕ) → s < 2 ^ 16 → fold_carries fuel s ≡ s
unfolding fold_carries
fold_small zero s h = refl
fold_small (suc fuel) s h = ground arith

fold_mid : (fuel s : ℕ) → s < 2 ^ 17 - 1 → fold_carries (suc fuel) s ≡ ones_sum s
unfolding fold_carries
fold_mid fuel s h = ground (
  arith,
  fold_small fuel (s % 2 ^ 16 + s / 2 ^ 16),
  ones_sum_small s,
  ones_sum_small (s % 2 ^ 16 + s / 2 ^ 16),
  ones_sum_round s,
)

-- For every sum below 2^32 and every fuel from 2 on, the loop ends at the one's complement sum: the
-- value of 1 to 65535 that is equal to the sum modulo 65535, or 0 for the sum 0.
pub fold_carries-ones_sum : (fuel s : ℕ) → s < 2 ^ 32 → fold_carries (suc (suc fuel)) s ≡ ones_sum s
unfolding fold_carries
fold_carries-ones_sum fuel s h = elim (Bool-cases (s / 2 ^ 16 == 0)) [
  | inl e ↦ rw e (sym (ones_sum_small s (ground arith)))
  | inr e ↦ rw e (fold_mid fuel (s % 2 ^ 16 + s / 2 ^ 16) (omega arith) ∙ ones_sum_round s)
]

sum_words-append :
    (k : ℕ) (xs ys : List ℕ)
    → length xs ≡ 2 * k
    → sum_words (xs ++ ys) ≡ sum_words xs + sum_words ys
unfolding sum_words
sum_words-append zero [] ys h = omega arith
sum_words-append zero (x ∷ xs) ys h = absurd (omega arith)
sum_words-append (suc k) [] ys h = absurd (omega arith)
sum_words-append (suc k) (x ∷ []) ys h = absurd (omega arith)
sum_words-append (suc k) (x ∷ y ∷ xs) ys h = omega (arith, sum_words-append k xs ys (omega arith))

sum_words_bound : (xs : List ℕ) → All IsByte xs → sum_words xs ≤ 65535 * length xs
unfolding sum_words
sum_words_bound [] h = omega arith
sum_words_bound (x ∷ []) (h, _) = omega arith
sum_words_bound (x ∷ y ∷ xs) (h, (k, hs)) = omega (arith, sum_words_bound xs hs)

pub ip_checksum-ones_sum :
    (bytes : List ℕ)
    → sum_words bytes < 2 ^ 32
    → ip_checksum bytes ≡ 65535 - ones_sum (sum_words bytes)
unfolding ip_checksum
ip_checksum-ones_sum bytes h =
    let e : sum_words bytes % 2 ^ 32 ≡ sum_words bytes = omega arith in
    rw (e, fold_carries-ones_sum 1 (sum_words bytes) h) (ground arith)

-- Adding the complement of the sum completes it to all ones.
complete_sum : (s : ℕ) → ones_sum (s + (65535 - ones_sum s)) ≡ 65535
complete_sum s = ground arith

-- A checksum written into an even position whose two bytes were zero makes the whole check: the
-- checksum of the completed bytes is 0. The input has at most 65535 bytes.
pub ip_checksum_verifies :
    (k : ℕ) (front back : List ℕ)
    → length front ≡ 2 * k
    → All IsByte (front ++ (0 ∷ 0 ∷ back))
    → length (front ++ (0 ∷ 0 ∷ back)) ≤ 65535
    → let c = ip_checksum (front ++ (0 ∷ 0 ∷ back)) in
      ip_checksum (front ++ (c / 256 % 256) ∷ (c % 256) ∷ back) ≡ 0
unfolding sum_words
ip_checksum_verifies k front back even bytes short =
    let s = sum_words (front ++ (0 ∷ 0 ∷ back)) in
    let c = ip_checksum (front ++ (0 ∷ 0 ∷ back)) in
    let bound = sum_words_bound _ bytes in
    let e = ip_checksum-ones_sum (front ++ (0 ∷ 0 ∷ back)) (omega arith) in
    let t : sum_words (front ++ (c / 256 % 256) ∷ (c % 256) ∷ back) ≡ s + c = omega (
      arith,
      sum_words-append k front (0 ∷ 0 ∷ back) even,
      sum_words-append k front ((c / 256 % 256) ∷ (c % 256) ∷ back) even,
    ) in
    ip_checksum-ones_sum _ (omega arith) ∙ rw (t, e, complete_sum s)
