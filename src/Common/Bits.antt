-- ===== src/Common/Bits.antt =====
-- Masks of binary digits: what `bit_and` and `bit_or` do with a run of ones or zeros.
use Prim.Native.Nat.{
  ℕ, zero, suc, ◌+◌, ◌*◌, ◌/◌, ◌%◌, ◌^◌, ◌≤◌, ◌<◌, min, max, bit_and, bit_or, digits,
  bit_and-bitwise, bit_or-bitwise,
}
use mathlib.Core.Path.{◌≡◌, refl, ◌∙◌, ap}
use native.Mathlib.Omega.{arith}
use native.Mathlib.Nat.{pow-suc, mul-one, div-one}

-- The count of `digits` may be larger than the first number, and the lowest digit stands apart.
module _ (rest : ℕ → ℕ) (op : ℕ → ℕ → ℕ) where
  spare_count : (n m x y : ℕ) → x ≤ n → n ≤ m → digits rest op m x y ≡ digits rest op n x y
  spare_count zero zero zero y h l = refl
  spare_count zero (suc m) zero y h l = refl
  spare_count (suc n) (suc m) zero y h l = refl
  spare_count (suc n) (suc m) (suc x) y h l =
      omega (arith, spare_count n m (suc x / 2) (y / 2) (omega arith) (omega arith))
  spare_count zero m (suc x) y h l = absurd (omega arith)
  spare_count (suc n) zero x y h l = absurd (omega arith)

  lowest :
      (h x y : ℕ)
      → suc x / 2 ≡ h
      → digits rest op (suc x) (suc x) y ≡ digits rest op h h (y / 2) * 2 + op (suc x % 2) (y % 2)
  lowest h x y e =
      let half : digits rest op x (suc x / 2) (y / 2) ≡ digits rest op x h (y / 2) =
        ap (λ n. digits rest op x n (y / 2)) e in
      omega (arith, half, spare_count h x h (y / 2) (omega arith) (omega arith))

-- Both numbers lose their lowest digit.
pub bit_and-halves : (x y : ℕ) → bit_and x y ≡ min (x % 2) (y % 2) + 2 * bit_and (x / 2) (y / 2)
bit_and-halves zero y = omega (arith, bit_and-bitwise 0 y, bit_and-bitwise 0 (y / 2))
bit_and-halves (suc x) y =
    let h : ℕ = suc x / 2 in
    omega
      (arith, bit_and-bitwise (suc x) y, bit_and-bitwise h (y / 2), lowest (λ _. 0) min h x y refl)

pub bit_or-halves : (x y : ℕ) → bit_or x y ≡ max (x % 2) (y % 2) + 2 * bit_or (x / 2) (y / 2)
bit_or-halves zero y = omega (arith, bit_or-bitwise 0 y, bit_or-bitwise 0 (y / 2))
bit_or-halves (suc x) y =
    let h : ℕ = suc x / 2 in
    omega
      (arith, bit_or-bitwise (suc x) y, bit_or-bitwise h (y / 2), lowest (λ d. d) max h x y refl)

-- Zero on the right.
and_digits-zero : (n x : ℕ) → digits (λ _. 0) min n x 0 ≡ 0
and_digits-zero zero x = refl
and_digits-zero (suc n) zero = refl
and_digits-zero (suc n) (suc x) = omega (arith, and_digits-zero n (suc x / 2))

bit_and-zero : (x : ℕ) → bit_and x 0 ≡ 0
bit_and-zero x = bit_and-bitwise x 0 ∙ and_digits-zero x x

or_digits-zero : (n x : ℕ) → x ≤ n → digits (λ d. d) max n x 0 ≡ x
or_digits-zero zero x h = omega arith
or_digits-zero (suc n) zero h = refl
or_digits-zero (suc n) (suc x) h = omega (arith, or_digits-zero n (suc x / 2) (omega arith))

pub bit_or-zero : (x : ℕ) → bit_or x 0 ≡ x
bit_or-zero x = bit_or-bitwise x 0 ∙ or_digits-zero x x (omega arith)

pow_two : (k : ℕ) → 2 ^ suc k ≡ 2 ^ k * 2
pow_two k = pow-suc 2 k

pow_two_pos : (k : ℕ) → 0 < 2 ^ k
pow_two_pos zero = omega arith
pow_two_pos (suc k) = omega (arith, pow_two k, pow_two_pos k)

halve_mod : (p a : ℕ) → 0 < p → a % (p * 2) ≡ a / 2 % p * 2 + a % 2
halve_mod p a h = grind arith

halve_div : (p a : ℕ) → 0 < p → a / (p * 2) ≡ a / 2 / p
halve_div p a h = grind arith

-- A mask of `k` ones keeps the low `k` bits.
pub bit_and-ones : (k a m : ℕ) → m + 1 ≡ 2 ^ k → bit_and a m ≡ a % 2 ^ k
bit_and-ones zero a m h = let e : m ≡ 0 = omega arith in rw e (omega (arith, bit_and-zero a))
bit_and-ones (suc k) a m h = rw pow_two (
    omega (
      arith,
      pow_two k,
      bit_and-halves a m,
      bit_and-ones k (a / 2) (m / 2) (omega (arith, pow_two k)),
      halve_mod (2 ^ k) a (pow_two_pos k),
    ))

-- A mask with `k` zeros at its end clears the low `k` bits.
pub bit_and-mul_pow : (k a m : ℕ) → bit_and a (m * 2 ^ k) ≡ bit_and (a / 2 ^ k) m * 2 ^ k
bit_and-mul_pow zero a m = rw (mul-one, div-one, mul-one)
bit_and-mul_pow (suc k) a m =
    let e : m * (2 ^ k * 2) / 2 ≡ m * 2 ^ k = omega arith in
    let f : m * (2 ^ k * 2) % 2 ≡ 0 = omega arith in
    rw pow_two (
      bit_and-halves a (m * (2 ^ k * 2))
      ∙ rw (e, f, bit_and-mul_pow k (a / 2) m, halve_div (2 ^ k) a (pow_two_pos k)) (omega arith))

-- Ones below a multiple of `2 ^ k` are added to it.
pub bit_or-ones : (k q r : ℕ) → r < 2 ^ k → bit_or (q * 2 ^ k) r ≡ q * 2 ^ k + r
bit_or-ones zero q r h =
    let e : r ≡ 0 = omega arith in rw (e, mul-one) (omega (arith, bit_or-zero q))
bit_or-ones (suc k) q r h =
    let e : q * (2 ^ k * 2) / 2 ≡ q * 2 ^ k = omega arith in
    let f : q * (2 ^ k * 2) % 2 ≡ 0 = omega arith in
    rw pow_two (
      bit_or-halves (q * (2 ^ k * 2)) r
      ∙ rw (e, f, bit_or-ones k q (r / 2) (omega (arith, pow_two k))) (omega arith))
