-- ===== src/Base/Bits.antt =====
-- `x & (c - 1)` at a power of two `c` is the remainder `x % c`.
use Prim.Native.Nat.{
  ℕ, zero, suc, ◌+◌, ◌-◌, ◌*◌, ◌/◌, ◌%◌, ◌^◌, ◌≤◌, ◌<◌, min, bit_and, digits, bit_and-bitwise,
}
use mathlib.Core.Path.{◌≡◌, refl, ap, ◌∙◌}
use native.Mathlib.Nat.{
  add-zero, add-suc, mul-sub, le-mul_of_pos_right, pow-le-pow_right, pow-suc, one-le-pow, mod-lt,
  mod-eq_of_lt, div-add-mod, mul-add-mod_self_left, zero-mod,
}
use native.Mathlib.Decide.{dec_lt}
use native.Mathlib.Omega.{arith}

-- The lowest binary digit of a remainder by an even number.
mod_double : (a m : ℕ) → 0 < m → a % (m * 2) ≡ a / 2 % m * 2 + a % 2
mod_double a m h =
    let q = a / 2 / m in
    let r = a / 2 % m in
    let small : r < m = mod-lt (a / 2) h in
    let whole : a ≡ m * 2 * q + (r * 2 + a % 2) = omega (arith, div-add-mod (a / 2) m) in
    ap (λ (t : ℕ). t % (m * 2)) whole
    ∙ mul-add-mod_self_left (m * 2) q (r * 2 + a % 2)
    ∙ mod-eq_of_lt (omega arith)

mask_digits_none : (n a : ℕ) → a ≤ n → digits (λ b. zero) min n a 0 ≡ 0
mask_digits_none zero zero p = refl
mask_digits_none zero (suc a) p = absurd (omega arith)
mask_digits_none (suc n) zero p = refl
mask_digits_none (suc n) (suc a) p = omega (arith, mask_digits_none n (suc a / 2) (omega arith))

mask_digits : (n a k : ℕ) → a ≤ n → digits (λ b. zero) min n a (2 ^ k - 1) ≡ a % 2 ^ k
mask_digits n a zero p = omega (arith, mask_digits_none n a p)
mask_digits zero zero (suc k) p = omega (arith, zero-mod (2 ^ suc k))
mask_digits zero (suc a) (suc k) p = absurd (omega arith)
mask_digits (suc n) zero (suc k) p = omega (arith, zero-mod (2 ^ suc k))
mask_digits (suc n) (suc a) (suc k) p =
    let half : (2 ^ suc k - 1) / 2 ≡ 2 ^ k - 1 = omega (arith, pow-suc 2 k, one-le-pow k 2) in
    rw half (
      omega (
        arith,
        pow-suc 2 k,
        one-le-pow k 2,
        ap (λ (t : ℕ). suc a % t) (pow-suc 2 k),
        mod_double (suc a) (2 ^ k) (one-le-pow k 2 (omega arith)),
        mask_digits n (suc a / 2) k (omega arith),
      ))

pub bit_and_mask : (k a : ℕ) → bit_and a (2 ^ k - 1) ≡ a % 2 ^ k
bit_and_mask k a = bit_and-bitwise a (2 ^ k - 1) ∙ mask_digits a a k (omega arith)

-- A power of two divides every later one.
pub pow_split : (k m : ℕ) → (q : ℕ) × (2 ^ (k + m) ≡ 2 ^ k * q) × (0 < q)
pow_split k zero = (1, ap (λ n. 2 ^ n) (add-zero k) ∙ omega arith, omega arith)
pow_split k (suc m) =
    let (q, e, p) = pow_split k m in
    (q * 2, ap (λ n. 2 ^ n) (add-suc k m) ∙ omega (arith, pow-suc 2 (k + m), e), omega arith)

-- All ones of a wider word, masked: `-1 & (2 ^ k - 1)`.
pub ones_mod : (k n : ℕ) → k ≤ n → (2 ^ n - 1) % 2 ^ k ≡ 2 ^ k - 1
ones_mod k n h =
    let (q, e, p) = pow_split k (n - k) in
    let e' : 2 ^ n ≡ 2 ^ k * q = ap (λ j. 2 ^ j) (omega arith) ∙ e in
    let room : 0 < 2 ^ k = one-le-pow k 2 (omega arith) in
    ap (λ j. j % 2 ^ k)
      (omega (arith, e', mul-sub (2 ^ k) q 1, le-mul_of_pos_right {m = q} (2 ^ k) p))
    ∙ mul-add-mod_self_left (2 ^ k) (q - 1) (2 ^ k - 1)
    ∙ mod-eq_of_lt (omega arith)

-- Powers of two grow with their exponent.
pub exponent_le : (k n : ℕ) → 2 ^ k ≤ 2 ^ n → k ≤ n
exponent_le k n h = elim (dec_lt n k) [
  | yes p ↦ absurd (
      omega (
        arith,
        pow-suc 2 n,
        one-le-pow n 2 (omega arith),
        pow-le-pow_right {n = 2} (omega arith) {i = suc n} {j = k} p,
      ))
  | no p ↦ omega arith
]

-- There is no power of two strictly between a power of two and its double.
pub pow-le_of_lt_double : (n m : ℕ) → 2 ^ n < 2 ^ m * 2 → 2 ^ n ≤ 2 ^ m
pow-le_of_lt_double n m h = elim (dec_lt m n) [
  | yes p ↦
      absurd
        (omega (arith, pow-suc 2 m, pow-le-pow_right {n = 2} (omega arith) {i = suc m} {j = n} p))
  | no p ↦ pow-le-pow_right {n = 2} (omega arith) {i = n} {j = m} (omega arith)
]
