-- ===== src/Graph500/ModArith.antt =====
-- trident-workloads/graph500/generator/mod_arith_32bit.h: arithmetic modulo 2 ^ 31 - 1 without
-- division, on 32-bit and 64-bit words. The assertions on the operands are hypotheses of the
-- theorems; that the intermediate values fit their words is part of the definitions: each result
-- of 32 bits is cut to `2 ^ 32`, each of 64 bits to `2 ^ 64`.
use trident_micro21_artifact.Base.{
  ℕ, ◌+◌, ◌-◌, ◌*◌, ◌/◌, ◌%◌, ◌^◌, ◌≤◌, ◌<◌, bit_and, ◌≡◌, ap, ◌∙◌, arith, ltb, leb, if◌then◌else◌,
  bit_and_mask,
}

abbrev pub modulus : ℕ
modulus = 0x7FFFFFFF

-- x = (x >= 0x7FFFFFFF) ? (x - 0x7FFFFFFF) : x;
unfoldable pub reduce : ℕ → ℕ
reduce x = if leb modulus x then x - modulus else x

unfoldable pub mod_add : (a b : ℕ) → ℕ
mod_add a b = reduce ((a + b) % 2 ^ 32)

-- (uint_fast32_t)(temp & 0x7FFFFFFF) + (uint_fast32_t)(temp >> 31)
unfoldable pub fold : ℕ → ℕ
fold temp = (bit_and temp modulus + temp / 2 ^ 31 % 2 ^ 32) % 2 ^ 32

unfoldable pub mod_mul : (a b : ℕ) → ℕ
mod_mul a b = reduce (fold (a * b % 2 ^ 64))

unfoldable pub mod_mac : (sum a b : ℕ) → ℕ
mod_mac sum a b = reduce (fold ((a * b + sum) % 2 ^ 64))

unfoldable pub mod_mac2 : (sum a b c d : ℕ) → ℕ
mod_mac2 sum a b c d = mod_mac (mod_mac sum a b) c d

unfoldable pub mod_mac3 : (sum a b c d e f : ℕ) → ℕ
mod_mac3 sum a b c d e f = mod_mac2 (mod_mac sum a b) c d e f

unfoldable pub mod_mac4 : (sum a b c d e f g h : ℕ) → ℕ
mod_mac4 sum a b c d e f g h = mod_mac2 (mod_mac2 sum a b c d) e f g h

-- int_fast32_t result = a / q;
-- result = multiplier * (a - result * q) - result * r;
-- result += (result < 0 ? 0x7FFFFFFF : 0);
unfoldable pub schrage : (multiplier q r a : ℕ) → ℕ
schrage multiplier q r a =
    let result = a / q in
    let gain = multiplier * (a - result * q) in
    let loss = result * r in if ltb gain loss then gain + modulus - loss else gain - loss

unfoldable pub mod_mul_x : ℕ → ℕ
mod_mul_x = schrage 107374182 20 7

unfoldable pub mod_mul_y : ℕ → ℕ
mod_mul_y = schrage 104480 20554 1727

unfoldable pub mod_mac_y : (sum a : ℕ) → ℕ
mod_mac_y sum a = mod_add sum (mod_mul_y a)

pub fold_lem : (temp : ℕ) → temp ≤ (modulus - 1) * modulus → reduce (fold temp) ≡ temp % modulus
unfolding reduce fold
fold_lem temp h = ground (arith, bit_and_mask 31 temp)

product_le : (a b m n : ℕ) → a ≤ m → b ≤ n → a * b ≤ m * n
product_le a b m n p q = grind arith

word_fits : (x : ℕ) → x ≤ (modulus - 1) * modulus → x % 2 ^ 64 ≡ x
word_fits x h = omega arith

-- For operands below 2 ^ 31 - 1 the results are the sum, the product, and the product plus a number
-- modulo 2 ^ 31 - 1.
pub mod_ops_lem :
    (sum a b : ℕ)
    → sum < modulus
    → a < modulus
    → b < modulus
    → (mod_add a b ≡ (a + b) % modulus)
      × (mod_mul a b ≡ a * b % modulus)
      × (mod_mac sum a b ≡ (a * b + sum) % modulus)
unfolding mod_add mod_mul mod_mac reduce
mod_ops_lem sum a b hs ha hb =
    let small = product_le a b (modulus - 1) (modulus - 1) (omega arith) (omega arith) in
    let product : a * b ≤ (modulus - 1) * modulus = omega arith in
    let total : a * b + sum ≤ (modulus - 1) * modulus = omega arith in
    (
      ground arith,
      ap (λ x. reduce (fold x)) (word_fits (a * b) product) ∙ fold_lem (a * b) product,
      ap (λ x. reduce (fold x)) (word_fits (a * b + sum) total) ∙ fold_lem (a * b + sum) total,
    )

pub mod_mac_lem :
    (sum a b : ℕ)
    → sum < modulus
    → a < modulus
    → b < modulus
    → (mod_mac sum a b ≡ (a * b + sum) % modulus) × (mod_mac sum a b < modulus)
mod_mac_lem sum a b hs ha hb = let value = (mod_ops_lem sum a b hs ha hb).2 in (value, omega arith)

pub mod_mac2_lem :
    (sum a b c d : ℕ)
    → sum < modulus
    → a < modulus
    → b < modulus
    → c < modulus
    → d < modulus
    → (mod_mac2 sum a b c d ≡ (sum + a * b + c * d) % modulus) × (mod_mac2 sum a b c d < modulus)
unfolding mod_mac2
mod_mac2_lem sum a b c d hs ha hb hc hd =
    let (first, small) = mod_mac_lem sum a b hs ha hb in
    let (second, small2) = mod_mac_lem (mod_mac sum a b) c d small hc hd in (omega arith, small2)

pub mod_mac3_lem :
    (sum a b c d e f : ℕ)
    → sum < modulus
    → a < modulus
    → b < modulus
    → c < modulus
    → d < modulus
    → e < modulus
    → f < modulus
    → (mod_mac3 sum a b c d e f ≡ (sum + a * b + c * d + e * f) % modulus)
      × (mod_mac3 sum a b c d e f < modulus)
unfolding mod_mac3
mod_mac3_lem sum a b c d e f hs ha hb hc hd he hf =
    let (one, small) = mod_mac_lem sum a b hs ha hb in
    let (three, small3) = mod_mac2_lem (mod_mac sum a b) c d e f small hc hd he hf in
    (omega arith, small3)

pub mod_mac4_lem :
    (sum a b c d e f g h : ℕ)
    → sum < modulus
    → a < modulus
    → b < modulus
    → c < modulus
    → d < modulus
    → e < modulus
    → f < modulus
    → g < modulus
    → h < modulus
    → (mod_mac4 sum a b c d e f g h ≡ (sum + a * b + c * d + e * f + g * h) % modulus)
      × (mod_mac4 sum a b c d e f g h < modulus)
unfolding mod_mac4
mod_mac4_lem sum a b c d e f g h hs ha hb hc hd he hf hg hh =
    let (two, small2) = mod_mac2_lem sum a b c d hs ha hb hc hd in
    let (four, small4) = mod_mac2_lem (mod_mac2 sum a b c d) e f g h small2 he hf hg hh in
    (omega arith, small4)

-- For operands below 2 ^ 31 - 1 the chains of two, three and four products are the sums of all the
-- products and the first operand modulo 2 ^ 31 - 1.
pub mod_macs_lem :
    (sum a b c d e f g h : ℕ)
    → sum < modulus
    → a < modulus
    → b < modulus
    → c < modulus
    → d < modulus
    → e < modulus
    → f < modulus
    → g < modulus
    → h < modulus
    → (mod_mac2 sum a b c d ≡ (sum + a * b + c * d) % modulus)
      × (mod_mac3 sum a b c d e f ≡ (sum + a * b + c * d + e * f) % modulus)
      × (mod_mac4 sum a b c d e f g h ≡ (sum + a * b + c * d + e * f + g * h) % modulus)
mod_macs_lem sum a b c d e f g h hs ha hb hc hd he hf hg hh = (
  (mod_mac2_lem sum a b c d hs ha hb hc hd).0,
  (mod_mac3_lem sum a b c d e f hs ha hb hc hd he hf).0,
  (mod_mac4_lem sum a b c d e f g h hs ha hb hc hd he hf hg hh).0,
)

-- For operands below 2 ^ 31 - 1 the products with the two constants of the generator, and the second
-- product plus a number, are those modulo 2 ^ 31 - 1.
pub mod_mul_constants :
    (sum a : ℕ)
    → sum < modulus
    → a < modulus
    → (mod_mul_x a ≡ 107374182 * a % modulus)
      × (mod_mul_y a ≡ 104480 * a % modulus)
      × (mod_mac_y sum a ≡ (104480 * a + sum) % modulus)
unfolding mod_mul_x mod_mul_y schrage mod_mac_y
mod_mul_constants sum a hs h =
    let x : mod_mul_x a ≡ 107374182 * a % modulus = ground arith in
    let y : mod_mul_y a ≡ 104480 * a % modulus = ground arith in
    let add : mod_mac_y sum a ≡ (sum + mod_mul_y a) % modulus =
      (mod_ops_lem a sum (mod_mul_y a) h hs (omega arith)).0 in
    (x, y, omega arith)
