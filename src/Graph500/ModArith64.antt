-- ===== src/Graph500/ModArith64.antt =====
-- trident-workloads/graph500/generator/mod_arith_64bit.h, which FAST_64BIT_ARITHMETIC chooses in place of
-- mod_arith_32bit.h: the same functions with one division each. Sums and products of 64 bits are
-- cut to `2 ^ 64`, the sum of `mod_add` to the 32 bits that `uint_fast32_t` has at least.
use trident_micro21_artifact.Graph500.ModArith.{
  modulus, mod_add, mod_mul, mod_mac, mod_mac2, mod_mac3, mod_mac4, mod_mul_x, mod_mul_y, mod_mac_y,
  mod_ops_lem, mod_macs_lem, mod_mul_constants,
}
use trident_micro21_artifact.Base.{ℕ, ◌+◌, ◌-◌, ◌*◌, ◌%◌, ◌^◌, ◌≤◌, ◌<◌, ◌≡◌, sym, ◌∙◌, arith}

unfoldable pub mod_add_64 : (a b : ℕ) → ℕ
mod_add_64 a b = (a + b) % 2 ^ 32 % modulus

unfoldable pub mod_mul_64 : (a b : ℕ) → ℕ
mod_mul_64 a b = a * b % 2 ^ 64 % modulus

unfoldable pub mod_mac_64 : (sum a b : ℕ) → ℕ
mod_mac_64 sum a b = (a * b + sum) % 2 ^ 64 % modulus

unfoldable pub mod_mac2_64 : (sum a b c d : ℕ) → ℕ
mod_mac2_64 sum a b c d = (a * b + c * d + sum) % 2 ^ 64 % modulus

unfoldable pub mod_mac3_64 : (sum a b c d e f : ℕ) → ℕ
mod_mac3_64 sum a b c d e f = (a * b + c * d + e * f + sum) % 2 ^ 64 % modulus

unfoldable pub mod_mac4_64 : (sum a b c d e f g h : ℕ) → ℕ
mod_mac4_64 sum a b c d e f g h = (a * b + c * d + e * f + g * h + sum) % 2 ^ 64 % modulus

unfoldable pub mod_mul_x_64 : ℕ → ℕ
mod_mul_x_64 a = mod_mul_64 a 107374182

unfoldable pub mod_mul_y_64 : ℕ → ℕ
mod_mul_y_64 a = mod_mul_64 a 104480

unfoldable pub mod_mac_y_64 : (sum a : ℕ) → ℕ
mod_mac_y_64 sum a = mod_mac_64 sum a 104480

product_le : (a b : ℕ) → a < modulus → b < modulus → a * b ≤ (modulus - 1) * (modulus - 1)
product_le a b p q = grind arith

-- For operands below 2 ^ 31 - 1, as both headers assert, the sum of two stays below 2 ^ 32 and the
-- largest sum of products, that of `mod_mac4`, below 2 ^ 64, and the functions of the two headers
-- return the same numbers.
pub mod_arith_64-32 :
    (sum a b c d e f g h : ℕ)
    → sum < modulus
    → a < modulus
    → b < modulus
    → c < modulus
    → d < modulus
    → e < modulus
    → f < modulus
    → g < modulus
    → h < modulus
    → (a + b < 2 ^ 32)
      × (a * b + c * d + e * f + g * h + sum < 2 ^ 64)
      × (mod_add_64 a b ≡ mod_add a b)
      × (mod_mul_64 a b ≡ mod_mul a b)
      × (mod_mac_64 sum a b ≡ mod_mac sum a b)
      × (mod_mac2_64 sum a b c d ≡ mod_mac2 sum a b c d)
      × (mod_mac3_64 sum a b c d e f ≡ mod_mac3 sum a b c d e f)
      × (mod_mac4_64 sum a b c d e f g h ≡ mod_mac4 sum a b c d e f g h)
      × (mod_mul_x_64 a ≡ mod_mul_x a)
      × (mod_mul_y_64 a ≡ mod_mul_y a)
      × (mod_mac_y_64 sum a ≡ mod_mac_y sum a)
unfolding mod_add_64 mod_mul_64 mod_mac_64 mod_mac2_64 mod_mac3_64 mod_mac4_64 mod_mul_x_64
    mod_mul_y_64 mod_mac_y_64
mod_arith_64-32 sum a b c d e f g h hs ha hb hc hd he hf hg hh =
    let ab = product_le a b ha hb in
    let cd = product_le c d hc hd in
    let ef = product_le e f he hf in
    let gh = product_le g h hg hh in
    let (add, mul, mac) = mod_ops_lem sum a b hs ha hb in
    let (mac2, mac3, mac4) = mod_macs_lem sum a b c d e f g h hs ha hb hc hd he hf hg hh in
    let (by_x, by_y, mac_y) = mod_mul_constants sum a hs ha in
    (
      omega arith,
      omega arith,
      omega arith ∙ sym add,
      omega arith ∙ sym mul,
      omega arith ∙ sym mac,
      omega arith ∙ sym mac2,
      omega arith ∙ sym mac3,
      omega arith ∙ sym mac4,
      omega arith ∙ sym by_x,
      omega arith ∙ sym by_y,
      omega arith ∙ sym mac_y,
    )
