-- ===== src/Base/Bits.antt =====
-- Masks, disjoint fields and parities of machine words as arithmetic. The native operations are
-- defined by a recursion on binary digits with fuel; here the fuel is dropped once, and each law
-- is an induction on the width of the word.
use Prim.Native.Nat.{
  ℕ, zero, suc, ◌+◌, ◌-◌, ◌*◌, ◌/◌, ◌%◌, ◌^◌, ◌≤◌, ◌<◌, min, max, bit_and, bit_or, bit_xor, digits,
  differ, bit_and-bitwise, bit_or-bitwise, bit_xor-bitwise,
}
use mathlib.Core.Path.{◌≡◌, refl, sym, ap, ◌∙◌}
use native.Mathlib.Nat.{pow-suc, one-le-pow, div-div-eq-div-mul}
use native.Mathlib.Decide.{dec_lt}
use native.Mathlib.Omega.{arith}

module _ (rest : ℕ → ℕ) (digit : ℕ → ℕ → ℕ) where
  no_digits : (fuel b : ℕ) → digits rest digit fuel 0 b ≡ rest b
  no_digits zero b = refl
  no_digits (suc fuel) b = refl

  -- Fuel beyond the first operand changes nothing.
  spare_fuel :
      (v w : ℕ) (fuel more : ℕ)
      → v ≤ fuel
      → v ≤ more
      → digits rest digit fuel v w ≡ digits rest digit more v w
  spare_fuel zero w fuel more _ _ = no_digits fuel w ∙ sym (no_digits more w)
  spare_fuel (suc v) w (suc fuel) (suc more) le le' =
      let halved = spare_fuel (suc v / 2) (w / 2) fuel more (omega arith) (omega arith) in
      omega arith
  spare_fuel (suc v) w zero more le le' = absurd (omega arith)
  spare_fuel (suc v) w (suc fuel) zero le le' = absurd (omega arith)

-- One binary digit at a time.
pub bit_or_step : (v w : ℕ) → bit_or v w ≡ bit_or (v / 2) (w / 2) * 2 + max (v % 2) (w % 2)
bit_or_step zero w = omega (arith, bit_or-bitwise 0 w, bit_or-bitwise 0 (w / 2))
bit_or_step (suc v) w =
    let half = suc v / 2 in
    omega (
      arith,
      spare_fuel (λ x. x) max half (w / 2) v half (omega arith) (omega arith),
      bit_or-bitwise half (w / 2),
      bit_or-bitwise (suc v) w,
    )

pub bit_and_step : (v w : ℕ) → bit_and v w ≡ bit_and (v / 2) (w / 2) * 2 + min (v % 2) (w % 2)
bit_and_step zero w = omega (arith, bit_and-bitwise 0 w, bit_and-bitwise 0 (w / 2))
bit_and_step (suc v) w =
    let half = suc v / 2 in
    omega (
      arith,
      spare_fuel (λ _. 0) min half (w / 2) v half (omega arith) (omega arith),
      bit_and-bitwise half (w / 2),
      bit_and-bitwise (suc v) w,
    )

differ-bit : (a b : ℕ) → a < 2 → b < 2 → differ a b ≡ (a + b) % 2
differ-bit zero zero p q = refl
differ-bit zero (suc b) p q = omega arith
differ-bit (suc a) zero p q = omega arith
differ-bit (suc a) (suc b) p q = ground arith

pub bit_xor_step : (a b : ℕ) → bit_xor a b ≡ bit_xor (a / 2) (b / 2) * 2 + (a % 2 + b % 2) % 2
bit_xor_step zero b = omega (arith, bit_xor-bitwise 0 b, bit_xor-bitwise 0 (b / 2))
bit_xor_step (suc a) b = ground (
  arith,
  bit_xor-bitwise (suc a) b,
  bit_xor-bitwise (suc a / 2) (b / 2),
  spare_fuel (λ y. y) differ (suc a / 2) (b / 2) a (suc a / 2) (omega arith) (omega arith),
  differ-bit (suc a % 2) (b % 2) (omega arith) (omega arith),
)

zero-bit_and : (b : ℕ) → bit_and 0 b ≡ 0
zero-bit_and b = bit_and-bitwise 0 b

zero-bit_or : (b : ℕ) → bit_or 0 b ≡ b
zero-bit_or b = bit_or-bitwise 0 b

pub mul-two-pow-suc : (high w : ℕ) → high * 2 ^ suc w ≡ 2 * (high * 2 ^ w)
mul-two-pow-suc high w =
    let scaled : high * 2 ^ suc w ≡ high * (2 ^ w * 2) = ap (high *◌) (pow-suc 2 w) in omega arith

-- A field of `w` low bits below a field that starts at bit `w`.
pub bit_or_fields : (w low high : ℕ) → low < 2 ^ w → bit_or low (high * 2 ^ w) ≡ low + high * 2 ^ w
bit_or_fields zero low high fits =
    let none_low : low ≡ 0 = omega arith in rw none_low (omega (arith, zero-bit_or (high * 1)))
bit_or_fields (suc w) low high fits =
    let rest = bit_or_fields w (low / 2) high (omega (arith, pow-suc 2 w)) in
    ground (arith, pow-suc 2 w, mul-two-pow-suc high w, bit_or_step low (high * 2 ^ suc w))

bit_or-zero : (v : ℕ) → bit_or v 0 ≡ v
bit_or-zero v = within_fuel v v (omega arith)
  where
    within_fuel : (fuel w : ℕ) → w ≤ fuel → bit_or w 0 ≡ w
    within_fuel fuel zero le = zero-bit_or 0
    within_fuel (suc fuel) (suc w) le =
        let halved = within_fuel fuel (suc w / 2) (omega arith) in
        omega (arith, bit_or_step (suc w) 0)
    within_fuel zero (suc w) le = absurd (omega arith)

-- The same with the fields in the other order.
pub bit_or_above : (w low high : ℕ) → low < 2 ^ w → bit_or (high * 2 ^ w) low ≡ low + high * 2 ^ w
bit_or_above zero low high fits =
    let none_low : low ≡ 0 = omega arith in rw none_low (omega (arith, bit_or-zero (high * 1)))
bit_or_above (suc w) low high fits =
    let rest = bit_or_above w (low / 2) high (omega (arith, pow-suc 2 w)) in
    ground (arith, pow-suc 2 w, mul-two-pow-suc high w, bit_or_step (high * 2 ^ suc w) low)

pub bit_and-zero : (v : ℕ) → bit_and v 0 ≡ 0
bit_and-zero v = within_fuel v v (omega arith)
  where
    within_fuel : (fuel w : ℕ) → w ≤ fuel → bit_and w 0 ≡ 0
    within_fuel fuel zero le = zero-bit_and 0
    within_fuel (suc fuel) (suc w) le =
        let halved = within_fuel fuel (suc w / 2) (omega arith) in
        omega (arith, bit_and_step (suc w) 0)
    within_fuel zero (suc w) le = absurd (omega arith)

mask_keeps_low : (w low high : ℕ) → low < 2 ^ w → bit_and (low + high * 2 ^ w) (2 ^ w - 1) ≡ low
mask_keeps_low zero low high fits = omega (arith, bit_and-zero (low + high * 1))
mask_keeps_low (suc w) low high fits =
    let rest = mask_keeps_low w (low / 2) high (omega (arith, pow-suc 2 w)) in
    ground (
      arith,
      one-le-pow w 2,
      pow-suc 2 w,
      mul-two-pow-suc high w,
      bit_and_step (low + high * 2 ^ suc w) (2 ^ suc w - 1),
    )

-- A mask of `w` low bits is the remainder by `2 ^ w`.
pub bit_and_mask : (w v : ℕ) → bit_and v (2 ^ w - 1) ≡ v % 2 ^ w
bit_and_mask w v =
    let keeps : v % 2 ^ w < 2 ^ w
        → bit_and (v % 2 ^ w + v / 2 ^ w * 2 ^ w) (2 ^ w - 1) ≡ v % 2 ^ w =
      mask_keeps_low w (v % 2 ^ w) (v / 2 ^ w) in
    ground (arith, one-le-pow w 2)

-- A test of bit `k`.
pub bit_and_bit : (k a : ℕ) → bit_and a (2 ^ k) ≡ a / 2 ^ k % 2 * 2 ^ k
bit_and_bit zero a = omega (arith, bit_and_step a 1, bit_and-zero (a / 2))
bit_and_bit (suc k) a = ground (
  arith,
  bit_and_step a (2 ^ suc k),
  pow-suc 2 k,
  div-div-eq-div-mul a 2 (2 ^ k),
  mul-two-pow-suc (a / 2 / 2 ^ k % 2) k,
  one-le-pow k 2,
  bit_and_bit k (a / 2),
)

bit_xor-self_fuel : (n a : ℕ) → a ≤ n → bit_xor a a ≡ 0
bit_xor-self_fuel n zero h = refl
bit_xor-self_fuel zero (suc a) h = absurd (omega arith)
bit_xor-self_fuel (suc n) (suc a) h =
    omega (arith, bit_xor_step (suc a) (suc a), bit_xor-self_fuel n (suc a / 2) (omega arith))

pub bit_xor_self : (a : ℕ) → bit_xor a a ≡ 0
bit_xor_self a = bit_xor-self_fuel a a (omega arith)

pub zero-bit_xor : (a : ℕ) → bit_xor 0 a ≡ a
zero-bit_xor a = bit_xor-bitwise 0 a

bit_xor_comm_fuel : (n a b : ℕ) → a + b ≤ n → bit_xor a b ≡ bit_xor b a
bit_xor_comm_fuel zero a b h =
    let p : a ≡ 0 = omega arith in let q : b ≡ 0 = omega arith in rw (p, q)
bit_xor_comm_fuel (suc n) zero zero h = refl
bit_xor_comm_fuel (suc n) (suc a) b h = omega (
  arith,
  bit_xor_step (suc a) b,
  bit_xor_step b (suc a),
  bit_xor_comm_fuel n (suc a / 2) (b / 2) (omega arith),
)
bit_xor_comm_fuel (suc n) a (suc b) h = omega (
  arith,
  bit_xor_step a (suc b),
  bit_xor_step (suc b) a,
  bit_xor_comm_fuel n (a / 2) (suc b / 2) (omega arith),
)

pub bit_xor_comm : (a b : ℕ) → bit_xor a b ≡ bit_xor b a
bit_xor_comm a b = bit_xor_comm_fuel (a + b) a b (omega arith)

bit_xor_halves :
    (a b : ℕ) → (bit_xor a b / 2 ≡ bit_xor (a / 2) (b / 2)) × (bit_xor a b % 2 ≡ (a + b) % 2)
bit_xor_halves a b = omega (arith, bit_xor_step a b)

bit_xor_assoc_zero : (a b c : ℕ) → a + b + c ≡ 0 → bit_xor (bit_xor a b) c ≡ bit_xor a (bit_xor b c)
bit_xor_assoc_zero a b c h =
    let p : a ≡ 0 = omega arith in
    let q : b ≡ 0 = omega arith in let r : c ≡ 0 = omega arith in rw (p, q, r)

bit_xor_assoc_fuel :
    (n a b c : ℕ) → a + b + c ≤ n → bit_xor (bit_xor a b) c ≡ bit_xor a (bit_xor b c)
bit_xor_assoc_fuel zero a b c h = bit_xor_assoc_zero a b c (omega arith)
bit_xor_assoc_fuel (suc n) a b c h = elim (dec_lt 0 (a + b + c)) [
  | no z ↦ bit_xor_assoc_zero a b c (omega arith)
  | yes pos ↦ ground (
    arith,
    bit_xor_step (bit_xor a b) c,
    bit_xor_step a (bit_xor b c),
    bit_xor_halves a b,
    bit_xor_halves b c,
    bit_xor_assoc_fuel n (a / 2) (b / 2) (c / 2) (omega arith),
  )
]

pub bit_xor_assoc : (a b c : ℕ) → bit_xor (bit_xor a b) c ≡ bit_xor a (bit_xor b c)
bit_xor_assoc a b c = bit_xor_assoc_fuel (a + b + c) a b c (omega arith)
