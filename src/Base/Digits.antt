-- ===== src/Base/Digits.antt =====
-- The binary digits of numbers: those of shifts, sums of fields, and bit operations, and that a
-- number is known from its digits.
use Prim.Native.Nat.{ℕ, zero, suc, ◌+◌, ◌*◌, ◌/◌, ◌%◌, ◌^◌, ◌<◌, min, max, bit_and, bit_or}
use mathlib.Core.Path.{◌≡◌, sym, ap, ap₂, ◌∙◌}
use native.Mathlib.Nat.{div-div-eq-div-mul, zero-div, mul_right_comm, pow-suc, one-le-pow}
use native.Mathlib.Omega.{arith}
use trident_micro21_artifact.Base.Bits.{
  bit_and_step, bit_or_step, mul-two-pow-suc, bit_and-zero, bit_or_fields,
}

-- Bit `k` of a word.
unfoldable pub digit : (w k : ℕ) → ℕ
digit w k = w / 2 ^ k % 2

pub zero_and : (k : ℕ) → 0 + k ≡ k
zero_and k = omega arith

pub next_and : (a k : ℕ) → suc a + k ≡ suc (a + k)
next_and a k = omega arith

pub two_pow_add : (a k : ℕ) → 2 ^ (a + k) ≡ 2 ^ a * 2 ^ k
two_pow_add zero k = omega (arith, ap (λ n. 2 ^ n) (zero_and k))
two_pow_add (suc a) k =
    ap (λ n. 2 ^ n) (next_and a k)
    ∙ pow-suc 2 (a + k)
    ∙ ap (λ n. n * 2) (two_pow_add a k)
    ∙ mul_right_comm (2 ^ a) (2 ^ k) 2
    ∙ ap (λ n. n * 2 ^ k) (sym (pow-suc 2 a))

pub digit-shift : (w a k : ℕ) → digit (w / 2 ^ a) k ≡ digit w (a + k)
unfolding digit
digit-shift w a k =
    ap (λ n. n % 2) (div-div-eq-div-mul w (2 ^ a) (2 ^ k) ∙ ap (λ n. w / n) (sym (two_pow_add a k)))

pub zero-digit : (k : ℕ) → digit 0 k ≡ 0
unfolding digit
zero-digit k = ap (λ n. n % 2) (zero-div (2 ^ k))

pub digit-zero : (w : ℕ) → digit w 0 ≡ w % 2
unfolding digit
digit-zero w = omega arith

pub digit-suc : (w k : ℕ) → digit w (suc k) ≡ digit (w / 2) k
digit-suc w k = ap (digit w) (omega arith) ∙ sym (digit-shift w 1 k)

half_fields : (n low high : ℕ) → (low + high * 2 ^ suc n) / 2 ≡ low / 2 + high * 2 ^ n
half_fields n low high = omega (arith, mul-two-pow-suc high n)

-- A field of `n` low digits does not change those above it, nor they those of the field.
pub digit-above :
    (n low high k : ℕ) → low < 2 ^ n → digit (low + high * 2 ^ n) (n + k) ≡ digit high k
digit-above zero low high k fits = ap₂ digit (omega arith) (omega arith)
digit-above (suc n) low high k fits =
    ap (digit (low + high * 2 ^ suc n)) (next_and n k)
    ∙ digit-suc (low + high * 2 ^ suc n) (n + k)
    ∙ ap (λ w. digit w (n + k)) (half_fields n low high)
    ∙ digit-above n (low / 2) high k (omega (arith, pow-suc 2 n))

pub digit-below :
    (n low high k : ℕ) → low < 2 ^ n → k < n → digit (low + high * 2 ^ n) k ≡ digit low k
digit-below zero low high k fits h = absurd (omega arith)
digit-below (suc n) low high zero fits h =
    digit-zero (low + high * 2 ^ suc n)
    ∙ omega (arith, mul-two-pow-suc high n)
    ∙ sym (digit-zero low)
digit-below (suc n) low high (suc k) fits h =
    digit-suc (low + high * 2 ^ suc n) k
    ∙ ap (λ w. digit w k) (half_fields n low high)
    ∙ digit-below n (low / 2) high k (omega (arith, pow-suc 2 n)) (omega arith)
    ∙ sym (digit-suc low k)

pub digit-mod : (n w k : ℕ) → k < n → digit (w % 2 ^ n) k ≡ digit w k
digit-mod n w k h =
    let fits : w % 2 ^ n < 2 ^ n = ground (arith, one-le-pow n 2) in
    let fields : w ≡ w % 2 ^ n + w / 2 ^ n * 2 ^ n = ground (arith, one-le-pow n 2) in
    sym (ap (λ v. digit v k) fields ∙ digit-below n (w % 2 ^ n) (w / 2 ^ n) k fits h)

pub digit-shift_up : (n w k : ℕ) → digit (w * 2 ^ n) (n + k) ≡ digit w k
digit-shift_up n w k =
    ap (λ v. digit v (n + k)) (omega arith) ∙ digit-above n 0 w k (omega (arith, one-le-pow n 2))

pub digit-shift_up_low : (n w k : ℕ) → k < n → digit (w * 2 ^ n) k ≡ 0
digit-shift_up_low n w k h =
    ap (λ v. digit v k) (omega arith)
    ∙ digit-below n 0 w k (omega (arith, one-le-pow n 2)) h
    ∙ zero-digit k

and_halves :
    (v w : ℕ)
    → (bit_and v w / 2 ≡ bit_and (v / 2) (w / 2)) × (bit_and v w % 2 ≡ min (v % 2) (w % 2))
and_halves v w = omega (arith, bit_and_step v w)

or_halves :
    (v w : ℕ) → (bit_or v w / 2 ≡ bit_or (v / 2) (w / 2)) × (bit_or v w % 2 ≡ max (v % 2) (w % 2))
or_halves v w = omega (arith, bit_or_step v w)

pub digit-bit_and : (v w k : ℕ) → digit (bit_and v w) k ≡ min (digit v k) (digit w k)
digit-bit_and v w zero =
    digit-zero (bit_and v w) ∙ (and_halves v w).1 ∙ sym (ap₂ min (digit-zero v) (digit-zero w))
digit-bit_and v w (suc k) =
    digit-suc (bit_and v w) k
    ∙ ap (λ u. digit u k) (and_halves v w).0
    ∙ digit-bit_and (v / 2) (w / 2) k
    ∙ sym (ap₂ min (digit-suc v k) (digit-suc w k))

pub digit-bit_or : (v w k : ℕ) → digit (bit_or v w) k ≡ max (digit v k) (digit w k)
digit-bit_or v w zero =
    digit-zero (bit_or v w) ∙ (or_halves v w).1 ∙ sym (ap₂ max (digit-zero v) (digit-zero w))
digit-bit_or v w (suc k) =
    digit-suc (bit_or v w) k
    ∙ ap (λ u. digit u k) (or_halves v w).0
    ∙ digit-bit_or (v / 2) (w / 2) k
    ∙ sym (ap₂ max (digit-suc v k) (digit-suc w k))

pub digit-lt : (w k : ℕ) → digit w k < 2
unfolding digit
digit-lt w k = omega arith

-- Two numbers of `n` digits with the same digits are equal.
pub digit_ext :
    (n v w : ℕ) → v < 2 ^ n → w < 2 ^ n → ((k : ℕ) → k < n → digit v k ≡ digit w k) → v ≡ w
digit_ext zero v w p q h = omega arith
digit_ext (suc n) v w p q h =
    let low = sym (digit-zero v) ∙ h 0 (omega arith) ∙ digit-zero w in
    let high =
      digit_ext n (v / 2) (w / 2) (omega (arith, pow-suc 2 n)) (omega (arith, pow-suc 2 n))
        (λ k lt. sym (digit-suc v k) ∙ h (suc k) (omega arith) ∙ digit-suc w k) in
    omega arith

pub bit_and-lt : (n v w : ℕ) → w < 2 ^ n → bit_and v w < 2 ^ n
bit_and-lt zero v w h = let none : w ≡ 0 = omega arith in rw none (omega (arith, bit_and-zero v))
bit_and-lt (suc n) v w h = omega (
  arith,
  bit_and_step v w,
  bit_and-lt n (v / 2) (w / 2) (omega (arith, pow-suc 2 n)),
  pow-suc 2 n,
)

pub bit_or-lt : (n v w : ℕ) → v < 2 ^ n → w < 2 ^ n → bit_or v w < 2 ^ n
bit_or-lt zero v w p q =
    let none : v ≡ 0 = omega arith in
    let none' : w ≡ 0 = omega arith in rw (none, none') (omega (arith, bit_or_fields 0 0 0))
bit_or-lt (suc n) v w p q = omega (
  arith,
  bit_or_step v w,
  bit_or-lt n (v / 2) (w / 2) (omega (arith, pow-suc 2 n)) (omega (arith, pow-suc 2 n)),
  pow-suc 2 n,
)
