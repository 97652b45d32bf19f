-- ===== src/Gups/Linear.antt =====
-- The step of the generator of trident-workloads/gups/gups.c respects `^`.
use trident_micro21_artifact.Gups.{step, poly}
use native.Mathlib.Nat.{pow-suc}
use trident_micro21_artifact.Base.{
  ℕ, zero, suc, ◌+◌, ◌*◌, ◌/◌, ◌%◌, ◌^◌, ◌<◌, bit_xor, ◌≡◌, refl, sym, ap, ap₂, ◌∙◌, arith,
  bit_xor_step, bit_xor_self, bit_xor_comm, bit_xor_assoc, mul-two-pow-suc,
}

-- Both are by the digit at the bottom.
double_xor : (a b : ℕ) → bit_xor (a * 2) (b * 2) ≡ bit_xor a b * 2
double_xor a b = ground (arith, bit_xor_step (a * 2) (b * 2), halves_double a, halves_double b)
  where
    halves_double : (x : ℕ) → x * 2 / 2 ≡ x
    halves_double x = omega arith

pub bit_xor-lt : (w a b : ℕ) → a < 2 ^ w → b < 2 ^ w → bit_xor a b < 2 ^ w
bit_xor-lt zero a b p q =
    let z : a ≡ 0 = omega arith in let z' : b ≡ 0 = omega arith in rw (z, z') (omega arith)
bit_xor-lt (suc w) a b p q = omega (
  arith,
  bit_xor_step a b,
  pow-suc 2 w,
  bit_xor-lt w (a / 2) (b / 2) (omega (arith, pow-suc 2 w)) (omega (arith, pow-suc 2 w)),
)

field_halves :
    (w a x : ℕ) → ((a + x * 2 ^ suc w) / 2 ≡ a / 2 + x * 2 ^ w) × ((a + x * 2 ^ suc w) % 2 ≡ a % 2)
field_halves w a x = omega (arith, mul-two-pow-suc x w)

-- The low 63 bits and the top bit.
bit_xor-top :
    (w a b x y : ℕ)
    → a < 2 ^ w
    → b < 2 ^ w
    → bit_xor (a + x * 2 ^ w) (b + y * 2 ^ w) ≡ bit_xor a b + bit_xor x y * 2 ^ w
bit_xor-top zero a b x y p q =
    let e : a + x * 1 ≡ x = omega arith in
    let f : b + y * 1 ≡ y = omega arith in
    let z : a ≡ 0 = omega arith in
    let z' : b ≡ 0 = omega arith in rw (e, f, z, z', bit_xor_self 0) (omega arith)
bit_xor-top (suc w) a b x y p q = ground (
  arith,
  bit_xor_step (a + x * 2 ^ suc w) (b + y * 2 ^ suc w),
  bit_xor_step a b,
  mul-two-pow-suc (bit_xor x y) w,
  field_halves w a x,
  field_halves w b y,
  bit_xor-top w (a / 2) (b / 2) x y (omega (arith, pow-suc 2 w)) (omega (arith, pow-suc 2 w)),
)

-- Doubling without the top bit, and the top bit.
pub shifted : ℕ → ℕ
shifted v = v % 2 ^ 63 * 2

pub reduced : ℕ → ℕ
reduced v = v / 2 ^ 63 * poly

-- The parts of a word.
word_parts :
    (a b : ℕ)
    → bit_xor a b ≡ bit_xor (a % 2 ^ 63) (b % 2 ^ 63) + bit_xor (a / 2 ^ 63) (b / 2 ^ 63) * 2 ^ 63
word_parts a b =
    let e : a % 2 ^ 63 + a / 2 ^ 63 * 2 ^ 63 ≡ a = omega arith in
    let f : b % 2 ^ 63 + b / 2 ^ 63 * 2 ^ 63 ≡ b = omega arith in
    rw (e, f) at
      (bit_xor-top 63 (a % 2 ^ 63) (b % 2 ^ 63) (a / 2 ^ 63) (b / 2 ^ 63) (omega arith)
        (omega arith))

shifted-bit_xor : (a b : ℕ) → shifted (bit_xor a b) ≡ bit_xor (shifted a) (shifted b)
unfolding shifted
shifted-bit_xor a b = omega (
  arith,
  word_parts a b,
  bit_xor-lt 63 (a % 2 ^ 63) (b % 2 ^ 63) (omega arith) (omega arith),
  double_xor (a % 2 ^ 63) (b % 2 ^ 63),
)

reduced_bits : (x y : ℕ) → x < 2 → y < 2 → bit_xor x y * poly ≡ bit_xor (x * poly) (y * poly)
reduced_bits zero zero p q = refl
reduced_bits zero (suc zero) p q = refl
reduced_bits (suc zero) zero p q = refl
reduced_bits (suc zero) (suc zero) p q = refl
reduced_bits zero (suc (suc y)) p q = absurd (omega arith)
reduced_bits (suc zero) (suc (suc y)) p q = absurd (omega arith)
reduced_bits (suc (suc x)) y p q = absurd (omega arith)

reduced-bit_xor :
    (a b : ℕ) → a < 2 ^ 64 → b < 2 ^ 64 → reduced (bit_xor a b) ≡ bit_xor (reduced a) (reduced b)
unfolding reduced
reduced-bit_xor a b p q = omega (
  arith,
  word_parts a b,
  bit_xor-lt 63 (a % 2 ^ 63) (b % 2 ^ 63) (omega arith) (omega arith),
  reduced_bits (a / 2 ^ 63) (b / 2 ^ 63) (omega arith) (omega arith),
)

pub step_lem : (v : ℕ) → v < 2 ^ 64 → step v ≡ bit_xor (shifted v) (reduced v)
unfolding step shifted reduced
step_lem v h = ap₂ bit_xor (omega arith) (ground arith)

pub step-lt : (v : ℕ) → v < 2 ^ 64 → step v < 2 ^ 64
unfolding shifted reduced
step-lt v h = rw (step_lem v h) (bit_xor-lt 64 (shifted v) (reduced v) (omega arith) (omega arith))

-- Regrouping four words.
pub exchange :
    (a b c d : ℕ) → bit_xor (bit_xor a b) (bit_xor c d) ≡ bit_xor (bit_xor a c) (bit_xor b d)
exchange a b c d =
    bit_xor_assoc a b (bit_xor c d)
    ∙ ap (bit_xor a)
        (sym (bit_xor_assoc b c d) ∙ ap (λ t. bit_xor t d) (bit_xor_comm b c) ∙ bit_xor_assoc c b d)
    ∙ sym (bit_xor_assoc a c (bit_xor b d))

-- The step of a sum is the sum of the steps.
pub step-bit_xor :
    (a b : ℕ) → a < 2 ^ 64 → b < 2 ^ 64 → step (bit_xor a b) ≡ bit_xor (step a) (step b)
step-bit_xor a b p q =
    step_lem (bit_xor a b) (bit_xor-lt 64 a b p q)
    ∙ ap₂ bit_xor (shifted-bit_xor a b) (reduced-bit_xor a b p q)
    ∙ exchange (shifted a) (shifted b) (reduced a) (reduced b)
    ∙ ap₂ bit_xor (sym (step_lem a p)) (sym (step_lem b q))

-- A digit above a word.
pub bit_xor-power : (w a : ℕ) → a < 2 ^ w → bit_xor a (2 ^ w) ≡ a + 2 ^ w
bit_xor-power zero a h = let z : a ≡ 0 = omega arith in rw z refl
bit_xor-power (suc w) a h =
    let half : 2 ^ suc w / 2 ≡ 2 ^ w = omega (arith, pow-suc 2 w) in
    ground (
      arith,
      bit_xor_step a (2 ^ suc w),
      pow-suc 2 w,
      half,
      bit_xor-power w (a / 2) (omega (arith, pow-suc 2 w)),
    )
