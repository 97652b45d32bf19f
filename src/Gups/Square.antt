-- ===== src/Gups/Square.antt =====
-- The squaring by the table `m2` in `HPCC_starts` of trident-workloads/gups/gups.c. A word stands
-- for a polynomial over two elements: the step multiplies it by x, and `m2` squares it.
use native.Mathlib.Nat.{pow-suc}
use native.Mathlib.Nat.{pow-suc}
use trident_micro21_artifact.Gups.Linear.{
  step-bit_xor, exchange, step-lt, bit_xor-power, bit_xor-lt,
}
use trident_micro21_artifact.Gups.{combine, m2, step, squares, sequence}
use trident_micro21_artifact.Base.{
  ℕ, zero, suc, ◌+◌, ◌-◌, ◌*◌, ◌/◌, ◌%◌, ◌^◌, ◌≤◌, ◌<◌, bit_xor, ◌≡◌, refl, sym, ap, ap₂, ◌∙◌, ◌⊎◌,
  inl, inr, Bool, true, false, List, [], ◌∷◌, arith, ltb, ◌==◌, if◌then◌else◌, ltb→lt, ltb-false→le,
  Bool-cases, bit_xor_step, bit_xor_self, zero-bit_xor, bit_xor_comm, bit_xor_assoc,
}

abbrev twice : ℕ → ℕ
twice v = step (step v)

-- The loop over `j`.
unfoldable pub square : ℕ → ℕ
square v = combine m2 v 0

twice-lt : (v : ℕ) → v < 2 ^ 64 → twice v < 2 ^ 64
twice-lt v h = step-lt (step v) (step-lt v h)

twice-bit_xor :
    (a b : ℕ) → a < 2 ^ 64 → b < 2 ^ 64 → twice (bit_xor a b) ≡ bit_xor (twice a) (twice b)
twice-bit_xor a b p q =
    ap step (step-bit_xor a b p q) ∙ step-bit_xor (step a) (step b) (step-lt a p) (step-lt b q)

twice-zero : twice 0 ≡ 0
unfolding step
twice-zero = refl

bit_xor-zero : (a : ℕ) → bit_xor a 0 ≡ a
bit_xor-zero a = bit_xor_comm a 0 ∙ zero-bit_xor a

combine_acc : (ms : List ℕ) (v t : ℕ) → combine ms v t ≡ bit_xor t (combine ms v 0)
unfolding combine
combine_acc [] v t = sym (bit_xor-zero t)
combine_acc (m ∷ ms) v t = elim (Bool-cases (v % 2 == 1)) [
  | inl odd ↦ rw odd (
      combine_acc ms (v / 2) (bit_xor t m)
      ∙ bit_xor_assoc t m (combine ms (v / 2) 0)
      ∙ ap (bit_xor t)
          (sym (combine_acc ms (v / 2) m) ∙ ap (combine ms (v / 2)) (sym (zero-bit_xor m))))
  | inr even ↦ rw even (combine_acc ms (v / 2) t)
]

-- The word that one digit selects.
abbrev pick : ℕ → ℕ → ℕ
pick v m = if v % 2 == 1 then m else 0

combine-cons :
    (m : ℕ) (ms : List ℕ) (v : ℕ) → combine (m ∷ ms) v 0 ≡ bit_xor (pick v m) (combine ms (v / 2) 0)
unfolding combine
combine-cons m ms v = elim (Bool-cases (v % 2 == 1)) [
  | inl odd ↦ rw odd (
      combine_acc ms (v / 2) (bit_xor 0 m)
      ∙ ap (λ t. bit_xor t (combine ms (v / 2) 0)) (zero-bit_xor m))
  | inr even ↦ rw even (sym (zero-bit_xor (combine ms (v / 2) 0)))
]

pick-bit_xor : (a b m : ℕ) → pick (bit_xor a b) m ≡ bit_xor (pick a m) (pick b m)
pick-bit_xor a b m =
    ground (arith, bit_xor_step a b, bit_xor_self m, zero-bit_xor m, bit_xor-zero m, bit_xor_self 0)

combine-bit_xor :
    (ms : List ℕ) (a b : ℕ) → combine ms (bit_xor a b) 0 ≡ bit_xor (combine ms a 0) (combine ms b 0)
unfolding combine
combine-bit_xor [] a b = sym (bit_xor_self 0)
combine-bit_xor (m ∷ ms) a b =
    let half : bit_xor a b / 2 ≡ bit_xor (a / 2) (b / 2) = omega (arith, bit_xor_step a b) in
    combine-cons m ms (bit_xor a b)
    ∙ ap₂ bit_xor (pick-bit_xor a b m)
        (ap (λ v. combine ms v 0) half ∙ combine-bit_xor ms (a / 2) (b / 2))
    ∙ exchange (pick a m) (pick b m) (combine ms (a / 2) 0) (combine ms (b / 2) 0)
    ∙ sym (ap₂ bit_xor (combine-cons m ms a) (combine-cons m ms b))

-- Squaring after a step, and two steps after squaring.
square_step : ℕ → ℕ
square_step v = square (step v)

twice_square : ℕ → ℕ
twice_square v = twice (square v)

agree_at : ℕ → Bool
agree_at i = square_step (2 ^ i) == twice_square (2 ^ i)

agree_below : ℕ → Bool
agree_below zero = true
agree_below (suc i) = if agree_at i then agree_below i else false

-- They agree at each power of two.
agree_powers : agree_below 64 ≡ true
unfolding agree_below agree_at square_step twice_square square combine step squares
agree_powers = refl

agree_below-suc :
    (w : ℕ)
    → agree_below (suc w) ≡ true
    → (square_step (2 ^ w) ≡ twice_square (2 ^ w)) × (agree_below w ≡ true)
unfolding agree_below agree_at
agree_below-suc w h = ground arith

-- A word below `2 ^ (w + 1)` is one below `2 ^ w` and the digit at `w`.
top_digit :
    (w v : ℕ)
    → v < 2 ^ suc w
    → (v < 2 ^ w) ⊎ ((v - 2 ^ w < 2 ^ w) × (v ≡ bit_xor (v - 2 ^ w) (2 ^ w)))
top_digit w v h = elim (Bool-cases (ltb v (2 ^ w))) [
  | inl below ↦ inl (ltb→lt v (2 ^ w) below)
  | inr above ↦
      let h' : 2 ^ w ≤ v = ltb-false→le v (2 ^ w) above in
      let low : v - 2 ^ w < 2 ^ w = omega (arith, pow-suc 2 w) in
      inr (low, omega (arith, bit_xor-power w (v - 2 ^ w) low))
]

square-bit_xor : (a b : ℕ) → square (bit_xor a b) ≡ bit_xor (square a) (square b)
unfolding square
square-bit_xor a b = combine-bit_xor m2 a b

squares-suc : (c t : ℕ) → squares (suc c) t ≡ t ∷ squares c (twice t)
unfolding squares
squares-suc c t = refl

pick-lt : (v m : ℕ) → m < 2 ^ 64 → pick v m < 2 ^ 64
pick-lt v m h = ground arith

combine-squares-zero : (t v : ℕ) → combine (squares 0 t) v 0 ≡ 0
unfolding combine squares
combine-squares-zero t v = refl

combine-squares-lt : (c t v : ℕ) → t < 2 ^ 64 → combine (squares c t) v 0 < 2 ^ 64
combine-squares-lt zero t v h = rw (combine-squares-zero t v) (omega arith)
combine-squares-lt (suc c) t v h =
    rw (squares-suc c t, combine-cons t (squares c (twice t)) v)
      (bit_xor-lt 64 (pick v t) (combine (squares c (twice t)) (v / 2) 0) (pick-lt v t h)
        (combine-squares-lt c (twice t) (v / 2) (twice-lt t h)))

square-lt : (v : ℕ) → square v < 2 ^ 64
unfolding square
square-lt v = combine-squares-lt 64 1 v (omega arith)

square_step-bit_xor :
    (a b : ℕ)
    → a < 2 ^ 64
    → b < 2 ^ 64
    → square_step (bit_xor a b) ≡ bit_xor (square_step a) (square_step b)
unfolding square_step
square_step-bit_xor a b p q = ap square (step-bit_xor a b p q) ∙ square-bit_xor (step a) (step b)

twice_square-bit_xor :
    (a b : ℕ) → twice_square (bit_xor a b) ≡ bit_xor (twice_square a) (twice_square b)
unfolding twice_square
twice_square-bit_xor a b =
    ap twice (square-bit_xor a b) ∙ twice-bit_xor (square a) (square b) (square-lt a) (square-lt b)

pub power-pos : (w : ℕ) → 0 < 2 ^ w
power-pos zero = omega arith
power-pos (suc w) = omega (arith, pow-suc 2 w, power-pos w)

power-lt-suc : (w : ℕ) → 2 ^ w < 2 ^ suc w
power-lt-suc w = omega (arith, pow-suc 2 w, power-pos w)

power-lt : (k w v : ℕ) → v ≡ suc k + w → 2 ^ w < 2 ^ v
power-lt zero w v e = let e' : v ≡ suc w = omega arith in rw e' (power-lt-suc w)
power-lt (suc k) w v e =
    let below = power-lt k w (suc k + w) refl in
    let e' : v ≡ suc (suc k + w) = omega arith in rw e' (omega (arith, power-lt-suc (suc k + w)))

power-lt-word : (w : ℕ) → w < 64 → 2 ^ w < 2 ^ 64
power-lt-word w h = power-lt (63 - w) w 64 (omega arith)

agree_zero : square_step 0 ≡ twice_square 0
unfolding square_step twice_square square combine step squares
agree_zero = refl

agree : (w v : ℕ) → w ≤ 64 → agree_below w ≡ true → v < 2 ^ w → square_step v ≡ twice_square v
agree zero v le good h = let z : v ≡ 0 = omega arith in rw z agree_zero
agree (suc w) v le good h =
    let (here, below) = agree_below-suc w good in
    let bound : 2 ^ w < 2 ^ 64 = power-lt-word w (omega arith) in
    elim (top_digit w v h) [
      | inl small ↦ agree w v (omega arith) below small
      | inr (small, e) ↦
          ap square_step e
          ∙ square_step-bit_xor (v - 2 ^ w) (2 ^ w) (omega arith) bound
          ∙ ap₂ bit_xor (agree w (v - 2 ^ w) (omega arith) below small) here
          ∙ sym (twice_square-bit_xor (v - 2 ^ w) (2 ^ w))
          ∙ ap twice_square (sym e)
    ]

-- Squaring turns one step into two.
square-step : (v : ℕ) → v < 2 ^ 64 → square (step v) ≡ step (step (square v))
unfolding square_step twice_square
square-step v h = agree 64 v (omega arith) agree_powers h

sequence-lt : (k : ℕ) → sequence k < 2 ^ 64
unfolding sequence
sequence-lt zero = omega arith
sequence-lt (suc k) = step-lt (sequence k) (sequence-lt k)

pub sequence-suc : (k : ℕ) → sequence (suc k) ≡ step (sequence k)
unfolding sequence
sequence-suc k = refl

square-one : square (sequence 0) ≡ sequence 0
unfolding square combine step squares sequence
square-one = refl

-- Squaring doubles the place.
pub square-sequence : (k : ℕ) → square (sequence k) ≡ sequence (2 * k)
square-sequence zero = square-one
square-sequence (suc k) =
    let e : 2 * suc k ≡ suc (suc (2 * k)) = omega arith in
    ap square (sequence-suc k)
    ∙ square-step (sequence k) (sequence-lt k)
    ∙ ap twice (square-sequence k)
    ∙ ap step (sym (sequence-suc (2 * k)))
    ∙ sym (sequence-suc (suc (2 * k)))
    ∙ ap sequence (sym e)
