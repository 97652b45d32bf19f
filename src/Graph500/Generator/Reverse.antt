-- ===== src/Graph500/Generator/Reverse.antt =====
-- `bitreverse` of trident-workloads/graph500/generator/graph_generator.c puts the digits of a 64-bit word
-- in the opposite order.
use trident_micro21_artifact.Graph500.Mrg.Rows.{x}
use Prim.Native.Nat.{min}
use trident_micro21_artifact.Base.Digits.{
  digit, digit-shift, digit-bit_and, digit-bit_or, digit-mod, digit-shift_up, digit-shift_up_low,
  digit-lt, digit_ext, bit_or-lt, bit_and-lt,
}
use trident_micro21_artifact.Graph500.Generator.{swap_blocks, bitreverse}
use trident_micro21_artifact.Base.{
  ℕ, zero, suc, ◌+◌, ◌-◌, ◌*◌, ◌/◌, ◌%◌, ◌^◌, ◌≤◌, ◌<◌, bit_and, bit_or, ◌≡◌, refl, sym, ap, ap₂,
  ◌∙◌, inl, inr, Bool, true, ◌&&◌, arith, ltb, leb, ◌==◌, if◌then◌else◌, ltb→lt, ==_iff, Bool-cases,
  bit_and_mask,
}

all_below : ℕ → (ℕ → Bool) → Bool
all_below zero p = true
all_below (suc n) p = p n && all_below n p

all_below_sound : (n : ℕ) (p : ℕ → Bool) (k : ℕ) → all_below n p ≡ true → k < n → p k ≡ true
unfolding all_below
all_below_sound zero p k h lt = absurd (omega arith)
all_below_sound (suc n) p k h lt = ground (arith, all_below_sound n p k)

-- Where an exchange of neighbouring blocks of `s` digits takes digit `k` from.
abbrev mate : (s k : ℕ) → ℕ
mate s k = if k / s % 2 == 0 then k + s else k - s

-- A mask that selects every second block of `s` digits, from the lowest one on.
selects : (s mask : ℕ) → ℕ → Bool
selects s mask k =
    if k / s % 2 == 0
    then (digit mask k == 1) && (if ltb k s then true else digit mask (k - s) == 0)
    else (digit mask k == 0) && (leb s k && (digit mask (k - s) == 1))

module _ (s mask x k : ℕ) (low : k < 64) where
  from_above : digit (bit_and (x / 2 ^ s) mask) k ≡ min (digit x (s + k)) (digit mask k)
  from_above = digit-bit_and (x / 2 ^ s) mask k ∙ ap (λ v. min v (digit mask k)) (digit-shift x s k)

  from_below :
      s ≤ k → digit (bit_and x mask * 2 ^ s % 2 ^ 64) k ≡ min (digit x (k - s)) (digit mask (k - s))
  from_below le =
      digit-mod 64 (bit_and x mask * 2 ^ s) k low
      ∙ ap (digit (bit_and x mask * 2 ^ s)) {y = s + (k - s)} (omega arith)
      ∙ digit-shift_up s (bit_and x mask) (k - s)
      ∙ digit-bit_and x mask (k - s)

  none_below : k < s → digit (bit_and x mask * 2 ^ s % 2 ^ 64) k ≡ 0
  none_below lt =
      digit-mod 64 (bit_and x mask * 2 ^ s) k low ∙ digit-shift_up_low s (bit_and x mask) k lt

  digit-swap_blocks : selects s mask k ≡ true → digit (swap_blocks s mask x) k ≡ digit x (mate s k)
  unfolding swap_blocks selects
  digit-swap_blocks h = elim (Bool-cases (ltb k s)) [
    | inl lt ↦
        let first : k < s = ground arith in
        ground (
          arith,
          digit-bit_or (bit_and (x / 2 ^ s) mask) (bit_and x mask * 2 ^ s % 2 ^ 64) k,
          from_above,
          none_below first,
          digit-lt x (s + k),
        )
    | inr ge ↦
        let later : s ≤ k = ground arith in
        ground (
          arith,
          digit-bit_or (bit_and (x / 2 ^ s) mask) (bit_and x mask * 2 ^ s % 2 ^ 64) k,
          from_above,
          from_below later,
          digit-lt x (s + k),
          digit-lt x (k - s),
        )
  ]

-- The masks of the source, and where the six exchanges take a digit from in the end.
stays_below : ℕ → ℕ → Bool
stays_below s k = ltb (mate s k) 64

opposite : ℕ → Bool
opposite k = mate 32 (mate 16 (mate 8 (mate 4 (mate 2 (mate 1 k))))) == 63 - k

masks_select :
    (all_below 64 (selects 32 (2 ^ 32 - 1)) ≡ true)
    × (all_below 64 (selects 16 0x0000FFFF0000FFFF) ≡ true)
    × (all_below 64 (selects 8 0x00FF00FF00FF00FF) ≡ true)
    × (all_below 64 (selects 4 0x0F0F0F0F0F0F0F0F) ≡ true)
    × (all_below 64 (selects 2 0x3333333333333333) ≡ true)
    × (all_below 64 (selects 1 0x5555555555555555) ≡ true)
unfolding all_below selects digit
masks_select = (refl, refl, refl, refl, refl, refl)

mates_stay :
    (all_below 64 (stays_below 16) ≡ true)
    × (all_below 64 (stays_below 8) ≡ true)
    × (all_below 64 (stays_below 4) ≡ true)
    × (all_below 64 (stays_below 2) ≡ true)
    × (all_below 64 (stays_below 1) ≡ true)
    × (all_below 64 opposite ≡ true)
unfolding all_below stays_below opposite
mates_stay = (refl, refl, refl, refl, refl, refl)

exchange :
    (s mask x k : ℕ)
    → all_below 64 (selects s mask) ≡ true
    → k < 64
    → digit (swap_blocks s mask x) k ≡ digit x (mate s k)
exchange s mask x k table low =
    digit-swap_blocks s mask x k low (all_below_sound 64 (selects s mask) k table low)

mate_below : (s k : ℕ) → all_below 64 (stays_below s) ≡ true → k < 64 → mate s k < 64
unfolding stays_below
mate_below s k table low = ltb→lt (mate s k) 64 (all_below_sound 64 (stays_below s) k table low)

halves_exchanged :
    (x : ℕ) → x < 2 ^ 64 → bit_or (x / 2 ^ 32) (x * 2 ^ 32 % 2 ^ 64) ≡ swap_blocks 32 (2 ^ 32 - 1) x
unfolding swap_blocks
halves_exchanged x h =
    ap₂ bit_or (sym (bit_and_mask 32 (x / 2 ^ 32) ∙ omega arith))
      (sym (ap (λ v. v * 2 ^ 32 % 2 ^ 64) (bit_and_mask 32 x) ∙ omega arith))

-- Digit `k` of the reversed word is digit `63 - k` of the word.
pub digit-bitreverse : (x k : ℕ) → x < 2 ^ 64 → k < 64 → digit (bitreverse x) k ≡ digit x (63 - k)
unfolding bitreverse opposite
digit-bitreverse x k h low =
    let (m32, m16, m8, m4, m2, m1) = masks_select in
    let (s16, s8, s4, s2, s1, last) = mates_stay in
    let k1 = mate_below 1 k s1 low in
    let k2 = mate_below 2 (mate 1 k) s2 k1 in
    let k4 = mate_below 4 (mate 2 (mate 1 k)) s4 k2 in
    let k8 = mate_below 8 (mate 4 (mate 2 (mate 1 k))) s8 k4 in
    let k16 = mate_below 16 (mate 8 (mate 4 (mate 2 (mate 1 k)))) s16 k8 in
    exchange 1 0x5555555555555555 _ k m1 low
    ∙ exchange 2 0x3333333333333333 _ (mate 1 k) m2 k1
    ∙ exchange 4 0x0F0F0F0F0F0F0F0F _ (mate 2 (mate 1 k)) m4 k2
    ∙ exchange 8 0x00FF00FF00FF00FF _ (mate 4 (mate 2 (mate 1 k))) m8 k4
    ∙ exchange 16 0x0000FFFF0000FFFF _ (mate 8 (mate 4 (mate 2 (mate 1 k)))) m16 k8
    ∙ ap (λ v. digit v (mate 16 (mate 8 (mate 4 (mate 2 (mate 1 k)))))) (halves_exchanged x h)
    ∙ exchange 32 (2 ^ 32 - 1) x (mate 16 (mate 8 (mate 4 (mate 2 (mate 1 k))))) m32 k16
    ∙ ap (digit x) ((==_iff _ (63 - k)).0 (all_below_sound 64 opposite k last low))

swap_blocks-lt : (s mask x : ℕ) → mask < 2 ^ 64 → swap_blocks s mask x < 2 ^ 64
unfolding swap_blocks
swap_blocks-lt s mask x h =
    bit_or-lt 64 (bit_and (x / 2 ^ s) mask) (bit_and x mask * 2 ^ s % 2 ^ 64)
      (bit_and-lt 64 (x / 2 ^ s) mask h) (omega arith)

pub bitreverse-lt : (x : ℕ) → bitreverse x < 2 ^ 64
unfolding bitreverse
bitreverse-lt x = swap_blocks-lt 1 0x5555555555555555 _ (omega arith)

-- For a word of 64 bits the result is a word of 64 bits whose digit `k` is digit `63 - k` of the word,
-- and a second reversal gives the word back.
pub bitreverse-Reversed :
    (x : ℕ)
    → x < 2 ^ 64
    → (bitreverse x < 2 ^ 64)
      × ((k : ℕ) → k < 64 → digit (bitreverse x) k ≡ digit x (63 - k))
      × (bitreverse (bitreverse x) ≡ x)
bitreverse-Reversed x h = (
  bitreverse-lt x,
  λ k low. digit-bitreverse x k h low,
  digit_ext 64 (bitreverse (bitreverse x)) x (bitreverse-lt (bitreverse x)) h (λ k low.
      digit-bitreverse (bitreverse x) k (bitreverse-lt x) low
      ∙ digit-bitreverse x (63 - k) h (omega arith)
      ∙ ap (digit x) (omega arith)),
)
