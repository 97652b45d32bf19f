-- ===== src/Graph500/Bitmap/Digits.antt =====
-- Bits of the words in trident-workloads/graph500/omp-csr/bitmap.h.
use trident_micro21_artifact.Graph500.Bitmap.{lowest_bit}
use native.Mathlib.Nat.{pow-suc}
use trident_micro21_artifact.Base.Digits.{digit, digit-shift, zero-digit, digit-zero, digit-suc}
use trident_micro21_artifact.Base.{
  ℕ, zero, suc, ◌+◌, ◌-◌, ◌/◌, ◌%◌, ◌^◌, ◌≤◌, ◌<◌, ◌≡◌, sym, ap, ◌∙◌, ◌≢◌, inl, inr, arith,
  bit_and_mask, eq-cases,
}

-- A word has 64 bits.
pub digit-high : (w k : ℕ) → w < 2 ^ 64 → 64 ≤ k → digit w k ≡ 0
digit-high w k small le =
    let none_left : w / 2 ^ 64 ≡ 0 = omega arith in
    ap (digit w) {y = 64 + (k - 64)} (omega arith)
    ∙ sym (digit-shift w 64 (k - 64))
    ∙ ap (λ n. digit n (k - 64)) none_left
    ∙ zero-digit (k - 64)

pub record Lowest (temp from r : ℕ) : Type 0 where
  pub place : ℕ
  pub found : r ≡ from + place
  pub is_one : digit temp place ≡ 1
  pub zeros : (j : ℕ) → j < place → digit temp j ≡ 0

pub lowest_bit-Lowest :
    (f temp from : ℕ) → temp ≢ 0 → temp < 2 ^ f → Lowest temp from (lowest_bit f temp from)
unfolding lowest_bit
lowest_bit-Lowest zero temp from ne small = absurd (ne (omega arith))
lowest_bit-Lowest (suc f) temp from ne small = elim (eq-cases (temp % 2) 0) [
  | inl even ↦
      let rest =
        lowest_bit-Lowest f (temp / 2) (from + 1) (λ e. ne (omega arith))
          (omega (arith, pow-suc 2 f)) in
      rw (bit_and_mask 1 temp, even)
        record {
          place = suc rest.place;
          found = omega (arith, rest.found);
          is_one = digit-suc temp rest.place ∙ rest.is_one;
          zeros = λ j h. elim (eq-cases j 0) [
            | inl e ↦ rw e (digit-zero temp ∙ even)
            | inr n ↦
                ap (digit temp) {y = suc (j - 1)} (omega arith)
                ∙ digit-suc temp (j - 1)
                ∙ rest.zeros (j - 1) (omega arith)
          ];
        }
  | inr odd ↦
      let one : temp % 2 ≡ 1 = omega arith in
      rw (bit_and_mask 1 temp, one)
        record {
          place = 0;
          found = omega arith;
          is_one = digit-zero temp ∙ one;
          zeros = λ j h. absurd (omega arith);
        }
]
