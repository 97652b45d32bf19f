-- ===== src/Graph500/Seed.antt =====
-- `make_mrg_seed` of trident-workloads/graph500/generator/utils.c: two 64-bit words become five
-- numbers for the generator. A cast to `uint32_t` cuts to `2 ^ 32`; the sums are on 32 bits.
use trident_micro21_artifact.Graph500.ModArith.{modulus}
use trident_micro21_artifact.Base.{
  ℕ, ◌+◌, ◌-◌, ◌*◌, ◌/◌, ◌%◌, ◌^◌, ◌<◌, bit_and, ◌≡◌, arith, bit_and_mask,
}

pub record MrgSeed : Type 0 where
  pub seed0 : ℕ
  pub seed1 : ℕ
  pub seed2 : ℕ
  pub seed3 : ℕ
  pub seed4 : ℕ

unfoldable pub make_mrg_seed : (userseed1 userseed2 : ℕ) → MrgSeed
make_mrg_seed userseed1 userseed2 = record {
  seed0 = (bit_and userseed1 0x3FFFFFFF + 1) % 2 ^ 32;
  seed1 = (bit_and (userseed1 / 2 ^ 30) 0x3FFFFFFF + 1) % 2 ^ 32;
  seed2 = (bit_and userseed2 0x3FFFFFFF + 1) % 2 ^ 32;
  seed3 = (bit_and (userseed2 / 2 ^ 30) 0x3FFFFFFF + 1) % 2 ^ 32;
  seed4 = (userseed2 / 2 ^ 60 % 2 ^ 32 * 2 ^ 4 % 2 ^ 32 + userseed1 / 2 ^ 60 % 2 ^ 32 + 1) % 2 ^ 32;
}

-- Nonzero, and below the modulus 2 ^ 31 - 1 of the generator.
abbrev pub InRange : ℕ → Type 0
InRange v = (0 < v) × (v < modulus)

-- Reading the two words back.
abbrev pub first_word : MrgSeed → ℕ
first_word s = (s.seed0 - 1) + (s.seed1 - 1) * 2 ^ 30 + (s.seed4 - 1) % 2 ^ 4 * 2 ^ 60

abbrev pub second_word : MrgSeed → ℕ
second_word s = (s.seed2 - 1) + (s.seed3 - 1) * 2 ^ 30 + (s.seed4 - 1) / 2 ^ 4 * 2 ^ 60

-- For two 64-bit words the five numbers are nonzero and below the modulus, and no information is
-- lost: the two words can be read back from them.
pub make_mrg_seed_lem :
    (userseed1 userseed2 : ℕ)
    → userseed1 < 2 ^ 64
    → userseed2 < 2 ^ 64
    → let s = make_mrg_seed userseed1 userseed2 in
      (InRange s.seed0 × InRange s.seed1 × InRange s.seed2 × InRange s.seed3 × InRange s.seed4)
      × (first_word s ≡ userseed1)
      × (second_word s ≡ userseed2)
unfolding make_mrg_seed
make_mrg_seed_lem u v p q =
    let u0 = bit_and_mask 30 u in
    let u1 = bit_and_mask 30 (u / 2 ^ 30) in
    let v0 = bit_and_mask 30 v in
    let v1 = bit_and_mask 30 (v / 2 ^ 30) in (omega arith, omega arith, omega arith)
