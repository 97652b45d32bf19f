-- ===== src/Gups/Table/Rounded.antt =====
-- The rounding of the table's size in trident-workloads/gups/gups.c.
use trident_micro21_artifact.Gups.Table.{rounded}
use trident_micro21_artifact.Base.{
  ℕ, zero, suc, ◌+◌, ◌-◌, ◌^◌, ◌≤◌, ◌<◌, ◌≡◌, refl, inl, inr, false, Option, some, arith, ltb, ◌==◌,
  ltb→lt, ltb-false→le, Bool-cases,
}

-- A power of two that is not above `mem`, with the next one above it.
pub record RoundedTo (mem : ℕ) (r : Option ℕ) : Type 0 where
  pub exponent : ℕ
  pub returned : r ≡ some (2 ^ exponent)
  pub below : 2 ^ exponent ≤ mem
  pub above : mem < 2 ^ suc exponent

rounded_aux :
    (rounds i t mem : ℕ)
    → t ≡ i + rounds
    → 2 ^ i ≤ mem
    → mem < 2 ^ t
    → RoundedTo mem (rounded rounds (suc i) mem)
unfolding rounded
rounded_aux zero i t mem e low high =
    let e' : t ≡ i = omega arith in let high' : mem < 2 ^ i = rw e' at high in absurd (omega arith)
rounded_aux (suc c) i t mem e low high = elim (Bool-cases (ltb mem (2 ^ suc i))) [
  | inl small ↦
      let positive : (suc i == 0) ≡ false = ground arith in
      let before : suc i - 1 ≡ i = omega arith in
      record {
        exponent = i;
        returned = rw (small, positive, before) refl;
        below = low;
        above = ltb→lt mem (2 ^ suc i) small;
      }
  | inr large ↦
      rw large (rounded_aux c (suc i) t mem (omega arith) (ltb-false→le mem (2 ^ suc i) large) high)
]

rounded_first : (rounds mem : ℕ) → 0 < mem → rounded (suc rounds) 0 mem ≡ rounded rounds 1 mem
unfolding rounded
rounded_first rounds mem positive =
    let large : ltb mem (2 ^ 0) ≡ false = ground arith in rw large refl

-- A size from 1 below 2 ^ 63 is rounded down to a power of two.
pub rounded-RoundedTo : (mem : ℕ) → 0 < mem → mem < 2 ^ 63 → RoundedTo mem (rounded 64 0 mem)
rounded-RoundedTo mem positive high =
    rw (rounded_first 63 mem positive) (rounded_aux 63 0 63 mem refl (omega arith) high)
