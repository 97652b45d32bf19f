-- ===== src/Graph500/Examples.antt =====
-- The theorems on trident-workloads/graph500 at concrete inputs.
use trident_micro21_artifact.Graph500.Mrg.Apply.{
  IsState, mrg_apply_transition-Applied, IsMatrix, Applied, mrg_make_a-mrg_orig_step,
}
use trident_micro21_artifact.Graph500.Mrg.{
  mrg_apply_transition, MrgState, mrg_make_identity, Matrix, mrg_orig_step, mrg_make_a,
}
use trident_micro21_artifact.Graph500.Seed.{
  InRange, second_word, first_word, make_mrg_seed_lem, make_mrg_seed,
}
use trident_micro21_artifact.Graph500.ModArith.{
  mod_mac, mod_ops_lem, mod_mul_x, mod_mac2, modulus, mod_mul_y, mod_mac4, mod_add, mod_mac3,
  mod_mul, mod_macs_lem, mod_mul_constants, mod_mac_y,
}
use trident_micro21_artifact.Base.{◌+◌, ◌*◌, ◌%◌, ◌≡◌, arith}

mod_ops_lem_example :
    (mod_add 2147483000 2147483646 ≡ (2147483000 + 2147483646) % modulus)
    × (mod_mul 2147483000 2147483646 ≡ 2147483000 * 2147483646 % modulus)
    × (mod_mac 5 2147483000 2147483646 ≡ (2147483000 * 2147483646 + 5) % modulus)
mod_ops_lem_example = mod_ops_lem 5 2147483000 2147483646 (omega arith) (omega arith) (omega arith)

mod_macs_lem_example :
    (mod_mac2 1 2 3 4 2147483646 ≡ (1 + 2 * 3 + 4 * 2147483646) % modulus)
    × (mod_mac3 1 2 3 4 2147483646 6 7 ≡ (1 + 2 * 3 + 4 * 2147483646 + 6 * 7) % modulus)
    × (mod_mac4 1 2 3 4 2147483646 6 7 8 9 ≡ (1 + 2 * 3 + 4 * 2147483646 + 6 * 7 + 8 * 9) % modulus)
mod_macs_lem_example =
    mod_macs_lem 1 2 3 4 2147483646 6 7 8 9 (omega arith) (omega arith) (omega arith) (omega arith)
      (omega arith) (omega arith) (omega arith) (omega arith) (omega arith)

mod_mul_constants_example :
    (mod_mul_x 2147483646 ≡ 107374182 * 2147483646 % modulus)
    × (mod_mul_y 2147483646 ≡ 104480 * 2147483646 % modulus)
    × (mod_mac_y 12 2147483646 ≡ (104480 * 2147483646 + 12) % modulus)
mod_mul_constants_example = mod_mul_constants 12 2147483646 (omega arith) (omega arith)

make_mrg_seed_lem_example :
    let s = make_mrg_seed 0xF123456789ABCDEF 42 in
    (InRange s.seed0 × InRange s.seed1 × InRange s.seed2 × InRange s.seed3 × InRange s.seed4)
    × (first_word s ≡ 0xF123456789ABCDEF)
    × (second_word s ≡ 42)
make_mrg_seed_lem_example = make_mrg_seed_lem 0xF123456789ABCDEF 42 (omega arith) (omega arith)

abbrev some_state : MrgState
some_state = record { z1 = 5; z2 = 2147483646; z3 = 7; z4 = 11; z5 = 2147483640 }

some_state-IsState : IsState some_state
some_state-IsState = omega arith

abbrev some_matrix : Matrix
some_matrix = record { s = 1; t = 2; u = 3; v = 4; w = 5; a = 6; b = 7; c = 8; d = 2147483646 }

some_matrix-IsMatrix : IsMatrix some_matrix
some_matrix-IsMatrix = omega arith

mrg_apply_transition-Applied_example :
    Applied some_matrix some_state (mrg_apply_transition some_matrix some_state)
    × IsState (mrg_apply_transition some_matrix some_state)
mrg_apply_transition-Applied_example =
    mrg_apply_transition-Applied some_matrix some_state some_matrix-IsMatrix some_state-IsState

mrg_make_a-mrg_orig_step_example :
    (mrg_apply_transition mrg_make_a some_state ≡ mrg_orig_step some_state)
    × (mrg_apply_transition mrg_make_identity some_state ≡ some_state)
mrg_make_a-mrg_orig_step_example = mrg_make_a-mrg_orig_step some_state some_state-IsState
