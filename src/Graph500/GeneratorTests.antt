-- ===== src/Graph500/GeneratorTests.antt =====
-- The theorems about the generator in trident-workloads/graph500/generator at concrete inputs, and runs
-- of its code: rows of mrg_transitions.c, and a graph of eight vertices.
use trident_micro21_artifact.Graph500.ModArith.{
  mod_add, mod_mul, mod_mul_x, mod_mul_y, mod_mac, schrage, reduce, fold, mod_mac_y, mod_mac2,
  mod_mac3, mod_mac4,
}
use trident_micro21_artifact.Graph500.ModArith64.{
  mod_arith_64-32, mod_add_64, mod_mul_64, mod_mac_64, mod_mac2_64, mod_mac3_64, mod_mac4_64,
  mod_mul_x_64, mod_mul_y_64, mod_mac_y_64,
}
use trident_micro21_artifact.Graph500.Seed.{make_mrg_seed}
use trident_micro21_artifact.Graph500.Mrg.{
  MrgState, Matrix, mrg_make_a, mrg_make_identity, mrg_update_cache, mrg_multiply, mrg_power,
  power_loop, mrg_seed, mrg_apply_transition, mrg_skip, skip_bytes, mrg_step, mrg_orig_step,
  mrg_get_uint_orig,
}
use trident_micro21_artifact.Graph500.Mrg.Apply.{IsState}
use trident_micro21_artifact.Graph500.Mrg.Product.{IsCached, mrg_update_cache-IsCached}
use trident_micro21_artifact.Graph500.Mrg.Compose.{mrg_multiply-Composes}
use trident_micro21_artifact.Graph500.Mrg.Steps.{steps, IsLive}
use trident_micro21_artifact.Graph500.Mrg.Skip.{
  mrg_skip_matrices, transitions, mrg_skip-steps, mrg_power-Acts, Acts, mrg_make_a-Acts,
}
use trident_micro21_artifact.Graph500.Generator.Draw.{
  SquareDrawn, generate_4way_bernoulli-SquareDrawn,
}
use trident_micro21_artifact.Graph500.Generator.Reverse.{bitreverse-Reversed}
use trident_micro21_artifact.Graph500.Generator.Scramble.{scramble-Permutes}
use trident_micro21_artifact.Graph500.Generator.Edge.{MadeEdge, make_one_edge-MadeEdge}
use trident_micro21_artifact.Graph500.Generator.Range.{Edges, make_graph-Edges}
use trident_micro21_artifact.Base.Digits.{digit}
use trident_micro21_artifact.Graph500.Generator.{
  make_graph, edge_room, generate_kronecker_range, edges_from, scramble_values, get_word,
  make_one_edge, edge_loop, generate_4way_bernoulli, draw, square_of, offsets, scramble,
  scramble_round, bitreverse, swap_blocks, write_edge,
}
use trident_micro21_artifact.Base.{ℕ, ◌+◌, ◌*◌, ◌-◌, ◌^◌, ◌<◌, ◌≡◌, refl, some, [], ◌∷◌, arith}

row_4 : mrg_skip_matrices 0 4 ≡ record {
  s = 1;
  t = 0;
  u = 0;
  v = 0;
  w = 0;
  a = 107374182;
  b = 177167401;
  c = 45365592;
  d = 1272612231;
}
unfolding mrg_skip_matrices transitions mrg_power power_loop mrg_multiply mrg_make_a
    mrg_make_identity mrg_update_cache mod_add mod_mul mod_mac mod_mul_x mod_mul_y schrage reduce
    fold
row_4 = refl

-- Entry 2 of byte 16.
row_16_2 : mrg_skip_matrices 16 2 ≡ record {
  s = 853985131;
  t = 1580046827;
  u = 1667963498;
  v = 399395201;
  w = 1806173930;
  a = 314784390;
  b = 484047138;
  c = 15230338;
  d = 1586094947;
}
unfolding mrg_skip_matrices transitions mrg_power power_loop mrg_multiply mrg_make_a
    mrg_make_identity mrg_update_cache mod_add mod_mul mod_mac mod_mul_x mod_mul_y schrage reduce
    fold
row_16_2 = refl

-- Four edges on eight vertices.
small_graph : make_graph mrg_skip_matrices 9 3 4 1 2 ≡ some ((6, 5) ∷ (6, 4) ∷ (1, 0) ∷ (1, 1) ∷ [])
unfolding mrg_skip_matrices transitions mrg_power power_loop mrg_multiply mrg_make_a
    mrg_make_identity mrg_update_cache mod_add mod_mul mod_mac mod_mul_x mod_mul_y schrage reduce
    fold make_graph edge_room generate_kronecker_range edges_from scramble_values get_word
    make_one_edge edge_loop generate_4way_bernoulli draw square_of offsets scramble scramble_round
    bitreverse swap_blocks write_edge make_mrg_seed mrg_seed mrg_skip skip_bytes mrg_step
    mrg_apply_transition mod_mac_y mod_mac2 mod_mac3 mod_mac4 mrg_orig_step mrg_get_uint_orig
small_graph = refl

abbrev seeded : MrgState
seeded = record { z1 = 5; z2 = 0; z3 = 3646; z4 = 17; z5 = 0 }

seeded-IsLive : IsLive seeded
seeded-IsLive = record { state = omega arith; nonzero = omega arith }

abbrev two_steps : Matrix
two_steps = mrg_update_cache 0 0 1 0 0

two_steps-IsCached : IsCached two_steps
two_steps-IsCached =
    mrg_update_cache-IsCached 0 0 1 0 0 (omega arith) (omega arith) (omega arith) (omega arith)
      (omega arith)

mod_arith_64-32_example :
    (2147483646 + 5 < 2 ^ 32)
    × (2147483646 * 5 + 6 * 7 + 8 * 9 + 10 * 11 + 7 < 2 ^ 64)
    × (mod_add_64 2147483646 5 ≡ mod_add 2147483646 5)
    × (mod_mul_64 2147483646 5 ≡ mod_mul 2147483646 5)
    × (mod_mac_64 7 2147483646 5 ≡ mod_mac 7 2147483646 5)
    × (mod_mac2_64 7 2147483646 5 6 7 ≡ mod_mac2 7 2147483646 5 6 7)
    × (mod_mac3_64 7 2147483646 5 6 7 8 9 ≡ mod_mac3 7 2147483646 5 6 7 8 9)
    × (mod_mac4_64 7 2147483646 5 6 7 8 9 10 11 ≡ mod_mac4 7 2147483646 5 6 7 8 9 10 11)
    × (mod_mul_x_64 2147483646 ≡ mod_mul_x 2147483646)
    × (mod_mul_y_64 2147483646 ≡ mod_mul_y 2147483646)
    × (mod_mac_y_64 7 2147483646 ≡ mod_mac_y 7 2147483646)
mod_arith_64-32_example =
    mod_arith_64-32 7 2147483646 5 6 7 8 9 10 11 (omega arith) (omega arith) (omega arith)
      (omega arith) (omega arith) (omega arith) (omega arith) (omega arith) (omega arith)

mrg_multiply-Composes_example :
    IsCached (mrg_multiply two_steps two_steps)
    × (mrg_apply_transition (mrg_multiply two_steps two_steps) seeded
        ≡ mrg_apply_transition two_steps (mrg_apply_transition two_steps seeded))
mrg_multiply-Composes_example =
    mrg_multiply-Composes two_steps two_steps seeded two_steps-IsCached two_steps-IsCached
      seeded-IsLive.state

mrg_power-Acts_example : Acts (mrg_power mrg_make_a 1000) (1000 * 1)
mrg_power-Acts_example = mrg_power-Acts mrg_make_a 1 1000 (omega arith) mrg_make_a-Acts

mrg_skip-steps_example :
    (mrg_skip mrg_skip_matrices 50 7 0 seeded ≡ steps (0 + 7 * 2 ^ 64 + 50 * 2 ^ 128) seeded)
    × IsState (mrg_skip mrg_skip_matrices 50 7 0 seeded)
mrg_skip-steps_example =
    mrg_skip-steps 50 7 0 seeded (omega arith) (omega arith) (omega arith) seeded-IsLive.state

generate_4way_bernoulli-Bernoulli_example : SquareDrawn seeded
generate_4way_bernoulli-Bernoulli_example = generate_4way_bernoulli-SquareDrawn seeded seeded-IsLive

bitreverse-Reversed_example :
    (bitreverse 0x123456789ABCDEF < 2 ^ 64)
    × ((k : ℕ) → k < 64 → digit (bitreverse 0x123456789ABCDEF) k ≡ digit 0x123456789ABCDEF (63 - k))
    × (bitreverse (bitreverse 0x123456789ABCDEF) ≡ 0x123456789ABCDEF)
bitreverse-Reversed_example = bitreverse-Reversed 0x123456789ABCDEF (omega arith)

scramble-Permutes_example :
    ((v : ℕ) → v < 2 ^ 5 → (r : ℕ) × (scramble v 5 77 1234567 ≡ some r) × (r < 2 ^ 5))
    × ((v w r : ℕ)
        → v < 2 ^ 5
        → w < 2 ^ 5
        → scramble v 5 77 1234567 ≡ some r
        → scramble w 5 77 1234567 ≡ some r
        → v ≡ w)
scramble-Permutes_example = scramble-Permutes 5 77 1234567 (omega arith) (omega arith)

make_one_edge-MadeEdge_example : MadeEdge 5 seeded 77 1234567
make_one_edge-MadeEdge_example =
    make_one_edge-MadeEdge 5 seeded 77 1234567 (omega arith) (omega arith) seeded-IsLive

make_graph-Edges_example :
    let state = mrg_seed (make_mrg_seed 1 2) in
    let values = scramble_values mrg_skip_matrices state in
    Edges 3 values.0 values.1 state 4 0 (make_graph mrg_skip_matrices 9 3 4 1 2)
make_graph-Edges_example =
    make_graph-Edges 3 4 1 2 (omega arith) (omega arith) (omega arith) (omega arith) (omega arith)
