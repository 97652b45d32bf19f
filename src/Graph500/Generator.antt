-- ===== src/Graph500/Generator.antt =====
-- The Kronecker generator: trident-workloads/graph500/generator/graph_generator.c, make_graph.c, and the
-- edges of graph_generator.h. The settings are those of user_settings.h (64-bit arithmetic, edges of
-- two 32-bit words) and SPK_NOISE_LEVEL 0, with which `level` and `nlevels` are not read.
-- `__builtin_bswap64` is the exchange of bytes that the source writes out beside it, and that is
-- the code modelled. `none` is a failed assertion, or a loop that is out of fuel.
-- The OpenMP loop over the edges is run in their order: its rounds share nothing that changes.
pub mod Draw
pub mod Reverse
pub mod Scramble
pub mod Edge
pub mod Range
use trident_micro21_artifact.Graph500.Seed.{MrgSeed, make_mrg_seed}
use trident_micro21_artifact.Graph500.Mrg.{MrgState, Matrix, mrg_skip, mrg_get_uint_orig, mrg_seed}
use trident_micro21_artifact.Btree.Array.{◌>>=◌}
use trident_micro21_artifact.Base.{
  ℕ, zero, suc, ◌+◌, ◌-◌, ◌*◌, ◌/◌, ◌%◌, ◌^◌, bit_and, bit_or, Option, none, some, List, [], ◌∷◌,
  ltb, leb, length, ◌==◌, if◌then◌else◌,
}

abbrev pub initiator_a_numerator : ℕ
initiator_a_numerator = 5700

abbrev pub initiator_bc_numerator : ℕ
initiator_bc_numerator = 1900

abbrev pub initiator_denominator : ℕ
initiator_denominator = 10000

-- 0x7FFFFFFF % INITIATOR_DENOMINATOR
abbrev pub limit : ℕ
limit = 3647

-- The first number that is not below `limit`: `if (val < limit) do ... while (val < limit)` draws
-- again as long as the last number is below it.
unfoldable pub draw : (fuel : ℕ) → MrgState → Option (ℕ × MrgState)
draw zero st = none
draw (suc f) st =
    let (val, next) = mrg_get_uint_orig st in
    let again = draw f next in if ltb val limit then again else some (val, next)

-- The square of the initiator for a number below INITIATOR_DENOMINATOR.
unfoldable pub square_of : ℕ → ℕ
square_of val =
    if ltb val initiator_bc_numerator
    then 1
    else let val' = val - initiator_bc_numerator in
      if ltb val' initiator_bc_numerator
      then 2
      else let val'' = val' - initiator_bc_numerator in
        if ltb val'' initiator_a_numerator then 0 else 3

unfoldable pub generate_4way_bernoulli : (fuel : ℕ) → MrgState → Option (ℕ × MrgState)
generate_4way_bernoulli fuel st = do
  (val, next) ← draw fuel st
  some (square_of (val % initiator_denominator), next)

-- ((x >> k) & mask) | ((x & mask) << k), on 64 bits.
unfoldable pub swap_blocks : (k mask x : ℕ) → ℕ
swap_blocks k mask x = bit_or (bit_and (x / 2 ^ k) mask) (bit_and x mask * 2 ^ k % 2 ^ 64)

unfoldable pub bitreverse : ℕ → ℕ
bitreverse x =
    let x = bit_or (x / 2 ^ 32) (x * 2 ^ 32 % 2 ^ 64) in
    let x = swap_blocks 16 0x0000FFFF0000FFFF x in
    let x = swap_blocks 8 0x00FF00FF00FF00FF x in
    let x = swap_blocks 4 0x0F0F0F0F0F0F0F0F x in
    let x = swap_blocks 2 0x3333333333333333 x in swap_blocks 1 0x5555555555555555 x

-- v *= factor; v = (bitreverse(v) >> (64 - lgN)); assert ((v >> lgN) == 0);
unfoldable pub scramble_round : (lg_n factor v : ℕ) → Option ℕ
scramble_round lg_n factor v =
    let v' = bitreverse (v * factor % 2 ^ 64) / 2 ^ (64 - lg_n) in
    if v' / 2 ^ lg_n == 0 then some v' else none

unfoldable pub scramble : (v0 lg_n val0 val1 : ℕ) → Option ℕ
scramble v0 lg_n val0 val1 = do
  let v = (v0 + (val0 + val1) % 2 ^ 64) % 2 ^ 64
  v' ← scramble_round lg_n (bit_or val0 0x4519840211493211) v
  scramble_round lg_n (bit_or val1 0x3050852102C843A5) v'

-- The offsets of a square, after the clip-and-flip on the diagonal.
unfoldable pub offsets : (base_src base_tgt square : ℕ) → ℕ × ℕ
offsets base_src base_tgt square =
    let src_offset = square / 2 in
    let tgt_offset = square % 2 in
    let flip = if base_src == base_tgt then ltb tgt_offset src_offset else ltb 1 0 in
    if flip then (tgt_offset, src_offset) else (src_offset, tgt_offset)

-- while (nverts > 1) { ... }, with `rounds` to go at most and `fuel` for each draw.
unfoldable pub edge_loop : (fuel rounds nverts base_src base_tgt : ℕ) → MrgState → Option (ℕ × ℕ)
edge_loop fuel zero nverts base_src base_tgt st = none
edge_loop fuel (suc c) nverts base_src base_tgt st =
    if ltb 1 nverts
    then (do
      (square, next) ← generate_4way_bernoulli fuel st
      if leb base_src base_tgt
          then (do
            let half = nverts / 2
            let (src_offset, tgt_offset) = offsets base_src base_tgt square
            edge_loop fuel c half (base_src + half * src_offset) (base_tgt + half * tgt_offset)
                next)
          else none)
    else some (base_src, base_tgt)

-- An edge as two words of 32 bits. The warning about numbers that do not fit is output.
unfoldable pub write_edge : (v0 v1 : ℕ) → ℕ × ℕ
write_edge v0 v1 = (v0 % 2 ^ 32, v1 % 2 ^ 32)

unfoldable pub make_one_edge : (fuel nverts lg_n : ℕ) → MrgState → (val0 val1 : ℕ) → Option (ℕ × ℕ)
make_one_edge fuel nverts lg_n st val0 val1 = do
  (base_src, base_tgt) ← edge_loop fuel (suc lg_n) nverts 0 0 st
  v0 ← scramble base_src lg_n val0 val1
  v1 ← scramble base_tgt lg_n val0 val1
  some (write_edge v0 v1)

-- Two numbers of the generator as one word.
unfoldable pub get_word : MrgState → ℕ × MrgState
get_word st =
    let (high, st1) = mrg_get_uint_orig st in
    let (low, st2) = mrg_get_uint_orig st1 in ((high * 0xFFFFFFFF % 2 ^ 64 + low) % 2 ^ 64, st2)

-- The values for scrambling.
unfoldable pub scramble_values : (matrices : ℕ → ℕ → Matrix) → MrgState → ℕ × ℕ
scramble_values matrices state =
    let (val0, st) = get_word (mrg_skip matrices 50 7 0 state) in
    let (val1, _) = get_word st in (val0, val1)

-- for (; rounds to go; ++ei) { ... }: the edges from `ei` on.
unfoldable pub edges_from :
    (matrices : ℕ → ℕ → Matrix) (fuel log_n rounds ei : ℕ)
    → MrgState
    → (val0 val1 : ℕ) → Option (List (ℕ × ℕ))
edges_from matrices fuel log_n zero ei state val0 val1 = some []
edges_from matrices fuel log_n (suc c) ei state val0 val1 = do
  edge ← make_one_edge fuel (2 ^ log_n) log_n (mrg_skip matrices 0 ei 0 state) val0 val1
  edges ← edges_from matrices fuel log_n c (suc ei) state val0 val1
  some (edge ∷ edges)

unfoldable pub generate_kronecker_range :
    (matrices : ℕ → ℕ → Matrix) (fuel : ℕ)
    → MrgSeed
    → (log_n start_edge end_edge : ℕ) → Option (List (ℕ × ℕ))
generate_kronecker_range matrices fuel seed log_n start_edge end_edge =
    let state = mrg_seed seed in
    let (val0, val1) = scramble_values matrices state in
    edges_from matrices fuel log_n (end_edge - start_edge) start_edge state val0 val1

-- sizeof(packed_edge)
abbrev pub packed_edge_size : ℕ
packed_edge_size = 8

-- The edges that xmalloc(M * sizeof(packed_edge)) has room for: the product is a `size_t`.
unfoldable pub edge_room : ℕ → ℕ
edge_room m = m * packed_edge_size % 2 ^ 64 / packed_edge_size

-- The edges that `make_graph` returns; their number is `m`. `none` is also a write of one behind the
-- room for them.
unfoldable pub make_graph :
    (matrices : ℕ → ℕ → Matrix) (fuel log_numverts m userseed1 userseed2 : ℕ)
    → Option (List (ℕ × ℕ))
make_graph matrices fuel log_numverts m userseed1 userseed2 = do
  edges ←
      generate_kronecker_range matrices fuel (make_mrg_seed userseed1 userseed2) log_numverts 0 m
  if leb (length edges) (edge_room m) then some edges else none
