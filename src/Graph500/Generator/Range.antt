-- ===== src/Graph500/Generator/Range.antt =====
-- `generate_kronecker_range` of trident-workloads/graph500/generator/graph_generator.c and `make_graph` of
-- make_graph.c: every edge is made, from its own place in the sequence of the generator.
use trident_micro21_artifact.Graph500.Seed.{make_mrg_seed, make_mrg_seed_lem}
use trident_micro21_artifact.Graph500.Mrg.{MrgState, mrg_seed, mrg_skip}
use trident_micro21_artifact.Graph500.Mrg.Steps.{steps, IsLive, steps-IsLive}
use trident_micro21_artifact.Graph500.Mrg.Skip.{mrg_skip_matrices, mrg_skip-steps}
use trident_micro21_artifact.Graph500.Generator.{
  edges_from, edge_room, packed_edge_size, generate_kronecker_range, make_graph, scramble_values,
  make_one_edge,
}
use trident_micro21_artifact.Graph500.Generator.Edge.{make_one_edge-MadeEdge}
use trident_micro21_artifact.Base.{
  ℕ, zero, suc, ◌+◌, ◌-◌, ◌*◌, ◌/◌, ◌%◌, ◌^◌, le→leb, ◌≤◌, ◌<◌, ◌≡◌, refl, ap, ◌∙◌, Option, some,
  List, [], ◌∷◌, arith, length, get_or,
}

-- The edge with number `ei`: from the state 2 ^ 64 steps further for each edge before it.
abbrev pub EdgeAt : (log_n val0 val1 : ℕ) → MrgState → (ei : ℕ) → ℕ × ℕ → Type 0
EdgeAt log_n val0 val1 state ei e =
    (make_one_edge 9 (2 ^ log_n) log_n (steps (ei * 2 ^ 64) state) val0 val1 ≡ some e)
    × (e.0 < 2 ^ log_n)
    × (e.1 < 2 ^ log_n)

pub record Edges (log_n val0 val1 : ℕ) (state : MrgState) (count start : ℕ)
    (r : Option (List (ℕ × ℕ))) : Type 0 where
  pub edges : List (ℕ × ℕ)
  pub returned : r ≡ some edges
  pub number : length edges ≡ count
  pub each : (k : ℕ) → k < count → EdgeAt log_n val0 val1 state (start + k) (get_or edges k (0, 0))

module _ (log_n val0 val1 : ℕ) (state : MrgState) (pos : 0 < log_n) (le : log_n ≤ 32)
    (v : IsLive state) where
  each_suc :
      (v0 v1 : ℕ) (edges : List (ℕ × ℕ)) (c ei : ℕ)
      → EdgeAt log_n val0 val1 state ei (v0, v1)
      → ((k : ℕ) → k < c → EdgeAt log_n val0 val1 state (suc ei + k) (get_or edges k (0, 0)))
      → (k : ℕ) → k < suc c
      → EdgeAt log_n val0 val1 state (ei + k) (get_or ((v0, v1) ∷ edges) k (0, 0))
  each_suc v0 v1 edges c ei first rest zero lt = let e : ei + 0 ≡ ei = omega arith in rw e first
  each_suc v0 v1 edges c ei first rest (suc k) lt =
      let e : ei + suc k ≡ suc ei + k = omega arith in rw e (rest k (omega arith))

  edges_from-Edges :
      (rounds ei : ℕ)
      → ei + rounds ≤ 2 ^ 64
      → Edges log_n val0 val1 state rounds ei
          (edges_from mrg_skip_matrices 9 log_n rounds ei state val0 val1)
  unfolding edges_from
  edges_from-Edges zero ei h = record {
    edges = [];
    returned = refl;
    number = refl;
    each = λ k lt. absurd (omega arith);
  }
  edges_from-Edges (suc c) ei h =
      let here : mrg_skip mrg_skip_matrices 0 ei 0 state ≡ steps (ei * 2 ^ 64) state =
        (mrg_skip-steps 0 ei 0 state (omega arith) (omega arith) (omega arith) v.state).0
        ∙ ap (λ k. steps k state) (omega arith) in
      let e =
        make_one_edge-MadeEdge log_n (steps (ei * 2 ^ 64) state) val0 val1 pos le
          (steps-IsLive (ei * 2 ^ 64) state v) in
      let rest = edges_from-Edges c (suc ei) (omega arith) in
      record {
        edges = (e.v0, e.v1) ∷ rest.edges;
        returned = rw (here, e.returned, rest.returned) refl;
        number = ap suc rest.number;
        each = λ k lt.
            each_suc e.v0 e.v1 rest.edges c ei (e.returned, e.below0, e.below1) rest.each k lt;
      }

mrg_seed-IsLive :
    (userseed1 userseed2 : ℕ)
    → userseed1 < 2 ^ 64
    → userseed2 < 2 ^ 64
    → IsLive (mrg_seed (make_mrg_seed userseed1 userseed2))
unfolding mrg_seed
mrg_seed-IsLive userseed1 userseed2 p q =
    let ((r0, r1, r2, r3, r4), _, _) = make_mrg_seed_lem userseed1 userseed2 p q in
    record {
      state = record { small1 = r0.1; small2 = r1.1; small3 = r2.1; small4 = r3.1; small5 = r4.1 };
      nonzero = omega (arith, r0.0);
    }

-- For 2 to 2 ^ 32 vertices, fewer than 2 ^ 61 edges, for which the size in bytes does not wrap around, and all seeds of 64 bits, `make_graph` returns as many
-- edges as it is asked for and writes all of them where there is room for them, within nine draws for
-- each level of each edge and with the assertions of graph_generator.c passed. Both ends of each edge are vertices, and edge `k` is made from the state that `k * 2 ^ 64`
-- original steps lead to from the seed, whatever edges are made beside it.
pub make_graph-Edges :
    (log_numverts m userseed1 userseed2 : ℕ)
    → 0 < log_numverts
    → log_numverts ≤ 32
    → m < 2 ^ 61
    → userseed1 < 2 ^ 64
    → userseed2 < 2 ^ 64
    → let state = mrg_seed (make_mrg_seed userseed1 userseed2) in
      let values = scramble_values mrg_skip_matrices state in
      Edges log_numverts values.0 values.1 state m 0
        (make_graph mrg_skip_matrices 9 log_numverts m userseed1 userseed2)
unfolding make_graph generate_kronecker_range edge_room
make_graph-Edges log_numverts m userseed1 userseed2 pos le fits p q =
    let state = mrg_seed (make_mrg_seed userseed1 userseed2) in
    let values = scramble_values mrg_skip_matrices state in
    let whole : m - 0 ≡ m = omega arith in
    rw whole (
      let made =
        edges_from-Edges log_numverts values.0 values.1 state pos le
          (mrg_seed-IsLive userseed1 userseed2 p q) m 0 (omega arith) in
      let room : length made.edges ≤ m * packed_edge_size % 2 ^ 64 / packed_edge_size =
        omega (arith, made.number) in
      record {
        edges = made.edges;
        returned = rw (made.returned, le→leb _ _ room) refl;
        number = made.number;
        each = made.each;
      })
