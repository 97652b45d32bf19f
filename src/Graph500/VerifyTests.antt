-- ===== src/Graph500/VerifyTests.antt =====
-- The check of trident-workloads/graph500/verify.c on trees of small graphs.
use trident_micro21_artifact.Graph500.Verify.Answers.{verify_bfs_tree-Ends}
use trident_micro21_artifact.Graph500.Verify.Climb.{Ends, TreeShape}
use mathlib.Core.Option.{some-injective, none-ne-some}
use trident_micro21_artifact.Btree.Array.{write}
use trident_micro21_artifact.Graph500.Verify.Sound.{verify_bfs_tree-IsBfsTree, IsBfsTree}
use trident_micro21_artifact.Graph500.Csr.{Vertex, same_vertex, Edge}
use trident_micro21_artifact.Graph500.Verify.{
  assign_levels, climb, verify_levels, rejected, check_levels, accepted, check_vertex, verdict,
  level_vertex, verify_bfs_tree, compute_levels, plus_one, assign, check_vertices, above_zero,
  side_error, level_vertices, first_levels, tree_error, check_edges, climb_error, check_ends,
  Verdict, check_edge, mark, level_at,
}
use trident_micro21_artifact.Base.{
  ℕ, zero, suc, ◌<◌, ◌≡◌, refl, ◌≢◌, Option, none, some, List, [], ◌∷◌, arith, get_elem?,
}

-- Two triangles that share an edge, one edge twice, and a self-edge.
abbrev triangles : List Edge
triangles =
    (some 0, some 1)
    ∷ (some 1, some 2)
    ∷ (some 2, some 0)
    ∷ (some 1, some 3)
    ∷ (some 3, some 2)
    ∷ (some 1, some 2)
    ∷ (some 3, some 3)
    ∷ []

abbrev good_tree : List Vertex
good_tree = some 0 ∷ some 0 ∷ some 0 ∷ some 1 ∷ []

-- Vertex 2 hangs on vertex 3, two levels too deep.
abbrev deep_tree : List Vertex
deep_tree = some 0 ∷ some 0 ∷ some 3 ∷ some 1 ∷ []

-- Vertices 1 and 3 are each other's parents.
abbrev cycle : List Vertex
cycle = some 0 ∷ some 3 ∷ some 0 ∷ some 1 ∷ []

verified : List Vertex → Option Verdict
verified tree = verify_bfs_tree tree 3 0 triangles

good_tree_accepted : verified good_tree ≡ some (accepted 7)
unfolding verified verify_bfs_tree verify_levels compute_levels level_vertices level_vertex climb
    climb_error assign_levels assign level_at check_levels above_zero first_levels check_edges
    check_edge check_ends mark side_error tree_error plus_one check_vertices check_vertex verdict
    same_vertex write
good_tree_accepted = refl

deep_tree_rejected : verified deep_tree ≡ some (rejected 14)
unfolding verified verify_bfs_tree verify_levels compute_levels level_vertices level_vertex climb
    climb_error assign_levels assign level_at check_levels above_zero first_levels check_edges
    check_edge check_ends mark side_error tree_error plus_one check_vertices check_vertex verdict
    same_vertex write
deep_tree_rejected = refl

cycle_rejected : verified cycle ≡ some (rejected 1)
unfolding verified verify_bfs_tree verify_levels compute_levels level_vertices level_vertex climb
    climb_error assign_levels assign level_at check_levels above_zero first_levels check_edges
    check_edge check_ends mark side_error tree_error plus_one check_vertices check_vertex verdict
    same_vertex write
cycle_rejected = refl

verify_bfs_tree-IsBfsTree_example : IsBfsTree 4 0 triangles good_tree
unfolding verified
verify_bfs_tree-IsBfsTree_example =
    verify_bfs_tree-IsBfsTree good_tree 3 0 7 triangles good_tree_accepted

own : (a p : ℕ) → ◌≡◌ {A = Option Vertex} (some (some a)) (some (some p)) → a ≡ p
own a p e = some-injective a p (some-injective (some a) (some p) e)

deep_tree-parents : (v p : ℕ) → get_elem? deep_tree v ≡ some (some p) → (p < 4) × (v ≢ 0 → v ≢ p)
deep_tree-parents zero p e = (omega (arith, own 0 p e), λ n. absurd (n refl))
deep_tree-parents (suc zero) p e = let s = own 0 p e in (omega arith, λ n m. omega arith)
deep_tree-parents (suc (suc zero)) p e = let s = own 3 p e in (omega arith, λ n m. omega arith)
deep_tree-parents (suc (suc (suc zero))) p e =
    let s = own 1 p e in (omega arith, λ n m. omega arith)
deep_tree-parents (suc (suc (suc (suc v)))) p e = absurd (none-ne-some (some p) e)

deep_tree-TreeShape : TreeShape 4 0 deep_tree
deep_tree-TreeShape = record { size = refl; inside = omega arith; parents = deep_tree-parents }

verify_bfs_tree-Ends_example : Ends (verify_bfs_tree deep_tree 3 0 triangles)
verify_bfs_tree-Ends_example = verify_bfs_tree-Ends deep_tree 3 0 triangles deep_tree-TreeShape

-- A second root ends in an assertion that fails, before the loop that looks for it.
two_roots_abort : verified (some 0 ∷ some 0 ∷ some 0 ∷ some 3 ∷ []) ≡ none
unfolding verified verify_bfs_tree verify_levels compute_levels level_vertices level_vertex climb
    climb_error assign_levels assign level_at check_levels above_zero first_levels check_edges
    check_edge check_ends mark side_error tree_error plus_one check_vertices check_vertex verdict
    same_vertex write
two_roots_abort = refl
