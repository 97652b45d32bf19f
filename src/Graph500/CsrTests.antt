-- ===== src/Graph500/CsrTests.antt =====
-- A small graph, built and searched.
use trident_micro21_artifact.Graph500.Bitmap.Next.{bm_get_next_bit-NextBit, NextBit}
use trident_micro21_artifact.Graph500.SeqList.Spans.{create_lists-search_tree}
use trident_micro21_artifact.Graph500.Csr.Build.{create_graph_from_edgelist-Built, Built}
use trident_micro21_artifact.Graph500.Bfs.Edges.{Spans, create_graph-make_bfs_tree}
use trident_micro21_artifact.Graph500.Bfs.Level.{IsCsr}
use trident_micro21_artifact.Graph500.Bfs.Correct.{make_bfs_tree-Searched, Searched}
use mathlib.Core.List.Memᴰ
use trident_micro21_artifact.Graph500.Sorting.{insert_sorted, sorted_row, sorted_row-Sorts}
use trident_micro21_artifact.Graph500.SeqList.{
  push_end, is_link, create_lists, search_tree, search_lists, end_at, push_edges, follow, push_edge,
  Lists,
}
use trident_micro21_artifact.Graph500.Bitmap.{
  bit_offset, word_offset, finish_next, bm_init, lowest_bit, skip_words, bm_get_next_bit,
  bm_set_bit, bm_reset,
}
use trident_micro21_artifact.Graph500.Csr.{
  scatter_edge, count_end, accumulate, setup_deg_off, Edge, pack_edges, pack_vtx_edges, find_nv,
  gather_edges, raise, same_vertex, Vertex, scatter_both, scatter_edges, squeeze, count_degrees,
  copy_ends, clear_tail, create_graph_from_edgelist, Csr,
}
use trident_micro21_artifact.Graph500.Bfs.{
  visit_row, visit, visit_vertex, start_search, search_levels, go_on, make_bfs_tree, Outcome,
  visit_level, done,
}
use trident_micro21_artifact.Btree.Array.{◌>>=◌, write}
use trident_micro21_artifact.Base.{
  ℕ, zero, suc, ◌-◌, ◌*◌, ◌^◌, ◌<◌, ◌≡◌, refl, ◌⊎◌, inl, inr, Option, none, some, List, [], ◌∷◌,
  arith, get_or, eq-cases,
}

abbrev an_edge : ℕ → ℕ → Edge
an_edge i j = (some i, some j)

-- Two triangles that share an edge, one edge twice, a self-edge and an edge that is not valid.
abbrev two_triangles : List Edge
two_triangles =
    an_edge 0 1
    ∷ an_edge 1 2
    ∷ an_edge 2 0
    ∷ an_edge 1 3
    ∷ an_edge 3 2
    ∷ an_edge 1 2
    ∷ an_edge 3 3
    ∷ (none, some 1)
    ∷ []

parents : Outcome → Option (List Vertex)
parents (done st) = some st.bfs_tree
parents _ = none

search_from : ℕ → Option (List Vertex)
unfolding parents create_graph_from_edgelist
search_from v = do
  g ← create_graph_from_edgelist sorted_row two_triangles
  parents (make_bfs_tree g v)

tree_from_zero : search_from 0 ≡ some (some 0 ∷ some 0 ∷ some 0 ∷ some 1 ∷ [])
unfolding search_from parents create_graph_from_edgelist gather_edges setup_deg_off find_nv raise
    count_degrees count_end same_vertex accumulate copy_ends scatter_edges scatter_both scatter_edge
    pack_edges pack_vtx_edges squeeze clear_tail sorted_row insert_sorted write make_bfs_tree
    start_search search_levels go_on visit_level visit_vertex visit_row visit
tree_from_zero = refl

-- The linked lists give a tree of the same levels, and reach vertex 3 from its other neighbour.
list_search_from : ℕ → Option (List Vertex)
unfolding parents create_lists
list_search_from v = do g ← create_lists two_triangles; parents (search_tree g v)

list_tree_from_zero : list_search_from 0 ≡ some (some 0 ∷ some 0 ∷ some 0 ∷ some 2 ∷ [])
unfolding list_search_from parents create_lists find_nv raise push_edges push_edge push_end is_link
    same_vertex write search_tree start_search search_lists go_on follow end_at visit
list_tree_from_zero = refl

-- Bits 3 and 200 of four words.
abbrev two_bits : Option (List ℕ)
two_bits = do words ← bm_set_bit (bm_init 256) 3; bm_set_bit words 200

next_bits :
    (do
      words ← two_bits
      first ← bm_get_next_bit words 0
      second ← bm_get_next_bit words 3
      third ← bm_get_next_bit words 200
      some (first ∷ second ∷ third ∷ []))
    ≡ some (some 3 ∷ some 200 ∷ none ∷ [])
unfolding bm_set_bit bm_init bm_reset bm_get_next_bit skip_words lowest_bit finish_next word_offset
    bit_offset write
next_bits = refl

create_graph_from_edgelist-Built_example :
    Built two_triangles (create_graph_from_edgelist sorted_row two_triangles)
create_graph_from_edgelist-Built_example =
    create_graph_from_edgelist-Built sorted_row sorted_row-Sorts two_triangles

create_graph-make_bfs_tree_example :
    (g : Csr) × (create_graph_from_edgelist sorted_row two_triangles ≡ some g)
    × Spans two_triangles 2 (make_bfs_tree g 2)
unfolding find_nv raise
create_graph-make_bfs_tree_example =
    create_graph-make_bfs_tree sorted_row sorted_row-Sorts two_triangles 2 (omega arith)

-- The rows of one edge between two vertices.
abbrev one_edge : Csr
one_edge = record {
  nv = 2;
  xoff = 0 ∷ 1 ∷ 2 ∷ 3 ∷ 4 ∷ 0 ∷ [];
  xadj = some 1 ∷ none ∷ some 0 ∷ none ∷ [];
}

abbrev other_end : ℕ → List ℕ
other_end v = (1 - v) ∷ []

below_two : (v : ℕ) → v < 2 → (v ≡ 0) ⊎ (v ≡ 1)
below_two v h = elim (eq-cases v 0) [ inl e ↦ inl e | inr e ↦ inr (omega arith) ]

one_edge-IsCsr : IsCsr one_edge other_end
one_edge-IsCsr = record {
  first = λ v. 2 * v;
  row_start = λ v h. elim (below_two v h) [ inl e ↦ rw e refl | inr e ↦ rw e refl ];
  row_stop = λ v h. elim (below_two v h) [ inl e ↦ rw e refl | inr e ↦ rw e refl ];
  entries = λ v h. elim (below_two v h) [ inl e ↦ rw e (refl, tt) | inr e ↦ rw e (refl, tt) ];
  within = λ v w h m. rw (Memᴰ.eq_of_singleton m) (omega arith);
}

make_bfs_tree-Searched_example : Searched 2 other_end 1 (make_bfs_tree one_edge 1)
make_bfs_tree-Searched_example = make_bfs_tree-Searched one_edge-IsCsr (omega arith)

create_lists-search_tree_example :
    (g : Lists) × (create_lists two_triangles ≡ some g) × Spans two_triangles 2 (search_tree g 2)
unfolding find_nv raise
create_lists-search_tree_example = create_lists-search_tree two_triangles 2 (omega arith)

-- Bits 3 and 136 of three words.
abbrev three_words : List ℕ
three_words = 8 ∷ 0 ∷ 256 ∷ []

three_words-small : (i : ℕ) → get_or three_words i 0 < 2 ^ 64
three_words-small zero = omega arith
three_words-small (suc zero) = omega arith
three_words-small (suc (suc zero)) = omega arith
three_words-small (suc (suc (suc i))) = omega arith

bm_get_next_bit-NextBit_example :
    (r : Option ℕ) × (bm_get_next_bit three_words 3 ≡ some r) × NextBit three_words 3 r
bm_get_next_bit-NextBit_example =
    bm_get_next_bit-NextBit three_words 3 three_words-small (omega arith) (omega arith)
