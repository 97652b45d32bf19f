-- ===== src/Graph500/Csr/Build.antt =====
-- `create_graph_from_edgelist` in trident-workloads/graph500/seq-csr/seq-csr.c, and the search on what it
-- builds.
use trident_micro21_artifact.Graph500.Csr.Gather.{scatter_edges-Scattered}
use trident_micro21_artifact.Graph500.Csr.Pack.{pack_edges-PackedRows}
use trident_micro21_artifact.Graph500.Bfs.Level.{IsCsr}
use trident_micro21_artifact.Graph500.Csr.Links.{Linked, neighbours-Linked}
use trident_micro21_artifact.Graph500.Csr.Distinct.{Strict, Sorts}
use trident_micro21_artifact.Graph500.Csr.{
  Edge, same_vertex, Vertex, find_nv, Csr, create_graph_from_edgelist, gather_edges,
}
use trident_micro21_artifact.Graph500.Csr.Degrees.{
  degree_of, is_at, AllInside, Below, find_nv-AllInside,
}
use trident_micro21_artifact.Graph500.Csr.Offsets.{room, row_at, setup_deg_off-Rows, Rows}
use trident_micro21_artifact.Graph500.Csr.Scatter.{neighbours, from_edge, from_pair, Scattered}
use mathlib.Core.List.{Memᴰ}
use mathlib.Core.List.Memᴰ
use trident_micro21_artifact.Base.{
  ℕ, zero, suc, ◌+◌, ◌*◌, ◌≤◌, ◌<◌, ◌≡◌, refl, ap, ◌∙◌, ◌↔◌, inl, inr, true, false, Option, none,
  some, List, [], ◌∷◌, arith, Bool-cases, length, length-append, get_elem?-eq-get_or, eq-cases,
  ==-refl, ==-ne,
}

-- A row ends where the next begins or before.
rows_apart : (edges : List Edge) (v w : ℕ) → v < w → row_at edges v + room edges v ≤ row_at edges w
unfolding row_at
rows_apart edges v zero h = absurd (omega arith)
rows_apart edges v (suc w) h = elim (eq-cases v w) [
  | inl e ↦ rw e (omega arith)
  | inr ne ↦ omega (arith, rows_apart edges v w (omega arith))
]

length-from_edge_same :
    (v : ℕ) (i j : Vertex) → same_vertex i j ≡ true → length (from_edge v (i, j)) ≡ 0
unfolding from_edge same_vertex
length-from_edge_same v none j h = refl
length-from_edge_same v (some i) none h = refl
length-from_edge_same v (some i) (some j) h = rw h refl

length-from_edge :
    (v : ℕ) (i j : Vertex)
    → same_vertex i j ≡ false
    → length (from_edge v (i, j)) ≤ is_at v i + is_at v j
unfolding from_edge from_pair is_at same_vertex
length-from_edge v none j h = omega arith
length-from_edge v (some i) none h = omega arith
length-from_edge v (some i) (some j) h = rw h (elim (eq-cases v i) [
  | inl e ↦ rw (e, ==-refl i) (omega arith)
  | inr e ↦ elim (eq-cases v j) [
    | inl f ↦ rw (==-ne v i e, f, ==-refl j) (omega arith)
    | inr f ↦ rw (==-ne v i e, ==-ne v j f) (omega arith)
  ]
])

-- The counting loop counts at least the neighbours.
neighbours-degree : (v : ℕ) (edges : List Edge) → length (neighbours v edges) ≤ degree_of v edges
unfolding neighbours degree_of
neighbours-degree v [] = omega arith
neighbours-degree v ((i, j) ∷ edges) =
    let ih = neighbours-degree v edges in
    let both = length-append (from_edge v (i, j)) (neighbours v edges) in
    elim (Bool-cases (same_vertex i j)) [
      | inl same ↦ rw same (omega (arith, both, length-from_edge_same v i j same, ih))
      | inr differ ↦ rw differ (omega (arith, both, length-from_edge v i j differ, ih))
    ]

neighbours-room : (v : ℕ) (edges : List Edge) → length (neighbours v edges) ≤ room edges v
unfolding room
neighbours-room v edges = ground (arith, neighbours-degree v edges)

setup-Scattered :
    (edges : List Edge) (nv : ℕ) (g : Csr)
    → Rows edges nv g
    → Scattered (row_at edges) (room edges) nv (rows_apart edges) (λ v. []) g
setup-Scattered edges nv g r = record {
  nv_kept = r.nv_kept;
  starts = r.starts;
  stops = λ v h. r.stops v h ∙ omega arith;
  size = r.size;
  length-xadj = r.length-xadj;
  fits = λ v h. omega arith;
  entries = λ v h. tt;
}

Scattered-IsCsr :
    {first cap : ℕ → ℕ} {nv : ℕ} {apart : (v w : ℕ) → v < w → first v + cap v ≤ first w}
    {adj : ℕ → List ℕ} {g : Csr}
    → Scattered first cap nv apart adj g
    → ((v w : ℕ) → v < nv → Memᴰ w (adj v) → w < nv)
    → IsCsr g adj
Scattered-IsCsr {first} {nv = nv} {adj = adj} {g = g} s within = record {
  first = first;
  row_start = λ v h.
      get_elem?-eq-get_or g.xoff (2 * v) 0 (omega (arith, s.size, s.nv_kept))
      ∙ ap (λ n. some n) (s.starts v (omega (arith, s.nv_kept)));
  row_stop = λ v h.
      get_elem?-eq-get_or g.xoff (1 + 2 * v) 0 (omega (arith, s.size, s.nv_kept))
      ∙ ap (λ n. some n) (s.stops v (omega (arith, s.nv_kept)));
  entries = λ v h. s.entries v (omega (arith, s.nv_kept));
  within = λ v w h m. rw s.nv_kept (within v w (omega (arith, s.nv_kept)) m);
}

Mem-inside :
    (nv : ℕ) (edges : List Edge) (e : Edge)
    → AllInside nv edges
    → Memᴰ e edges
    → Below nv (e.0) × Below nv (e.1)
Mem-inside nv [] e inside m = absurd (Memᴰ.not-nil m)
Mem-inside nv ((i, j) ∷ edges) e (in_i, in_j, inside) m = elim (Memᴰ.cases_cons m) [
  | inl s ↦ rw s (in_i, in_j)
  | inr t ↦ Mem-inside nv edges e inside t
]

pub Linked-inside :
    (nv : ℕ) (edges : List Edge) (v w : ℕ) → AllInside nv edges → Linked edges v w → w < nv
Linked-inside nv edges v w inside (ne, l) = elim l [
  | inl m ↦ (Mem-inside nv edges (some v, some w) inside m).1
  | inr m ↦ (Mem-inside nv edges (some w, some v) inside m).0
]

-- Rows of all neighbours, each once, in ascending order.
pub record Built (edges : List Edge) (r : Option Csr) : Type 0 where
  pub g : Csr
  pub returned : r ≡ some g
  pub all_vertices : g.nv ≡ find_nv edges 0
  pub rows : ℕ → List ℕ
  pub is_csr : IsCsr g rows
  pub strict : (v : ℕ) → v < g.nv → Strict (rows v)
  pub linked : (v w : ℕ) → v < g.nv → Memᴰ w (rows v) ↔ Linked edges v w

-- Whatever the edges, and where `qsort` sorts the numbers that are not negative: the graph is built
-- without an access out of range. Its vertices are the numbers up to the largest one in an edge,
-- and the row of each holds the vertices that an edge links to it, in either direction, each of
-- them once and in ascending order, the vertex itself left out.
pub create_graph_from_edgelist-Built :
    (sort : List Vertex → List Vertex)
    → Sorts sort
    → (edges : List Edge) → Built edges (create_graph_from_edgelist sort edges)
unfolding create_graph_from_edgelist gather_edges
create_graph_from_edgelist-Built sort sorts edges =
    let nv = find_nv edges 0 in
    let inside = find_nv-AllInside edges 0 in
    let (set_up, e_set_up, r_set_up) = setup_deg_off-Rows edges nv inside in
    let start = setup-Scattered edges nv set_up r_set_up in
    let (full, e_full, s_full) =
      scatter_edges-Scattered (row_at edges) (room edges) nv (rows_apart edges) edges (λ v. [])
        set_up start inside (λ v h. omega (arith, neighbours-room v edges)) in
    let packed =
      pack_edges-PackedRows (row_at edges) (room edges) nv (rows_apart edges) sort sorts
        (λ v. neighbours v edges) nv 0 full s_full (omega arith) in
    let row = (λ (v : ℕ) (h : v < nv). packed.packed v (omega arith) (omega arith)) in
    let linked : (v w : ℕ) → v < nv → Memᴰ w (packed.rows v) ↔ Linked edges v w = λ v w h. (
      λ m. (neighbours-Linked v edges w).0 (((row v h).same w).0 m),
      λ l. ((row v h).same w).1 ((neighbours-Linked v edges w).1 l),
    ) in
    record {
      g = packed.next;
      returned = rw (e_set_up, e_full, s_full.nv_kept) packed.returned;
      all_vertices = packed.filled.nv_kept;
      rows = packed.rows;
      is_csr =
          Scattered-IsCsr packed.filled
            (λ v w h m. Linked-inside nv edges v w inside ((linked v w h).0 m));
      strict = λ v h. (row v (omega (arith, packed.filled.nv_kept))).strict;
      linked = λ v w h. linked v w (omega (arith, packed.filled.nv_kept));
    }
