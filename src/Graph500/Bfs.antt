-- ===== src/Graph500/Bfs.antt =====
-- `make_bfs_tree` of trident-workloads/graph500/seq-csr/seq-csr.c. `vlist` holds the vertices that the
-- search has reached, in order; it comes unset from `xmalloc_large`, here with zeroes.
pub mod State
pub mod Level
pub mod Correct
pub mod Edges
use trident_micro21_artifact.Graph500.Csr.{same_vertex, Vertex, Csr}
use trident_micro21_artifact.Base.{
  ℕ, zero, suc, ◌+◌, ◌-◌, ◌*◌, Option, none, some, List, ◌==◌, if◌then◌else◌, replicate,
}
use trident_micro21_artifact.Btree.Array.{◌>>=◌, write, read}

-- The parents, the list of reached vertices, and how many there are.
pub record Search : Type 0 where
  pub bfs_tree : List Vertex
  pub vlist : List ℕ
  pub k2 : ℕ

-- if (bfs_tree[j] == -1) { bfs_tree[j] = v; vlist[k2++] = j; }; a `j` of -1 is out of range.
unfoldable pub visit : (v : ℕ) (j : Vertex) → Search → Option Search
visit v none st = none
visit v (some j) st = do
  parent ← read st.bfs_tree j
  if same_vertex parent none
      then (do
        tree ← write st.bfs_tree j (some v)
        vlist ← write st.vlist st.k2 j
        some record { bfs_tree = tree; vlist = vlist; k2 = st.k2 + 1 })
      else some st

-- for (vo = XOFF(v); vo < veo; ++vo) { ... }, with `rounds` to go.
unfoldable pub visit_row : (g : Csr) (v rounds vo : ℕ) → Search → Option Search
visit_row g v zero vo st = some st
visit_row g v (suc c) vo st = do j ← read g.xadj vo; st ← visit v j st; visit_row g v c (vo + 1) st

unfoldable pub visit_vertex : (g : Csr) (v : ℕ) → Search → Option Search
visit_vertex g v st = do
  start ← read g.xoff (2 * v)
  stop ← read g.xoff (1 + 2 * v)
  visit_row g v (stop - start) start st

-- for (k = k1; k < oldk2; ++k) { ... }
unfoldable pub visit_level : (g : Csr) (rounds k : ℕ) → Search → Option Search
visit_level g zero k st = some st
visit_level g (suc c) k st = do
  v ← read st.vlist k
  st ← visit_vertex g v st
  visit_level g c (k + 1) st

-- How the search ends: with the tree, with an access out of range, or without fuel.
pub data Outcome : Type 0 where
  done : Search → Outcome
  fault : Outcome
  out_of_fuel : Outcome

unfoldable pub go_on : (Search → Outcome) → Option Search → Outcome
go_on rest none = fault
go_on rest (some st) = rest st

-- while (k1 != k2) { oldk2 = k2; ...; k1 = oldk2; }
unfoldable pub search_levels : (fuel : ℕ) (g : Csr) (k1 : ℕ) → Search → Outcome
search_levels zero g k1 st = out_of_fuel
search_levels (suc f) g k1 st =
    let rest = go_on (search_levels f g st.k2) (visit_level g (st.k2 - k1) k1 st) in
    if k1 == st.k2 then done st else rest

unfoldable pub start_search : (nv srcvtx : ℕ) → Option Search
start_search nv srcvtx = do
  vlist ← write (replicate nv 0) 0 srcvtx
  tree ← write (replicate nv none) srcvtx (some srcvtx)
  some record { bfs_tree = tree; vlist = vlist; k2 = 1 }

-- Every level but the last reaches a vertex: `nv + 1` rounds are enough.
unfoldable pub make_bfs_tree : (g : Csr) (srcvtx : ℕ) → Outcome
make_bfs_tree g srcvtx = go_on (search_levels (suc g.nv) g 0) (start_search g.nv srcvtx)
