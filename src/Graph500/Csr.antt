-- ===== src/Graph500/Csr.antt =====
-- trident-workloads/graph500/seq-csr/seq-csr.c: the compressed rows of a graph and its breadth-first
-- search. A negative vertex number, also the -1 that stands for "no vertex", is `none`. `qsort` is
-- the C library's: an argument. `xadj` starts behind the first MINVECT_SIZE words of `xadjstore`,
-- which are never used here. Memory that runs out is left out.
pub mod Degrees
pub mod Offsets
pub mod Entries
pub mod Scatter
pub mod Gather
pub mod Squeeze
pub mod PackOne
pub mod Parts
pub mod Distinct
pub mod PackRow
pub mod Pack
pub mod Links
pub mod Build
use trident_micro21_artifact.Base.{
  ℕ, zero, suc, ◌+◌, ◌-◌, ◌*◌, Bool, true, false, Option, none, some, List, [], ◌∷◌, ◌++◌, ltb, leb,
  ◌==◌, if◌then◌else◌, take, drop, replicate,
}
use trident_micro21_artifact.Btree.Array.{◌>>=◌, read, write}

abbrev pub Vertex : Type 0
Vertex = Option ℕ

abbrev pub Edge : Type 0
Edge = Vertex × Vertex

abbrev pub minvect_size : ℕ
minvect_size = 2

-- `xoff` holds the start (XOFF, at 2 * k) and the end (XENDOFF, at 1 + 2 * k) of each row.
pub record Csr : Type 0 where
  pub nv : ℕ
  pub xoff : List ℕ
  pub xadj : List Vertex

-- if (v > maxvtx) maxvtx = v; here on maxvtx + 1.
unfoldable pub raise : ℕ → Vertex → ℕ
raise nv none = nv
raise nv (some v) = if ltb v nv then nv else v + 1

unfoldable pub find_nv : List Edge → (nv : ℕ) → ℕ
find_nv [] nv = nv
find_nv ((i, j) ∷ edges) nv = find_nv edges (raise (raise nv i) j)

-- if (v >= 0) ++XOFF (v);
unfoldable pub count_end : Vertex → List ℕ → Option (List ℕ)
count_end none xoff = some xoff
count_end (some v) xoff = do degree ← read xoff (2 * v); write xoff (2 * v) (degree + 1)

unfoldable pub same_vertex : Vertex → Vertex → Bool
same_vertex none none = true
same_vertex none (some j) = false
same_vertex (some i) none = false
same_vertex (some i) (some j) = i == j

-- Two different negative numbers are one `none`: they add nothing either way.
unfoldable pub count_degrees : List Edge → List ℕ → Option (List ℕ)
count_degrees [] xoff = some xoff
count_degrees ((i, j) ∷ edges) xoff =
    if same_vertex i j
    then count_degrees edges xoff
    else do xoff ← count_end i xoff; xoff ← count_end j xoff; count_degrees edges xoff

-- for (k = 0; k < nv; ++k) { tmp = XOFF(k); ...; XOFF(k) = accum; accum += tmp; }
unfoldable pub accumulate : (rounds k accum : ℕ) → List ℕ → Option (List ℕ × ℕ)
accumulate zero k accum xoff = some (xoff, accum)
accumulate (suc c) k accum xoff = do
  degree ← read xoff (2 * k)
  let tmp = if ltb degree minvect_size then minvect_size else degree
  xoff ← write xoff (2 * k) accum
  accumulate c (k + 1) (accum + tmp) xoff

-- for (k = 0; k < nv; ++k) XENDOFF(k) = XOFF(k);
unfoldable pub copy_ends : (rounds k : ℕ) → List ℕ → Option (List ℕ)
copy_ends zero k xoff = some xoff
copy_ends (suc c) k xoff = do
  start ← read xoff (2 * k)
  xoff ← write xoff (1 + 2 * k) start
  copy_ends c (k + 1) xoff

unfoldable pub setup_deg_off : List Edge → (nv : ℕ) → Option Csr
setup_deg_off edges nv = do
  xoff ← count_degrees edges (replicate (2 * nv + 2) 0)
  (xoff, accum) ← accumulate nv 0 0 xoff
  xoff ← write xoff (2 * nv) accum
  xoff ← copy_ends nv 0 xoff
  some record { nv = nv; xoff = xoff; xadj = replicate accum none }

unfoldable pub scatter_edge : (i j : ℕ) → Csr → Option Csr
scatter_edge i j g = do
  where_to ← read g.xoff (1 + 2 * i)
  xoff ← write g.xoff (1 + 2 * i) (where_to + 1)
  xadj ← write g.xadj where_to (some j)
  some record g { xoff = xoff; xadj = xadj }

-- if (i >= 0 && j >= 0 && i != j) { scatter_edge (i, j); scatter_edge (j, i); }
unfoldable pub scatter_both : Edge → Csr → Option Csr
scatter_both (some i, some j) g =
    if i == j then some g else do g ← scatter_edge i j g; scatter_edge j i g
scatter_both _ g = some g

unfoldable pub scatter_edges : List Edge → Csr → Option Csr
scatter_edges [] g = some g
scatter_edges (e ∷ edges) g = do g ← scatter_both e g; scatter_edges edges g

-- for (k = ...; rounds to go; ++k) if (xadj[k] != xadj[kcur]) xadj[++kcur] = xadj[k];
unfoldable pub squeeze : (rounds k kcur : ℕ) → List Vertex → Option (List Vertex × ℕ)
squeeze zero k kcur xadj = some (xadj, kcur)
squeeze (suc c) k kcur xadj = do
  here ← read xadj k
  last ← read xadj kcur
  if same_vertex here last
      then squeeze c (k + 1) kcur xadj
      else (do xadj ← write xadj (kcur + 1) here; squeeze c (k + 1) (kcur + 1) xadj)

-- for (k = ...; rounds to go; ++k) xadj[k] = -1;
unfoldable pub clear_tail : (rounds k : ℕ) → List Vertex → Option (List Vertex)
clear_tail zero k xadj = some xadj
clear_tail (suc c) k xadj = do xadj ← write xadj k none; clear_tail c (k + 1) xadj

unfoldable pub pack_vtx_edges : (sort : List Vertex → List Vertex) → (i : ℕ) → Csr → Option Csr
pack_vtx_edges sort i g = do
  start ← read g.xoff (2 * i)
  stop ← read g.xoff (1 + 2 * i)
  if leb stop (start + 1) then some g else do
    let row = take (stop - start) (drop start g.xadj)
    let sorted = take start g.xadj ++ (sort row ++ drop stop g.xadj)
    (xadj, kcur) ← squeeze (stop - (start + 1)) (start + 1) start sorted
    xadj ← clear_tail (stop - (kcur + 1)) (kcur + 1) xadj
    xoff ← write g.xoff (1 + 2 * i) (kcur + 1)
    some record g { xoff = xoff; xadj = xadj }

unfoldable pub pack_edges : (sort : List Vertex → List Vertex) → (rounds v : ℕ) → Csr → Option Csr
pack_edges sort zero v g = some g
pack_edges sort (suc c) v g = do g ← pack_vtx_edges sort v g; pack_edges sort c (v + 1) g

unfoldable pub gather_edges : (sort : List Vertex → List Vertex) → List Edge → Csr → Option Csr
gather_edges sort edges g = do g ← scatter_edges edges g; pack_edges sort g.nv 0 g

unfoldable pub create_graph_from_edgelist :
    (sort : List Vertex → List Vertex) → List Edge → Option Csr
create_graph_from_edgelist sort edges = do
  g ← setup_deg_off edges (find_nv edges 0)
  gather_edges sort edges g
