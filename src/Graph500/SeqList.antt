-- ===== src/Graph500/SeqList.antt =====
-- trident-workloads/graph500/seq-list/seq-list.c: a linked list of edge ends for each vertex, and the
-- breadth-first search on it. A link is the index of an edge end, of edge `p / 2` the end `p % 2`.
-- A negative vertex or link is `none`. `xmalloc` zeroes `next`. An
-- assertion that fails is `none`. Memory that runs out is left out.
pub mod Walk
pub mod Push
pub mod Build
pub mod Spans
use trident_micro21_artifact.Graph500.Bfs.{out_of_fuel}
use trident_micro21_artifact.Graph500.Csr.{find_nv, Vertex, Edge}
use trident_micro21_artifact.Graph500.Bfs.{go_on, Outcome, visit, Search, done, start_search}
use trident_micro21_artifact.Base.{
  ℕ, zero, suc, ◌+◌, ◌*◌, ◌/◌, ◌%◌, Bool, true, Option, none, some, List, [], ◌∷◌, ltb, ◌==◌,
  if◌then◌else◌, length, replicate,
}
use trident_micro21_artifact.Btree.Array.{◌>>=◌, write, read}

-- `head`, `deg` and `next`, which share one allocation in the source.
pub record Lists : Type 0 where
  pub edges : List Edge
  pub nv : ℕ
  pub head : List (Option ℕ)
  pub deg : List ℕ
  pub next : List (Option ℕ)
  pub maxdeg : ℕ

-- t_head < 2*nIJ
unfoldable pub is_link : (ends : ℕ) → Option ℕ → Bool
is_link ends none = true
is_link ends (some p) = ltb p ends

-- t_head = head[i]; head[i] = t; assert (t_head < 2*nIJ); next[t] = t_head; ++deg[i];
unfoldable pub push_end : (i t : ℕ) → Lists → Option Lists
push_end i t g = do
  t_head ← read g.head i
  head ← write g.head i (some t)
  next ← if is_link (2 * length g.edges) t_head then write g.next t t_head else none
  degree ← read g.deg i
  deg ← write g.deg i (degree + 1)
  some record g { head = head; deg = deg; next = next }

-- The two ends of edge `k`: the list of each vertex points at the other one.
unfoldable pub push_edge : (k : ℕ) → Edge → Lists → Option Lists
push_edge k (some i, some j) g = if i == j then some g else do
  next ← write g.next (2 * k) none
  links ← write next (1 + 2 * k) none
  g ← push_end i (2 * k + 1) record g { next = links }
  push_end j (2 * k) g
push_edge k _ g = some g

unfoldable pub push_edges : List Edge → (k : ℕ) → Lists → Option Lists
push_edges [] k g = some g
push_edges (e ∷ edges) k g = do g ← push_edge k e g; push_edges edges (k + 1) g

-- for (kg = 0; kg <= maxvtx; ++kg) if (deg[kg] > maxdeg) maxdeg = deg[kg]; here, as in the
-- field `maxdeg`, on maxdeg + 1.
unfoldable pub max_degree : List ℕ → (limit : ℕ) → ℕ
max_degree [] limit = limit
max_degree (d ∷ ds) limit = max_degree ds (if ltb d limit then limit else d + 1)

unfoldable pub create_lists : List Edge → Option Lists
create_lists edges = do
  let nv = find_nv edges 0
  g ← push_edges edges 0 record {
    edges = edges;
    nv = nv;
    head = replicate nv none;
    deg = replicate nv 0;
    next = replicate (2 * length edges) (some 0);
    maxdeg = 0;
  }
  some record g { maxdeg = max_degree g.deg 0 }

-- (p % 2) ? get_v1_from_edge (&IJ[p / 2]) : get_v0_from_edge (&IJ[p / 2])
unfoldable pub end_at : List Edge → (p : ℕ) → Option Vertex
end_at edges p = do (v0, v1) ← read edges (p / 2); some (if p % 2 == 0 then v0 else v1)

-- while (p >= 0) { ...; p = next[p]; }; a list is at most as long as all edge ends,
-- and a longer one, which would be a cycle, is `none`.
unfoldable pub follow : (fuel : ℕ) (g : Lists) (parent : ℕ) (p : Option ℕ) → Search → Option Search
follow fuel g parent none st = some st
follow zero g parent (some p) st = none
follow (suc f) g parent (some p) st = do
  newv ← end_at g.edges p
  st ← visit parent newv st
  p ← read g.next p
  follow f g parent p st

-- The loops of the search: `k` runs on while new vertices raise `k2`.
unfoldable pub search_lists : (fuel : ℕ) (g : Lists) (k : ℕ) → Search → Outcome
search_lists zero g k st = out_of_fuel
search_lists (suc f) g k st =
    let next = (do
      parent ← read st.vlist k
      p ← read g.head parent
      follow (2 * length g.edges) g parent p st) in
    let rest = go_on (search_lists f g (k + 1)) next in if k == st.k2 then done st else rest

unfoldable pub search_tree : (g : Lists) (srcvtx : ℕ) → Outcome
search_tree g srcvtx = go_on (search_lists (suc g.nv) g 0) (start_search g.nv srcvtx)
