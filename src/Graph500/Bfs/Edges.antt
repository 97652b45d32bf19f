-- ===== src/Graph500/Bfs/Edges.antt =====
-- `create_graph_from_edgelist` and `make_bfs_tree` of trident-workloads/graph500/seq-csr/seq-csr.c, one
-- after the other, against the list of edges.
use mathlib.Core.List.{Memᴰ}
use trident_micro21_artifact.Graph500.Bfs.Correct.{make_bfs_tree-Searched, Searched}
use trident_micro21_artifact.Graph500.Bfs.{Outcome, Search, make_bfs_tree, done}
use trident_micro21_artifact.Graph500.Csr.Distinct.{Sorts}
use trident_micro21_artifact.Graph500.Csr.Build.{create_graph_from_edgelist-Built}
use trident_micro21_artifact.Graph500.Csr.Links.{Linked}
use trident_micro21_artifact.Graph500.Bfs.State.{walk, marked, Reach, here}
use trident_micro21_artifact.Graph500.Csr.{Csr, Vertex, find_nv, Edge, create_graph_from_edgelist}
use trident_micro21_artifact.Base.{ℕ, ◌<◌, ◌≡◌, ◌≢◌, ◌↔◌, true, none, some, List, get_or}

-- The vertices that a walk along edges leads to.
pub data Connected (edges : List Edge) (src : ℕ) : ℕ → Type 0 where
  at_source : Connected edges src src
  along : {u v : ℕ} → Connected edges src u → Linked edges u v → Connected edges src v

pub record Spans (edges : List Edge) (src : ℕ) (r : Outcome) : Type 0 where
  pub after : Search
  pub returned : r ≡ done after
  pub reached : (v : ℕ) → (marked after v ≡ true) ↔ Connected edges src v
  pub root : get_or after.bfs_tree src none ≡ some src
  pub parents :
      (v p : ℕ)
      → get_or after.bfs_tree v none ≡ some p
      → v ≢ src
      → Connected edges src p × Linked edges p v

module _ (edges : List Edge) (nv : ℕ) (rows : ℕ → List ℕ) (src : ℕ) (inside : src < nv)
    (within : (v w : ℕ) → v < nv → Memᴰ w (rows v) → w < nv)
    (linked : (v w : ℕ) → v < nv → Memᴰ w (rows v) ↔ Linked edges v w) where
  Reach-inside : {v : ℕ} → Reach rows src v → v < nv
  Reach-inside here = inside
  Reach-inside (walk {u} {v} w m) = within u v (Reach-inside w) m

  Reach-Connected : {v : ℕ} → Reach rows src v → Connected edges src v
  Reach-Connected here = at_source
  Reach-Connected (walk {u} {v} w m) = along (Reach-Connected w) ((linked u v (Reach-inside w)).0 m)

  Connected-Reach : {v : ℕ} → Connected edges src v → Reach rows src v
  Connected-Reach at_source = here
  Connected-Reach (along {u} {v} c l) =
      let w = Connected-Reach c in walk w ((linked u v (Reach-inside w)).1 l)

  pub Searched-Spans : {o : Outcome} → Searched nv rows src o → Spans edges src o
  Searched-Spans s = record {
    after = s.after;
    returned = s.returned;
    reached =
        λ v. (λ m. Reach-Connected ((s.reached v).0 m), λ c. (s.reached v).1 (Connected-Reach c));
    root = s.root;
    parents = λ v p e ne.
        let (m, n) = s.parents v p e ne in
        let w = (s.reached p).0 m in (Reach-Connected w, (linked p v (Reach-inside w)).0 n);
  }

-- Whatever the edges, from a vertex of the graph: the graph is built and searched without an access
-- out of range and within the fuel. Then exactly the vertices that edges connect to the source have
-- a parent; the source is its own, and that of any other vertex is connected to the source and
-- has an edge to the vertex. `qsort` sorts the numbers that are not negative.
pub create_graph-make_bfs_tree :
    (sort : List Vertex → List Vertex)
    → Sorts sort
    → (edges : List Edge) (src : ℕ) → src < find_nv edges 0
    → (g : Csr) × (create_graph_from_edgelist sort edges ≡ some g)
      × Spans edges src (make_bfs_tree g src)
create_graph-make_bfs_tree sort sorts edges src h =
    let b = create_graph_from_edgelist-Built sort sorts edges in
    let inside : src < b.g.nv = rw b.all_vertices h in
    (
      b.g,
      b.returned,
      Searched-Spans edges b.g.nv b.rows src inside b.is_csr.within b.linked
          (make_bfs_tree-Searched b.is_csr inside),
    )
