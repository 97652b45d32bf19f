-- ===== src/Graph500/Verify.antt =====
-- trident-workloads/graph500/verify.c: the check of a search tree, run by one thread. `none` is an
-- access out of range or an assertion that fails. A negative vertex or level is `none` in an array,
-- and an error -e is the number e, 0 for no error.
pub mod Assign
pub mod Levels
pub mod Edges
pub mod Loops
pub mod Sound
pub mod Climb
pub mod Total
pub mod Answers
use trident_micro21_artifact.Btree.Array.{◌>>=◌}
use trident_micro21_artifact.Btree.Array.{write, read}
use trident_micro21_artifact.Graph500.Csr.{same_vertex, Vertex, Edge}
use trident_micro21_artifact.Graph500.Bfs.State.{is_set}
use trident_micro21_artifact.Base.{
  ℕ, zero, suc, ◌+◌, Bool, true, false, not, ◌&&◌, ◌||◌, Option, none, some, List, [], ◌∷◌, ltb,
  leb, ◌==◌, if◌then◌else◌, replicate,
}

abbrev pub Level : Type 0
Level = Option ℕ

-- level[k] = (k == root ? 0 : -1), from `k` on.
unfoldable pub first_levels : (rounds k root : ℕ) → List Level
first_levels zero k root = []
first_levels (suc c) k root = (if k == root then some 0 else none) ∷ first_levels c (k + 1) root

-- while (parent >= 0 && level[parent] < 0 && nhop < nv) { ... }, with `nv - nhop` rounds to go.
unfoldable pub climb :
    (tree : List Vertex) (level : List Level) (rounds nhop : ℕ) → Vertex → Option (Vertex × ℕ)
climb tree level rounds nhop none = some (none, nhop)
climb tree level zero nhop (some v) = do l ← read level v; some (some v, nhop)
climb tree level (suc c) nhop (some v) = do
  l ← read level v
  if is_set l then some (some v, nhop) else do
    up ← read tree v
    if same_vertex (some v) up then none else climb tree level c (nhop + 1) up

-- while (level[parent] < 0) { assert (nhop > 0); level[parent] = nhop--; parent = bfs_tree[parent]; }
unfoldable pub assign :
    (tree : List Vertex) (nhop : ℕ) → Vertex → List Level → Option (List Level × (ℕ × ℕ))
assign tree nhop none level = none
assign tree zero (some v) level = do
  l ← read level v
  if is_set l then some (level, (0, v)) else none
assign tree (suc h) (some v) level = do
  l ← read level v
  if is_set l
      then some (level, (suc h, v))
      else do level ← write level v (some (suc h)); up ← read tree v; assign tree h up level

unfoldable pub above_zero : Level → Bool
above_zero none = false
above_zero (some l) = ltb 0 l

-- while (level[parent] > 0) { assert (lastlvl == 1 + level[parent]); ... }
unfoldable pub check_levels :
    (tree : List Vertex) (level : List Level) (lastlvl : ℕ) → Vertex → Option (Unit {0})
check_levels tree level lastlvl none = none
check_levels tree level zero (some v) = do l ← read level v; if above_zero l then none else some tt
check_levels tree level (suc b) (some v) = do
  l ← read level v
  if above_zero l
      then if same_vertex l (some b)
        then (do up ← read tree v; check_levels tree level b up)
        else none
      else some tt

-- The level of a vertex, where the code has made sure or asserts that it is not -1.
unfoldable pub level_at : List Level → ℕ → Option ℕ
level_at level v = do l ← read level v; l

unfoldable pub climb_error : (nv nhop : ℕ) → Vertex → ℕ
climb_error nv nhop none = 2
climb_error nv nhop (some v) = if leb nv nhop then 1 else 0

-- The levels from `k` up to the vertex with a level that the climb ended at.
unfoldable pub assign_levels :
    (tree : List Vertex) (k nhop : ℕ) → Vertex → List Level → Option (List Level)
assign_levels tree k nhop none level = none
assign_levels tree k nhop (some top) level = do
  l ← level_at level top
  (level, (left, last)) ← assign tree (nhop + l) (some k) level
  now ← level_at level last
  if left == now
      then (do
        own ← level_at level k
        checked ← check_levels tree level (own + 1) (some k)
        some level)
      else none

-- One round of the loop over the vertices.
unfoldable pub level_vertex :
    (nv root k : ℕ) (tree : List Vertex) → ℕ × List Level → Option (ℕ × List Level)
level_vertex nv root k tree (err, level) = do
  l ← read level k
  if is_set l || not (err == 0) then some (err, level) else do
    parent ← read tree k
    if not (is_set parent) || k == root then some (err, level) else do
      (top, nhop) ← climb tree level nv 0 (some k)
      let terr = climb_error nv nhop top
      if terr == 0
          then (do level ← assign_levels tree k nhop top level; some (0, level))
          else some (terr, level)

unfoldable pub level_vertices :
    (nv root : ℕ) (tree : List Vertex) (rounds k : ℕ) → ℕ × List Level → Option (ℕ × List Level)
level_vertices nv root tree zero k st = some st
level_vertices nv root tree (suc c) k st = do
  st ← level_vertex nv root k tree st
  level_vertices nv root tree c (k + 1) st

unfoldable pub compute_levels : (nv : ℕ) (tree : List Vertex) (root : ℕ) → Option (ℕ × List Level)
compute_levels nv tree root = level_vertices nv root tree nv 0 (0, first_levels nv 0 root)

-- The marks of the edges of the tree, with the error and the number of edges so far.
pub record Marks : Type 0 where
  pub err : ℕ
  pub traversed : ℕ
  pub seen_edge : List Bool

-- if (bfs_tree[i] == j) seen_edge[i] = 1;
unfoldable pub mark : (parent : Vertex) (i j : ℕ) → List Bool → Option (List Bool)
mark parent i j seen_edge =
    if same_vertex parent (some j) then write seen_edge i true else some seen_edge

-- One more than a level, which is -1 or more.
unfoldable pub plus_one : Level → ℕ
plus_one none = 0
plus_one (some l) = l + 1

-- Both ends in the tree: the edge is counted and marked, and the levels of its ends are compared.
unfoldable pub check_ends :
    (i j : ℕ) (parent_i parent_j : Vertex) (level : List Level) → Marks → Option Marks
check_ends i j parent_i parent_j level m = do
  seen ←
      if i == j
      then some m.seen_edge
      else (do seen ← mark parent_i i j m.seen_edge; mark parent_j j i seen)
  level_i ← read level i
  level_j ← read level j
  let far =
      ltb (plus_one level_j + 1) (plus_one level_i) || ltb (plus_one level_i + 1) (plus_one level_j)
  some record { err = if far then 14 else 0; traversed = m.traversed + 1; seen_edge = seen }

-- An edge with one end above max_bfsvtx, with the error so far.
unfoldable pub side_error : (nv i j err : ℕ) → ℕ
side_error nv i j err =
    if leb nv i && ltb j nv then 10 else if leb nv j && ltb i nv then 11 else err

-- An edge with one end in the tree.
unfoldable pub tree_error : (in_i in_j : Bool) → ℕ
tree_error in_i in_j = if in_i && not in_j then 12 else if in_j && not in_i then 13 else 0

unfoldable pub check_edge :
    (nv : ℕ) (tree : List Vertex) (level : List Level) → Edge → Marks → Option Marks
check_edge nv tree level (none, j) m = some m
check_edge nv tree level (some i, none) m = some m
check_edge nv tree level (some i, some j) m =
    let side = side_error nv i j m.err in
    if not (side == 0) || leb nv i then some record m { err = side } else do
      parent_i ← read tree i
      parent_j ← read tree j
      let half = tree_error (is_set parent_i) (is_set parent_j)
      if not (half == 0) || not (is_set parent_i)
          then some record m { err = half }
          else check_ends i j parent_i parent_j level m

unfoldable pub check_edges :
    (nv : ℕ) (tree : List Vertex) (level : List Level) → List Edge → Marks → Option Marks
check_edges nv tree level [] m = some m
check_edges nv tree level (e ∷ edges) m = do
  m ← check_edge nv tree level e m
  check_edges nv tree level edges m

-- One round of the last loop: an edge of the tree that was not seen, or a second root.
unfoldable pub check_vertex : (root k : ℕ) (tree : List Vertex) → Marks → Option Marks
check_vertex root k tree m = if not (m.err == 0) || k == root then some m else do
  parent ← read tree k
  seen ← if is_set parent then read m.seen_edge k else some true
  let unseen = if seen then 0 else 15
  some record m { err = if same_vertex parent (some k) then 16 else unseen }

unfoldable pub check_vertices :
    (root : ℕ) (tree : List Vertex) (rounds k : ℕ) → Marks → Option Marks
check_vertices root tree zero k m = some m
check_vertices root tree (suc c) k m = do
  m ← check_vertex root k tree m
  check_vertices root tree c (k + 1) m

-- What is returned: the number of edges, or minus an error.
pub data Verdict : Type 0 where
  accepted : ℕ → Verdict
  rejected : ℕ → Verdict

unfoldable pub verdict : Marks → Verdict
verdict m = if m.err == 0 then accepted m.traversed else rejected m.err

unfoldable pub verify_levels :
    (nv root : ℕ) (tree : List Vertex) → List Edge → ℕ × List Level → Option Verdict
verify_levels nv root tree edges (err, level) = if not (err == 0) then some (rejected err) else do
  let blank : Marks = record { err = 0; traversed = 0; seen_edge = replicate nv false }
  m ← check_edges nv tree level edges blank
  m ← if m.err == 0 then check_vertices root tree nv 0 m else some m
  some (verdict m)

unfoldable pub verify_bfs_tree :
    (tree : List Vertex) (max_bfsvtx root : ℕ) → List Edge → Option Verdict
verify_bfs_tree tree max_bfsvtx root edges = if ltb max_bfsvtx root then some (rejected 999) else do
  parent ← read tree root
  if not (same_vertex parent (some root)) then some (rejected 999) else do
    levels ← compute_levels (max_bfsvtx + 1) tree root
    verify_levels (max_bfsvtx + 1) root tree edges levels
