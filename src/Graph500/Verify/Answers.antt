-- ===== src/Graph500/Verify/Answers.antt =====
-- `verify_bfs_tree` in trident-workloads/graph500/verify.c answers on every tree with parents in range.
use trident_micro21_artifact.Graph500.Verify.Total.{first_levels-Running, level_vertices-Ends}
use mathlib.Core.Option.{some-injective, none-ne-some}
use trident_micro21_artifact.Btree.Array.Slots.{write-set}
use mathlib.Core.Path.{subst}
use trident_micro21_artifact.Graph500.Verify.Edges.{side_error-zero}
use trident_micro21_artifact.Graph500.Bfs.State.{is_set}
use trident_micro21_artifact.Graph500.Verify.Climb.{Ends-if, Ends, Ends-read, Ends-bind, TreeShape}
use trident_micro21_artifact.Graph500.Verify.{
  verdict, Marks, mark, check_edge, side_error, Level, check_vertex, verify_levels, rejected,
  check_ends, check_edges, check_vertices, tree_error, compute_levels, verify_bfs_tree,
  first_levels,
}
use trident_micro21_artifact.Graph500.Csr.{Edge, Vertex, same_vertex}
use trident_micro21_artifact.Btree.Array.{◌>>=◌}
use trident_micro21_artifact.Base.{
  ℕ, zero, suc, ◌+◌, ◌≤◌, ◌<◌, ◌≡◌, refl, sym, ◌∙◌, Bool, true, false, not, ◌||◌, Option, none,
  some, List, [], ◌∷◌, arith, ltb, leb, ◌==◌, if◌then◌else◌, length, get_elem?, set, replicate,
  length-set, length-replicate,
}

-- The command does not fail, and a property holds of what it leaves.
abbrev Yields {ℓ} : {A : Type ℓ} → (A → Type 0) → Option A → Type ℓ
Yields {A = A} P o = (a : A) × (o ≡ some a) × P a

Yields-bind {ℓ κ} :
    {A : Type ℓ} {B : Type κ} (P : A → Type 0) (Q : B → Type 0) (o : Option A) (f : A → Option B)
    → Yields P o
    → ((a : A) → P a → Yields Q (f a))
    → Yields Q (o >>= f)
Yields-bind P Q none f (a, e, p) h = absurd (none-ne-some a e)
Yields-bind P Q (some b) f (a, e, p) h = h b (subst P (sym (some-injective b a e)) p)

Yields-if {ℓ} :
    {A : Type ℓ} (P : A → Type 0) (b : Bool) (x y : Option A)
    → (b ≡ true → Yields P x)
    → (b ≡ false → Yields P y)
    → Yields P (if b then x else y)
Yields-if P true x y f g = f refl
Yields-if P false x y f g = g refl

gives {ℓ} : {A : Type ℓ} (P : A → Type 0) (a : A) → P a → Yields P (some a)
gives P a p = (a, refl, p)

reads {ℓ} :
    {A : Type ℓ} (xs : List A) (i : ℕ) → i < length xs → Yields (λ a. Unit {0}) (get_elem? xs i)
reads xs i h = let (a, e) = Ends-read xs i h in (a, e, tt)

module _ (nv root : ℕ) (tree : List Vertex) (level : List Level) (tree_size : length tree ≡ nv)
    (level_size : length level ≡ nv) where
  abbrev Sized : List Bool → Type 0
  Sized seen = length seen ≡ nv

  abbrev MarksSized : Marks → Type 0
  MarksSized m = Sized m.seen_edge

  mark-Sized :
      (parent : Vertex) (i j : ℕ) (seen : List Bool)
      → i < nv
      → Sized seen
      → Yields Sized (mark parent i j seen)
  unfolding mark
  mark-Sized parent i j seen less size =
      Yields-if Sized (same_vertex parent (some j)) _ _
        (λ s.
          rw (write-set seen i true (omega arith))
            (gives _ (set seen i true) (length-set seen i true ∙ size)))
        (λ s. gives _ seen size)

  check_ends-Sized :
      (i j : ℕ) (parent_i parent_j : Vertex) (m : Marks)
      → i < nv
      → j < nv
      → MarksSized m
      → Yields MarksSized (check_ends i j parent_i parent_j level m)
  unfolding check_ends
  check_ends-Sized i j parent_i parent_j m in_i in_j size =
      Yields-bind Sized MarksSized _ _
        (Yields-if Sized (i == j) (some m.seen_edge) _ (λ s. gives _ m.seen_edge size)
          (λ s.
            Yields-bind Sized Sized (mark parent_i i j m.seen_edge) _
              (mark-Sized parent_i i j m.seen_edge in_i size)
              (λ one size_one. mark-Sized parent_j j i one in_j size_one)))
        (λ seen size_seen.
          Yields-bind (λ l. Unit {0}) MarksSized (get_elem? level i) _ (reads level i (omega arith))
            (λ a x.
              Yields-bind (λ l. Unit {0}) MarksSized (get_elem? level j) _
                (reads level j (omega arith)) (λ b y. gives _ _ size_seen)))

  check_edge-Sized :
      (e : Edge) (m : Marks) → MarksSized m → Yields MarksSized (check_edge nv tree level e m)
  unfolding check_edge
  check_edge-Sized (none, j) m size = gives _ m size
  check_edge-Sized (some i, none) m size = gives _ m size
  check_edge-Sized (some i, some j) m size =
      let side = side_error nv i j m.err in
      Yields-if MarksSized (not (side == 0) || leb nv i) _ _ (λ h. gives _ _ size)
        (λ h.
          let no_error : side ≡ 0 = ground arith in
          let in_i : i < nv = ground arith in
          let in_j = (side_error-zero nv i j m.err no_error).1.0 in_i in
          Yields-bind (λ p. Unit {0}) MarksSized (get_elem? tree i) _ (reads tree i (omega arith))
            (λ parent_i x.
              Yields-bind (λ p. Unit {0}) MarksSized (get_elem? tree j) _
                (reads tree j (omega arith))
                (λ parent_j y.
                  let half = tree_error (is_set parent_i) (is_set parent_j) in
                  Yields-if MarksSized (not (half == 0) || not (is_set parent_i)) _ _
                    (λ u. gives _ _ size)
                    (λ u. check_ends-Sized i j parent_i parent_j m in_i in_j size))))

  check_edges-Sized :
      (edges : List Edge) (m : Marks)
      → MarksSized m
      → Yields MarksSized (check_edges nv tree level edges m)
  unfolding check_edges
  check_edges-Sized [] m size = gives _ m size
  check_edges-Sized (e ∷ edges) m size =
      Yields-bind MarksSized MarksSized (check_edge nv tree level e m) _ (check_edge-Sized e m size)
        (λ one size_one. check_edges-Sized edges one size_one)

  check_vertex-Sized :
      (k : ℕ) (m : Marks) → k < nv → MarksSized m → Yields MarksSized (check_vertex root k tree m)
  unfolding check_vertex
  check_vertex-Sized k m less size =
      Yields-if MarksSized (not (m.err == 0) || k == root) _ _ (λ h. gives _ m size)
        (λ h.
          Yields-bind (λ p. Unit {0}) MarksSized (get_elem? tree k) _ (reads tree k (omega arith))
            (λ parent x.
              Yields-bind (λ s. Unit {0}) MarksSized _ _
                (Yields-if (λ s. Unit {0}) (is_set parent) (get_elem? m.seen_edge k) (some true)
                  (λ s. reads m.seen_edge k (omega arith)) (λ s. gives _ true tt))
                (λ seen y. gives _ _ size)))

  check_vertices-Sized :
      (rounds k : ℕ) (m : Marks)
      → k + rounds ≤ nv
      → MarksSized m
      → Yields MarksSized (check_vertices root tree rounds k m)
  unfolding check_vertices
  check_vertices-Sized zero k m h size = gives _ m size
  check_vertices-Sized (suc c) k m h size =
      Yields-bind MarksSized MarksSized (check_vertex root k tree m) _
        (check_vertex-Sized k m (omega arith) size)
        (λ one size_one. check_vertices-Sized c (k + 1) one (omega arith) size_one)

  pub verify_levels-Ends :
      (err : ℕ) (edges : List Edge) → Ends (verify_levels nv root tree edges (err, level))
  unfolding verify_levels
  verify_levels-Ends err edges =
      let blank : Marks = record { err = 0; traversed = 0; seen_edge = replicate nv false } in
      Ends-if (not (err == 0)) _ _ (λ h. (rejected err, refl))
        (λ h.
          let (m, e, size) = check_edges-Sized edges blank (length-replicate {A = Bool} nv false) in
          let (after, f, g) =
            Yields-if MarksSized (m.err == 0) (check_vertices root tree nv 0 m) (some m)
              (λ z. check_vertices-Sized nv 0 m (omega arith) size) (λ z. gives _ m size) in
          (verdict after, rw (e, f) refl))

-- On a tree with a parent or none for each vertex up to `max_bfsvtx`, where the parents are such
-- vertices and no vertex but the root is its own parent, `verify_bfs_tree` answers: no access is
-- out of range, every loop ends and every assertion holds, whatever the edges.
pub verify_bfs_tree-Ends :
    (tree : List Vertex) (max_bfsvtx root : ℕ) (edges : List Edge)
    → TreeShape (max_bfsvtx + 1) root tree
    → Ends (verify_bfs_tree tree max_bfsvtx root edges)
unfolding verify_bfs_tree compute_levels
verify_bfs_tree-Ends tree max_bfsvtx root edges shape =
    let nv = max_bfsvtx + 1 in
    Ends-if (ltb max_bfsvtx root) _ _ (λ h. (rejected 999, refl))
      (λ h.
        Ends-bind (get_elem? tree root) _
          (Ends-read tree root (omega (arith, shape.size, shape.inside)))
          (λ parent f.
            Ends-if (not (same_vertex parent (some root))) _ _ (λ g. (rejected 999, refl))
              (λ g.
                let ((err, level), e, (size, sound)) =
                  level_vertices-Ends nv root tree shape nv 0 0 (first_levels nv 0 root)
                    (first_levels-Running nv root tree shape) (omega arith) in
                rw e (verify_levels-Ends nv root tree level shape.size size err edges))))
