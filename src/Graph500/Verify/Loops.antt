-- ===== src/Graph500/Verify/Loops.antt =====
-- The two loops of `verify_bfs_tree` in trident-workloads/graph500/verify.c, over the edges and the
-- vertices.
use trident_micro21_artifact.Graph500.Bfs.State.{is_set}
use mathlib.Core.Path.{subst}
use trident_micro21_artifact.Graph500.Verify.Edges.{
  UpEdge, Seen, parent_of, FineEdge, Passed, get_or-get_elem?, check_edge-Passed,
}
use trident_micro21_artifact.Graph500.Csr.{Vertex, Edge, same_vertex}
use trident_micro21_artifact.Graph500.Verify.Levels.{Holds-map, Holds, Holds-if, Holds-bind}
use trident_micro21_artifact.Graph500.Verify.{
  Marks, Level, check_edges, check_vertices, check_vertex, check_edge,
}
use mathlib.Core.List.{Memᴰ}
use mathlib.Core.List.Memᴰ
use trident_micro21_artifact.Base.{
  ℕ, zero, suc, ◌+◌, ◌≤◌, ◌<◌, ◌≡◌, refl, sym, ap, ◌∙◌, ◌≢◌, inl, inr, Bool, true, false, not, ◌||◌,
  none, some, List, [], ◌∷◌, arith, ◌==◌, if◌then◌else◌, get_elem?, le-cases,
}

unseen_lem :
    (own seen : Bool) → ◌≡◌ {A = ℕ} (if own then 16 else if seen then 0 else 15) 0 → seen ≡ true
unseen_lem true seen q = absurd (omega arith)
unseen_lem false true q = refl
unseen_lem false false q = absurd (omega arith)

module _ (nv root : ℕ) (tree : List Vertex) (level : List Level) where
  abbrev pub AllFine : List Edge → Type 0
  AllFine edges = (e : Edge) → Memᴰ e edges → FineEdge nv tree level e

  abbrev pub UpIn : List Edge → ℕ → Type 0
  UpIn edges k = (e : Edge) × Memᴰ e edges × UpEdge tree k e

  pub check_edges-Passed :
      (edges : List Edge) (m : Marks)
      → Holds (Passed (AllFine edges) (UpIn edges) m) (check_edges nv tree level edges m)
  unfolding check_edges
  check_edges-Passed [] m = λ q. (q, λ e n. absurd (Memᴰ.not-nil n), λ k s. inl s)
  check_edges-Passed (e ∷ edges) m =
      Holds-bind (Passed (AllFine (e ∷ edges)) (UpIn (e ∷ edges)) m) (check_edge nv tree level e m)
        _
        (λ one f.
          Holds-map
            (λ after rest q.
              let (none_one, fine, seen) = rest q in
              let (none_yet, fine_e, seen_e) =
                subst (Holds (Passed (FineEdge nv tree level e) (λ k. UpEdge tree k e) m)) f
                  (check_edge-Passed nv tree level e m) none_one in
              (
                none_yet,
                λ d n. elim (Memᴰ.cases_cons n) [
                  | inl s ↦ subst (FineEdge nv tree level) (sym s) fine_e
                  | inr t ↦ fine d t
                ],
                λ k s. elim (seen k s) [
                  | inr (d, n, u) ↦ inr (d, Memᴰ.tail n, u)
                  | inl old ↦ elim (seen_e k old) [
                    | inl older ↦ inl older
                    | inr u ↦ inr (e, Memᴰ.head refl, u)
                  ]
                ],
              ))
            (check_edges nv tree level edges one) (check_edges-Passed edges one))

  abbrev pub Cleared : ℕ → Marks → Type 0
  Cleared k m = k ≢ root → is_set (parent_of tree k) ≡ true → Seen m.seen_edge k

  check_vertex-Cleared :
      (k : ℕ) (m : Marks)
      → Holds
          (λ after. after.err ≡ 0 → (m.err ≡ 0) × Cleared k m × (after.seen_edge ≡ m.seen_edge))
          (check_vertex root k tree m)
  unfolding check_vertex
  check_vertex-Cleared k m =
      Holds-if _ (not (m.err == 0) || k == root) _ _
        (λ h q. (q, λ ne s. absurd (ne (ground arith)), refl))
        (λ h. Holds-bind _ (get_elem? tree k) _ (λ parent f.
          Holds-bind _ (if is_set parent then get_elem? m.seen_edge k else some true) _ (λ seen g q.
            (
              ground arith,
              λ ne s.
                  let set = sym (ap is_set (get_or-get_elem? tree k parent none f)) ∙ s in
                  get_or-get_elem? m.seen_edge k seen false (rw set at g)
                  ∙ unseen_lem (same_vertex parent (some k)) seen q,
              refl,
            ))))

  pub check_vertices-Cleared :
      (rounds k : ℕ) (m : Marks)
      → Holds
          (λ after. after.err ≡ 0 → (m.err ≡ 0) × ((v : ℕ) → k ≤ v → v < k + rounds → Cleared v m))
          (check_vertices root tree rounds k m)
  unfolding check_vertices
  check_vertices-Cleared zero k m = λ q. (q, λ v h l. absurd (omega arith))
  check_vertices-Cleared (suc c) k m = Holds-bind _ (check_vertex root k tree m) _ (λ one f.
      Holds-map
        (λ after rest q.
          let (none_one, clear) = rest q in
          let (none_yet, clear_k, same) = subst (Holds _) f (check_vertex-Cleared k m) none_one in
          (
            none_yet,
            λ v h l. elim (le-cases k v h) [
              | inl e ↦ rw e clear_k
              | inr later ↦
                  subst (λ s. v ≢ root → is_set (parent_of tree v) ≡ true → Seen s v) same
                    (clear v later (omega arith))
            ],
          ))
        (check_vertices root tree c (k + 1) one) (check_vertices-Cleared c (k + 1) one))
