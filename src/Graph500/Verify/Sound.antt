-- ===== src/Graph500/Verify/Sound.antt =====
-- `verify_bfs_tree` in trident-workloads/graph500/verify.c: what a tree is that passes the check.
use mathlib.Core.Bool.{true≢false}
use trident_micro21_artifact.Graph500.Verify.Assign.{Has, level_unique}
use mathlib.Core.Path.{subst}
use trident_micro21_artifact.Graph500.Csr.Links.{Linked}
use trident_micro21_artifact.Graph500.Verify.Levels.{
  Leveled, is_set-some, Holds-bind, Holds, Holds-if, Holds-map, compute_levels-Leveled, LevelsSound,
}
use trident_micro21_artifact.Graph500.Verify.Edges.{
  get_or-get_elem?, height_of, parent_of, Fine, Seen, Passed, same_vertex-some,
}
use trident_micro21_artifact.Graph500.Bfs.State.{is_set}
use trident_micro21_artifact.Graph500.Verify.{
  Level, plus_one, Marks, accepted, check_edges, Verdict, verify_levels, verdict, check_vertices,
  rejected, verify_bfs_tree, compute_levels,
}
use trident_micro21_artifact.Graph500.Csr.{Vertex, Edge, same_vertex}
use trident_micro21_artifact.Graph500.Verify.Loops.{
  AllFine, check_edges-Passed, UpIn, check_vertices-Cleared, Cleared,
}
use mathlib.Core.Option.{none-ne-some, some-injective}
use mathlib.Core.List.{Memᴰ}
use trident_micro21_artifact.Base.{
  ℕ, zero, suc, ◌+◌, ◌≤◌, ◌<◌, ◌≡◌, refl, sym, ap, ◌∙◌, ◌≢◌, ◌↔◌, ◌⊎◌, inl, inr, Bool, true, false,
  not, none, some, List, [], ◌∷◌, arith, ltb, ◌==◌, if◌then◌else◌, ltb-false→le, ==_iff, Bool-cases,
  get_elem?, set, replicate, get_or-replicate,
}

-- A walk along edges, with its length.
pub data Walk (edges : List Edge) (src : ℕ) : ℕ → ℕ → Type 0 where
  stay : Walk edges src 0 src
  step_to : {n u v : ℕ} → Walk edges src n u → Linked edges u v → Walk edges src (suc n) v

record Checked (nv root : ℕ) (edges : List Edge) (tree : List Vertex) (level : List Level)
    : Type 0 where
  inside : root < nv
  at_root : parent_of tree root ≡ some root
  leveled : Leveled nv root tree nv level
  fine : AllFine nv root tree level edges
  up : (v p : ℕ) → v < nv → v ≢ root → parent_of tree v ≡ some p → Linked edges v p

-- The tree spans the vertices that edges connect to its root, on shortest walks.
pub record IsBfsTree (nv root : ℕ) (edges : List Edge) (tree : List Vertex) : Type 0 where
  pub root_parent : parent_of tree root ≡ some root
  pub spans :
      (v : ℕ) → v < nv → (is_set (parent_of tree v) ≡ true) ↔ ((n : ℕ) × Walk edges root n v)
  pub shortest :
      (v p : ℕ)
      → v < nv
      → v ≢ root
      → parent_of tree v ≡ some p
      → (n : ℕ) × Walk edges root n p
        × Linked edges p v
        × ((k : ℕ) → Walk edges root k v → suc n ≤ k)

Linked-sym : (edges : List Edge) (v w : ℕ) → Linked edges v w → Linked edges w v
Linked-sym edges v w (ne, inl m) = (λ e. ne (sym e), inr m)
Linked-sym edges v w (ne, inr m) = (λ e. ne (sym e), inl m)

parent_at :
    (tree : List Vertex) (v p : ℕ) → parent_of tree v ≡ some p → get_elem? tree v ≡ some (some p)
parent_at [] v p e = absurd (none-ne-some p e)
parent_at (x ∷ xs) zero p e = ap (λ o. some o) e
parent_at (x ∷ xs) (suc v) p e = parent_at xs v p e

module _ (nv root : ℕ) (edges : List Edge) (tree : List Vertex) (level : List Level)
    (c : Checked nv root edges tree level) where
  Linked-Fine : (u v : ℕ) → Linked edges u v → Fine nv tree level u v ⊎ Fine nv tree level v u
  Linked-Fine u v (ne, inl m) = inl (c.fine (some u, some v) m)
  Linked-Fine u v (ne, inr m) = inr (c.fine (some v, some u) m)

  height_at : (v l : ℕ) → Has level v l → height_of level v ≡ l + 1
  unfolding plus_one
  height_at v l m = ap plus_one (get_or-get_elem? level v (some l) none m)

  has_level : (v : ℕ) → v < nv → is_set (parent_of tree v) ≡ true → (l : ℕ) × Has level v l
  has_level v less s =
      let (p, e) = is_set-some (parent_of tree v) s in
      c.leveled.covered v p less (parent_at tree v p e)

  -- The ends of an edge from a vertex of the tree.
  across :
      (u v a : ℕ)
      → Linked edges u v
      → u < nv
      → is_set (parent_of tree u) ≡ true
      → Has level u a
      → (v < nv) × (is_set (parent_of tree v) ≡ true) × ((b : ℕ) × Has level v b × (b ≤ a + 1))
  across u v a l less s m = elim (Linked-Fine u v l) [
    | inl f ↦
        let less_v = f.side.0 less in
        let set_v = sym (f.together less) ∙ s in
        let (b, n) = has_level v less_v set_v in
        (less_v, set_v, (b, n, omega (arith, (f.near less s).1, height_at u a m, height_at v b n)))
    | inr f ↦
        let less_v = f.side.1 less in
        let set_v = f.together less_v ∙ s in
        let (b, n) = has_level v less_v set_v in
        (
          less_v,
          set_v,
          (b, n, omega (arith, (f.near less_v set_v).0, height_at u a m, height_at v b n)),
        )
  ]

  Walk-level :
      {n v : ℕ}
      → Walk edges root n v
      → (v < nv) × (is_set (parent_of tree v) ≡ true) × ((l : ℕ) × Has level v l × (l ≤ n))
  Walk-level stay = (c.inside, ap is_set c.at_root, (0, c.leveled.root_level, omega arith))
  Walk-level (step_to {n} {u} {v} w l) =
      let (less, set, (a, m, le)) = Walk-level w in
      let (less_v, set_v, (b, k, le_b)) = across u v a l less set m in
      (less_v, set_v, (b, k, omega arith))

  level-Walk : (l v : ℕ) → v < nv → Has level v l → Walk edges root l v
  level-Walk zero v less m = elim (c.leveled.steps v 0 m) [
    | inl (e, f) ↦ subst (Walk edges root 0) (sym e) stay
    | inr (p, b, e, f, g) ↦ absurd (omega arith)
  ]
  level-Walk (suc l) v less m = elim (c.leveled.steps v (suc l) m) [
    | inl (e, f) ↦ absurd (omega arith)
    | inr (p, b, e, f, g) ↦
        let up =
          c.up v p less
            (λ s. omega (
              arith,
              level_unique level root (suc l) 0 (subst (λ n. Has level n (suc l)) s m)
                  c.leveled.root_level,
            ))
            (get_or-get_elem? tree v (some p) none e) in
        let set_v = ap is_set (get_or-get_elem? tree v (some p) none e) in
        let (less_p, set_p, rest) = across v p (suc l) up less set_v m in
        let w = level-Walk l p less_p (subst (Has level p) (omega arith) f) in
        step_to w (Linked-sym edges v p up)
  ]

  nearest :
      (v p : ℕ)
      → v < nv
      → v ≢ root
      → parent_of tree v ≡ some p
      → (n : ℕ) × Walk edges root n p
        × Linked edges p v
        × ((k : ℕ) → Walk edges root k v → suc n ≤ k)
  nearest v p less ne e =
      let up = c.up v p less ne e in
      let set_v = ap is_set e in
      let (l, m) = has_level v less set_v in
      let (less_p, set_p, rest) = across v p l up less set_v m in
      elim (c.leveled.steps v l m) [
        | inl (s, f) ↦ absurd (ne s)
        | inr (q, b, f, h, g) ↦
            let same : q ≡ p =
              some-injective q p (sym (get_or-get_elem? tree v (some q) none f) ∙ e) in
            (
              b,
              level-Walk b p less_p (subst (λ n. Has level n b) same h),
              Linked-sym edges v p up,
              λ k w.
                  let (in_v, set, (d, own, le)) = Walk-level w in
                  omega (arith, level_unique level v l d m own),
            )
      ]

  Checked-IsBfsTree : IsBfsTree nv root edges tree
  Checked-IsBfsTree = record {
    root_parent = c.at_root;
    spans = λ v less. (
      λ s. let (l, m) = has_level v less s in (l, level-Walk l v less m),
      λ (n, w). (Walk-level w).1,
    );
    shortest = nearest;
  }

Accepts : ℕ → ℕ → List Edge → List Vertex → Verdict → Type 0
Accepts nv root edges tree v = (n : ℕ) → v ≡ accepted n → IsBfsTree nv root edges tree

is_accepted : Verdict → Bool
is_accepted (accepted n) = true
is_accepted (rejected e) = false

rejected-accepted : (e n : ℕ) → rejected e ≢ accepted n
unfolding is_accepted
rejected-accepted e n s = true≢false (sym (ap is_accepted s))

verdict-zero : (m : Marks) (n : ℕ) → verdict m ≡ accepted n → m.err ≡ 0
unfolding verdict
verdict-zero m n e = elim (Bool-cases (m.err == 0)) [
  | inl z ↦ (==_iff m.err 0).0 z
  | inr z ↦ absurd (rejected-accepted m.err n (rw z at e))
]

-- A mark that the loop over the edges has set is an edge to the parent.
seen_link :
    (nv : ℕ) (edges : List Edge) (tree : List Vertex) (v p : ℕ)
    → parent_of tree v ≡ some p
    → Seen (replicate nv false) v ⊎ UpIn nv 0 tree [] edges v
    → Linked edges v p
seen_link nv edges tree v p u (inl s) =
    absurd (true≢false (sym s ∙ get_or-replicate {A = Bool} nv v false))
seen_link nv edges tree v p u (inr (e, m, (q, f, ne, l))) =
    let same : q ≡ p = some-injective q p (sym f ∙ u) in
    subst (Linked edges v) same (
      ne,
      elim l [
        | inl s ↦ inl (subst (λ d. Memᴰ d edges) (sym s) m)
        | inr s ↦ inr (subst (λ d. Memᴰ d edges) (sym s) m)
      ],
    )

vertices_lem :
    (nv root : ℕ) (tree : List Vertex) (level : List Level) (m after : Marks)
    → (if m.err == 0 then check_vertices root tree nv 0 m else some m) ≡ some after
    → after.err ≡ 0
    → (m.err ≡ 0) × ((v : ℕ) → v < nv → Cleared nv root tree level v m)
vertices_lem nv root tree level m after g =
    let Q : Marks → Type 0 =
      λ a. a.err ≡ 0 → (m.err ≡ 0) × ((v : ℕ) → v < nv → Cleared nv root tree level v m) in
    subst (Holds Q) g (
      Holds-if Q (m.err == 0) _ _
        (λ h.
          Holds-map
            (λ a f q. let (z, clear) = f q in (z, λ v less. clear v (omega arith) (omega arith)))
            (check_vertices root tree nv 0 m) (check_vertices-Cleared nv root tree level nv 0 m))
        (λ h q. absurd (ground arith)))

verify_levels-Accepts :
    (nv root err : ℕ) (tree : List Vertex) (edges : List Edge) (level : List Level)
    → root < nv
    → parent_of tree root ≡ some root
    → (err ≡ 0 → Leveled nv root tree nv level)
    → Holds (Accepts nv root edges tree) (verify_levels nv root tree edges (err, level))
unfolding verify_levels Accepts verdict
verify_levels-Accepts nv root err tree edges level inside at_root sound =
    let P = Accepts nv root edges tree in
    let blank : Marks = record { err = 0; traversed = 0; seen_edge = replicate nv false } in
    Holds-if P (not (err == 0)) _ _ (λ h n e. absurd (rejected-accepted err n e))
      (λ h.
        let leveled = sound (ground arith) in
        Holds-bind P (check_edges nv tree level edges blank) _ (λ m f.
          Holds-bind P (if m.err == 0 then check_vertices root tree nv 0 m else some m) _
            (λ after g n e.
              let no_error = verdict-zero after n e in
              let (none_m, clear) = vertices_lem nv root tree level m after g no_error in
              let (none_yet, fine, seen) =
                subst
                  (Holds (
                    Passed (AllFine nv root tree level edges) (UpIn nv root tree level edges)
                      blank))
                  f (check_edges-Passed nv root tree level edges blank) none_m in
              Checked-IsBfsTree nv root edges tree level record {
                inside = inside;
                at_root = at_root;
                leveled = leveled;
                fine = fine;
                up = λ v p less ne u.
                    seen_link nv edges tree v p u (seen v (clear v less ne (ap is_set u)));
              })))

-- A tree that `verify_bfs_tree` accepts is a breadth-first search tree of the edges among the
-- vertices up to `max_bfsvtx`: the root is its own parent, a vertex has a parent exactly if a walk
-- along edges leads to it from the root, and every other vertex of the tree has an edge from its
-- parent, on a walk as short as any.
pub verify_bfs_tree-IsBfsTree :
    (tree : List Vertex) (max_bfsvtx root n : ℕ) (edges : List Edge)
    → verify_bfs_tree tree max_bfsvtx root edges ≡ some (accepted n)
    → IsBfsTree (max_bfsvtx + 1) root edges tree
unfolding verify_bfs_tree Accepts
verify_bfs_tree-IsBfsTree tree max_bfsvtx root n edges =
    let nv = max_bfsvtx + 1 in
    let P = Accepts nv root edges tree in
    let all : Holds P (verify_bfs_tree tree max_bfsvtx root edges) =
      Holds-if P (ltb max_bfsvtx root) _ _ (λ h k e. absurd (rejected-accepted 999 k e))
        (λ h. Holds-bind P (get_elem? tree root) _ (λ parent f.
          Holds-if P (not (same_vertex parent (some root))) _ _
            (λ g k e. absurd (rejected-accepted 999 k e))
            (λ g. Holds-bind P (compute_levels nv tree root) _ (λ (err, level) c.
              let inside : root < nv = omega (arith, ltb-false→le max_bfsvtx root h) in
              verify_levels-Accepts nv root err tree edges level inside
                (get_or-get_elem? tree root parent none f
                  ∙ same_vertex-some parent root (ground arith))
                (subst (Holds (LevelsSound nv root tree nv)) c
                  (compute_levels-Leveled nv root tree inside)))))) in
    λ e. subst (Holds P) e all n refl
