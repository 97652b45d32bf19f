-- ===== src/Graph500/Verify/Edges.antt =====
-- The loop over the edges in `verify_bfs_tree` of trident-workloads/graph500/verify.c.
use mathlib.Core.Bool.{true≢false}
use mathlib.Core.Path.{subst}
use trident_micro21_artifact.Btree.Array.{◌>>=◌}
use trident_micro21_artifact.Btree.Array.{write}
use mathlib.Core.Option.{some-injective, none-ne-some}
use trident_micro21_artifact.Graph500.Bfs.State.{is_set}
use trident_micro21_artifact.Graph500.Verify.Levels.{Holds, Holds-if, Holds-map, Holds-bind}
use trident_micro21_artifact.Graph500.Csr.{same_vertex, Vertex, Edge}
use trident_micro21_artifact.Graph500.Verify.{
  side_error, mark, tree_error, Level, Marks, plus_one, check_ends, check_edge,
}
use trident_micro21_artifact.Base.{
  ℕ, zero, suc, ◌+◌, ◌≤◌, ◌<◌, ◌≡◌, refl, sym, ap, ◌∙◌, ◌≢◌, ◌↔◌, ◌⊎◌, inl, inr, Bool, true, false,
  not, ◌||◌, none, some, List, [], ◌∷◌, arith, ltb, leb, ◌==◌, if◌then◌else◌, ==_iff, length,
  get_elem?, get_or, get_or-set_ne, eq-cases,
}

pub get_or-get_elem? {ℓ} :
    {A : Type ℓ} (xs : List A) (i : ℕ) (a d : A) → get_elem? xs i ≡ some a → get_or xs i d ≡ a
get_or-get_elem? [] i a d e = absurd (none-ne-some a e)
get_or-get_elem? (x ∷ xs) zero a d e = some-injective x a e
get_or-get_elem? (x ∷ xs) (suc i) a d e = get_or-get_elem? xs i a d e

abbrev pub parent_of : List Vertex → ℕ → Vertex
parent_of tree v = get_or tree v none

abbrev pub height_of : List Level → ℕ → ℕ
height_of level v = plus_one (get_or level v none)

pub same_vertex-some :
    (parent : Vertex) (j : ℕ) → same_vertex parent (some j) ≡ true → parent ≡ some j
unfolding same_vertex
same_vertex-some none j h = cc
same_vertex-some (some i) j h = ap (λ n. some n) ((==_iff i j).0 h)

-- An edge that the check finds nothing wrong with.
pub record Fine (nv : ℕ) (tree : List Vertex) (level : List Level) (i j : ℕ) : Type 0 where
  pub side : (i < nv) ↔ (j < nv)
  pub together : i < nv → is_set (parent_of tree i) ≡ is_set (parent_of tree j)
  pub near :
      i < nv
      → is_set (parent_of tree i) ≡ true
      → (height_of level i ≤ height_of level j + 1) × (height_of level j ≤ height_of level i + 1)

abbrev pub FineEdge : ℕ → List Vertex → List Level → Edge → Type 0
FineEdge nv tree level (some i, some j) = Fine nv tree level i j
FineEdge nv tree level _ = Unit {0}

-- The edge from a vertex to its parent.
abbrev pub UpEdge : List Vertex → ℕ → Edge → Type 0
UpEdge tree k e =
    (p : ℕ) × (parent_of tree k ≡ some p)
    × (k ≢ p)
    × (((some k, some p) ≡ e) ⊎ ((some p, some k) ≡ e))

abbrev pub Seen : List Bool → ℕ → Type 0
Seen seen k = get_or seen k false ≡ true

pub side_error-zero :
    (nv i j err : ℕ) → side_error nv i j err ≡ 0 → (err ≡ 0) × ((i < nv) ↔ (j < nv))
unfolding side_error
side_error-zero nv i j err h = ground arith

tree_error-zero : (a b : Bool) → tree_error a b ≡ 0 → a ≡ b
unfolding tree_error
tree_error-zero true true h = refl
tree_error-zero true false h = absurd (omega arith)
tree_error-zero false true h = absurd (omega arith)
tree_error-zero false false h = refl

not_in : (half : ℕ) (b : Bool) → half ≡ 0 → (not (half == 0) || not b) ≡ true → b ≡ false
not_in half true q h = ground arith
not_in half false q h = refl

mark-Seen :
    (parent : Vertex) (i j : ℕ) (seen : List Bool)
    → Holds
        (λ after. (k : ℕ) → Seen after k → Seen seen k ⊎ ((k ≡ i) × (parent ≡ some j)))
        (mark parent i j seen)
unfolding mark write
mark-Seen parent i j seen =
    Holds-if _ (same_vertex parent (some j)) _ _
      (λ s.
        Holds-if _ (ltb i (length seen)) _ none
          (λ h k m. elim (eq-cases k i) [
            | inl e ↦ inr (e, same_vertex-some parent j s)
            | inr ne ↦ inl (sym (get_or-set_ne seen i k true false (λ e. ne (sym e))) ∙ m)
          ])
          (λ h. tt))
      (λ s k m. inl m)

near_lem :
    (a b : Level)
    → ◌≡◌ {A = ℕ}
        (if ltb (plus_one b + 1) (plus_one a) || ltb (plus_one a + 1) (plus_one b) then 14 else 0)
        0
    → (plus_one a ≤ plus_one b + 1) × (plus_one b ≤ plus_one a + 1)
near_lem a b h = ground arith

-- What the loop has found where it leaves no error.
abbrev pub Passed : (Type 0) → (ℕ → Type 0) → Marks → Marks → Type 0
Passed fine up m after =
    after.err ≡ 0
    → (m.err ≡ 0) × fine × ((k : ℕ) → Seen after.seen_edge k → Seen m.seen_edge k ⊎ up k)

module _ (nv : ℕ) (tree : List Vertex) (level : List Level) where
  mark_both :
      (i j : ℕ) (seen : List Bool)
      → i ≢ j
      → Holds
          (λ after. (k : ℕ) → Seen after k → Seen seen k ⊎ UpEdge tree k (some i, some j))
          (do seen ← mark (parent_of tree i) i j seen; mark (parent_of tree j) j i seen)
  mark_both i j seen ne = Holds-bind _ (mark (parent_of tree i) i j seen) _ (λ one e.
      Holds-map
        (λ after two k m. elim (two k m) [
          | inr (s, p) ↦ inr (
            i,
            ap (parent_of tree) s ∙ p,
            λ e. ne (sym (sym s ∙ e)),
            inr (ap (λ n. (some i, some n)) s),
          )
          | inl old ↦ elim (subst (Holds _) e (mark-Seen (parent_of tree i) i j seen) k old) [
            | inr (s, p) ↦ inr (
              j,
              ap (parent_of tree) s ∙ p,
              λ e. ne (sym s ∙ e),
              inl (ap (λ n. (some n, some j)) s),
            )
            | inl older ↦ inl older
          ]
        ])
        (mark (parent_of tree j) j i one) (mark-Seen (parent_of tree j) j i one))

  check_ends-Passed :
      (i j : ℕ) (m : Marks)
      → m.err ≡ 0
      → i < nv
      → j < nv
      → is_set (parent_of tree i) ≡ is_set (parent_of tree j)
      → Holds
          (Passed (Fine nv tree level i j) (λ k. UpEdge tree k (some i, some j)) m)
          (check_ends i j (parent_of tree i) (parent_of tree j) level m)
  unfolding check_ends
  check_ends-Passed i j m none_yet in_i in_j both =
      Holds-bind _
        (if i == j then some m.seen_edge else (do
          seen ← mark (parent_of tree i) i j m.seen_edge
          mark (parent_of tree j) j i seen))
        _
        (λ seen e.
          let marked_lem = subst (Holds _) e (
            Holds-if
              (λ after.
                (k : ℕ) → Seen after k → Seen m.seen_edge k ⊎ UpEdge tree k (some i, some j))
              (i == j) (some m.seen_edge) _ (λ s k old. inl old)
              (λ s. mark_both i j m.seen_edge (λ same. ground arith))) in
          Holds-bind _ (get_elem? level i) _ (λ level_i f.
            Holds-bind _ (get_elem? level j) _ (λ level_j g q.
              let hi : get_or level i none ≡ level_i = get_or-get_elem? level i level_i none f in
              let hj : get_or level j none ≡ level_j = get_or-get_elem? level j level_j none g in
              let (le_i, le_j) = near_lem level_i level_j q in
              (
                none_yet,
                record {
                  side = (λ h. in_j, λ h. in_i);
                  together = λ h. both;
                  near = λ h t. rw (hi, hj) (le_i, le_j);
                },
                marked_lem,
              ))))

  outside_lem :
      (i j : ℕ) (m : Marks) (side : ℕ)
      → side ≡ side_error nv i j m.err
      → (not (side == 0) || leb nv i) ≡ true
      → Passed
          (Fine nv tree level i j)
          (λ k. UpEdge tree k (some i, some j))
          m
          record m { err = side }
  outside_lem i j m side e h q =
      let (none_yet, same) = side_error-zero nv i j m.err (sym e ∙ q) in
      let out : nv ≤ i = ground arith in
      (
        none_yet,
        record {
          side = same;
          together = λ less. absurd (omega arith);
          near = λ less. absurd (omega arith);
        },
        λ k s. inl s,
      )

  pub check_edge-Passed :
      (e : Edge) (m : Marks)
      → Holds
          (Passed (FineEdge nv tree level e) (λ k. UpEdge tree k e) m)
          (check_edge nv tree level e m)
  unfolding check_edge
  check_edge-Passed (none, j) m = λ q. (q, tt, λ k s. inl s)
  check_edge-Passed (some i, none) m = λ q. (q, tt, λ k s. inl s)
  check_edge-Passed (some i, some j) m =
      let P = Passed (Fine nv tree level i j) (λ k. UpEdge tree k (some i, some j)) m in
      let side = side_error nv i j m.err in
      Holds-if P (not (side == 0) || leb nv i) _ _ (outside_lem i j m side refl) (λ h.
        let no_error : side ≡ 0 = ground arith in
        let in_i : i < nv = ground arith in
        let (none_yet, same) = side_error-zero nv i j m.err no_error in
        Holds-bind P (get_elem? tree i) _ (λ parent_i f.
          Holds-bind P (get_elem? tree j) _ (λ parent_j g.
            let pi = get_or-get_elem? tree i parent_i none f in
            let pj = get_or-get_elem? tree j parent_j none g in
            let half = tree_error (is_set parent_i) (is_set parent_j) in
            Holds-if P (not (half == 0) || not (is_set parent_i)) _ _
              (λ u q.
                let both = tree_error-zero (is_set parent_i) (is_set parent_j) q in
                let out = not_in half (is_set parent_i) q u in
                (
                  none_yet,
                  record {
                    side = same;
                    together = λ less. rw (pi, pj) both;
                    near = λ less t. absurd (true≢false (sym t ∙ ap is_set pi ∙ out));
                  },
                  λ k s. inl s,
                ))
              (λ u.
                let both = tree_error-zero (is_set parent_i) (is_set parent_j) (ground arith) in
                rw (sym pi, sym pj)
                  (check_ends-Passed i j m none_yet in_i (same.0 in_i) (rw (pi, pj) both))))))
