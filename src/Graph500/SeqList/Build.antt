-- ===== src/Graph500/SeqList/Build.antt =====
-- `create_graph_from_edgelist` in trident-workloads/graph500/seq-list/seq-list.c: the lists of all edges.
use trident_micro21_artifact.Graph500.Csr.{Edge}
use trident_micro21_artifact.Btree.Array.Slots.{write-set}
use trident_micro21_artifact.Graph500.Csr.Degrees.{Below}
use mathlib.Core.Path.{subst}
use trident_micro21_artifact.Graph500.Csr.Scatter.{from_edge, from_pair}
use trident_micro21_artifact.Graph500.SeqList.{push_edge, Lists, end_at}
use trident_micro21_artifact.Graph500.Csr.PackRow.{with_row_self, with_row_other, with_row}
use trident_micro21_artifact.Graph500.SeqList.Push.{ListAt-map, push_end-Pushed, ListAt-set, Pushed}
use trident_micro21_artifact.Base.{
  ℕ, ◌+◌, ◌*◌, ◌/◌, ◌%◌, ◌<◌, ◌≡◌, refl, sym, ◌∙◌, ◌≢◌, ◌⊎◌, inl, inr, true, false, none, some,
  List, ◌∷◌, ◌++◌, arith, ◌==◌, length, get_elem?, get_or, set, length-set, eq-cases, ==-refl,
  ==-ne,
}

with_both :
    (adj : ℕ → List ℕ) (i j v : ℕ)
    → i ≢ j
    → with_row (with_row adj i (j ∷ adj i)) j (i ∷ with_row adj i (j ∷ adj i) j) v
      ≡ from_edge v (some i, some j) ++ adj v
unfolding from_edge from_pair
with_both adj i j v h = elim (eq-cases v j) [
  | inl e ↦
      let other = with_row_other adj i (j ∷ adj i) j (λ s. h (sym s)) in
      rw
        (
          e,
          with_row_self (with_row adj i (j ∷ adj i)) j (i ∷ with_row adj i (j ∷ adj i) j),
          other,
          ==-ne i j h,
          ==-ne j i (λ s. h (sym s)),
          ==-refl j,
        )
        refl
  | inr e ↦
      rw
        (
          with_row_other (with_row adj i (j ∷ adj i)) j (i ∷ with_row adj i (j ∷ adj i) j) v e,
          ==-ne i j h,
          ==-ne v j e,
        )
        (elim (eq-cases v i) [
          | inl s ↦ rw (s, with_row_self adj i (j ∷ adj i), ==-refl i) refl
          | inr s ↦ rw (with_row_other adj i (j ∷ adj i) v s, ==-ne v i s) refl
        ])
]

end_at-second :
    (all : List Edge) (k i j : ℕ)
    → get_elem? all k ≡ some (some i, some j)
    → end_at all (2 * k + 1) ≡ some (some j)
unfolding end_at
end_at-second all k i j e =
    let half : (2 * k + 1) / 2 ≡ k = omega arith in
    let odd : ((2 * k + 1) % 2 == 0) ≡ false = ground arith in rw (half, e, odd) refl

end_at-first :
    (all : List Edge) (k i j : ℕ)
    → get_elem? all k ≡ some (some i, some j)
    → end_at all (2 * k) ≡ some (some i)
unfolding end_at
end_at-first all k i j e =
    let half : 2 * k / 2 ≡ k = omega arith in
    let even : (2 * k % 2 == 0) ≡ true = ground arith in rw (half, e, even) refl

module _ (all : List Edge) (nv : ℕ) where
  abbrev pub Held : ℕ → (ℕ → List ℕ) → Lists → Type 0
  Held bound = Pushed all nv (λ t. t < bound)

  cleared-Pushed :
      (used : ℕ → Type 0) (adj : ℕ → List ℕ) (t : ℕ) (g : Lists)
      → (used t → ⊥)
      → Pushed all nv used adj g
      → Pushed all nv used adj record g { next = set g.next t none }
  cleared-Pushed used adj t g free s = record {
    edges_kept = s.edges_kept;
    nv_kept = s.nv_kept;
    head_size = s.head_size;
    deg_size = s.deg_size;
    next_size = length-set g.next t none ∙ s.next_size;
    lists = λ v less.
        ListAt-set all g.next used t none free (adj v) (get_or g.head v none) (s.lists v less);
  }

  wider-Pushed :
      (used wider : ℕ → Type 0) (adj : ℕ → List ℕ) (g : Lists)
      → ((t : ℕ) → used t → wider t)
      → Pushed all nv used adj g
      → Pushed all nv wider adj g
  wider-Pushed used wider adj g f s = record {
    edges_kept = s.edges_kept;
    nv_kept = s.nv_kept;
    head_size = s.head_size;
    deg_size = s.deg_size;
    next_size = s.next_size;
    lists = λ v less.
        ListAt-map all g.next used wider f (adj v) (get_or g.head v none) (s.lists v less);
  }

  push_pair :
      (k i j : ℕ) (adj : ℕ → List ℕ) (g : Lists)
      → Held (2 * k) adj g
      → k < length all
      → get_elem? all k ≡ some (some i, some j)
      → i < nv
      → j < nv
      → i ≢ j
      → (after : Lists) × (push_edge k (some i, some j) g ≡ some after)
        × Held (2 * (k + 1)) (λ v. from_edge v (some i, some j) ++ adj v) after
  unfolding push_edge
  push_pair k i j adj g s less e in_i in_j ne =
      let below : ℕ → Type 0 = λ t. t < 2 * k in
      let mid : ℕ → Type 0 = λ t. (t < 2 * k) ⊎ (t ≡ 2 * k + 1) in
      let upto : ℕ → Type 0 = λ t. t < 2 * (k + 1) in
      let once = cleared-Pushed below adj (2 * k) g (λ h. omega arith) s in
      let one_set = set g.next (2 * k) none in
      let twice =
        cleared-Pushed below adj (1 + 2 * k) record g { next = one_set } (λ h. omega arith) once in
      let two_set = set one_set (1 + 2 * k) none in
      let (one, e_one, s_one) =
        push_end-Pushed all nv below mid adj i (2 * k + 1) j record g { next = two_set } twice in_i
          (omega arith) (λ h. omega arith) (λ t h. inl h) (inr refl) (end_at-second all k i j e) in
      let (two, e_two, s_two) =
        push_end-Pushed all nv mid upto (with_row adj i (j ∷ adj i)) j (2 * k) i one s_one in_j
          (omega arith) (λ h. elim h [ inl l ↦ omega arith | inr l ↦ omega arith ])
          (λ t h. elim h [ inl l ↦ omega arith | inr l ↦ omega arith ]) (omega arith)
          (end_at-first all k i j e) in
      (
        two,
        rw
            (
              ==-ne i j ne,
              write-set g.next (2 * k) none (omega (arith, s.next_size)),
              write-set one_set (1 + 2 * k) none (omega (arith, once.next_size)),
              e_one,
            )
            e_two,
        subst (λ a. Held (2 * (k + 1)) a two) (λ x. λ v. with_both adj i j v ne x) s_two,
      )

  pub push_edge-Pushed :
      (k : ℕ) (e : Edge) (adj : ℕ → List ℕ) (g : Lists)
      → Held (2 * k) adj g
      → k < length all
      → get_elem? all k ≡ some e
      → Below nv (e.0)
      → Below nv (e.1)
      → (after : Lists) × (push_edge k e g ≡ some after)
        × Held (2 * (k + 1)) (λ v. from_edge v e ++ adj v) after
  unfolding push_edge from_edge
  push_edge-Pushed k (none, j) adj g s less e in_i in_j =
      (g, refl, wider-Pushed _ _ adj g (λ t h. omega arith) s)
  push_edge-Pushed k (some i, none) adj g s less e in_i in_j =
      (g, refl, wider-Pushed _ _ adj g (λ t h. omega arith) s)
  push_edge-Pushed k (some i, some j) adj g s less e in_i in_j = elim (eq-cases i j) [
    | inl same ↦ rw (same, ==-refl j) (g, refl, wider-Pushed _ _ adj g (λ t h. omega arith) s)
    | inr ne ↦ push_pair k i j adj g s less e in_i in_j ne
  ]
