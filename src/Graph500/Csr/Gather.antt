-- ===== src/Graph500/Csr/Gather.antt =====
-- The scatter loop of `gather_edges` in trident-workloads/graph500/seq-csr/seq-csr.c over all edges.
use mathlib.Core.Path.{subst}
use mathlib.Core.List.{append-nil, append_assoc}
use trident_micro21_artifact.Graph500.Csr.Degrees.{AllInside, Below}
use trident_micro21_artifact.Graph500.Csr.Scatter.{
  scatter_edge-Scattered, added_other, added, Scattered, neighbours, added_self, from_pair,
  from_edge,
}
use trident_micro21_artifact.Btree.Array.{◌>>=◌}
use trident_micro21_artifact.Graph500.Csr.{scatter_edges, Edge, Csr, scatter_both, scatter_edge}
use trident_micro21_artifact.Base.{
  ℕ, ◌+◌, ◌≤◌, ◌<◌, ◌≡◌, refl, sym, ◌≢◌, inl, inr, none, some, List, [], ◌∷◌, ◌++◌, arith, length,
  length-append, eq-cases, ==-refl, ==-ne,
}

from_pair-added :
    (adj : ℕ → List ℕ) (i j v : ℕ) → i ≢ j → added (added adj i j) j i v ≡ adj v ++ from_pair v i j
unfolding from_pair
from_pair-added adj i j v h = elim (eq-cases v j) [
  | inl e ↦
      rw
        (
          e,
          added_self (added adj i j) j i,
          added_other adj i j j (λ s. h (sym s)),
          ==-ne j i (λ s. h (sym s)),
          ==-refl j,
        )
        refl
  | inr e ↦
      rw (added_other (added adj i j) j i v e, ==-ne v j e)
        (elim (eq-cases v i) [
          | inl s ↦ rw (s, added_self adj i j, ==-refl i) refl
          | inr s ↦ rw (added_other adj i j v s, ==-ne v i s) (sym (append-nil (adj v)))
        ])
]

length-from_pair :
    (i j : ℕ) → i ≢ j → (length (from_pair i i j) ≡ 1) × (length (from_pair j i j) ≡ 1)
unfolding from_pair
length-from_pair i j h = (rw (==-refl i) refl, rw (==-refl j, ==-ne j i (λ s. h (sym s))) refl)

from_edge-pair : (v i j : ℕ) → i ≢ j → from_edge v (some i, some j) ≡ from_pair v i j
unfolding from_edge
from_edge-pair v i j h = rw (==-ne i j h) refl

abbrev pub joined : (ℕ → List ℕ) → List Edge → ℕ → List ℕ
joined adj edges v = adj v ++ neighbours v edges

module _ (first cap : ℕ → ℕ) (nv : ℕ) (apart : (v w : ℕ) → v < w → first v + cap v ≤ first w) where
  abbrev Fill : (ℕ → List ℕ) → Csr → Type 0
  Fill = Scattered first cap nv apart

  pair-Scattered :
      (adj : ℕ → List ℕ) (i j : ℕ) (g : Csr)
      → Fill adj g
      → i < nv
      → j < nv
      → i ≢ j
      → ((v : ℕ) → v < nv → length (adj v) + length (from_pair v i j) ≤ cap v)
      → (next : Csr) × ((do g ← scatter_edge i j g; scatter_edge j i g) ≡ some next)
        × Fill (λ v. adj v ++ from_pair v i j) next
  pair-Scattered adj i j g s in_i in_j differ spare =
      let (len_i, len_j) = length-from_pair i j differ in
      let (one, e_one, s_one) =
        scatter_edge-Scattered first cap nv apart adj i j g s in_i (omega (arith, spare i in_i)) in
      let (two, e_two, s_two) =
        scatter_edge-Scattered first cap nv apart (added adj i j) j i one s_one in_j
          (rw (added_other adj i j j (λ e. differ (sym e))) (omega (arith, spare j in_j))) in
      (
        two,
        rw e_one e_two,
        subst (λ a. Fill a two) (λ t. λ v. from_pair-added adj i j v differ t) s_two,
      )

  unchanged : (adj : ℕ → List ℕ) (g : Csr) → Fill adj g → Fill (λ v. adj v ++ []) g
  unchanged adj g s = subst (λ a. Fill a g) (λ t. λ v. sym (append-nil (adj v)) t) s

  both-Scattered :
      (adj : ℕ → List ℕ) (e : Edge) (g : Csr)
      → Fill adj g
      → Below nv (e.0)
      → Below nv (e.1)
      → ((v : ℕ) → v < nv → length (adj v) + length (from_edge v e) ≤ cap v)
      → (next : Csr) × (scatter_both e g ≡ some next) × Fill (λ v. adj v ++ from_edge v e) next
  unfolding scatter_both from_edge
  both-Scattered adj (none, j) g s in_i in_j spare = (g, refl, unchanged adj g s)
  both-Scattered adj (some i, none) g s in_i in_j spare = (g, refl, unchanged adj g s)
  both-Scattered adj (some i, some j) g s in_i in_j spare = elim (eq-cases i j) [
    | inl e ↦ rw (e, ==-refl j) (g, refl, unchanged adj g s)
    | inr differ ↦ rw (==-ne i j differ) (
        pair-Scattered adj i j g s in_i in_j differ (λ v h.
          subst (λ ws. length (adj v) + length ws ≤ cap v) (from_edge-pair v i j differ)
            (spare v h)))
  ]

  pub scatter_edges-Scattered :
      (edges : List Edge) (adj : ℕ → List ℕ) (g : Csr)
      → Fill adj g
      → AllInside nv edges
      → ((v : ℕ) → v < nv → length (adj v) + length (neighbours v edges) ≤ cap v)
      → (next : Csr) × (scatter_edges edges g ≡ some next) × Fill (joined adj edges) next
  unfolding scatter_edges neighbours
  scatter_edges-Scattered [] adj g s inside spare = (g, refl, unchanged adj g s)
  scatter_edges-Scattered (e ∷ edges) adj g s (in_i, in_j, inside) spare =
      let (one, e_one, s_one) =
        both-Scattered adj e g s in_i in_j
          (λ v h. omega (arith, spare v h, length-append (from_edge v e) (neighbours v edges))) in
      let (all, e_all, s_all) =
        scatter_edges-Scattered edges (λ v. adj v ++ from_edge v e) one s_one inside
          (λ v h. omega (
            arith,
            spare v h,
            length-append (adj v) (from_edge v e),
            length-append (from_edge v e) (neighbours v edges),
          )) in
      (
        all,
        rw e_one e_all,
        subst (λ a. Fill a all)
            (λ t. λ v. append_assoc (adj v) (from_edge v e) (neighbours v edges) t) s_all,
      )
