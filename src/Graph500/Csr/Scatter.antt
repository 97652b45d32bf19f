-- ===== src/Graph500/Csr/Scatter.antt =====
-- The scatter loop of `gather_edges` in trident-workloads/graph500/seq-csr/seq-csr.c.
use trident_micro21_artifact.Btree.Array.Slots.{write-set}
use trident_micro21_artifact.Graph500.Csr.{Csr, scatter_edge, Edge}
use trident_micro21_artifact.Graph500.Csr.Entries.{RowAt, RowAt-set, get_elem?-set_self, RowAt-snoc}
use trident_micro21_artifact.Base.{
  ℕ, ◌+◌, ◌*◌, ◌≤◌, ◌<◌, ◌≡◌, refl, ◌∙◌, ◌≢◌, ◌⊎◌, inl, inr, some, List, [], ◌∷◌, ◌++◌, arith, ◌==◌,
  if◌then◌else◌, length, get_or, set, length-append, length-set, get_or-set_self, get_or-set_ne,
  get_elem?-eq-get_or, eq-cases, ==-refl, ==-ne, lt-cases,
}

-- The neighbours that a vertex gets from one pair of vertices, and from a list of edges.
unfoldable pub from_pair : (v i j : ℕ) → List ℕ
from_pair v i j = if v == i then j ∷ [] else if v == j then i ∷ [] else []

unfoldable pub from_edge : ℕ → Edge → List ℕ
from_edge v (some i, some j) = if i == j then [] else from_pair v i j
from_edge v _ = []

unfoldable pub neighbours : ℕ → List Edge → List ℕ
neighbours v [] = []
neighbours v (e ∷ edges) = from_edge v e ++ neighbours v edges

unfoldable pub added : (ℕ → List ℕ) → ℕ → ℕ → ℕ → List ℕ
added adj i j v = if v == i then adj v ++ (j ∷ []) else adj v

pub added_self : (adj : ℕ → List ℕ) (i j : ℕ) → added adj i j i ≡ adj i ++ (j ∷ [])
unfolding added
added_self adj i j = rw (==-refl i) refl

pub added_other : (adj : ℕ → List ℕ) (i j v : ℕ) → v ≢ i → added adj i j v ≡ adj v
unfolding added
added_other adj i j v h = rw (==-ne v i h) refl

pub length-added : (adj : ℕ → List ℕ) (i j : ℕ) → length (added adj i j i) ≡ length (adj i) + 1
length-added adj i j = rw (added_self adj i j) (length-append (adj i) (j ∷ []))

module _ (first cap : ℕ → ℕ) (nv : ℕ) (apart : (v w : ℕ) → v < w → first v + cap v ≤ first w) where
  pub record Scattered (adj : ℕ → List ℕ) (g : Csr) : Type 0 where
    pub nv_kept : g.nv ≡ nv
    pub starts : (v : ℕ) → v < nv → get_or g.xoff (2 * v) 0 ≡ first v
    pub stops : (v : ℕ) → v < nv → get_or g.xoff (1 + 2 * v) 0 ≡ first v + length (adj v)
    pub size : length g.xoff ≡ 2 * nv + 2
    pub length-xadj : length g.xadj ≡ first nv
    pub fits : (v : ℕ) → v < nv → length (adj v) ≤ cap v
    pub entries : (v : ℕ) → v < nv → RowAt g.xadj (first v) (adj v)

  away :
      (adj : ℕ → List ℕ) (i v : ℕ)
      → length (adj i) < cap i
      → length (adj v) ≤ cap v
      → v ≢ i
      → (first i + length (adj i) < first v) ⊎ (first v + length (adj v) ≤ first i + length (adj i))
  away adj i v spare fit e = elim (lt-cases v i e) [
    | inl l ↦ inr (omega (arith, apart v i l))
    | inr l ↦ inl (omega (arith, apart i v l))
  ]

  pub scatter_edge-Scattered :
      (adj : ℕ → List ℕ) (i j : ℕ) (g : Csr)
      → Scattered adj g
      → i < nv
      → length (adj i) < cap i
      → (next : Csr) × (scatter_edge i j g ≡ some next) × Scattered (added adj i j) next
  unfolding scatter_edge added
  scatter_edge-Scattered adj i j g s h spare =
      let place = first i + length (adj i) in
      let in_row = apart i nv h in
      (
        record g { xoff = set g.xoff (1 + 2 * i) (place + 1); xadj = set g.xadj place (some j) },
        rw
            (
              get_elem?-eq-get_or g.xoff (1 + 2 * i) 0 (omega (arith, s.size)),
              s.stops i h,
              write-set g.xoff (1 + 2 * i) (place + 1) (omega (arith, s.size)),
              write-set g.xadj place (some j) (omega (arith, s.length-xadj)),
            )
            refl,
        record {
          nv_kept = s.nv_kept;
          starts =
              λ v l. get_or-set_ne g.xoff (1 + 2 * i) (2 * v) _ 0 (λ e. omega arith) ∙ s.starts v l;
          stops = λ v l. elim (eq-cases v i) [
            | inl e ↦ rw e (
                get_or-set_self g.xoff (1 + 2 * i) (place + 1) 0 (omega (arith, s.size))
                ∙ omega (arith, length-added adj i j))
            | inr e ↦ rw (added_other adj i j v e) (
                get_or-set_ne g.xoff (1 + 2 * i) (1 + 2 * v) _ 0 (λ n. e (omega arith))
                ∙ s.stops v l)
          ];
          size = length-set g.xoff (1 + 2 * i) _ ∙ s.size;
          length-xadj = length-set g.xadj place _ ∙ s.length-xadj;
          fits = λ v l. elim (eq-cases v i) [
            | inl e ↦ rw e (omega (arith, length-added adj i j))
            | inr e ↦ rw (added_other adj i j v e) (s.fits v l)
          ];
          entries = λ v l. elim (eq-cases v i) [
            | inl e ↦
                rw (e, added_self adj i j)
                  (RowAt-snoc (set g.xadj place (some j)) (first i) (adj i) j
                    (RowAt-set g.xadj (first i) (adj i) place (some j) (inr (omega arith))
                      (s.entries i h))
                    (get_elem?-set_self g.xadj place (some j) (omega (arith, s.length-xadj))))
            | inr e ↦ rw (added_other adj i j v e) (
                RowAt-set g.xadj (first v) (adj v) place (some j)
                  (away adj i v spare (s.fits v l) e) (s.entries v l))
          ];
        },
      )
