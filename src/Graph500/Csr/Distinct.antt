-- ===== src/Graph500/Csr/Distinct.antt =====
-- What `qsort` and the first loop of `pack_vtx_edges` in trident-workloads/graph500/seq-csr/seq-csr.c make
-- of a row of vertex numbers.
use mathlib.Core.List.{Memᴰ}
use mathlib.Core.List.Memᴰ
use trident_micro21_artifact.Graph500.Csr.Squeeze.{squeezed}
use mathlib.Core.Path.{subst}
use trident_micro21_artifact.Graph500.Csr.{Vertex, same_vertex}
use trident_micro21_artifact.Base.{
  ℕ, ◌≤◌, ◌<◌, ◌≡◌, refl, ap, ◌↔◌, inl, inr, some, List, [], ◌∷◌, map, arith, ◌==◌, if◌then◌else◌,
  Bool-cases, length, eq-cases, ==-refl, ==-ne,
}

-- From a bound on, ascending or strictly ascending.
abbrev pub AscendingFrom : ℕ → List ℕ → Type 0
AscendingFrom h [] = Unit {0}
AscendingFrom h (x ∷ xs) = h ≤ x × AscendingFrom x xs

abbrev pub StrictFrom : ℕ → List ℕ → Type 0
StrictFrom h [] = Unit {0}
StrictFrom h (x ∷ xs) = h < x × StrictFrom x xs

abbrev pub Ascending : List ℕ → Type 0
Ascending [] = Unit {0}
Ascending (x ∷ xs) = AscendingFrom x xs

abbrev pub Strict : List ℕ → Type 0
Strict [] = Unit {0}
Strict (x ∷ xs) = StrictFrom x xs

-- What `qsort` with `i64cmp` promises on vertex numbers that are not negative.
pub record Sorts (sort : List Vertex → List Vertex) : Type 0 where
  pub sorted : List ℕ → List ℕ
  pub computes : (ws : List ℕ) → sort (map some ws) ≡ map some (sorted ws)
  pub ascending : (ws : List ℕ) → Ascending (sorted ws)
  pub size : (ws : List ℕ) → length (sorted ws) ≡ length ws
  pub same : (ws : List ℕ) (w : ℕ) → Memᴰ w (sorted ws) ↔ Memᴰ w ws

unfoldable pub distinct : ℕ → List ℕ → List ℕ
distinct last [] = []
distinct last (r ∷ rs) = if r == last then distinct last rs else r ∷ distinct r rs

pub squeezed-map :
    (last : ℕ) (rs : List ℕ) → squeezed (some last) (map some rs) ≡ map some (distinct last rs)
unfolding squeezed distinct same_vertex
squeezed-map last [] = refl
squeezed-map last (r ∷ rs) = elim (Bool-cases (r == last)) [
  | inl e ↦ rw e (squeezed-map last rs)
  | inr e ↦ rw e (ap (λ ws. some r ∷ ws) (squeezed-map r rs))
]

pub distinct-Strict :
    (last : ℕ) (rs : List ℕ) → AscendingFrom last rs → StrictFrom last (distinct last rs)
unfolding distinct
distinct-Strict last [] a = tt
distinct-Strict last (r ∷ rs) (le, a) = elim (eq-cases r last) [
  | inl e ↦ rw (e, ==-refl last) (distinct-Strict last rs (subst (λ n. AscendingFrom n rs) e a))
  | inr e ↦ rw (==-ne r last e) (omega arith, distinct-Strict r rs a)
]

from_distinct : (last : ℕ) (rs : List ℕ) (w : ℕ) → Memᴰ w (distinct last rs) → Memᴰ w rs
unfolding distinct
from_distinct last [] w m = m
from_distinct last (r ∷ rs) w m = elim (eq-cases r last) [
  | inl e ↦ Memᴰ.tail (from_distinct last rs w (rw (e, ==-refl last) at m))
  | inr e ↦ elim (Memᴰ.cases_cons (rw (==-ne r last e) at m)) [
    | inl s ↦ Memᴰ.head s
    | inr t ↦ Memᴰ.tail (from_distinct r rs w t)
  ]
]

to_distinct :
    (last : ℕ) (rs : List ℕ) (w : ℕ) → Memᴰ w (last ∷ rs) → Memᴰ w (last ∷ distinct last rs)
unfolding distinct
to_distinct last [] w m = m
to_distinct last (r ∷ rs) w (Memᴰ.head s) = Memᴰ.head s
to_distinct last (r ∷ rs) w (Memᴰ.tail m) = elim (eq-cases r last) [
  | inl e ↦ rw (e, ==-refl last) (to_distinct last rs w (subst (λ n. Memᴰ w (n ∷ rs)) e m))
  | inr e ↦ rw (==-ne r last e) (Memᴰ.tail (to_distinct r rs w m))
]

pub distinct-Mem :
    (last : ℕ) (rs : List ℕ) (w : ℕ) → Memᴰ w (last ∷ distinct last rs) ↔ Memᴰ w (last ∷ rs)
distinct-Mem last rs w = (
  λ m. elim (Memᴰ.cases_cons m) [
    | inl e ↦ Memᴰ.head e
    | inr t ↦ Memᴰ.tail (from_distinct last rs w t)
  ],
  to_distinct last rs w,
)

pub length-distinct : (last : ℕ) (rs : List ℕ) → length (distinct last rs) ≤ length rs
unfolding distinct
length-distinct last [] = omega arith
length-distinct last (r ∷ rs) = elim (Bool-cases (r == last)) [
  | inl e ↦ rw e (omega (arith, length-distinct last rs))
  | inr e ↦ rw e (omega (arith, length-distinct r rs))
]
