-- ===== src/Graph500/Csr/Entries.antt =====
-- Rows of neighbours in `xadj` of trident-workloads/graph500/seq-csr/seq-csr.c.

use trident_micro21_artifact.Graph500.Csr.{Vertex}
use trident_micro21_artifact.Base.{
  ℕ, zero, suc, ◌+◌, ◌≤◌, ◌<◌, ◌≡◌, refl, ap, ◌∙◌, ◌≢◌, ◌⊎◌, inl, inr, none, some, List, [], ◌∷◌,
  ◌++◌, arith, length, get_elem?, set, length-set, get_or-set_self, get_elem?-eq-get_or,
}

-- The vertices `ws` stand in `xadj` from `k` on.
abbrev pub RowAt : List Vertex → ℕ → List ℕ → Type 0
RowAt xadj k [] = Unit {0}
RowAt xadj k (w ∷ ws) = (get_elem? xadj k ≡ some (some w)) × RowAt xadj (k + 1) ws

pub get_elem?-set_ne :
    (xs : List Vertex) (p k : ℕ) (v : Vertex) → p ≢ k → get_elem? (set xs p v) k ≡ get_elem? xs k
get_elem?-set_ne [] p k v h = refl
get_elem?-set_ne (x ∷ xs) zero zero v h = absurd (h refl)
get_elem?-set_ne (x ∷ xs) zero (suc k) v h = refl
get_elem?-set_ne (x ∷ xs) (suc p) zero v h = refl
get_elem?-set_ne (x ∷ xs) (suc p) (suc k) v h =
    get_elem?-set_ne xs p k v (λ e. h (ap (λ n. suc n) e))

pub get_elem?-set_self :
    (xs : List Vertex) (p : ℕ) (v : Vertex) → p < length xs → get_elem? (set xs p v) p ≡ some v
get_elem?-set_self xs p v h =
    get_elem?-eq-get_or (set xs p v) p none (omega (arith, length-set xs p v))
    ∙ ap (λ a. some a) (get_or-set_self xs p v none h)

-- A write outside a row leaves it.
pub RowAt-set :
    (xs : List Vertex) (k : ℕ) (ws : List ℕ) (p : ℕ) (v : Vertex)
    → (p < k) ⊎ (k + length ws ≤ p)
    → RowAt xs k ws
    → RowAt (set xs p v) k ws
RowAt-set xs k [] p v h row = tt
RowAt-set xs k (w ∷ ws) p v h (at, row) = (
  get_elem?-set_ne xs p k v (elim h [ inl l ↦ λ e. omega arith | inr l ↦ λ e. omega arith ]) ∙ at,
  RowAt-set xs (k + 1) ws p v (elim h [ inl l ↦ inl (omega arith) | inr l ↦ inr (omega arith) ])
      row,
)

pub RowAt-snoc :
    (xs : List Vertex) (k : ℕ) (ws : List ℕ) (w : ℕ)
    → RowAt xs k ws
    → get_elem? xs (k + length ws) ≡ some (some w)
    → RowAt xs k (ws ++ (w ∷ []))
RowAt-snoc xs k [] w row at = (ap (get_elem? xs) (omega arith) ∙ at, tt)
RowAt-snoc xs k (u ∷ us) w (now, row) at = (
  now,
  RowAt-snoc xs (k + 1) us w row
      (ap (get_elem? xs) {x = k + 1 + length us} {y = k + suc (length us)} (omega arith) ∙ at),
)
