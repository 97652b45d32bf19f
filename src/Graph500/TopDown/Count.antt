-- ===== src/Graph500/TopDown/Count.antt =====
-- Counting over the arrays and threads of the top-down step in
-- trident-workloads/graph500/omp-csr/omp-csr.c.
use trident_micro21_artifact.Btree.Array.{write}
use trident_micro21_artifact.Graph500.Csr.{Vertex}
use trident_micro21_artifact.Graph500.TopDown.{copy_local}
use trident_micro21_artifact.Base.{
  ℕ, zero, suc, ◌+◌, ◌≤◌, ◌<◌, ◌≡◌, refl, sym, ap, ◌∙◌, none, some, List, [], ◌∷◌, ◌++◌, arith,
  ◌==◌, if◌then◌else◌, lt→ltb, length, get_elem?, get_or, set, take, length-set,
}
use mathlib.Core.List.{append_assoc, append-nil}
use mathlib.Core.Option.{some-injective}

abbrev pub count : ℕ → List ℕ → ℕ
count i [] = 0
count i (x ∷ xs) = (if x == i then 1 else 0) + count i xs

pub count-append : (i : ℕ) (xs ys : List ℕ) → count i (xs ++ ys) ≡ count i xs + count i ys
count-append i [] ys = omega arith
count-append i (x ∷ xs) ys = omega (arith, count-append i xs ys)

-- Whether a vertex has a parent, as a number, and how many have one.
abbrev pub mark_of : Vertex → ℕ
mark_of none = 0
mark_of (some v) = 1

abbrev pub claimed : List Vertex → ℕ → ℕ
claimed tree i = mark_of (get_or tree i none)

abbrev pub claims : List Vertex → ℕ
claims [] = 0
claims (p ∷ tree) = mark_of p + claims tree

pub claims-le : (tree : List Vertex) → claims tree ≤ length tree
claims-le [] = omega arith
claims-le (none ∷ tree) = omega (arith, claims-le tree)
claims-le (some v ∷ tree) = omega (arith, claims-le tree)

pub claimed-set :
    (tree : List Vertex) (j v i : ℕ)
    → get_elem? tree j ≡ some none
    → claimed (set tree j (some v)) i ≡ claimed tree i + (if j == i then 1 else 0)
claimed-set [] j v i e = cc
claimed-set (p ∷ tree) zero v zero e = ground arith
claimed-set (p ∷ tree) zero v (suc i) e = ground arith
claimed-set (p ∷ tree) (suc j) v zero e = ground arith
claimed-set (p ∷ tree) (suc j) v (suc i) e = ground (arith, claimed-set tree j v i e)

pub claims-set :
    (tree : List Vertex) (j v : ℕ)
    → get_elem? tree j ≡ some none
    → claims (set tree j (some v)) ≡ claims tree + 1
claims-set [] j v e = cc
claims-set (none ∷ tree) zero v e = omega arith
claims-set (some p ∷ tree) zero v e = cc
claims-set (p ∷ tree) (suc j) v e = omega (arith, claims-set tree j v e)

take-set : (xs : List ℕ) (n x : ℕ) → n < length xs → take (suc n) (set xs n x) ≡ take n xs ++ x ∷ []
take-set [] n x h = absurd (omega arith)
take-set (y ∷ xs) zero x h = refl
take-set (y ∷ xs) (suc n) x h = ap (λ t. y ∷ t) (take-set xs n x (omega arith))

-- The copy of a buffer behind the first `voff` words.
pub record Copied (local : List ℕ) (voff : ℕ) (vlist : List ℕ) : Type 0 where
  pub after : List ℕ
  pub returned : copy_local local voff vlist ≡ some after
  pub size : length after ≡ length vlist
  pub front : take (voff + length local) after ≡ take voff vlist ++ local

pub copy_local-Copied :
    (local : List ℕ) (voff : ℕ) (vlist : List ℕ)
    → voff + length local ≤ length vlist
    → Copied local voff vlist
unfolding copy_local write
copy_local-Copied [] voff vlist h = record {
  after = vlist;
  returned = refl;
  size = refl;
  front =
      ap (λ n. take n vlist) {x = voff + 0} {y = voff} (omega arith)
      ∙ sym (append-nil (take voff vlist));
}
copy_local-Copied (j ∷ local) voff vlist h =
    let fits = lt→ltb voff (length vlist) (omega arith) in
    let next = voff + 1 in
    let rest =
      copy_local-Copied local next (set vlist voff j) (omega (arith, length-set vlist voff j)) in
    record {
      after = rest.after;
      returned = rw fits rest.returned;
      size = rest.size ∙ length-set vlist voff j;
      front =
          ap (λ n. take n rest.after) {x = voff + suc (length local)} {y = next + length local}
            (omega arith)
          ∙ rest.front
          ∙ ap (λ n. take n (set vlist voff j) ++ local) {x = next} {y = suc voff} (omega arith)
          ∙ ap (λ t. t ++ local) (take-set vlist voff j (omega arith))
          ∙ append_assoc (take voff vlist) (j ∷ []) local;
    }

module _ {ℓ} {A : Type ℓ} (w : A → ℕ) where
  unfoldable pub total : List A → ℕ
  total [] = 0
  total (t ∷ ts) = w t + total ts

  pub total-set :
      (ts : List A) (i : ℕ) (t t' : A)
      → get_elem? ts i ≡ some t
      → total (set ts i t') + w t ≡ total ts + w t'
  unfolding total
  total-set [] i t t' e = cc
  total-set (u ∷ ts) zero t t' e = let same : u ≡ t = some-injective _ _ e in rw same (omega arith)
  total-set (u ∷ ts) (suc i) t t' e = omega (arith, total-set ts i t t' e)
