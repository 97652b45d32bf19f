-- ===== src/Graph500/Csr/Parts.antt =====
-- Rows in `xadj` of trident-workloads/graph500/seq-csr/seq-csr.c, and the array as its parts.
use mathlib.Core.Option.{some-injective, none-ne-some}
use trident_micro21_artifact.Graph500.Csr.{Vertex}
use mathlib.Core.Path.{subst}
use trident_micro21_artifact.Btree.Array.Loops.{read_at, read-append}
use mathlib.Core.List.{append_assoc}
use trident_micro21_artifact.Graph500.Csr.Entries.{RowAt}
use trident_micro21_artifact.Base.{
  ℕ, zero, suc, ◌+◌, ◌-◌, ◌≤◌, ◌<◌, ◌≡◌, refl, sym, ap, ap₂, ◌∙◌, ◌⊎◌, inl, inr, some, List, [],
  ◌∷◌, ◌++◌, map, arith, length, get_elem?, length-append,
}

unshift :
    (x : Vertex) (xs : List Vertex) (k : ℕ) (ws : List ℕ)
    → RowAt (x ∷ xs) (k + 1) ws
    → RowAt xs k ws
unshift x xs k [] row = tt
unshift x xs k (w ∷ ws) (at, row) = (
  ap (get_elem? (x ∷ xs)) {x = suc k} {y = k + 1} (omega arith) ∙ at,
  unshift x xs (k + 1) ws row,
)

parts_of_row :
    (xs : List Vertex) (ws : List ℕ)
    → RowAt xs 0 ws
    → (back : List Vertex) × (xs ≡ map some ws ++ back)
parts_of_row xs [] row = (xs, refl)
parts_of_row [] (w ∷ ws) (at, row) = absurd (none-ne-some (some w) at)
parts_of_row (x ∷ xs) (w ∷ ws) (at, row) =
    let (back, e) = parts_of_row xs ws (unshift x xs 0 ws row) in
    (back, ap₂ (λ y ys. y ∷ ys) (some-injective x (some w) at) e)

pub record Parts (xs : List Vertex) (k : ℕ) (ws : List ℕ) : Type 0 where
  pub front : List Vertex
  pub back : List Vertex
  pub split : xs ≡ front ++ (map some ws ++ back)
  pub length-front : length front ≡ k

pub RowAt-Parts :
    (xs : List Vertex) (k : ℕ) (ws : List ℕ) → k ≤ length xs → RowAt xs k ws → Parts xs k ws
RowAt-Parts xs zero ws inside row =
    let (back, e) = parts_of_row xs ws row in
    record { front = []; back = back; split = e; length-front = refl }
RowAt-Parts [] (suc k) ws inside row = absurd (omega arith)
RowAt-Parts (x ∷ xs) (suc k) ws inside row =
    let rest =
      RowAt-Parts xs k ws (omega arith)
        (unshift x xs k ws (subst (λ n. RowAt (x ∷ xs) n ws) (omega arith) row)) in
    record {
      front = x ∷ rest.front;
      back = rest.back;
      split = ap (λ ys. x ∷ ys) rest.split;
      length-front = ap suc rest.length-front;
    }

pub RowAt-append :
    (us : List Vertex) (ws : List ℕ) (back : List Vertex) (k : ℕ)
    → k ≡ length us
    → RowAt (us ++ (map some ws ++ back)) k ws
RowAt-append us [] back k e = tt
RowAt-append us (w ∷ ws) back k e = (
  read_at us (some w) (map some ws ++ back) k e,
  subst (λ xs. RowAt xs (k + 1) ws) (append_assoc us (some w ∷ []) (map some ws ++ back))
      (RowAt-append (us ++ (some w ∷ [])) ws back (k + 1)
        (omega (arith, length-append us (some w ∷ [])))),
)

pub RowAt-same :
    (xs ys : List Vertex) (k : ℕ) (ws : List ℕ)
    → ((p : ℕ) → k ≤ p → p < k + length ws → get_elem? ys p ≡ get_elem? xs p)
    → RowAt xs k ws
    → RowAt ys k ws
RowAt-same xs ys k [] same row = tt
RowAt-same xs ys k (w ∷ ws) same (at, row) = (
  same k (omega arith) (omega arith) ∙ at,
  RowAt-same xs ys (k + 1) ws (λ p h l. same p (omega arith) (omega arith)) row,
)

get_elem?-front :
    (us ys zs : List Vertex) (p : ℕ)
    → p < length us
    → get_elem? (us ++ ys) p ≡ get_elem? (us ++ zs) p
get_elem?-front [] ys zs p h = absurd (omega arith)
get_elem?-front (u ∷ us) ys zs zero h = refl
get_elem?-front (u ∷ us) ys zs (suc p) h = get_elem?-front us ys zs p (omega arith)

-- Outside of a part of the array its contents do not matter.
pub get_elem?-outside :
    (us ms ns back : List Vertex) (p : ℕ)
    → length ms ≡ length ns
    → (p < length us) ⊎ (length us + length ms ≤ p)
    → get_elem? (us ++ (ms ++ back)) p ≡ get_elem? (us ++ (ns ++ back)) p
get_elem?-outside us ms ns back p e (inl h) = get_elem?-front us (ms ++ back) (ns ++ back) p h
get_elem?-outside us ms ns back p e (inr h) =
    let i = p - length us in
    let j = i - length ms in
    read-append us (ms ++ back) p i (omega arith)
    ∙ read-append ms back i j (omega arith)
    ∙ sym (read-append ns back i j (omega arith))
    ∙ sym (read-append us (ns ++ back) p i (omega arith))
