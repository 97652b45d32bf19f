-- ===== src/Graph500/Sorting.antt =====
-- A sort to put in for `qsort` in trident-workloads/graph500/seq-csr/seq-csr.c, by insertion.
use trident_micro21_artifact.Graph500.Csr.Distinct.{Ascending, AscendingFrom, Sorts}
use trident_micro21_artifact.Graph500.Csr.{Vertex}
use mathlib.Core.List.{Memᴰ}
use mathlib.Core.List.Memᴰ
use trident_micro21_artifact.Base.{
  ℕ, suc, ◌≤◌, ◌≡◌, refl, ap, ◌∙◌, ◌↔◌, inl, inr, none, some, List, [], ◌∷◌, map, arith, leb,
  if◌then◌else◌, leb→le, Bool-cases, length,
}

unfoldable pub insert_sorted : Vertex → List Vertex → List Vertex
insert_sorted v [] = v ∷ []
insert_sorted none ws = none ∷ ws
insert_sorted (some v) (none ∷ ws) = none ∷ insert_sorted (some v) ws
insert_sorted (some v) (some w ∷ ws) =
    if leb v w then some v ∷ some w ∷ ws else some w ∷ insert_sorted (some v) ws

unfoldable pub sorted_row : List Vertex → List Vertex
sorted_row [] = []
sorted_row (v ∷ vs) = insert_sorted v (sorted_row vs)

unfoldable insert : ℕ → List ℕ → List ℕ
insert v [] = v ∷ []
insert v (w ∷ ws) = if leb v w then v ∷ w ∷ ws else w ∷ insert v ws

unfoldable insertion_sort : List ℕ → List ℕ
insertion_sort [] = []
insertion_sort (v ∷ vs) = insert v (insertion_sort vs)

insert_sorted-map :
    (v : ℕ) (ws : List ℕ) → insert_sorted (some v) (map some ws) ≡ map some (insert v ws)
unfolding insert_sorted insert
insert_sorted-map v [] = refl
insert_sorted-map v (w ∷ ws) = elim (Bool-cases (leb v w)) [
  | inl e ↦ rw e refl
  | inr e ↦ rw e (ap (λ zs. some w ∷ zs) (insert_sorted-map v ws))
]

sorted_row-map : (ws : List ℕ) → sorted_row (map some ws) ≡ map some (insertion_sort ws)
unfolding sorted_row insertion_sort
sorted_row-map [] = refl
sorted_row-map (w ∷ ws) =
    ap (insert_sorted (some w)) (sorted_row-map ws) ∙ insert_sorted-map w (insertion_sort ws)

insert-AscendingFrom :
    (h v : ℕ) (ws : List ℕ) → h ≤ v → AscendingFrom h ws → AscendingFrom h (insert v ws)
unfolding insert
insert-AscendingFrom h v [] le a = (le, tt)
insert-AscendingFrom h v (w ∷ ws) le (le_w, a) = elim (Bool-cases (leb v w)) [
  | inl e ↦ rw e (le, (leb→le v w e, a))
  | inr e ↦ rw e (le_w, insert-AscendingFrom w v ws (ground arith) a)
]

insert-Ascending : (v : ℕ) (ws : List ℕ) → Ascending ws → Ascending (insert v ws)
unfolding insert
insert-Ascending v [] a = tt
insert-Ascending v (w ∷ ws) a = elim (Bool-cases (leb v w)) [
  | inl e ↦ rw e (leb→le v w e, a)
  | inr e ↦ rw e (insert-AscendingFrom w v ws (ground arith) a)
]

insertion_sort-Ascending : (ws : List ℕ) → Ascending (insertion_sort ws)
unfolding insertion_sort
insertion_sort-Ascending [] = tt
insertion_sort-Ascending (w ∷ ws) =
    insert-Ascending w (insertion_sort ws) (insertion_sort-Ascending ws)

length-insert : (v : ℕ) (ws : List ℕ) → length (insert v ws) ≡ suc (length ws)
unfolding insert
length-insert v [] = refl
length-insert v (w ∷ ws) = elim (Bool-cases (leb v w)) [
  | inl e ↦ rw e refl
  | inr e ↦ rw e (ap suc (length-insert v ws))
]

length-insertion_sort : (ws : List ℕ) → length (insertion_sort ws) ≡ length ws
unfolding insertion_sort
length-insertion_sort [] = refl
length-insertion_sort (w ∷ ws) =
    length-insert w (insertion_sort ws) ∙ ap suc (length-insertion_sort ws)

insert-Mem : (v : ℕ) (ws : List ℕ) (x : ℕ) → Memᴰ x (insert v ws) ↔ Memᴰ x (v ∷ ws)
unfolding insert
insert-Mem v [] x = (λ m. m, λ m. m)
insert-Mem v (w ∷ ws) x = elim (Bool-cases (leb v w)) [
  | inl e ↦ rw e (λ m. m, λ m. m)
  | inr e ↦
      let (go, back) = insert-Mem v ws x in
      rw e (
        λ m. elim (Memᴰ.cases_cons m) [
          | inl s ↦ Memᴰ.tail (Memᴰ.head s)
          | inr t ↦ elim (Memᴰ.cases_cons (go t)) [
            | inl s ↦ Memᴰ.head s
            | inr u ↦ Memᴰ.tail (Memᴰ.tail u)
          ]
        ],
        λ m. elim (Memᴰ.cases_cons m) [
          | inl s ↦ Memᴰ.tail (back (Memᴰ.head s))
          | inr t ↦ elim (Memᴰ.cases_cons t) [
            | inl s ↦ Memᴰ.head s
            | inr u ↦ Memᴰ.tail (back (Memᴰ.tail u))
          ]
        ],
      )
]

insertion_sort-Mem : (ws : List ℕ) (x : ℕ) → Memᴰ x (insertion_sort ws) ↔ Memᴰ x ws
unfolding insertion_sort
insertion_sort-Mem [] x = (λ m. m, λ m. m)
insertion_sort-Mem (w ∷ ws) x =
    let (go, back) = insertion_sort-Mem ws x in
    let (into, out) = insert-Mem w (insertion_sort ws) x in
    (
      λ m. elim (Memᴰ.cases_cons (into m)) [ inl s ↦ Memᴰ.head s | inr t ↦ Memᴰ.tail (go t) ],
      λ m. elim (Memᴰ.cases_cons m) [
        | inl s ↦ out (Memᴰ.head s)
        | inr t ↦ out (Memᴰ.tail (back t))
      ],
    )

pub sorted_row-Sorts : Sorts sorted_row
sorted_row-Sorts = record {
  sorted = insertion_sort;
  computes = sorted_row-map;
  ascending = insertion_sort-Ascending;
  size = length-insertion_sort;
  same = insertion_sort-Mem;
}
