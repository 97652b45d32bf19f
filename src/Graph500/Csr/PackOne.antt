-- ===== src/Graph500/Csr/PackOne.antt =====
-- `pack_vtx_edges` in trident-workloads/graph500/seq-csr/seq-csr.c, on an array written as its parts.
use trident_micro21_artifact.Btree.Array.Slots.{write-set}
use mathlib.Core.List.{append_assoc}
use trident_micro21_artifact.Graph500.Csr.Squeeze.{squeezed, squeeze-Squeezed, clear_tail-append}
use trident_micro21_artifact.Graph500.Csr.{Csr, Vertex, pack_vtx_edges, clear_tail}
use trident_micro21_artifact.Base.{
  ℕ, zero, suc, ◌+◌, ◌-◌, ◌*◌, ◌≤◌, ◌<◌, ◌≡◌, refl, sym, ap, ◌∙◌, false, none, some, List, [], ◌∷◌,
  ◌++◌, arith, leb, length, get_or, set, take, drop, replicate, length-append, length-replicate,
  get_elem?-eq-get_or,
}

no_gap : (n : ℕ) → n + 1 ≡ n + 1 + 0
no_gap n = omega arith

take_front : (us ys : List Vertex) (n : ℕ) → n ≡ length us → take n (us ++ ys) ≡ us
take_front [] ys n e = rw e refl
take_front (u ∷ us) ys zero e = absurd (omega arith)
take_front (u ∷ us) ys (suc n) e = ap (λ xs. u ∷ xs) (take_front us ys n (omega arith))

drop_front : (us ys : List Vertex) (n : ℕ) → n ≡ length us → drop n (us ++ ys) ≡ ys
drop_front [] ys n e = rw e refl
drop_front (u ∷ us) ys zero e = absurd (omega arith)
drop_front (u ∷ us) ys (suc n) e = drop_front us ys n (omega arith)

-- The array in front of a row, the row, and the array behind it.
slices :
    (us row back xs : List Vertex)
    → xs ≡ us ++ (row ++ back)
    → (take (length us + length row - length us) (drop (length us) xs) ≡ row)
      × (drop (length us + length row) xs ≡ back)
      × (take (length us) xs ≡ us)
slices us row back xs parts = (
  rw (parts, drop_front us (row ++ back) (length us) refl)
      (take_front row back (length us + length row - length us) (omega arith)),
  rw (parts, sym (append_assoc us row back))
      (drop_front (us ++ row) back (length us + length row) (omega (arith, length-append us row))),
  rw parts (take_front us (row ++ back) (length us) refl),
)

pub record Packed (sort : List Vertex → List Vertex) (g : Csr) (i : ℕ) (us row back : List Vertex)
    (head : Vertex) (tail : List Vertex) : Type 0 where
  pub blank : List Vertex
  pub returned :
      pack_vtx_edges sort i g
      ≡ some record g {
        xoff = set g.xoff (1 + 2 * i) (length us + length (squeezed head tail) + 1);
        xadj = us ++ (head ∷ (squeezed head tail ++ (blank ++ back)));
      }
  pub size : length blank + 1 + length (squeezed head tail) ≡ length row

module _ (sort : List Vertex → List Vertex) (g : Csr) (i : ℕ) (us row back : List Vertex) where
  pub pack_vtx_edges-Packed :
      (head : Vertex) (tail : List Vertex)
      → g.xadj ≡ us ++ (row ++ back)
      → get_or g.xoff (2 * i) 0 ≡ length us
      → get_or g.xoff (1 + 2 * i) 0 ≡ length us + length row
      → 1 + 2 * i < length g.xoff
      → sort row ≡ head ∷ tail
      → length row ≡ suc (length tail)
      → 2 ≤ length row
      → Packed sort g i us row back head tail
  unfolding pack_vtx_edges
  pack_vtx_edges-Packed head tail parts from to inside sorted size many =
      let squeezing =
        squeeze-Squeezed us head [] tail back (length us + 1) (length us) refl
          (no_gap (length us)) in
      let kept = squeezed head tail in
      let stop_at = length us + length row in
      let two_or_more : leb stop_at (length us + 1) ≡ false = ground arith in
      let (cut, behind, before) = slices us row back g.xadj parts in
      let rounds : stop_at - (length us + 1) ≡ length tail = omega arith in
      let to_clear : stop_at - (length us + length kept + 1) ≡ length squeezing.junk =
        omega (arith, squeezing.size) in
      let clearing =
        clear_tail-append (us ++ (head ∷ kept)) squeezing.junk back (length us + length kept + 1)
          (omega (arith, length-append us (head ∷ kept))) in
      let blank = replicate {A = Vertex} (length squeezing.junk) none in
      let clearing_at : clear_tail (length squeezing.junk) (length us + length kept + 1)
            (us ++ (head ∷ (kept ++ (squeezing.junk ++ back))))
          ≡ some (us ++ (head ∷ (kept ++ (blank ++ back)))) =
        ap (clear_tail (length squeezing.junk) (length us + length kept + 1))
          (sym (append_assoc us (head ∷ kept) (squeezing.junk ++ back)))
        ∙ clearing
        ∙ ap (λ xs. some xs) (append_assoc us (head ∷ kept) (blank ++ back)) in
      record {
        blank = blank;
        returned =
            rw
              (
                get_elem?-eq-get_or g.xoff (2 * i) 0 (omega arith),
                get_elem?-eq-get_or g.xoff (1 + 2 * i) 0 (omega arith),
                from,
                to,
                two_or_more,
                cut,
                behind,
                before,
                sorted,
                rounds,
                squeezing.returned,
                to_clear,
                clearing_at,
                write-set g.xoff (1 + 2 * i) (length us + length kept + 1) inside,
              )
              refl;
        size =
            omega
              (arith, squeezing.size, length-replicate {A = Vertex} (length squeezing.junk) none);
      }
