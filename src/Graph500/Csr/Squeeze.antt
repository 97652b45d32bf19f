-- ===== src/Graph500/Csr/Squeeze.antt =====
-- The two loops of `pack_vtx_edges` in trident-workloads/graph500/seq-csr/seq-csr.c, on an array
-- written as its parts.
use trident_micro21_artifact.Btree.Array.{write, read}
use mathlib.Core.List.{append_assoc}
use trident_micro21_artifact.Btree.Array.Loops.{read-append, read_at, write-append}
use trident_micro21_artifact.Graph500.Csr.{same_vertex, squeeze, Vertex, clear_tail}
use trident_micro21_artifact.Base.{
  ℕ, ◌+◌, ◌≡◌, refl, sym, ap, ap₂, ◌∙◌, inl, inr, none, some, List, [], ◌∷◌, ◌++◌, arith,
  if◌then◌else◌, Bool-cases, length, replicate, length-append,
}

-- What is left of the vertices behind `last` when neighbours that are equal become one.
unfoldable pub squeezed : Vertex → List Vertex → List Vertex
squeezed last [] = []
squeezed last (r ∷ rs) = if same_vertex r last then squeezed last rs else r ∷ squeezed r rs

-- A list behind a gap: its first place, and the gap behind that place.
head_of_gap :
    (gap : List Vertex) (r : Vertex) (ts : List Vertex)
    → (x : Vertex) × (moved : List Vertex) × (gap ++ (r ∷ ts) ≡ x ∷ (moved ++ ts))
      × (length moved ≡ length gap)
head_of_gap [] r ts = (r, [], refl, refl)
head_of_gap (y ∷ gap) r ts =
    (y, gap ++ (r ∷ []), rw append_assoc refl, omega (arith, length-append gap (r ∷ [])))

pub record Squeezed (us : List Vertex) (last : Vertex) (gap rest back : List Vertex) (k kcur : ℕ)
    : Type 0 where
  pub junk : List Vertex
  pub returned :
      squeeze (length rest) k kcur (us ++ (last ∷ (gap ++ (rest ++ back))))
      ≡ some (
        us ++ (last ∷ (squeezed last rest ++ (junk ++ back))),
        kcur + length (squeezed last rest),
      )
  pub size : length junk + length (squeezed last rest) ≡ length gap + length rest

pub squeeze-Squeezed :
    (us : List Vertex) (last : Vertex) (gap rest back : List Vertex) (k kcur : ℕ)
    → kcur ≡ length us
    → k ≡ length us + 1 + length gap
    → Squeezed us last gap rest back k kcur
unfolding squeeze squeezed
squeeze-Squeezed us last gap [] back k kcur e f = record {
  junk = gap;
  returned = ap (λ n. some (us ++ (last ∷ (gap ++ back)), n)) (omega arith);
  size = omega arith;
}
squeeze-Squeezed us last gap (r ∷ rs) back k kcur e f =
    let now = us ++ (last ∷ (gap ++ (r ∷ (rs ++ back)))) in
    let at_k : read now k ≡ some r =
      read-append us (last ∷ (gap ++ (r ∷ (rs ++ back)))) k (1 + length gap) (omega arith)
      ∙ read_at (last ∷ gap) r (rs ++ back) (1 + length gap) (omega arith) in
    let at_cur = read_at us last (gap ++ (r ∷ (rs ++ back))) kcur e in
    elim (Bool-cases (same_vertex r last)) [
      | inl same ↦
          let rest =
            squeeze-Squeezed us last (gap ++ (r ∷ [])) rs back (k + 1) kcur e
              (omega (arith, length-append gap (r ∷ []))) in
          record {
            junk = rest.junk;
            returned =
                rw (at_k, at_cur, same)
                  (rw (append_assoc gap (r ∷ []) (rs ++ back)) at rest.returned);
            size = rw same (omega (arith, rest.size, length-append gap (r ∷ [])));
          }
      | inr differ ↦
          let (x, moved, split, len) = head_of_gap gap r (rs ++ back) in
          let written : write now (kcur + 1) r
              ≡ some (us ++ (last ∷ (r ∷ (moved ++ (rs ++ back))))) =
            rw
              (
                split,
                sym (append_assoc us (last ∷ []) (x ∷ (moved ++ (rs ++ back)))),
                sym (append_assoc us (last ∷ []) (r ∷ (moved ++ (rs ++ back)))),
              )
              (write-append (us ++ (last ∷ [])) x (moved ++ (rs ++ back)) (kcur + 1) r
                (omega (arith, length-append us (last ∷ [])))) in
          let rest =
            squeeze-Squeezed (us ++ (last ∷ [])) r moved rs back (k + 1) (kcur + 1)
              (omega (arith, length-append us (last ∷ [])))
              (omega (arith, length-append us (last ∷ []))) in
          record {
            junk = rest.junk;
            returned =
                rw (at_k, at_cur, differ, written)
                  (ap (squeeze (length rs) (k + 1) (kcur + 1))
                      (sym (append_assoc us (last ∷ []) (r ∷ (moved ++ (rs ++ back)))))
                    ∙ rest.returned
                    ∙ ap₂ (λ xs n. some (xs, n))
                        (append_assoc us (last ∷ []) (r ∷ (squeezed r rs ++ (rest.junk ++ back))))
                        (omega arith));
            size = rw differ (omega (arith, rest.size));
          }
    ]

pub clear_tail-append :
    (us junk back : List Vertex) (k : ℕ)
    → k ≡ length us
    → clear_tail (length junk) k (us ++ (junk ++ back))
      ≡ some (us ++ (replicate (length junk) none ++ back))
unfolding clear_tail
clear_tail-append us [] back k e = refl
clear_tail-append us (x ∷ junk) back k e = rw (write-append us x (junk ++ back) k none e) (
    ap (clear_tail (length junk) (k + 1)) (sym (append_assoc us (none ∷ []) (junk ++ back)))
    ∙ clear_tail-append (us ++ (none ∷ [])) junk back (k + 1)
        (omega (arith, length-append us (none ∷ [])))
    ∙ ap (λ xs. some xs) (append_assoc us (none ∷ []) (replicate (length junk) none ++ back)))
