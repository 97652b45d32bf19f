-- ===== src/Graph500/Csr/PackRow.antt =====
-- `pack_vtx_edges` in trident-workloads/graph500/seq-csr/seq-csr.c on the rows of a graph.
use trident_micro21_artifact.Graph500.Csr.PackOne.{pack_vtx_edges-Packed}
use trident_micro21_artifact.Graph500.Csr.Scatter.{Scattered}
use trident_micro21_artifact.Graph500.Csr.Entries.{RowAt}
use mathlib.Core.Path.{subst}
use trident_micro21_artifact.Graph500.Csr.Parts.{
  get_elem?-outside, RowAt-append, Parts, RowAt-same, RowAt-Parts,
}
use trident_micro21_artifact.Graph500.Csr.{Vertex, pack_vtx_edges, Csr}
use trident_micro21_artifact.Graph500.Csr.Distinct.{
  length-distinct, distinct-Mem, distinct, Sorts, Ascending, distinct-Strict, Strict, squeezed-map,
}
use mathlib.Core.List.{Memᴰ, append_assoc}
use trident_micro21_artifact.Base.{
  ℕ, suc, ◌+◌, ◌*◌, ◌≤◌, ◌<◌, ◌≡◌, refl, sym, ap, ap₂, ◌∙◌, ◌≢◌, ◌↔◌, ◌⊎◌, inl, inr, Option, some,
  List, [], ◌∷◌, ◌++◌, map, arith, leb, ◌==◌, if◌then◌else◌, leb→le, Bool-cases, length, get_elem?,
  set, length-append, length-set, get_or-set_self, get_or-set_ne, get_elem?-eq-get_or, List-cases,
  le→leb, eq-cases, ==-refl, ==-ne, lt-cases,
}

length-map : (ws : List ℕ) → length (map (λ w. Option.some w) ws) ≡ length ws
length-map [] = refl
length-map (w ∷ ws) = ap suc (length-map ws)

-- A row after packing: the same neighbours in strictly ascending order.
pub record Row (before after : List ℕ) : Type 0 where
  pub strict : Strict after
  pub same : (w : ℕ) → Memᴰ w after ↔ Memᴰ w before
  pub shorter : length after ≤ length before

short-Row : (ws : List ℕ) → length ws ≤ 1 → Row ws ws
short-Row [] h = record { strict = tt; same = λ w. (λ m. m, λ m. m); shorter = omega arith }
short-Row (w ∷ []) h = record { strict = tt; same = λ w. (λ m. m, λ m. m); shorter = omega arith }
short-Row (w ∷ x ∷ ws) h = absurd (omega arith)

sorted-Row :
    {sort : List Vertex → List Vertex} (s : Sorts sort) (ws : List ℕ) (x : ℕ) (xs : List ℕ)
    → s.sorted ws ≡ x ∷ xs
    → Row ws (x ∷ distinct x xs)
sorted-Row s ws x xs e = record {
  strict = distinct-Strict x xs (subst Ascending e (s.ascending ws));
  same = λ w. (
    λ m. (s.same ws w).0 (subst (Memᴰ w) (sym e) ((distinct-Mem x xs w).0 m)),
    λ m. (distinct-Mem x xs w).1 (subst (Memᴰ w) e ((s.same ws w).1 m)),
  );
  shorter = omega (arith, length-distinct x xs, s.size ws, ap (λ zs. length zs) e);
}

-- The array after the loops of one row, against the array before.
record Replaced (xs : List Vertex) (k : ℕ) (ws : List ℕ) (after : List Vertex) (vs : List ℕ)
    : Type 0 where
  size : length after ≡ length xs
  row : RowAt after k vs
  others : (p : ℕ) → (p < k) ⊎ (k + length ws ≤ p) → get_elem? after p ≡ get_elem? xs p

length_outside :
    (us ms ns back : List Vertex)
    → length ms ≡ length ns
    → length (us ++ (ms ++ back)) ≡ length (us ++ (ns ++ back))
length_outside us ms ns back e = omega (
  arith,
  length-append us (ms ++ back),
  length-append ms back,
  length-append us (ns ++ back),
  length-append ns back,
)

replace_row :
    (xs : List Vertex) (k : ℕ) (ws : List ℕ) (x : ℕ) (ts : List ℕ) (parts : Parts xs k ws)
    (blank : List Vertex)
    → length blank + 1 + length ts ≡ length ws
    → Replaced xs k ws (parts.front ++ (some x ∷ (map some ts ++ (blank ++ parts.back)))) (x ∷ ts)
replace_row xs k ws x ts parts blank e =
    let ns = map some (x ∷ ts) ++ blank in
    let len : length (map (λ w. Option.some w) ws) ≡ length ns =
      omega (arith, length-map ws, length-map ts, length-append (map some (x ∷ ts)) blank) in
    let after = parts.front ++ (map some (x ∷ ts) ++ (blank ++ parts.back)) in
    let whole : parts.front ++ (ns ++ parts.back) ≡ after =
      ap (λ ys. parts.front ++ ys) (append_assoc (map some (x ∷ ts)) blank parts.back) in
    record {
      size =
          ap (λ ys. length ys) (sym whole)
          ∙ sym (length_outside parts.front (map some ws) ns parts.back len)
          ∙ ap (λ ys. length ys) (sym parts.split);
      row = RowAt-append parts.front (x ∷ ts) (blank ++ parts.back) k (sym parts.length-front);
      others = λ p h. rw parts.split (
          sym (
            get_elem?-outside parts.front (map some ws) ns parts.back p len (elim h [
              | inl l ↦ inl (omega (arith, parts.length-front))
              | inr l ↦ inr (omega (arith, parts.length-front, length-map ws))
            ])
            ∙ ap (λ ys. get_elem? ys p) whole));
    }

unfoldable pub with_row : (ℕ → List ℕ) → ℕ → List ℕ → ℕ → List ℕ
with_row adj i ws v = if v == i then ws else adj v

pub with_row_self : (adj : ℕ → List ℕ) (i : ℕ) (ws : List ℕ) → with_row adj i ws i ≡ ws
unfolding with_row
with_row_self adj i ws = rw (==-refl i) refl

pub with_row_other :
    (adj : ℕ → List ℕ) (i : ℕ) (ws : List ℕ) (v : ℕ) → v ≢ i → with_row adj i ws v ≡ adj v
unfolding with_row
with_row_other adj i ws v h = rw (==-ne v i h) refl

module _ (first cap : ℕ → ℕ) (nv : ℕ) (apart : (v w : ℕ) → v < w → first v + cap v ≤ first w)
    (sort : List Vertex → List Vertex) (sorts : Sorts sort) where
  pub record PackedRow (adj : ℕ → List ℕ) (i : ℕ) (r : Option Csr) : Type 0 where
    pub next : Csr
    pub returned : r ≡ some next
    pub rows : ℕ → List ℕ
    pub filled : Scattered first cap nv apart rows next
    pub row : Row (adj i) (rows i)
    pub others : (v : ℕ) → v ≢ i → rows v ≡ adj v

  pack_short :
      (adj : ℕ → List ℕ) (i : ℕ) (g : Csr)
      → Scattered first cap nv apart adj g
      → i < nv
      → length (adj i) ≤ 1
      → PackedRow adj i (pack_vtx_edges sort i g)
  unfolding pack_vtx_edges
  pack_short adj i g s h short = record {
    next = g;
    returned =
        rw
          (
            get_elem?-eq-get_or g.xoff (2 * i) 0 (omega (arith, s.size)),
            get_elem?-eq-get_or g.xoff (1 + 2 * i) 0 (omega (arith, s.size)),
            s.starts i h,
            s.stops i h,
            le→leb (first i + length (adj i)) (first i + 1) (omega arith),
          )
          refl;
    rows = adj;
    filled = s;
    row = short-Row (adj i) short;
    others = λ v e. refl;
  }

  -- The same rows up to one that is replaced by a shorter one in its place.
  Replaced-Scattered :
      (adj : ℕ → List ℕ) (i : ℕ) (g : Csr) (ws : List ℕ) (xadj : List Vertex)
      → Scattered first cap nv apart adj g
      → i < nv
      → length ws ≤ length (adj i)
      → Replaced g.xadj (first i) (adj i) xadj ws
      → Scattered first cap nv apart
          (with_row adj i ws)
          record g { xoff = set g.xoff (1 + 2 * i) (first i + length ws); xadj = xadj }
  Replaced-Scattered adj i g ws xadj s h shorter r = record {
    nv_kept = s.nv_kept;
    starts = λ v l. get_or-set_ne g.xoff (1 + 2 * i) (2 * v) _ 0 (λ e. omega arith) ∙ s.starts v l;
    stops = λ v l. elim (eq-cases v i) [
      | inl e ↦
          rw (e, with_row_self adj i ws)
            (get_or-set_self g.xoff (1 + 2 * i) _ 0 (omega (arith, s.size)))
      | inr e ↦
          rw (with_row_other adj i ws v e)
            (get_or-set_ne g.xoff (1 + 2 * i) (1 + 2 * v) _ 0 (λ n. e (omega arith)) ∙ s.stops v l)
    ];
    size = length-set g.xoff (1 + 2 * i) _ ∙ s.size;
    length-xadj = r.size ∙ s.length-xadj;
    fits = λ v l. elim (eq-cases v i) [
      | inl e ↦ rw (e, with_row_self adj i ws) (omega (arith, s.fits i h))
      | inr e ↦ rw (with_row_other adj i ws v e) (s.fits v l)
    ];
    entries = λ v l. elim (eq-cases v i) [
      | inl e ↦ rw (e, with_row_self adj i ws) r.row
      | inr e ↦ rw (with_row_other adj i ws v e) (
          RowAt-same g.xadj xadj (first v) (adj v)
            (λ p le less. r.others p (elim (lt-cases v i e) [
              | inl b ↦ inl (omega (arith, apart v i b, s.fits v l))
              | inr b ↦ inr (omega (arith, apart i v b, s.fits i h))
            ]))
            (s.entries v l))
    ];
  }

  pack_long :
      (adj : ℕ → List ℕ) (i : ℕ) (g : Csr) (x : ℕ) (xs : List ℕ)
      → Scattered first cap nv apart adj g
      → i < nv
      → 2 ≤ length (adj i)
      → sorts.sorted (adj i) ≡ x ∷ xs
      → PackedRow adj i (pack_vtx_edges sort i g)
  pack_long adj i g x xs s h long e =
      let ws = adj i in
      let parts =
        RowAt-Parts g.xadj (first i) ws (omega (arith, apart i nv h, s.length-xadj))
          (s.entries i h) in
      let row = sorted-Row sorts ws x xs e in
      let many = length-map ws in
      let count : length (map (λ w. Option.some w) ws)
          ≡ suc (length (map (λ w. Option.some w) xs)) =
        omega (arith, many, length-map xs, sorts.size ws, ap (λ zs. length zs) e) in
      let packed =
        pack_vtx_edges-Packed sort g i parts.front (map some ws) parts.back (some x) (map some xs)
          parts.split (s.starts i h ∙ sym parts.length-front)
          (s.stops i h ∙ omega (arith, many, parts.length-front)) (omega (arith, s.size))
          (sorts.computes ws ∙ ap (λ zs. map some zs) e) count (omega (arith, many)) in
      let kept = squeezed-map x xs in
      let kept_len = ap (λ zs. length zs) kept ∙ length-map (distinct x xs) in
      let after =
        parts.front ++ (some x ∷ (map some (distinct x xs) ++ (packed.blank ++ parts.back))) in
      record {
        next = record g {
          xoff = set g.xoff (1 + 2 * i) (first i + length (x ∷ distinct x xs));
          xadj = after;
        };
        returned =
            packed.returned
            ∙ ap₂
                (λ n ys. some record g {
                  xoff = set g.xoff (1 + 2 * i) n;
                  xadj = parts.front ++ (some x ∷ (ys ++ (packed.blank ++ parts.back)));
                })
                (omega (arith, parts.length-front, kept_len)) kept;
        rows = with_row adj i (x ∷ distinct x xs);
        filled = Replaced-Scattered adj i g (x ∷ distinct x xs) after s h row.shorter (
            replace_row g.xadj (first i) ws x (distinct x xs) parts packed.blank
              (omega (arith, packed.size, many, kept_len)));
        row = rw (with_row_self adj i (x ∷ distinct x xs)) row;
        others = λ v n. with_row_other adj i (x ∷ distinct x xs) v n;
      }

  pub pack_vtx_edges-PackedRow :
      (adj : ℕ → List ℕ) (i : ℕ) (g : Csr)
      → Scattered first cap nv apart adj g
      → i < nv
      → PackedRow adj i (pack_vtx_edges sort i g)
  pack_vtx_edges-PackedRow adj i g s h = elim (Bool-cases (leb (length (adj i)) 1)) [
    | inl short ↦ pack_short adj i g s h (leb→le (length (adj i)) 1 short)
    | inr long ↦
        let two : 2 ≤ length (adj i) = ground arith in
        elim (List-cases (sorts.sorted (adj i))) [
          | inl e ↦ absurd (omega (arith, sorts.size (adj i), ap (λ zs. length zs) e))
          | inr (x, xs, e) ↦ pack_long adj i g x xs s h two e
        ]
  ]
