-- ===== src/Graph500/Csr/Degrees.antt =====
-- `find_nv` and the counting loop of `setup_deg_off` in trident-workloads/graph500/seq-csr/seq-csr.c.
use trident_micro21_artifact.Btree.Array.Slots.{write-set}
use trident_micro21_artifact.Graph500.Csr.{
  Edge, raise, same_vertex, Vertex, find_nv, count_degrees, count_end,
}
use trident_micro21_artifact.Base.{
  ℕ, ◌+◌, ◌*◌, ◌≤◌, ◌<◌, ◌≡◌, refl, ◌∙◌, inl, inr, Option, none, some, List, [], ◌∷◌, arith, ◌==◌,
  if◌then◌else◌, Bool-cases, length, get_or, set, length-set, get_or-set, get_elem?-eq-get_or,
}

abbrev pub Below : ℕ → Vertex → Type 0
Below nv none = Unit {0}
Below nv (some v) = v < nv

-- All vertices of the edges are below `nv`.
abbrev pub AllInside : ℕ → List Edge → Type 0
AllInside nv [] = Unit {0}
AllInside nv ((i, j) ∷ edges) = Below nv i × Below nv j × AllInside nv edges

Below-le : (n m : ℕ) (v : Vertex) → n ≤ m → Below n v → Below m v
Below-le n m none h b = tt
Below-le n m (some v) h b = omega arith

raise_lem : (n : ℕ) (v : Vertex) → (n ≤ raise n v) × Below (raise n v) v
unfolding raise
raise_lem n none = (omega arith, tt)
raise_lem n (some v) = ground arith

find_nv-le : (edges : List Edge) (n : ℕ) → n ≤ find_nv edges n
unfolding find_nv
find_nv-le [] n = omega arith
find_nv-le ((i, j) ∷ edges) n =
    omega (
      arith,
      (raise_lem n i).0,
      (raise_lem (raise n i) j).0,
      find_nv-le edges (raise (raise n i) j),
    )

pub find_nv-AllInside : (edges : List Edge) (n : ℕ) → AllInside (find_nv edges n) edges
unfolding find_nv
find_nv-AllInside [] n = tt
find_nv-AllInside ((i, j) ∷ edges) n =
    let top = find_nv-le edges (raise (raise n i) j) in
    let (le_i, in_i) = raise_lem n i in
    let (le_j, in_j) = raise_lem (raise n i) j in
    (
      Below-le (raise n i) _ i (omega arith) in_i,
      Below-le (raise (raise n i) j) _ j top in_j,
      find_nv-AllInside edges (raise (raise n i) j),
    )

-- How often a vertex is counted.
unfoldable pub is_at : ℕ → Vertex → ℕ
is_at v none = 0
is_at v (some i) = if v == i then 1 else 0

unfoldable pub degree_of : ℕ → List Edge → ℕ
degree_of v [] = 0
degree_of v ((i, j) ∷ edges) =
    if same_vertex i j then degree_of v edges else is_at v i + is_at v j + degree_of v edges

pub record Counted (nv : ℕ) (xoff : List ℕ) (added : ℕ → ℕ) (r : Option (List ℕ)) : Type 0 where
  pub after : List ℕ
  pub returned : r ≡ some after
  pub size : length after ≡ length xoff
  pub values : (v : ℕ) → v < nv → get_or after (2 * v) 0 ≡ get_or xoff (2 * v) 0 + added v

module _ (nv : ℕ) where
  count_end-Counted :
      (i : Vertex) (xoff : List ℕ)
      → 2 * nv ≤ length xoff
      → Below nv i
      → Counted nv xoff (λ v. is_at v i) (count_end i xoff)
  unfolding count_end is_at
  count_end-Counted none xoff size inside = record {
    after = xoff;
    returned = refl;
    size = refl;
    values = λ v h. omega arith;
  }
  count_end-Counted (some i) xoff size inside = record {
    after = set xoff (2 * i) (get_or xoff (2 * i) 0 + 1);
    returned =
        rw
          (
            get_elem?-eq-get_or xoff (2 * i) 0 (omega arith),
            write-set xoff (2 * i) (get_or xoff (2 * i) 0 + 1) (omega arith),
          )
          refl;
    size = length-set xoff (2 * i) _;
    values = λ v h. ground (arith, get_or-set xoff (2 * i) (2 * v) (get_or xoff (2 * i) 0 + 1) 0);
  }

  pub count_degrees-Counted :
      (edges : List Edge) (xoff : List ℕ)
      → 2 * nv ≤ length xoff
      → AllInside nv edges
      → Counted nv xoff (λ v. degree_of v edges) (count_degrees edges xoff)
  unfolding count_degrees degree_of
  count_degrees-Counted [] xoff size inside = record {
    after = xoff;
    returned = refl;
    size = refl;
    values = λ v h. omega arith;
  }
  count_degrees-Counted ((i, j) ∷ edges) xoff size (in_i, in_j, inside) =
      elim (Bool-cases (same_vertex i j)) [
        | inl same ↦
            let rest = count_degrees-Counted edges xoff size inside in
            record {
              after = rest.after;
              returned = rw same rest.returned;
              size = rest.size;
              values = λ v h. rw same (rest.values v h);
            }
        | inr differ ↦
            let one = count_end-Counted i xoff size in_i in
            let two = count_end-Counted j one.after (omega (arith, one.size)) in_j in
            let rest =
              count_degrees-Counted edges two.after (omega (arith, one.size, two.size)) inside in
            record {
              after = rest.after;
              returned = rw (differ, one.returned, two.returned) rest.returned;
              size = rest.size ∙ two.size ∙ one.size;
              values =
                  λ v h. rw differ (omega (arith, one.values v h, two.values v h, rest.values v h));
            }
      ]
