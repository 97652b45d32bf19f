-- ===== src/Graph500/Csr/Offsets.antt =====
-- `setup_deg_off` in trident-workloads/graph500/seq-csr/seq-csr.c: from degrees to the places of the rows.
use trident_micro21_artifact.Btree.Array.Slots.{write-set}
use trident_micro21_artifact.Graph500.Csr.Degrees.{degree_of, count_degrees-Counted, AllInside}
use trident_micro21_artifact.Graph500.Csr.{
  accumulate, minvect_size, copy_ends, Edge, setup_deg_off, Csr, Vertex,
}
use trident_micro21_artifact.Base.{
  ℕ, zero, suc, ◌+◌, ◌*◌, ◌≤◌, ◌<◌, ◌≡◌, refl, sym, ap, ◌∙◌, inl, inr, none, some, List, arith, ltb,
  if◌then◌else◌, length, get_or, set, replicate, length-set, length-replicate, get_or-set_self,
  get_or-set_ne, get_elem?-eq-get_or, le-cases, get_or-replicate,
}

-- The words that a row of a vertex gets.
unfoldable pub room : List Edge → ℕ → ℕ
room edges v = if ltb (degree_of v edges) minvect_size then minvect_size else degree_of v edges

-- Where the row of a vertex starts: behind all rows before it.
unfoldable pub row_at : List Edge → ℕ → ℕ
row_at edges zero = 0
row_at edges (suc v) = row_at edges v + room edges v

row_at-next :
    (edges : List Edge) (k : ℕ)
    → row_at edges (k + 1)
      ≡ row_at edges k
        + (if ltb (degree_of k edges) minvect_size then minvect_size else degree_of k edges)
unfolding row_at room
row_at-next edges k = ap (row_at edges) {y = suc k} (omega arith)

record Placed (edges : List Edge) (k rounds : ℕ) (xoff : List ℕ) : Type 0 where
  after : List ℕ
  returned : accumulate rounds k (row_at edges k) xoff ≡ some (after, row_at edges (k + rounds))
  size : length after ≡ length xoff
  starts : (v : ℕ) → k ≤ v → v < k + rounds → get_or after (2 * v) 0 ≡ row_at edges v
  before : (v : ℕ) → v < k → get_or after (2 * v) 0 ≡ get_or xoff (2 * v) 0

accumulate-Placed :
    (edges : List Edge) (rounds k : ℕ) (xoff : List ℕ)
    → 2 * (k + rounds) ≤ length xoff
    → ((v : ℕ) → k ≤ v → v < k + rounds → get_or xoff (2 * v) 0 ≡ degree_of v edges)
    → Placed edges k rounds xoff
unfolding accumulate
accumulate-Placed edges zero k xoff size degs = record {
  after = xoff;
  returned = ap (λ n. some (xoff, row_at edges n)) (omega arith);
  size = refl;
  starts = λ v h l. absurd (omega arith);
  before = λ v h. refl;
}
accumulate-Placed edges (suc c) k xoff size degs =
    let next = set xoff (2 * k) (row_at edges k) in
    let same_size = length-set xoff (2 * k) (row_at edges k) in
    let rest = accumulate-Placed edges c (k + 1) next (omega (arith, same_size)) (λ v h l.
      get_or-set_ne xoff (2 * k) (2 * v) _ 0 (λ e. omega arith)
      ∙ degs v (omega arith) (omega arith)) in
    record {
      after = rest.after;
      returned =
          rw
            (
              get_elem?-eq-get_or xoff (2 * k) 0 (omega arith),
              degs k (omega arith) (omega arith),
              write-set xoff (2 * k) (row_at edges k) (omega arith),
            )
            (ap (λ n. accumulate c (k + 1) n next) (sym (row_at-next edges k))
              ∙ rest.returned
              ∙ ap (λ n. some (rest.after, row_at edges n)) (omega arith));
      size = rest.size ∙ same_size;
      starts = λ v h l. elim (le-cases k v h) [
        | inl same ↦ rw same (
            rest.before k (omega arith)
            ∙ get_or-set_self xoff (2 * k) (row_at edges k) 0 (omega arith))
        | inr later ↦ rest.starts v later (omega arith)
      ];
      before = λ v h.
          rest.before v (omega arith) ∙ get_or-set_ne xoff (2 * k) (2 * v) _ 0 (λ e. omega arith);
    }

record Ended (k rounds : ℕ) (xoff : List ℕ) : Type 0 where
  after : List ℕ
  returned : copy_ends rounds k xoff ≡ some after
  size : length after ≡ length xoff
  starts : (v : ℕ) → get_or after (2 * v) 0 ≡ get_or xoff (2 * v) 0
  ends : (v : ℕ) → k ≤ v → v < k + rounds → get_or after (1 + 2 * v) 0 ≡ get_or xoff (2 * v) 0
  before : (v : ℕ) → v < k → get_or after (1 + 2 * v) 0 ≡ get_or xoff (1 + 2 * v) 0

copy_ends-Ended :
    (rounds k : ℕ) (xoff : List ℕ) → 2 * (k + rounds) ≤ length xoff → Ended k rounds xoff
unfolding copy_ends
copy_ends-Ended zero k xoff size = record {
  after = xoff;
  returned = refl;
  size = refl;
  starts = λ v. refl;
  ends = λ v h l. absurd (omega arith);
  before = λ v h. refl;
}
copy_ends-Ended (suc c) k xoff size =
    let start = get_or xoff (2 * k) 0 in
    let next = set xoff (1 + 2 * k) start in
    let same_size = length-set xoff (1 + 2 * k) start in
    let rest = copy_ends-Ended c (k + 1) next (omega (arith, same_size)) in
    let kept = (λ (v : ℕ). get_or-set_ne xoff (1 + 2 * k) (2 * v) start 0 (λ e. omega arith)) in
    record {
      after = rest.after;
      returned =
          rw
            (
              get_elem?-eq-get_or xoff (2 * k) 0 (omega arith),
              write-set xoff (1 + 2 * k) start (omega arith),
            )
            rest.returned;
      size = rest.size ∙ same_size;
      starts = λ v. rest.starts v ∙ kept v;
      ends = λ v h l. elim (le-cases k v h) [
        | inl same ↦
            rw same
              (rest.before k (omega arith) ∙ get_or-set_self xoff (1 + 2 * k) start 0 (omega arith))
        | inr later ↦ rest.ends v later (omega arith) ∙ kept v
      ];
      before = λ v h.
          rest.before v (omega arith)
          ∙ get_or-set_ne xoff (1 + 2 * k) (1 + 2 * v) _ 0 (λ e. omega arith);
    }

-- What `setup_deg_off` leaves: every row is empty and has its room.
pub record Rows (edges : List Edge) (nv : ℕ) (g : Csr) : Type 0 where
  pub nv_kept : g.nv ≡ nv
  pub starts : (v : ℕ) → v < nv → get_or g.xoff (2 * v) 0 ≡ row_at edges v
  pub stops : (v : ℕ) → v < nv → get_or g.xoff (1 + 2 * v) 0 ≡ row_at edges v
  pub size : length g.xoff ≡ 2 * nv + 2
  pub length-xadj : length g.xadj ≡ row_at edges nv

pub setup_deg_off-Rows :
    (edges : List Edge) (nv : ℕ)
    → AllInside nv edges
    → (g : Csr) × (setup_deg_off edges nv ≡ some g) × Rows edges nv g
unfolding setup_deg_off row_at
setup_deg_off-Rows edges nv inside =
    let blank = replicate {A = ℕ} (2 * nv + 2) 0 in
    let same_size = length-replicate {A = ℕ} (2 * nv + 2) 0 in
    let counted = count_degrees-Counted nv edges blank (omega (arith, same_size)) inside in
    let placed =
      accumulate-Placed edges nv 0 counted.after (omega (arith, same_size, counted.size)) (λ v h l.
        counted.values v (omega arith)
        ∙ ap (λ n. n + degree_of v edges) (get_or-replicate {A = ℕ} (2 * nv + 2) (2 * v) 0)
        ∙ omega arith) in
    let placed_at : accumulate nv 0 0 counted.after ≡ some (placed.after, row_at edges nv) =
      placed.returned ∙ ap (λ n. some (placed.after, row_at edges n)) (omega arith) in
    let total = set placed.after (2 * nv) (row_at edges nv) in
    let size_total = length-set placed.after (2 * nv) (row_at edges nv) in
    let ended =
      copy_ends-Ended nv 0 total
        (omega (arith, size_total, placed.size, counted.size, same_size)) in
    let kept = (λ (v : ℕ) (h : v < nv).
      get_or-set_ne placed.after (2 * nv) (2 * v) (row_at edges nv) 0 (λ e. omega arith)
      ∙ placed.starts v (omega arith) (omega arith)) in
    (
      record { nv = nv; xoff = ended.after; xadj = replicate (row_at edges nv) none },
      rw
          (
            counted.returned,
            placed_at,
            write-set placed.after (2 * nv) (row_at edges nv)
                (omega (arith, placed.size, counted.size, same_size)),
            ended.returned,
          )
          refl,
      record {
        nv_kept = refl;
        starts = λ v h. ended.starts v ∙ kept v h;
        stops = λ v h. ended.ends v (omega arith) (omega arith) ∙ kept v h;
        size = omega (arith, size_total, placed.size, counted.size, same_size, ended.size);
        length-xadj = length-replicate {A = Vertex} (row_at edges nv) none;
      },
    )
