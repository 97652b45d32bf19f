-- ===== src/Graph500/Bfs/Level.antt =====
-- The loops of the search in trident-workloads/graph500/seq-csr/seq-csr.c over rows and levels.
use trident_micro21_artifact.Graph500.Csr.Entries.{RowAt}
use trident_micro21_artifact.Graph500.Csr.{Csr}
use trident_micro21_artifact.Graph500.Bfs.State.{
  marked-lt, visit-Visited, marked, Visited, Good, Extends-refl, Extends-trans, unset, Closed,
  Closed-suc,
}
use mathlib.Core.List.{Memᴰ}
use mathlib.Core.List.Memᴰ
use trident_micro21_artifact.Graph500.Bfs.{Search, visit_level, visit_row, visit_vertex}
use trident_micro21_artifact.Base.{
  ℕ, zero, suc, ◌+◌, ◌-◌, ◌*◌, ◌≤◌, ◌<◌, ◌≡◌, refl, inl, inr, true, Option, some, List, [], ◌∷◌,
  arith, length, get_elem?, get_or, get_elem?-eq-get_or,
}

-- The compressed rows hold the neighbours `adj` of each vertex, all of them vertices.
pub record IsCsr (g : Csr) (adj : ℕ → List ℕ) : Type 0 where
  pub first : ℕ → ℕ
  pub row_start : (v : ℕ) → v < g.nv → get_elem? g.xoff (2 * v) ≡ some (first v)
  pub row_stop : (v : ℕ) → v < g.nv → get_elem? g.xoff (1 + 2 * v) ≡ some (first v + length (adj v))
  pub entries : (v : ℕ) → v < g.nv → RowAt g.xadj (first v) (adj v)
  pub within : (v w : ℕ) → v < g.nv → Memᴰ w (adj v) → w < g.nv

module _ (g : Csr) (adj : ℕ → List ℕ) (src : ℕ) (c : IsCsr g adj) where
  abbrev Visits : Search → Option Search → Type 0
  Visits = Visited g.nv adj src

  row_lem :
      (u : ℕ) (ws : List ℕ) (rounds k : ℕ) (st : Search)
      → rounds ≡ length ws
      → RowAt g.xadj k ws
      → ((w : ℕ) → Memᴰ w ws → Memᴰ w (adj u))
      → u < g.nv
      → Good g.nv adj src st
      → marked st u ≡ true
      → (v : Visits st (visit_row g u rounds k st)) × ((w : ℕ)
          → Memᴰ w ws
          → marked v.after w ≡ true)
  unfolding visit_row
  row_lem u [] zero k st e row sub less good m = (
    record { after = st; returned = refl; good = good; extends = Extends-refl st },
    λ w n. absurd (Memᴰ.not-nil n),
  )
  row_lem u [] (suc r) k st e row sub less good m = absurd (omega arith)
  row_lem u (w ∷ ws) zero k st e row sub less good m = absurd (omega arith)
  row_lem u (w ∷ ws) (suc r) k st e (at, row) sub less good m =
      let edge = sub w (Memᴰ.head refl) in
      let (now, set_now) = visit-Visited g.nv adj src u w st good m edge (c.within u w less edge) in
      let (rest, set_rest) =
        row_lem u ws r (k + 1) now.after (omega arith) row (λ x n. sub x (Memᴰ.tail n)) less
          now.good (now.extends.kept u m) in
      (
        record {
          after = rest.after;
          returned = rw (at, now.returned) rest.returned;
          good = rest.good;
          extends = Extends-trans now.extends rest.extends;
        },
        λ x n. elim (Memᴰ.cases_cons n) [
          | inl e ↦ rw e (rest.extends.kept w set_now)
          | inr n' ↦ set_rest x n'
        ],
      )

  vertex_lem :
      (u : ℕ) (st : Search)
      → u < g.nv
      → Good g.nv adj src st
      → marked st u ≡ true
      → (v : Visits st (visit_vertex g u st)) × ((w : ℕ) → Memᴰ w (adj u) → marked v.after w ≡ true)
  unfolding visit_vertex
  vertex_lem u st less good m =
      let (row, all) =
        row_lem u (adj u) (c.first u + length (adj u) - c.first u) (c.first u) st (omega arith)
          (c.entries u less) (λ w n. n) less good m in
      (
        record {
          after = row.after;
          returned = rw (c.row_start u less, c.row_stop u less) row.returned;
          good = row.good;
          extends = row.extends;
        },
        all,
      )

  pub level_lem :
      (rounds k : ℕ) (st : Search)
      → k + rounds ≤ st.k2
      → Good g.nv adj src st
      → Closed adj k st
      → (v : Visits st (visit_level g rounds k st)) × Closed adj (k + rounds) v.after
  unfolding visit_level
  level_lem zero k st le good closed = (
    record { after = st; returned = refl; good = good; extends = Extends-refl st },
    λ i w h n. closed i w (omega arith) n,
  )
  level_lem (suc r) k st le good closed =
      let u = get_or st.vlist k 0 in
      let m : marked st u ≡ true = good.listed k (omega arith) in
      let less : u < g.nv = omega (arith, marked-lt st.bfs_tree u m, good.tree_size) in
      let size : unset st.bfs_tree + st.k2 ≡ g.nv = good.room in
      let at : get_elem? st.vlist k ≡ some u =
        get_elem?-eq-get_or st.vlist k 0 (omega (arith, good.list_size)) in
      let (now, reached) = vertex_lem u st less good m in
      let closed_now : Closed adj (k + 1) now.after =
        Closed-suc adj k st now.after now.extends (omega arith) closed reached in
      let (rest, closed_rest) =
        level_lem r (k + 1) now.after (omega (arith, now.extends.more)) now.good closed_now in
      (
        record {
          after = rest.after;
          returned = rw (at, now.returned) rest.returned;
          good = rest.good;
          extends = Extends-trans now.extends rest.extends;
        },
        λ i w h n. closed_rest i w (omega arith) n,
      )
