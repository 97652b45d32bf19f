-- ===== src/Graph500/Csr/Pack.antt =====
-- `pack_edges` and `create_graph_from_edgelist` in trident-workloads/graph500/seq-csr/seq-csr.c.
use trident_micro21_artifact.Graph500.Csr.{Vertex, Csr, pack_edges}
use trident_micro21_artifact.Graph500.Csr.Distinct.{Sorts}
use trident_micro21_artifact.Graph500.Csr.PackRow.{pack_vtx_edges-PackedRow, Row}
use mathlib.Core.Path.{subst}
use trident_micro21_artifact.Graph500.Csr.Scatter.{Scattered}
use trident_micro21_artifact.Base.{
  ℕ, zero, suc, ◌+◌, ◌≤◌, ◌<◌, ◌≡◌, refl, ◌∙◌, inl, inr, Option, some, List, arith, le-cases,
}

module _ (first cap : ℕ → ℕ) (nv : ℕ) (apart : (v w : ℕ) → v < w → first v + cap v ≤ first w)
    (sort : List Vertex → List Vertex) (sorts : Sorts sort) where
  pub record PackedRows (adj : ℕ → List ℕ) (from rounds : ℕ) (r : Option Csr) : Type 0 where
    pub next : Csr
    pub returned : r ≡ some next
    pub rows : ℕ → List ℕ
    pub filled : Scattered first cap nv apart rows next
    pub packed : (v : ℕ) → from ≤ v → v < from + rounds → Row (adj v) (rows v)
    pub before : (v : ℕ) → v < from → rows v ≡ adj v

  pub pack_edges-PackedRows :
      (adj : ℕ → List ℕ) (rounds v : ℕ) (g : Csr)
      → Scattered first cap nv apart adj g
      → v + rounds ≤ nv
      → PackedRows adj v rounds (pack_edges sort rounds v g)
  unfolding pack_edges
  pack_edges-PackedRows adj zero v g s h = record {
    next = g;
    returned = refl;
    rows = adj;
    filled = s;
    packed = λ u le less. absurd (omega arith);
    before = λ u less. refl;
  }
  pack_edges-PackedRows adj (suc c) v g s h =
      let one = pack_vtx_edges-PackedRow first cap nv apart sort sorts adj v g s (omega arith) in
      let rest = pack_edges-PackedRows one.rows c (v + 1) one.next one.filled (omega arith) in
      record {
        next = rest.next;
        returned = rw one.returned rest.returned;
        rows = rest.rows;
        filled = rest.filled;
        packed = λ u le less. elim (le-cases v u le) [
          | inl e ↦ rw (e, rest.before v (omega arith)) one.row
          | inr later ↦
              subst (λ ws. Row ws (rest.rows u)) (one.others u (λ e. omega arith))
                (rest.packed u later (omega arith))
        ];
        before = λ u less. rest.before u (omega arith) ∙ one.others u (λ e. omega arith);
      }
