-- ===== src/Graph500/TopDown/Step.antt =====
-- The whole top-down step of trident-workloads/graph500/omp-csr/omp-csr.c on compressed rows.
use trident_micro21_artifact.Graph500.Csr.{Csr}
use trident_micro21_artifact.Graph500.TopDown.{Shared, System, top_down_step}
use trident_micro21_artifact.Graph500.TopDown.Count.{claimed, total}
use trident_micro21_artifact.Graph500.TopDown.Move.{work}
use trident_micro21_artifact.Graph500.TopDown.Shares.{InShares, IsQueue}
use mathlib.Core.List.{Memᴰ}
use trident_micro21_artifact.Base.{ℕ, ◌≤◌, ◌≡◌, ◌⊎◌, none, some, List, get_or}

module _ (g : Csr) (adj : ℕ → List ℕ) where
  -- What the step leaves: the memory, and how much work the threads have left.
  pub record Stepped (shares : List (ℕ × ℕ)) (schedule : List ℕ) (m : Shared) : Type 0 where
    pub after : System
    pub returned : top_down_step g shares schedule m ≡ some after
    pub kept : (i : ℕ) → claimed m.bfs_tree i ≤ claimed after.shared.bfs_tree i
    pub parents :
        (v j : ℕ)
        → get_or after.shared.bfs_tree j none ≡ some v
        → (get_or m.bfs_tree j none ≡ some v) ⊎ (Memᴰ j (adj v) × (claimed m.bfs_tree v ≡ 1))
    pub next_queue : total work after.threads ≡ 0 → IsQueue g.nv after.shared
    pub reached :
        total work after.threads ≡ 0
        → (k w : ℕ) → InShares k shares
        → Memᴰ w (adj (get_or m.vlist k 0))
        → claimed after.shared.bfs_tree w ≡ 1
