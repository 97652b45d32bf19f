-- ===== src/Graph500/TopDownTests.antt =====
-- Two threads of the top-down step in trident-workloads/graph500/omp-csr/omp-csr.c that race for a vertex.
use trident_micro21_artifact.Btree.Array.{write}
use trident_micro21_artifact.Graph500.Csr.{Csr, same_vertex}
use trident_micro21_artifact.Graph500.TopDown.{
  Shared, start_threads, top_down_step, Thread, System, scan, row_tests, share_tests, int64_cas,
  copy_local, flush, test, claim, put_local, scan_on, move_at, move, turn, run,
}
use trident_micro21_artifact.Graph500.TopDown.Count.{count, claimed, total}
use trident_micro21_artifact.Graph500.TopDown.Move.{held, work}
use trident_micro21_artifact.Graph500.TopDown.Run.{IsSystem, busy, busy_turns, run-Lowers}
use mathlib.Core.List.{Memᴰ}
use mathlib.Core.List.Memᴰ
use trident_micro21_artifact.Base.{
  ℕ, zero, suc, ◌+◌, ◌≤◌, ◌<◌, ◌≡◌, ◌⊎◌, refl, none, some, List, [], ◌∷◌, arith, take, get_elem?,
}

-- Vertex 0 with the neighbours 1 and 2.
abbrev star : Csr
star = record {
  nv = 3;
  xoff = 0 ∷ 2 ∷ 2 ∷ 3 ∷ 4 ∷ 5 ∷ [];
  xadj = some 1 ∷ some 2 ∷ some 0 ∷ none ∷ some 0 ∷ none ∷ [];
}

star_tests : share_tests star (0 ∷ 0 ∷ 0 ∷ []) 1 0 ≡ some ((0, 1) ∷ (0, 2) ∷ [])
unfolding share_tests row_tests
star_tests = refl

-- Two threads are at the tests of the same vertices, 0 and 1 being in the queue.
abbrev first : Thread
first = record { todo = (0, 2) ∷ (0, 3) ∷ []; local = []; place = scan }

abbrev second : Thread
second = record { todo = (1, 2) ∷ []; local = []; place = scan }

abbrev race : System
race = record {
  shared = record {
    bfs_tree = some 0 ∷ some 0 ∷ none ∷ none ∷ [];
    vlist = 0 ∷ 1 ∷ 0 ∷ 0 ∷ [];
    k2 = 2;
  };
  threads = first ∷ second ∷ [];
}

abbrev FromFrontier : ℕ → ℕ → Type 0
FromFrontier v j = v < 2

race-places :
    (i : ℕ)
    → count i (take race.shared.k2 race.shared.vlist) + total (held i) race.threads
      ≡ claimed race.shared.bfs_tree i
unfolding total
race-places zero = refl
race-places (suc zero) = refl
race-places (suc (suc zero)) = refl
race-places (suc (suc (suc zero))) = refl
race-places (suc (suc (suc (suc i)))) = ground arith

race-IsSystem : IsSystem 4 FromFrontier race
unfolding total
race-IsSystem = record {
  shared = record { tree_size = refl; list_size = refl };
  threads = (
    record { buffer = omega arith; links = omega arith; link_at = tt },
    (record { buffer = omega arith; links = omega arith; link_at = tt }, tt),
  );
  sizes = refl;
  places = race-places;
}

-- Both find vertex 2 without a parent, and the second one wins.
race-run :
    run 4 (0 ∷ 1 ∷ 1 ∷ 0 ∷ 1 ∷ 0 ∷ 0 ∷ 0 ∷ 0 ∷ 1 ∷ []) race
    ≡ some (record {
      shared = record {
        bfs_tree = some 0 ∷ some 0 ∷ some 1 ∷ some 0 ∷ [];
        vlist = 0 ∷ 1 ∷ 3 ∷ 2 ∷ [];
        k2 = 4;
      };
      threads =
          record { todo = []; local = []; place = scan }
          ∷ record { todo = []; local = []; place = scan }
          ∷ [];
    })
unfolding run turn move move_at scan_on test claim put_local flush copy_local int64_cas same_vertex
    write
race-run = refl

run-Lowers_example :
    (after : System) × (run 4 (0 ∷ 1 ∷ 1 ∷ 0 ∷ 1 ∷ []) race ≡ some after)
    × IsSystem 4 FromFrontier after
    × (busy_turns 4 (0 ∷ 1 ∷ 1 ∷ 0 ∷ 1 ∷ []) race + total work after.threads
        ≤ total work race.threads)
    × ((total work after.threads ≡ 0) ⊎ ((i : ℕ) × (busy (get_elem? after.threads i) ≡ 1)))
run-Lowers_example =
    run-Lowers 4 FromFrontier (0 ∷ 1 ∷ 1 ∷ 0 ∷ 1 ∷ []) race race-IsSystem (omega arith)

-- The rows of the star.
abbrev star_rows : ℕ → List ℕ
star_rows zero = 1 ∷ 2 ∷ []
star_rows (suc zero) = 0 ∷ []
star_rows (suc (suc zero)) = 0 ∷ []
star_rows (suc (suc (suc v))) = []

abbrev star_first : ℕ → ℕ
star_first zero = 0
star_first (suc zero) = 2
star_first (suc (suc zero)) = 4
star_first (suc (suc (suc v))) = 0

-- Vertex 0 is the frontier, and the second thread has no share of it.
abbrev source : Shared
source = record { bfs_tree = some 0 ∷ none ∷ none ∷ []; vlist = 0 ∷ 0 ∷ 0 ∷ []; k2 = 1 }

abbrev two_shares : List (ℕ × ℕ)
two_shares = (0, 1) ∷ (1, 0) ∷ []

step_of_star :
    top_down_step star two_shares (0 ∷ 0 ∷ 1 ∷ 0 ∷ 0 ∷ 0 ∷ 0 ∷ 0 ∷ []) source
    ≡ some (record {
      shared = record { bfs_tree = some 0 ∷ some 0 ∷ some 0 ∷ []; vlist = 0 ∷ 1 ∷ 2 ∷ []; k2 = 3 };
      threads =
          record { todo = []; local = []; place = scan }
          ∷ record { todo = []; local = []; place = scan }
          ∷ [];
    })
unfolding top_down_step start_threads share_tests row_tests run turn move move_at scan_on test claim
    put_local flush copy_local int64_cas same_vertex write
step_of_star = refl
