-- ===== src/Graph500/TopDown/Idle.antt =====
-- Threads of the top-down step in trident-workloads/graph500/omp-csr/omp-csr.c that are finished.
use trident_micro21_artifact.Graph500.TopDown.{Place, scan, attempt, keep, Thread}
use trident_micro21_artifact.Graph500.TopDown.Count.{total, claimed, mark_of}
use trident_micro21_artifact.Graph500.TopDown.Move.{size, held, waits, work}
use trident_micro21_artifact.Graph500.Csr.{Vertex}
use trident_micro21_artifact.Base.{ℕ, ◌≤◌, ◌≡◌, refl, none, some, List, [], ◌∷◌, arith, get_or}

-- It has nothing in hand, and nothing left to try.
pub record IsIdle (t : Thread) : Type 0 where
  pub no_size : size t ≡ 0
  pub none_held : (i : ℕ) → held i t ≡ 0
  pub none_waits : (i : ℕ) → waits i t ≡ 0

parts-IsIdle :
    (todo : List (ℕ × ℕ)) (local : List ℕ) (place : Place)
    → work (record { todo = todo; local = local; place = place }) ≡ 0
    → IsIdle (record { todo = todo; local = local; place = place })
parts-IsIdle [] [] scan e = record { no_size = refl; none_held = λ i. refl; none_waits = λ i. refl }
parts-IsIdle [] (j ∷ local) scan e = absurd (omega arith)
parts-IsIdle (w ∷ todo) local place e = absurd (omega arith)
parts-IsIdle [] local (attempt v j) e = absurd (omega arith)
parts-IsIdle [] local (keep j) e = absurd (omega arith)

pub work-IsIdle : (t : Thread) → work t ≡ 0 → IsIdle t
work-IsIdle t e = parts-IsIdle t.todo t.local t.place e

pub work-zero :
    (f : Thread → ℕ)
    → ((t : Thread) → work t ≡ 0 → f t ≡ 0)
    → (ts : List Thread) → total work ts ≡ 0
    → total f ts ≡ 0
unfolding total
work-zero f h [] e = refl
work-zero f h (t ∷ ts) e = omega (arith, h t (omega arith), work-zero f h ts (omega arith))

mark_of-le : (p : Vertex) → mark_of p ≤ 1
mark_of-le none = omega arith
mark_of-le (some v) = omega arith

pub claimed-le : (tree : List Vertex) (i : ℕ) → claimed tree i ≤ 1
claimed-le tree i = mark_of-le (get_or tree i none)
