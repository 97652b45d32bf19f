-- ===== src/Graph500/TopDown/Run.antt =====
-- All interleavings of the threads in the top-down step of
-- trident-workloads/graph500/omp-csr/omp-csr.c.
use mathlib.Core.Option.{some-injective}
use mathlib.Core.Path.{subst}
use trident_micro21_artifact.Btree.Array.{write}
use trident_micro21_artifact.Graph500.TopDown.{Thread, System, move, turn, run}
use trident_micro21_artifact.Graph500.TopDown.Count.{
  count, claimed, claims, claims-le, total, total-set,
}
use trident_micro21_artifact.Graph500.TopDown.Move.{
  size, held, waits, work, IsThread, IsShared, Moved, move-Moved,
}
use trident_micro21_artifact.Base.{
  ℕ, zero, suc, ◌+◌, ◌≤◌, ◌<◌, ◌≡◌, refl, sym, ◌⊎◌, inl, inr, Option, Bool-cases, ◌==◌,
  if◌then◌else◌, none, some, List, [], ◌∷◌, arith, lt→ltb, length, get_elem?, get_or, set, take,
  length-set,
}

-- The threads for a schedule.
abbrev pub Below : ℕ → List ℕ → Type 0
Below n [] = Unit
Below n (i ∷ schedule) = (i < n) × Below n schedule

-- How many turns of a schedule are turns of a thread with work left.
abbrev pub busy : Option Thread → ℕ
busy none = 0
busy (some t) = if work t == 0 then 0 else 1

abbrev pub turns_after : (System → ℕ) → Option System → ℕ
turns_after f none = 0
turns_after f (some s) = f s

unfoldable pub busy_turns : (nv : ℕ) (schedule : List ℕ) → System → ℕ
busy_turns nv [] s = 0
busy_turns nv (i ∷ schedule) s =
    busy (get_elem? s.threads i) + turns_after (busy_turns nv schedule) (turn nv i s)

module _ (nv : ℕ) (Link : ℕ → ℕ → Type 0) where
  abbrev pub AreThreads : List Thread → Type 0
  AreThreads [] = Unit
  AreThreads (t ∷ ts) = IsThread nv Link t × AreThreads ts

  -- Every vertex with a parent is once in the queue or held by one thread.
  pub record IsSystem (s : System) : Type 0 where
    pub shared : IsShared nv Link s.shared
    pub threads : AreThreads s.threads
    pub sizes : s.shared.k2 + total size s.threads ≡ claims s.shared.bfs_tree
    pub places :
        (i : ℕ)
        → count i (take s.shared.k2 s.shared.vlist) + total (held i) s.threads
          ≡ claimed s.shared.bfs_tree i

  AreThreads-get :
      (ts : List Thread) (i : ℕ)
      → AreThreads ts
      → i < length ts
      → (t : Thread) × (get_elem? ts i ≡ some t) × IsThread nv Link t
  AreThreads-get [] i h lt = absurd (omega arith)
  AreThreads-get (t ∷ ts) zero h lt = (t, refl, h.0)
  AreThreads-get (t ∷ ts) (suc i) h lt = AreThreads-get ts i h.1 (omega arith)

  AreThreads-set :
      (ts : List Thread) (i : ℕ) (t : Thread)
      → AreThreads ts
      → IsThread nv Link t
      → AreThreads (set ts i t)
  AreThreads-set [] i t h k = tt
  AreThreads-set (u ∷ ts) zero t h k = (k, h.1)
  AreThreads-set (u ∷ ts) (suc i) t h k = (h.0, AreThreads-set ts i t h.1 k)

  total-get :
      (ts : List Thread) (i : ℕ) (t : Thread) → get_elem? ts i ≡ some t → size t ≤ total size ts
  unfolding total
  total-get [] i t e = cc
  total-get (u ∷ ts) zero t e = let same : u ≡ t = some-injective u t e in rw same (omega arith)
  total-get (u ∷ ts) (suc i) t e = omega (arith, total-get ts i t e)

  -- What turns keep and gain.
  pub record Turned (s after : System) : Type 0 where
    pub system : IsSystem after
    pub crew : length after.threads ≡ length s.threads
    pub grows : (i : ℕ) → claimed s.shared.bfs_tree i ≤ claimed after.shared.bfs_tree i
    pub waiting :
        (i : ℕ)
        → 1 ≤ total (waits i) s.threads + claimed s.shared.bfs_tree i
        → 1 ≤ total (waits i) after.threads + claimed after.shared.bfs_tree i
    pub parents :
        (v j : ℕ)
        → get_or after.shared.bfs_tree j none ≡ some v
        → (get_or s.shared.bfs_tree j none ≡ some v) ⊎ Link v j

  pub record OneTurn (i : ℕ) (s : System) : Type 0 where
    pub after : System
    pub thread : Thread
    pub turned : Turned s after
    pub picked : get_elem? s.threads i ≡ some thread
    pub returned : turn nv i s ≡ some after
    pub progress :
        (total work after.threads < total work s.threads)
        ⊎ ((work thread ≡ 0) × (total work after.threads ≡ total work s.threads))

  module _ (s : System) (v : IsSystem s) (i : ℕ) (lt : i < length s.threads) where
    next_waiting :
        (t : Thread) (e : get_elem? s.threads i ≡ some t)
        (mv : Moved nv Link s.shared t (move nv s.shared t)) (j : ℕ)
        → 1 ≤ total (waits j) s.threads + claimed s.shared.bfs_tree j
        → 1 ≤ total (waits j) (set s.threads i mv.thread) + claimed mv.memory.bfs_tree j
    next_waiting t e mv j h =
        let balance = total-set (waits j) s.threads i t mv.thread e in
        let grown = mv.grows j in
        elim (mv.waiting j) [ inl more ↦ omega arith | inr reached ↦ omega arith ]

    pub turn-OneTurn : OneTurn i s
    unfolding turn write
    turn-OneTurn =
        let (t, e, ok) = AreThreads-get s.threads i v.threads lt in
        let room : s.shared.k2 + size t ≤ nv = omega (
          arith,
          total-get s.threads i t e,
          claims-le s.shared.bfs_tree,
          v.sizes,
          v.shared.tree_size,
        ) in
        let mv = move-Moved nv Link s.shared v.shared t ok room in
        record {
          after = record { shared = mv.memory; threads = set s.threads i mv.thread };
          thread = t;
          turned = record {
            system = record {
              shared = mv.shared;
              threads = AreThreads-set s.threads i mv.thread v.threads mv.well_formed;
              sizes = omega (arith, total-set size s.threads i t mv.thread e, mv.sizes, v.sizes);
              places = λ j.
                  omega
                    (arith, total-set (held j) s.threads i t mv.thread e, mv.places j, v.places j);
            };
            crew = length-set s.threads i mv.thread;
            grows = mv.grows;
            waiting = next_waiting t e mv;
            parents = mv.parents;
          };
          picked = e;
          returned = rw (e, mv.returned, lt→ltb i (length s.threads) lt) refl;
          progress = elim mv.progress [
            | inl less ↦ inl (omega (arith, total-set work s.threads i t mv.thread e))
            | inr (idle, still) ↦
                inr (idle, omega (arith, total-set work s.threads i t mv.thread e))
          ];
        }

  busy-le :
      (before after : ℕ) (t : Thread)
      → (after < before) ⊎ ((work t ≡ 0) × (after ≡ before))
      → busy (some t) + after ≤ before
  busy-le before after t (inl less) = ground arith
  busy-le before after t (inr (idle, still)) = ground arith

  some_busy : (ts : List Thread) → (total work ts ≡ 0) ⊎ ((i : ℕ) × (busy (get_elem? ts i) ≡ 1))
  unfolding total
  some_busy [] = inl refl
  some_busy (t ∷ ts) = elim (Bool-cases (work t == 0)) [
    | inl idle ↦ elim (some_busy ts) [
      | inl none_left ↦ inl (ground arith)
      | inr (i, b) ↦ inr (suc i, b)
    ]
    | inr left ↦ inr (0, ground arith)
  ]

  -- In a system in order, every schedule of the threads runs, leaves the system in order, and has at
  -- most as many turns of threads with work left as the work of all threads together is at its
  -- start, less what is left at its end; while work is left, some thread has it.
  pub run-Lowers :
      (schedule : List ℕ) (s : System)
      → IsSystem s
      → Below (length s.threads) schedule
      → (after : System) × (run nv schedule s ≡ some after)
        × IsSystem after
        × (busy_turns nv schedule s + total work after.threads ≤ total work s.threads)
        × ((total work after.threads ≡ 0) ⊎ ((i : ℕ) × (busy (get_elem? after.threads i) ≡ 1)))
  unfolding run busy_turns
  run-Lowers [] s v h = (s, refl, v, omega arith, some_busy s.threads)
  run-Lowers (i ∷ schedule) s v (lt, h) =
      let o = turn-OneTurn s v i lt in
      let (after, e, w, le, left) =
        run-Lowers schedule o.after o.turned.system
          (subst (λ n. Below n schedule) (sym o.turned.crew) h) in
      (
        after,
        rw o.returned e,
        w,
        rw (o.returned, o.picked) (omega (arith, busy-le _ _ o.thread o.progress, le)),
        left,
      )
