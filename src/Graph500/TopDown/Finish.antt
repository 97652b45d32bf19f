-- ===== src/Graph500/TopDown/Finish.antt =====
-- Schedules of the top-down step in trident-workloads/graph500/omp-csr/omp-csr.c, and what is there when all
-- threads are finished.
use mathlib.Core.Path.{subst}
use trident_micro21_artifact.Graph500.TopDown.{System, Thread, scan, run}
use trident_micro21_artifact.Graph500.TopDown.Count.{count, claimed, claims, total}
use trident_micro21_artifact.Graph500.TopDown.Move.{size, held, waits, work, IsThread}
use trident_micro21_artifact.Graph500.TopDown.Idle.{work-IsIdle, work-zero, claimed-le}
use trident_micro21_artifact.Graph500.TopDown.Run.{
  Below, AreThreads, IsSystem, Turned, turn-OneTurn,
}
use trident_micro21_artifact.Base.{
  ℕ, ◌+◌, ◌≤◌, ◌≡◌, refl, sym, ◌∙◌, inl, inr, some, List, [], ◌∷◌, arith, length, take,
}

module _ (nv : ℕ) (Link : ℕ → ℕ → Type 0) where
  Turned-refl : (s : System) → IsSystem nv Link s → Turned nv Link s s
  Turned-refl s v = record {
    system = v;
    crew = refl;
    grows = λ i. omega arith;
    waiting = λ i h. h;
    parents = λ w j e. inl e;
  }

  Turned-trans : {s r q : System} → Turned nv Link s r → Turned nv Link r q → Turned nv Link s q
  Turned-trans a b = record {
    system = b.system;
    crew = b.crew ∙ a.crew;
    grows = λ i. omega (arith, a.grows i, b.grows i);
    waiting = λ i h. b.waiting i (a.waiting i h);
    parents =
        λ w j e. elim (b.parents w j e) [ inl before ↦ a.parents w j before | inr link ↦ inr link ];
  }

  run-Turned :
      (schedule : List ℕ) (s : System)
      → IsSystem nv Link s
      → Below (length s.threads) schedule
      → (after : System) × (run nv schedule s ≡ some after) × Turned nv Link s after
  unfolding run
  run-Turned [] s v h = (s, refl, Turned-refl s v)
  run-Turned (i ∷ schedule) s v (lt, h) =
      let o = turn-OneTurn nv Link s v i lt in
      let (after, e, t) =
        run-Turned schedule o.after o.turned.system
          (subst (λ n. Below n schedule) (sym o.turned.crew) h) in
      (after, rw o.returned e, Turned-trans o.turned t)

  -- Threads with new shares, at their first test.
  abbrev pub AreFresh : List Thread → Type 0
  AreFresh [] = Unit
  AreFresh (t ∷ ts) = (IsThread nv Link t × (t.local ≡ []) × (t.place ≡ scan)) × AreFresh ts

  pub fresh-IsThread : (ts : List Thread) → AreFresh ts → AreThreads nv Link ts
  fresh-IsThread [] h = tt
  fresh-IsThread (t ∷ ts) (h, hs) = (h.0, fresh-IsThread ts hs)

  pub fresh-size : (ts : List Thread) → AreFresh ts → total size ts ≡ 0
  unfolding total
  fresh-size [] h = refl
  fresh-size (t ∷ ts) ((h, e, f), hs) = rw (e, f) (omega (arith, fresh-size ts hs))

  pub fresh-held : (i : ℕ) (ts : List Thread) → AreFresh ts → total (held i) ts ≡ 0
  unfolding total
  fresh-held i [] h = refl
  fresh-held i (t ∷ ts) ((h, e, f), hs) = rw (e, f) (omega (arith, fresh-held i ts hs))

  pub record Finished (s after : System) : Type 0 where
    pub queue_length : after.shared.k2 ≡ claims after.shared.bfs_tree
    pub queue_entries :
        (i : ℕ)
        → count i (take after.shared.k2 after.shared.vlist) ≡ claimed after.shared.bfs_tree i
    pub reached :
        (i : ℕ)
        → 1 ≤ total (waits i) s.threads + claimed s.shared.bfs_tree i
        → claimed after.shared.bfs_tree i ≡ 1
    pub next_level :
        (threads : List Thread)
        → AreFresh threads
        → IsSystem nv Link (record { shared = after.shared; threads = threads })

  finish-Finished :
      (s after : System) → Turned nv Link s after → total work after.threads ≡ 0 → Finished s after
  finish-Finished s after t e = record {
    queue_length =
        omega (
          arith,
          t.system.sizes,
          work-zero size (λ u z. (work-IsIdle u z).no_size) after.threads e,
        );
    queue_entries = λ i. omega (
      arith,
      t.system.places i,
      work-zero (held i) (λ u z. (work-IsIdle u z).none_held i) after.threads e,
    );
    reached = λ i h. omega (
      arith,
      t.waiting i h,
      work-zero (waits i) (λ u z. (work-IsIdle u z).none_waits i) after.threads e,
      claimed-le after.shared.bfs_tree i,
    );
    next_level = λ threads h. record {
      shared = t.system.shared;
      threads = fresh-IsThread threads h;
      sizes = omega (
        arith,
        t.system.sizes,
        work-zero size (λ u z. (work-IsIdle u z).no_size) after.threads e,
        fresh-size threads h,
      );
      places = λ i. omega (
        arith,
        t.system.places i,
        work-zero (held i) (λ u z. (work-IsIdle u z).none_held i) after.threads e,
        fresh-held i threads h,
      );
    };
  }

  -- For a system in order and any schedule of its threads, no access is out of range and no
  -- assertion fails. The system stays in order, no vertex loses its parent, and a new parent is at
  -- the other end of a link. When all threads are finished, the queue holds each vertex that has a
  -- parent exactly once and nothing else, and every vertex that some thread was to try has one; with
  -- new shares the system is in order for the next level.
  pub run-Finished :
      (schedule : List ℕ) (s : System)
      → IsSystem nv Link s
      → Below (length s.threads) schedule
      → (after : System) × (run nv schedule s ≡ some after)
        × Turned nv Link s after
        × (total work after.threads ≡ 0 → Finished s after)
  run-Finished schedule s v h =
      let (after, e, t) = run-Turned schedule s v h in (after, e, t, finish-Finished s after t)
