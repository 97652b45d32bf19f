-- ===== src/Graph500/TopDown/Shares.antt =====
-- The shares of the frontier in the top-down step of trident-workloads/graph500/omp-csr/omp-csr.c: on
-- compressed rows, the tests that the threads get are along the rows of vertices in the queue.
use trident_micro21_artifact.Graph500.Csr.{Csr, Vertex}
use trident_micro21_artifact.Graph500.Csr.Entries.{RowAt}
use trident_micro21_artifact.Graph500.Bfs.Level.{IsCsr}
use trident_micro21_artifact.Graph500.TopDown.{
  Thread, Shared, scan, row_tests, share_tests, start_threads,
}
use trident_micro21_artifact.Graph500.TopDown.Count.{count, claimed, claims, claims-le, total}
use trident_micro21_artifact.Graph500.TopDown.Idle.{claimed-le}
use trident_micro21_artifact.Graph500.TopDown.Move.{Links, tries, waits}
use trident_micro21_artifact.Graph500.TopDown.Finish.{AreFresh}
use mathlib.Core.List.{Memᴰ}
use mathlib.Core.Path.{subst}
use mathlib.Core.List.Memᴰ
use trident_micro21_artifact.Base.{
  ℕ, zero, suc, ◌+◌, ◌-◌, ◌≤◌, ◌<◌, ◌≡◌, refl, sym, ap, ◌⊎◌, inl, inr, some, List, [], ◌∷◌, ◌++◌,
  arith, length, get_or, get_elem?, take, get_elem?-eq-get_or, eq-cases,
}

-- The first index and the number of indices of each share lie in the frontier.
abbrev pub SharesWithin : ℕ → List (ℕ × ℕ) → Type 0
SharesWithin k2 [] = Unit
SharesWithin k2 ((k, rounds) ∷ shares) = (k + rounds ≤ k2) × SharesWithin k2 shares

-- Some thread has index `i` in its share.
abbrev pub InShares : ℕ → List (ℕ × ℕ) → Type 0
InShares i [] = ⊥
InShares i ((k, rounds) ∷ shares) = ((k ≤ i) × (i < k + rounds)) ⊎ InShares i shares

-- An entry of the queue is counted in it.
count-entry :
    (xs : List ℕ) (n i : ℕ) → i < n → i < length xs → 1 ≤ count (get_or xs i 0) (take n xs)
count-entry [] n i h lt = absurd (omega arith)
count-entry (x ∷ xs) zero i h lt = absurd (omega arith)
count-entry (x ∷ xs) (suc n) zero h lt = ground arith
count-entry (x ∷ xs) (suc n) (suc i) h lt =
    omega (arith, count-entry xs n i (omega arith) (omega arith))

tries-append : (i : ℕ) (xs ys : List (ℕ × ℕ)) → tries i (xs ++ ys) ≡ tries i xs + tries i ys
tries-append i [] ys = omega arith
tries-append i ((v, j) ∷ xs) ys = omega (arith, tries-append i xs ys)

Links-append :
    (nv : ℕ) (Link : ℕ → ℕ → Type 0) (xs ys : List (ℕ × ℕ))
    → Links nv Link xs
    → Links nv Link ys
    → Links nv Link (xs ++ ys)
Links-append nv Link [] ys h k = k
Links-append nv Link ((v, j) ∷ xs) ys (low, link, h) k = (low, link, Links-append nv Link xs ys h k)

-- The queue holds each vertex that has a parent exactly once, and nothing else.
pub record IsQueue (nv : ℕ) (m : Shared) : Type 0 where
  pub tree_size : length m.bfs_tree ≡ nv
  pub list_size : length m.vlist ≡ nv
  pub queue_length : m.k2 ≡ claims m.bfs_tree
  pub queue_entries : (i : ℕ) → count i (take m.k2 m.vlist) ≡ claimed m.bfs_tree i

claimed-lt : (tree : List Vertex) (i : ℕ) → 1 ≤ claimed tree i → i < length tree
claimed-lt [] i h = absurd (omega arith)
claimed-lt (p ∷ tree) zero h = omega arith
claimed-lt (p ∷ tree) (suc i) h = omega (arith, claimed-lt tree i h)

-- The links lead from a vertex that had a parent before the step to its neighbours.
module _ (g : Csr) (adj : ℕ → List ℕ) (c : IsCsr g adj) (m : Shared) (q : IsQueue g.nv m) where
  abbrev pub RowLink : ℕ → ℕ → Type 0
  RowLink v j = Memᴰ j (adj v) × (claimed m.bfs_tree v ≡ 1)

  row_tests-Links :
      (v : ℕ) (ws : List ℕ) (rounds k : ℕ)
      → rounds ≡ length ws
      → RowAt g.xadj k ws
      → ((w : ℕ) → Memᴰ w ws → Memᴰ w (adj v))
      → v < g.nv
      → claimed m.bfs_tree v ≡ 1
      → (todo : List (ℕ × ℕ)) × (row_tests g v rounds k ≡ some todo)
        × Links g.nv RowLink todo
        × ((w : ℕ) → Memᴰ w ws → 1 ≤ tries w todo)
  unfolding row_tests
  row_tests-Links v [] zero k e row sub less m = ([], refl, tt, λ w n. absurd (Memᴰ.not-nil n))
  row_tests-Links v [] (suc r) k e row sub less m = absurd (omega arith)
  row_tests-Links v (w ∷ ws) zero k e row sub less m = absurd (omega arith)
  row_tests-Links v (w ∷ ws) (suc r) k e (at, row) sub less m =
      let edge = sub w (Memᴰ.head refl) in
      let (todo, returned, links, all) =
        row_tests-Links v ws r (k + 1) (omega arith) row (λ x n. sub x (Memᴰ.tail n)) less m in
      (
        (v, w) ∷ todo,
        rw (at, returned) refl,
        (c.within v w less edge, (edge, m), links),
        λ x n. elim (Memᴰ.cases_cons n) [ inl e ↦ ground arith | inr n' ↦ omega (arith, all x n') ],
      )

  queued :
      (k : ℕ)
      → k < m.k2
      → (get_elem? m.vlist k ≡ some (get_or m.vlist k 0))
        × (claimed m.bfs_tree (get_or m.vlist k 0) ≡ 1)
        × (get_or m.vlist k 0 < g.nv)
  queued k lt =
      let fits : k < length m.vlist =
        omega (arith, q.queue_length, claims-le m.bfs_tree, q.tree_size, q.list_size) in
      let v = get_or m.vlist k 0 in
      let once = count-entry m.vlist m.k2 k lt fits in
      let one : claimed m.bfs_tree v ≡ 1 =
        omega (arith, q.queue_entries v, claimed-le m.bfs_tree v) in
      (
        get_elem?-eq-get_or m.vlist k 0 fits,
        one,
        omega (arith, claimed-lt m.bfs_tree v (omega arith), q.tree_size),
      )

  share_tests-Links :
      (rounds k : ℕ)
      → k + rounds ≤ m.k2
      → (todo : List (ℕ × ℕ)) × (share_tests g m.vlist rounds k ≡ some todo)
        × Links g.nv RowLink todo
        × ((i w : ℕ)
            → k ≤ i
            → i < k + rounds
            → Memᴰ w (adj (get_or m.vlist i 0))
            → 1 ≤ tries w todo)
  unfolding share_tests
  share_tests-Links zero k h = ([], refl, tt, λ i w le lt n. absurd (omega arith))
  share_tests-Links (suc r) k h =
      let v = get_or m.vlist k 0 in
      let (at, one, less) = queued k (omega arith) in
      let (row, returned, links, all) =
        row_tests-Links v (adj v) (c.first v + length (adj v) - c.first v) (c.first v) (omega arith)
          (c.entries v less) (λ w n. n) less one in
      let (rest, returned', links', all') = share_tests-Links r (k + 1) (omega arith) in
      (
        row ++ rest,
        rw (at, c.row_start v less, c.row_stop v less, returned, returned') refl,
        Links-append g.nv RowLink row rest links links',
        λ i w le lt n. elim (eq-cases k i) [
          | inl same ↦
              let here = all w (subst (λ x. Memᴰ w (adj (get_or m.vlist x 0))) (sym same) n) in
              omega (arith, tries-append w row rest)
          | inr other ↦
              let later = all' i w (omega arith) (omega arith) n in
              omega (arith, tries-append w row rest)
        ],
      )

  pub start_threads-AreFresh :
      (shares : List (ℕ × ℕ))
      → SharesWithin m.k2 shares
      → (threads : List Thread) × (start_threads g m.vlist shares ≡ some threads)
        × (length threads ≡ length shares)
        × AreFresh g.nv RowLink threads
        × ((i w : ℕ)
            → InShares i shares
            → Memᴰ w (adj (get_or m.vlist i 0))
            → 1 ≤ total (waits w) threads)
  unfolding start_threads total
  start_threads-AreFresh [] h = ([], refl, refl, tt, λ i w n. absurd n)
  start_threads-AreFresh ((k, rounds) ∷ shares) (le, h) =
      let (todo, returned, links, all) = share_tests-Links rounds k le in
      let (threads, returned', crew, fresh, all') = start_threads-AreFresh shares h in
      (
        record { todo = todo; local = []; place = scan } ∷ threads,
        rw (returned, returned') refl,
        ap suc crew,
        ((record { buffer = omega arith; links = links; link_at = tt }, refl, refl), fresh),
        λ i w n d. elim n [
          | inl (from, to) ↦ omega (arith, all i w from to d)
          | inr later ↦ omega (arith, all' i w later d)
        ],
      )
