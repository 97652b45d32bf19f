-- ===== src/Graph500/TopDown.antt =====
-- `bfs_top_down_step` of trident-workloads/graph500/omp-csr/omp-csr.c: threads that claim vertices with
-- compare-and-swap and move them in batches into the shared queue. A thread is the list of the
-- tests that its share of the frontier makes, its buffer, and where it stands; `move` is what it
-- does up to its next access to shared memory, and a schedule is the list of the threads that move
-- next; the barrier behind the `omp for` is left out, which allows more schedules. The words of a
-- batch are written in one move: no other thread reads or writes them in this step. Memory is
-- sequentially consistent. `none` is an access out of range or an assertion that fails.
pub mod Count
pub mod Move
pub mod Run
pub mod Idle
pub mod Finish
pub mod Shares
pub mod Step
use trident_micro21_artifact.Graph500.Csr.{Vertex, Csr, same_vertex}
use trident_micro21_artifact.Btree.Array.{◌>>=◌, read, write}
use trident_micro21_artifact.Base.{
  ℕ, zero, suc, ◌+◌, ◌-◌, ◌*◌, Bool, true, false, Option, none, some, List, [], ◌∷◌, ◌++◌, ltb, leb,
  if◌then◌else◌, length,
}

-- THREAD_BUF_LEN
abbrev pub thread_buf_len : ℕ
thread_buf_len = 16384

-- At a test, behind a test that found no parent, or behind a swap that set one.
pub data Place : Type 0 where
  scan : Place
  attempt : (v j : ℕ) → Place
  keep : (j : ℕ) → Place

-- `todo` holds v and j = xadj[vo] of the tests to come, `local` is filled up to `kbuf`.
pub record Thread : Type 0 where
  pub todo : List (ℕ × ℕ)
  pub local : List ℕ
  pub place : Place

pub record Shared : Type 0 where
  pub bfs_tree : List Vertex
  pub vlist : List ℕ
  pub k2 : ℕ

-- The tests of a row: for (vo = XOFF(v); vo < veo; ++vo), with `rounds` to go.
unfoldable pub row_tests : (g : Csr) (v rounds vo : ℕ) → Option (List (ℕ × ℕ))
row_tests g v zero vo = some []
row_tests g v (suc c) vo = do
  j ← read g.xadj vo
  j ← j
  rest ← row_tests g v c (vo + 1)
  some ((v, j) ∷ rest)

-- The tests of the vertices `vlist[k]` that a thread gets from the `omp for`.
unfoldable pub share_tests : (g : Csr) (vlist : List ℕ) (rounds k : ℕ) → Option (List (ℕ × ℕ))
share_tests g vlist zero k = some []
share_tests g vlist (suc c) k = do
  v ← read vlist k
  start ← read g.xoff (2 * v)
  veo ← read g.xoff (1 + 2 * v)
  row ← row_tests g v (veo - start) start
  rest ← share_tests g vlist c (k + 1)
  some (row ++ rest)

-- The threads at the beginning, each with an empty buffer and its share of `*k1_p` to `oldk2`: the first
-- index and the number of indices. No thread writes what the tests are read from.
unfoldable pub start_threads :
    (g : Csr) (vlist : List ℕ) (shares : List (ℕ × ℕ)) → Option (List Thread)
start_threads g vlist [] = some []
start_threads g vlist ((k, rounds) ∷ shares) = do
  todo ← share_tests g vlist rounds k
  threads ← start_threads g vlist shares
  some (record { todo = todo; local = []; place = scan } ∷ threads)

-- int64_cas (&bfs_tree[j], -1, v): the new tree, and whether it was changed.
unfoldable pub int64_cas : List Vertex → (j v : ℕ) → Option (List Vertex × Bool)
int64_cas tree j v = do
  old ← read tree j
  if same_vertex old none
      then (do tree ← write tree j (some v); some (tree, true))
      else some (tree, false)

-- for (vk = 0; vk < kbuf; ++vk) vlist[voff + vk] = local[vk];
unfoldable pub copy_local : List ℕ → (voff : ℕ) → List ℕ → Option (List ℕ)
copy_local [] voff vlist = some vlist
copy_local (j ∷ local) voff vlist = do vlist ← write vlist voff j; copy_local local (voff + 1) vlist

-- voff = int64_fetch_add (k2_p, kbuf); assert (voff + kbuf <= nv); and the copy.
unfoldable pub flush : (nv : ℕ) → List ℕ → Shared → Option Shared
flush nv local m =
    if leb (m.k2 + length local) nv
    then (do
      vlist ← copy_local local m.k2 m.vlist
      some (record m { vlist = vlist; k2 = m.k2 + length local }))
    else none

-- if (bfs_tree[j] == -1) ...
unfoldable pub test : (v j : ℕ) → List (ℕ × ℕ) → Shared → Thread → Option (Shared × Thread)
test v j rest m t = do
  parent ← read m.bfs_tree j
  some (m, record t { todo = rest; place = if same_vertex parent none then attempt v j else scan })

unfoldable pub claim : (v j : ℕ) → Shared → Thread → Option (Shared × Thread)
claim v j m t = do
  (tree, changed) ← int64_cas m.bfs_tree j v
  some (record m { bfs_tree = tree }, record t { place = if changed then keep j else scan })

-- if (kbuf < THREAD_BUF_LEN) local[kbuf++] = j; else { ...; local[0] = j; kbuf = 1; }
unfoldable pub put_local : (nv j : ℕ) → Shared → Thread → Option (Shared × Thread)
put_local nv j m t =
    if ltb (length t.local) thread_buf_len
    then some (m, record t { local = t.local ++ j ∷ []; place = scan })
    else (do m ← flush nv t.local m; some (m, record t { local = j ∷ []; place = scan }))

-- At the end of the share: if (kbuf) { ... }
unfoldable pub scan_on : (nv : ℕ) → List (ℕ × ℕ) → Shared → Thread → Option (Shared × Thread)
scan_on nv ((v, j) ∷ rest) m t = test v j rest m t
scan_on nv [] m t = do m ← flush nv t.local m; some (m, record t { local = [] })

unfoldable pub move_at : (nv : ℕ) → Place → Shared → Thread → Option (Shared × Thread)
move_at nv scan m t = scan_on nv t.todo m t
move_at nv (attempt v j) m t = claim v j m t
move_at nv (keep j) m t = put_local nv j m t

unfoldable pub move : (nv : ℕ) → Shared → Thread → Option (Shared × Thread)
move nv m t = move_at nv t.place m t

pub record System : Type 0 where
  pub shared : Shared
  pub threads : List Thread

-- Thread `i` moves. A thread that is finished moves without an effect.
unfoldable pub turn : (nv i : ℕ) → System → Option System
turn nv i s = do
  t ← read s.threads i
  (m, t') ← move nv s.shared t
  threads ← write s.threads i t'
  some record { shared = m; threads = threads }

unfoldable pub run : (nv : ℕ) → (schedule : List ℕ) → System → Option System
run nv [] s = some s
run nv (i ∷ schedule) s = do s ← turn nv i s; run nv schedule s

-- The whole step on the shares that the `omp for` deals out, under a schedule of the threads.
unfoldable pub top_down_step :
    (g : Csr) (shares : List (ℕ × ℕ)) (schedule : List ℕ) → Shared → Option System
top_down_step g shares schedule m = do
  threads ← start_threads g m.vlist shares
  run g.nv schedule record { shared = m; threads = threads }
