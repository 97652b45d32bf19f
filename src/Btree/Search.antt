-- ===== src/Btree/Search.antt =====
-- The searches of trident-workloads/btree/btree1.c: `find_leaf`, `find`, `find_range`, `height`
-- and `path_to_root`. The `verbose` printing is left out. A walk down or up the tree takes
-- fuel, one unit for each node on the way.
use trident_micro21_artifact.Base.{ℕ, zero, suc, ◌+◌, ◌-◌, List, [], ◌++◌, ltb, ◌==◌, if◌then◌else◌}
use trident_micro21_artifact.Btree.Heap.{
  Ptr, null, out_of_fuel, Cmd, pure, ◌>>=◌, checked, get_store, load,
}
use trident_micro21_artifact.Btree.Array.{read}
use trident_micro21_artifact.Btree.Node.{scan, child_index, key_index, collect}

unfoldable pub descend : (fuel : ℕ) → Ptr → ℕ → Cmd Ptr
descend zero c key = λ _. out_of_fuel
descend (suc f) c key = do
  n ← load c
  if n.is_leaf
      then pure c
      else do i ← checked (child_index n key); q ← checked (read n.pointers i); descend f q key

unfoldable pub find_leaf : (fuel : ℕ) → Ptr → ℕ → Cmd Ptr
find_leaf fuel root key = if root == null then pure root else descend fuel root key

-- The record (or NULL) and what goes out through `leaf_out`.
unfoldable pub find : (fuel : ℕ) → Ptr → ℕ → Cmd (Ptr × Ptr)
find fuel root key = if root == null then pure (null, null) else do
  leaf ← find_leaf fuel root key
  n ← load leaf
  i ← checked (key_index n key)
  if i == n.num_keys then pure (null, leaf) else do r ← checked (read n.pointers i); pure (r, leaf)

-- while (n != NULL) { ...; n = n->pointers[order - 1]; i = 0; }
unfoldable pub range_loop : (fuel key_end : ℕ) → Ptr → (i : ℕ) → Cmd (List (ℕ × Ptr))
range_loop zero key_end p i = λ _. out_of_fuel
range_loop (suc f) key_end p i = if p == null then pure [] else do
  n ← load p
  es ← checked (collect key_end n (n.num_keys - i) i)
  s ← get_store
  q ← checked (read n.pointers (s.order - 1))
  more ← range_loop f key_end q 0
  pure (es ++ more)

-- The filled parts of `returned_keys` and `returned_pointers`; their length is the result.
unfoldable pub find_range : (fuel : ℕ) → Ptr → (key_start key_end : ℕ) → Cmd (List (ℕ × Ptr))
find_range fuel root key_start key_end = do
  p ← find_leaf fuel root key_start
  if p == null then pure [] else do
    n ← load p
    i ← checked (scan (λ k. ltb k key_start) n.keys n.num_keys 0)
    if i == n.num_keys then pure [] else range_loop fuel key_end p i

unfoldable pub height_loop : (fuel : ℕ) → Ptr → (h : ℕ) → Cmd ℕ
height_loop zero c h = λ _. out_of_fuel
height_loop (suc f) c h = do
  n ← load c
  if n.is_leaf then pure h else do q ← checked (read n.pointers 0); height_loop f q (h + 1)

unfoldable pub height : (fuel : ℕ) → Ptr → Cmd ℕ
height fuel root = height_loop fuel root 0

unfoldable pub path_loop : (fuel : ℕ) → (root c : Ptr) → (length : ℕ) → Cmd ℕ
path_loop zero root c k = λ _. out_of_fuel
path_loop (suc f) root c k =
    if c == root then pure k else do n ← load c; path_loop f root n.parent (k + 1)

unfoldable pub path_to_root : (fuel : ℕ) → (root child : Ptr) → Cmd ℕ
path_to_root fuel root child = path_loop fuel root child 0
