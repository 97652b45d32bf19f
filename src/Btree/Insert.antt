-- ===== src/Btree/Insert.antt =====
-- The insertion of trident-workloads/btree/btree1.c, from `insert` up through the splits.
-- `fuel` bounds the walk down and the splits on the way up: one unit for each level of the tree.
use trident_micro21_artifact.Base.{ℕ, zero, suc, ◌+◌, ◌-◌, List, not, ltb, ◌==◌, if◌then◌else◌}
use trident_micro21_artifact.Btree.Heap.{
  Ptr, null, out_of_fuel, Cmd, pure, ◌>>=◌, ◌>>◌, checked, get_store, load, store, load_record,
  store_record, set_parent,
}
use trident_micro21_artifact.Btree.Array.{read, write}
use trident_micro21_artifact.Btree.Array
use trident_micro21_artifact.Btree.Alloc.{make_record, make_node, make_leaf}
use trident_micro21_artifact.Btree.Search.{find_leaf, find}
use trident_micro21_artifact.Btree.Node.Insert.{split_leaf, get_left_index, split_node}
use trident_micro21_artifact.Btree.Node.Insert as Entry

-- for (i = 0; i <= num_keys; i++) { child = pointers[i]; child->parent = p; }
unfoldable pub adopt : (rounds i : ℕ) → List Ptr → Ptr → Cmd (Unit {0})
adopt zero i pointers p = pure tt
adopt (suc c) i pointers p = do
  child ← checked (read pointers i)
  set_parent child p
  adopt c (i + 1) pointers p

unfoldable pub insert_into_new_root : Ptr → ℕ → Ptr → Cmd Ptr
insert_into_new_root left key right = do
  root ← make_node
  n ← load root
  keys ← checked (write n.keys 0 key)
  pointers ← checked (Array.◌>>=◌ (write n.pointers 0 left) λ ps. write ps 1 right)
  store root
      (record n { keys = keys; pointers = pointers; num_keys = n.num_keys + 1; parent = null })
  set_parent left root
  set_parent right root
  pure root

-- `insert_into_node_after_splitting`; `up` is the call of `insert_into_parent` at its end.
unfoldable pub insert_after_splitting :
    (up : Ptr → Ptr → ℕ → Ptr → Cmd Ptr)
    → (root old : Ptr) → (left_index key : ℕ) → (right : Ptr) → Cmd Ptr
insert_after_splitting up root old left_index key right = do
  s ← get_store
  new ← make_node
  o ← load old
  n ← load new
  (o', n', k_prime) ← checked (split_node s.order o n left_index key right)
  store old o'
  store new n'
  adopt (n'.num_keys + 1) 0 n'.pointers new
  up root old k_prime new

unfoldable pub insert_into_parent : (fuel : ℕ) → Ptr → Ptr → ℕ → Ptr → Cmd Ptr
insert_into_parent zero root left key right = λ _. out_of_fuel
insert_into_parent (suc f) root left key right = do
  l ← load left
  if l.parent == null then insert_into_new_root left key right else do
    p ← load l.parent
    left_index ← checked (get_left_index p left)
    s ← get_store
    if ltb p.num_keys (s.order - 1)
        then (do
          p' ← checked (Entry.insert_into_node p left_index key right)
          store l.parent p'
          pure root)
        else insert_after_splitting (insert_into_parent f) root l.parent left_index key right

unfoldable pub insert_into_leaf_after_splitting : (fuel : ℕ) → Ptr → Ptr → ℕ → Ptr → Cmd Ptr
insert_into_leaf_after_splitting fuel root leaf key pointer = do
  new_leaf ← make_leaf
  s ← get_store
  l ← load leaf
  n ← load new_leaf
  (l', n') ← checked (split_leaf s.order l n new_leaf key pointer)
  store leaf l'
  store new_leaf n'
  new_key ← checked (read n'.keys 0)
  insert_into_parent fuel root leaf new_key new_leaf

unfoldable pub start_new_tree : ℕ → Ptr → Cmd Ptr
start_new_tree key pointer = do
  root ← make_leaf
  s ← get_store
  n ← load root
  keys ← checked (write n.keys 0 key)
  pointers ← checked (Array.◌>>=◌ (write n.pointers 0 pointer) λ ps. write ps (s.order - 1) null)
  store root
      (record n { keys = keys; pointers = pointers; num_keys = n.num_keys + 1; parent = null })
  pure root

-- The address of the root after the insertion.
unfoldable pub insert : (fuel : ℕ) → Ptr → ℕ → ℕ → Cmd Ptr
insert fuel root key value = do
  (found, _) ← find fuel root key
  if not (found == null)
      then (do r ← load_record found; store_record found (record r { value = value }); pure root)
      else do
        pointer ← make_record value
        if root == null then start_new_tree key pointer else do
          leaf ← find_leaf fuel root key
          s ← get_store
          l ← load leaf
          if ltb l.num_keys (s.order - 1)
              then (do
                l' ← checked (Entry.insert_into_leaf l key pointer)
                store leaf l'
                pure root)
              else insert_into_leaf_after_splitting fuel root leaf key pointer
