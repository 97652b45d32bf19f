-- ===== src/Btree/Delete.antt =====
-- The deletion of trident-workloads/btree/btree1.c, from `delete` up through the merges. `fuel` bounds
-- the walks: one unit for each level of the tree. `free` of the arrays of a node leaves the node
-- without arrays.
use trident_micro21_artifact.Base.{
  ℕ, zero, suc, ◌+◌, ◌-◌, ◌%◌, ◌^◌, [], not, ◌||◌, ltb, leb, ◌==◌, if◌then◌else◌,
}
use trident_micro21_artifact.Btree.Heap.{
  Ptr, null, Node, out_of_fuel, Cmd, pure, ◌>>=◌, ◌>>◌, checked, exit, get_store, load, store,
  set_parent,
}
use trident_micro21_artifact.Btree.Array.{read, write}
use trident_micro21_artifact.Btree.Alloc.{free_node, free_record}
use trident_micro21_artifact.Btree.Search.{find}
use trident_micro21_artifact.Btree.Insert.{adopt}
use trident_micro21_artifact.Btree.Node.{scan, cut}
use trident_micro21_artifact.Btree.Node.Delete.{
  remove_entry_from_node, coalesce, take_from_left, take_from_right,
}

-- (uint64_t)-1, the neighbour index of a leftmost child.
abbrev pub minus_one : ℕ
minus_one = 2 ^ 64 - 1

-- `i - 1` for the index `i` of the child `p`; `exit` if the parent does not point to it.
unfoldable pub get_neighbor_index : Node → Ptr → Cmd ℕ
get_neighbor_index parent p = do
  i ← checked (scan (λ q. not (q == p)) parent.pointers (parent.num_keys + 1) 0)
  if leb i parent.num_keys then pure ((i + minus_one) % 2 ^ 64) else exit

-- free (p->keys); free (p->pointers); free_node (p);
unfoldable pub release : Ptr → Cmd (Unit {0})
release p = do n ← load p; store p (record n { keys = []; pointers = [] }); free_node p

unfoldable pub adjust_root : Ptr → Cmd Ptr
adjust_root root = do
  n ← load root
  if ltb 0 n.num_keys then pure root else if n.is_leaf then (do release root; pure null) else do
    new_root ← checked (read n.pointers 0)
    set_parent new_root null
    release root
    pure new_root

-- `up` is the call of `delete_entry` on the parent.
unfoldable pub coalesce_nodes :
    (up : Ptr → Ptr → ℕ → Ptr → Cmd Ptr)
    → (root n neighbor : Ptr) → (neighbor_index k_prime : ℕ) → Cmd Ptr
coalesce_nodes up root n neighbor neighbor_index k_prime =
    let (n, neighbor) =
      let both : Ptr × Ptr = if neighbor_index == minus_one then (neighbor, n) else (n, neighbor) in
      both in
    do
      s ← get_store
      right ← load n
      left ← load neighbor
      (left', right') ← checked (coalesce s.order right left k_prime)
      store neighbor left'
      store n right'
      if right.is_leaf then pure tt else adopt (left'.num_keys + 1) 0 left'.pointers neighbor
      root' ← up root right.parent k_prime n
      release n
      pure root'

unfoldable pub redistribute_nodes :
    (root n neighbor : Ptr) → (neighbor_index k_prime_index k_prime : ℕ) → Cmd Ptr
redistribute_nodes root n neighbor neighbor_index k_prime_index k_prime = do
  m ← load n
  b ← load neighbor
  (m', b', k) ← checked (
      if neighbor_index == minus_one
      then take_from_right m b k_prime
      else take_from_left m b k_prime)
  store n m'
  store neighbor b'
  p ← load m.parent
  keys ← checked (write p.keys k_prime_index k)
  store m.parent (record p { keys = keys })
  if m.is_leaf then pure root else do
    child ← checked (read m'.pointers (if neighbor_index == minus_one then m.num_keys + 1 else 0))
    set_parent child n
    pure root

unfoldable pub delete_entry : (fuel : ℕ) → Ptr → Ptr → ℕ → Ptr → Cmd Ptr
delete_entry zero root p key pointer = λ _. out_of_fuel
delete_entry (suc f) root p key pointer = do
  s ← get_store
  n ← load p
  n' ← checked (remove_entry_from_node s.order n key pointer)
  store p n'
  if p == root then adjust_root root else do
    if leb (if n'.is_leaf then cut (s.order - 1) else cut s.order - 1) n'.num_keys
        then pure root
        else do
          parent ← load n'.parent
          neighbor_index ← get_neighbor_index parent p
          let leftmost = neighbor_index == minus_one
          let k_prime_index = if leftmost then 0 else neighbor_index
          k_prime ← checked (read parent.keys k_prime_index)
          neighbor ← checked (read parent.pointers (if leftmost then 1 else neighbor_index))
          b ← load neighbor
          if ltb (b.num_keys + n'.num_keys) (if n'.is_leaf then s.order else s.order - 1)
              then coalesce_nodes (delete_entry f) root p neighbor neighbor_index k_prime
              else redistribute_nodes root p neighbor neighbor_index k_prime_index k_prime

unfoldable pub delete : (fuel : ℕ) → Ptr → ℕ → Cmd Ptr
delete fuel root key = do
  (key_record, key_leaf) ← find fuel root key
  if (key_record == null) || (key_leaf == null) then pure root else do
    root' ← delete_entry fuel root key_leaf key key_record
    free_record key_record
    pure root'
