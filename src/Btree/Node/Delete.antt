-- ===== src/Btree/Node/Delete.antt =====
-- The deletions of trident-workloads/btree/btree1.c inside a node and between two neighbours:
-- `remove_entry_from_node`, and what `coalesce_nodes` and `redistribute_nodes` do to the arrays.
use trident_micro21_artifact.Base.{
  ℕ, ◌+◌, ◌-◌, Option, none, some, List, [], ◌∷◌, ◌==◌, if◌then◌else◌,
}
use trident_micro21_artifact.Btree.Heap.{Ptr, null, Node}
use trident_micro21_artifact.Btree.Array.{◌>>=◌, read, write, shift_up, shift_down, copy, fill}

-- i = 0; while (xs[i] != v) i++;  With no such entry the loop leaves the array.
unfoldable pub seek : List ℕ → (v i : ℕ) → Option ℕ
seek [] v i = none
seek (x ∷ xs) v i = if x == v then some i else seek xs v (i + 1)

-- The entry's index, and the rest of the first `n` entries moved down over it.
unfoldable pub drop_entry : List ℕ → (n v : ℕ) → Option (List ℕ)
drop_entry xs n v = do i ← seek xs v 0; shift_down i (n - (i + 1)) xs

unfoldable pub remove_entry_from_node :
    (order : ℕ) → Node → (key : ℕ) → (pointer : Ptr) → Option Node
remove_entry_from_node order n key pointer = do
  keys ← drop_entry n.keys n.num_keys key
  pointers ← drop_entry n.pointers (if n.is_leaf then n.num_keys else n.num_keys + 1) pointer
  let left = n.num_keys - 1
  pointers ←
      if n.is_leaf
      then fill left (order - 1 - left) null pointers
      else fill (left + 1) (order - (left + 1)) null pointers
  some (record n { keys = keys; pointers = pointers; num_keys = left })

-- `neighbor` stands to the left of `n`. The changed pair (neighbor, n).
unfoldable pub coalesce : (order : ℕ) → (n neighbor : Node) → (k_prime : ℕ) → Option (Node × Node)
coalesce order n neighbor k_prime =
    if n.is_leaf
    then (do
      keys ← copy n.keys 0 neighbor.num_keys n.num_keys neighbor.keys
      pointers ← copy n.pointers 0 neighbor.num_keys n.num_keys neighbor.pointers
      next ← read n.pointers (order - 1)
      pointers ← write pointers (order - 1) next
      some (
        record neighbor {
          keys = keys;
          pointers = pointers;
          num_keys = neighbor.num_keys + n.num_keys;
        },
        n,
      ))
    else (do
      keys ← write neighbor.keys neighbor.num_keys k_prime
      keys ← copy n.keys 0 (neighbor.num_keys + 1) n.num_keys keys
      pointers ← copy n.pointers 0 (neighbor.num_keys + 1) n.num_keys neighbor.pointers
      last ← read n.pointers n.num_keys
      pointers ← write pointers (neighbor.num_keys + 1 + n.num_keys) last
      some (
        record neighbor {
          keys = keys;
          pointers = pointers;
          num_keys = neighbor.num_keys + 1 + n.num_keys;
        },
        record n { num_keys = 0 },
      ))

-- The neighbour is to the left: its last entry goes to the front of `n`. The new `n`, the new
-- neighbour, and the new separating key.
unfoldable pub take_from_left : (n neighbor : Node) → (k_prime : ℕ) → Option (Node × Node × ℕ)
take_from_left n neighbor k_prime = do
  pointers ←
      if n.is_leaf
      then some n.pointers
      else (do p ← read n.pointers n.num_keys; write n.pointers (n.num_keys + 1) p)
  keys ← shift_up 0 n.num_keys n.keys
  pointers ← shift_up 0 n.num_keys pointers
  let last = if n.is_leaf then neighbor.num_keys - 1 else neighbor.num_keys
  p ← read neighbor.pointers last
  pointers ← write pointers 0 p
  neighbor_pointers ← write neighbor.pointers last null
  k ← read neighbor.keys (neighbor.num_keys - 1)
  keys ← write keys 0 (if n.is_leaf then k else k_prime)
  some (
    record n { keys = keys; pointers = pointers; num_keys = n.num_keys + 1 },
    record neighbor { pointers = neighbor_pointers; num_keys = neighbor.num_keys - 1 },
    k,
  )

-- The neighbour is to the right: its first entry goes to the end of `n`.
unfoldable pub take_from_right : (n neighbor : Node) → (k_prime : ℕ) → Option (Node × Node × ℕ)
take_from_right n neighbor k_prime = do
  k ← read neighbor.keys 0
  p ← read neighbor.pointers 0
  keys ← write n.keys n.num_keys (if n.is_leaf then k else k_prime)
  pointers ← write n.pointers (if n.is_leaf then n.num_keys else n.num_keys + 1) p
  k' ← if n.is_leaf then read neighbor.keys 1 else some k
  neighbor_keys ← shift_down 0 (neighbor.num_keys - 1) neighbor.keys
  neighbor_pointers ←
      shift_down 0 (if n.is_leaf then neighbor.num_keys - 1 else neighbor.num_keys)
        neighbor.pointers
  some (
    record n { keys = keys; pointers = pointers; num_keys = n.num_keys + 1 },
    record neighbor {
      keys = neighbor_keys;
      pointers = neighbor_pointers;
      num_keys = neighbor.num_keys - 1;
    },
    k',
  )
