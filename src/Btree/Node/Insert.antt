-- ===== src/Btree/Node/Insert.antt =====
-- The insertions of trident-workloads/btree/btree1.c inside a node: `insert_into_leaf`, the splits
-- of `insert_into_leaf_after_splitting` and `insert_into_node_after_splitting`, `insert_into_node`.
-- A C loop that moves keys and pointers together is two loops here, one for each array.
pub mod Spread
pub mod Leaf
pub mod Split
pub mod SplitLeaf
use trident_micro21_artifact.Base.{
  ℕ, zero, suc, ◌+◌, ◌-◌, Option, some, List, ltb, ◌==◌, not, if◌then◌else◌, replicate,
}
use trident_micro21_artifact.Btree.Heap.{Ptr, null, Node}
use trident_micro21_artifact.Btree.Array.{◌>>=◌, read, write, shift_up, copy, fill}
use trident_micro21_artifact.Btree.Node.{scan, cut}

-- Where `key` goes among the first `n` keys.
unfoldable pub insertion_point : List ℕ → (n key : ℕ) → Option ℕ
insertion_point keys n key = scan (λ k. ltb k key) keys n 0

unfoldable pub insert_into_leaf : Node → (key : ℕ) → (pointer : Ptr) → Option Node
insert_into_leaf n key pointer = do
  at ← insertion_point n.keys n.num_keys key
  keys ← shift_up at (n.num_keys - at) n.keys
  pointers ← shift_up at (n.num_keys - at) n.pointers
  keys ← write keys at key
  pointers ← write pointers at pointer
  some (record n { keys = keys; pointers = pointers; num_keys = n.num_keys + 1 })

-- for (i, j; rounds to go; i++, j++) { if (j == skip) j++; ys[j] = xs[i]; }
unfoldable pub copy_around {ℓ} :
    {A : Type ℓ} (skip : ℕ) → List A → (i j rounds : ℕ) → List A → Option (List A)
copy_around skip xs i j zero ys = some ys
copy_around skip xs i j (suc c) ys = do
  let j' = if j == skip then j + 1 else j
  x ← read xs i
  zs ← write ys j' x
  copy_around skip xs (i + 1) (j' + 1) c zs

-- The temporary array: `n` entries of `xs`, and `v` at `at`.
unfoldable pub spread {ℓ} :
    {A : Type ℓ} (size : ℕ) (blank : A) → List A → (n at : ℕ) → A → Option (List A)
spread size blank xs n at v = do
  temp ← copy_around at xs 0 0 n (replicate size blank)
  write temp at v

-- The two leaves after a split; `fresh` is what `make_leaf` returned and `q` its address.
unfoldable pub split_leaf :
    (order : ℕ)
    → (leaf fresh : Node) → (q : Ptr) → (key : ℕ) → (pointer : Ptr) → Option (Node × Node)
split_leaf order leaf fresh q key pointer = do
  at ← insertion_point leaf.keys (order - 1) key
  temp_keys ← spread (order + 1) 0 leaf.keys leaf.num_keys at key
  temp_pointers ← spread (order + 1) null leaf.pointers leaf.num_keys at pointer
  let split = cut (order - 1)
  pointers ← copy temp_pointers 0 0 split leaf.pointers
  keys ← copy temp_keys 0 0 split leaf.keys
  right_pointers ← copy temp_pointers split 0 (order - split) fresh.pointers
  right_keys ← copy temp_keys split 0 (order - split) fresh.keys
  next ← read pointers (order - 1)
  right_pointers ← write right_pointers (order - 1) next
  pointers ← write pointers (order - 1) q
  pointers ← fill split (order - 1 - split) null pointers
  right_pointers ← fill (order - split) (order - 1 - (order - split)) null right_pointers
  some (
    record leaf { keys = keys; pointers = pointers; num_keys = split },
    record fresh {
      keys = right_keys;
      pointers = right_pointers;
      num_keys = order - split;
      parent = leaf.parent;
    },
  )

-- while (left_index <= parent->num_keys && parent->pointers[left_index] != left) left_index++;
unfoldable pub get_left_index : Node → Ptr → Option ℕ
get_left_index parent left = scan (λ p. not (p == left)) parent.pointers (parent.num_keys + 1) 0

unfoldable pub insert_into_node : Node → (left_index key : ℕ) → (right : Ptr) → Option Node
insert_into_node n left_index key right = do
  pointers ← shift_up (left_index + 1) (n.num_keys - left_index) n.pointers
  keys ← shift_up left_index (n.num_keys - left_index) n.keys
  pointers ← write pointers (left_index + 1) right
  keys ← write keys left_index key
  some (record n { keys = keys; pointers = pointers; num_keys = n.num_keys + 1 })

-- The two internal nodes after a split, and the key between them.
unfoldable pub split_node :
    (order : ℕ)
    → (old fresh : Node) → (left_index key : ℕ) → (right : Ptr) → Option (Node × Node × ℕ)
split_node order old fresh left_index key right = do
  temp_pointers ← spread (order + 1) null old.pointers (old.num_keys + 1) (left_index + 1) right
  temp_keys ← spread order 0 old.keys old.num_keys left_index key
  let split = cut order
  pointers ← copy temp_pointers 0 0 (split - 1) old.pointers
  keys ← copy temp_keys 0 0 (split - 1) old.keys
  last ← read temp_pointers (split - 1)
  pointers ← write pointers (split - 1) last
  k_prime ← read temp_keys (split - 1)
  right_pointers ← copy temp_pointers split 0 (order - split) fresh.pointers
  right_keys ← copy temp_keys split 0 (order - split) fresh.keys
  last ← read temp_pointers order
  right_pointers ← write right_pointers (order - split) last
  some (
    record old { keys = keys; pointers = pointers; num_keys = split - 1 },
    record fresh {
      keys = right_keys;
      pointers = right_pointers;
      num_keys = order - split;
      parent = old.parent;
    },
    k_prime,
  )
