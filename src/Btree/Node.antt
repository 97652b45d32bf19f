-- ===== src/Btree/Node.antt =====
-- What the functions of trident-workloads/btree/btree1.c do inside one node: the scans of its
-- arrays. The insertions and deletions are in the children.
pub mod Entries
pub mod Insert
pub mod Delete
use trident_micro21_artifact.Base.{
  ℕ, zero, suc, ◌+◌, ◌/◌, ◌%◌, Bool, not, Option, some, List, [], ◌∷◌, ltb, leb, ◌==◌,
  if◌then◌else◌,
}
use trident_micro21_artifact.Btree.Heap.{Ptr, Node}
use trident_micro21_artifact.Btree.Array.{◌>>=◌, read}

-- while (rounds left && test (xs[i])) i++;
unfoldable pub scan : (test : ℕ → Bool) → List ℕ → (rounds i : ℕ) → Option ℕ
scan test xs zero i = some i
scan test xs (suc c) i = do x ← read xs i; if test x then scan test xs c (i + 1) else some i

-- The child of an internal node that `find_leaf` goes down to.
unfoldable pub child_index : Node → ℕ → Option ℕ
child_index n key = scan (λ k. leb k key) n.keys n.num_keys 0

-- The index of `key` in a leaf, or `num_keys`.
unfoldable pub key_index : Node → ℕ → Option ℕ
key_index n key = scan (λ k. not (k == key)) n.keys n.num_keys 0

-- for (; i < n->num_keys && n->keys[i] <= key_end; i++): the entries that are appended.
unfoldable pub collect : (key_end : ℕ) → Node → (rounds i : ℕ) → Option (List (ℕ × Ptr))
collect key_end n zero i = some []
collect key_end n (suc c) i = do
  k ← read n.keys i
  if leb k key_end
      then (do p ← read n.pointers i; es ← collect key_end n c (i + 1); some ((k, p) ∷ es))
      else some []

unfoldable pub cut : ℕ → ℕ
cut n = if n % 2 == 0 then n / 2 else n / 2 + 1
