-- ===== src/Btree/Node/Insert/SplitLeaf.antt =====
-- `insert_into_leaf_after_splitting` of trident-workloads/btree/btree1.c: a full leaf and one more
-- entry become two leaves.
use trident_micro21_artifact.Btree.Node.Insert.{split_leaf}
use trident_micro21_artifact.Btree.Node.{cut}
use trident_micro21_artifact.Btree.Node.Insert.Split.{fresh_leaf, Split, pair_of_leaves}
use trident_micro21_artifact.Btree.Heap.{Ptr, Node}
use trident_micro21_artifact.Btree.Node.Entries.{
  Entry, IsLeaf, pointers_of, length-insert_entry, place, keys_of, insert_entry,
}
use trident_micro21_artifact.Base.{
  ℕ, ◌+◌, ◌-◌, ◌*◌, ◌≤◌, ◌≡◌, true, List, [], ◌∷◌, ◌++◌, arith, length, halves,
}

pub cut_bounds : (n : ℕ) → (n ≤ 2 * cut n) × (2 * cut n ≤ n + 1)
unfolding cut
cut_bounds n = ground arith

module _ (order : ℕ) (n : Node) (es : List Entry) (next : Ptr) (k : ℕ) (p q : Ptr)
    (count : n.num_keys ≡ length es) (leaf : n.is_leaf ≡ true) (full : length es + 1 ≡ order)
    (large : 2 ≤ order) where
  no_spare :
      (sk : List ℕ) (sp : List Ptr)
      → n.keys ≡ keys_of es ++ sk
      → n.pointers ≡ pointers_of es ++ (sp ++ (next ∷ []))
      → length es + length sk + 1 ≡ order
      → length es + length sp + 1 ≡ order
      → Split order n (insert_entry k p es) q next (split_leaf order n (fresh_leaf order) q k p)
  no_spare (j ∷ sk) sp ks ps a b = absurd (omega arith)
  no_spare [] (j ∷ sp) ks ps a b = absurd (omega arith)
  no_spare [] [] ks ps a b =
      pair_of_leaves order n next q (place k p es) ks ps count full
        (halves (insert_entry k p es) (cut (order - 1))
          (omega (arith, length-insert_entry k p es, cut_bounds (order - 1))))
        (halves es (cut (order - 1)) (omega (arith, cut_bounds (order - 1)))) (cut (order - 1) - 1)
        (omega (arith, cut_bounds (order - 1))) leaf

-- A full leaf, of an order of at least 2, is split in two: every access is in range, the entries of the two leaves, one behind
-- the other, are the old ones with the new one in its place, the left leaf gets `cut (order - 1)`
-- of them, its last pointer leads to the new leaf, that of the new leaf to where the old one led,
-- and both keep the parent.
pub split_leaf-Split :
    {order : ℕ} {n : Node} {es : List Entry} {next : Ptr} (k : ℕ) (p q : Ptr)
    → IsLeaf order n es next
    → length es + 1 ≡ order
    → 2 ≤ order
    → Split order n (insert_entry k p es) q next (split_leaf order n (fresh_leaf order) q k p)
split_leaf-Split {order} {n} {es} {next} k p q v full large =
    no_spare order n es next k p q v.count v.leaf full large v.spare_keys v.spare_pointers v.keys
      v.pointers v.keys_size v.pointers_size
