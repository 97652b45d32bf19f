-- ===== src/Btree/Node/Insert/Split.antt =====
-- The split of a full leaf, `insert_into_leaf_after_splitting` of
-- trident-workloads/btree/btree1.c, on the entries of the leaf.
use trident_micro21_artifact.Btree.Node.Insert.Leaf.{insertion_point_lem}
use mathlib.Core.List.{append_assoc}
use trident_micro21_artifact.Btree.Array.Loops.{read_at, write-append, copy_lem, fill_lem}
use trident_micro21_artifact.Btree.Array.{write, copy, fill, read}
use trident_micro21_artifact.Base.{
  ℕ, suc, ◌+◌, ◌-◌, ◌≡◌, refl, sym, ap, ◌∙◌, true, Option, some, List, [], ◌∷◌, ◌++◌, arith, length,
  replicate, length-append, length-replicate, replicate-append, Halves,
}
use trident_micro21_artifact.Btree.Heap.{Ptr, Node, null}
use trident_micro21_artifact.Btree.Alloc.{fresh_node}
use trident_micro21_artifact.Btree.Node.{cut}
use trident_micro21_artifact.Btree.Node.Entries.{
  Entry, keys_of, pointers_of, IsLeaf, insert_entry, keys_of-parts, length-parts, length-keys_of,
  Place, length-insert_entry, pointers_of-parts, length-pointers_of,
}
use trident_micro21_artifact.Btree.Node.Insert.{spread, split_leaf}
use trident_micro21_artifact.Btree.Node.Insert.Spread.{spread_lem}

-- What `make_leaf` has left at the new address.
abbrev pub fresh_leaf : ℕ → Node
fresh_leaf order = record (fresh_node order) { is_leaf = true }

-- The two leaves that a split returns.
pub record Split (order : ℕ) (n : Node) (es : List Entry) (q next : Ptr) (r : Option (Node × Node))
    : Type 0 where
  pub left : Node
  pub right : Node
  pub returned : r ≡ some (left, right)
  pub low : List Entry
  pub high : List Entry
  pub parts : es ≡ low ++ high
  pub left_leaf : IsLeaf order left low q
  pub right_leaf : IsLeaf order right high next
  pub low_size : length low ≡ cut (order - 1)
  pub high_size : length high ≡ order - cut (order - 1)
  pub parents : (left.parent ≡ n.parent) × (right.parent ≡ n.parent)

module _ (order : ℕ) (n : Node) {es : List Entry} (next q : Ptr) {k : ℕ} {p : Ptr}
    (at : Place k p es) (keys : n.keys ≡ keys_of es ++ [])
    (pointers : n.pointers ≡ pointers_of es ++ (next ∷ [])) (count : n.num_keys ≡ length es)
    (full : length es + 1 ≡ order) (new : Halves (insert_entry k p es) (cut (order - 1)))
    (old : Halves es (cut (order - 1))) (c : ℕ) (cut_at : cut (order - 1) ≡ suc c) where
  open at use {below as us, above as vs, parts as split, inserted}

  temp_keys :
      spread (order + 1) 0 n.keys n.num_keys (length us) k
      ≡ some (keys_of new.front ++ (keys_of new.back ++ (0 ∷ [])))
  temp_keys =
      rw (keys, keys_of-parts us vs [] split)
        (spread_lem (order + 1) 0 (keys_of us) (keys_of vs) [] k n.num_keys (length us) 1
            (sym (length-keys_of us))
            (omega (arith, length-keys_of us, length-keys_of vs, length-parts us vs split))
            (omega arith)
          ∙ ap some (
              sym (keys_of-parts us ((k, p) ∷ vs) (0 ∷ []) inserted)
              ∙ keys_of-parts new.front new.back (0 ∷ []) new.parts))

  temp_pointers :
      spread (order + 1) null n.pointers n.num_keys (length us) p
      ≡ some (pointers_of new.front ++ (pointers_of new.back ++ (null ∷ [])))
  temp_pointers =
      rw (pointers, pointers_of-parts us vs (next ∷ []) split)
        (spread_lem (order + 1) null (pointers_of us) (pointers_of vs) (next ∷ []) p n.num_keys
            (length us) 1 (sym (length-pointers_of us))
            (omega (arith, length-pointers_of us, length-pointers_of vs, length-parts us vs split))
            (omega arith)
          ∙ ap some (
              sym (pointers_of-parts us ((k, p) ∷ vs) (null ∷ []) inserted)
              ∙ pointers_of-parts new.front new.back (null ∷ []) new.parts))

  sizes :
      (length new.front ≡ suc c)
      × (length new.back + suc c ≡ order)
      × (length old.front ≡ suc c)
      × (length old.back + suc c + 1 ≡ order)
  sizes = omega (
    arith,
    new.length-front,
    new.length-back,
    old.length-front,
    old.length-back,
    cut_at,
    length-insert_entry k p es,
  )

  left_pointers :
      copy (pointers_of new.front ++ (pointers_of new.back ++ (null ∷ []))) 0 0 (suc c) n.pointers
      ≡ some (pointers_of new.front ++ (pointers_of old.back ++ (next ∷ [])))
  left_pointers =
      rw (pointers, pointers_of-parts old.front old.back (next ∷ []) old.parts)
        (copy_lem [] (pointers_of new.front) (pointers_of new.back ++ (null ∷ [])) []
          (pointers_of old.front) (pointers_of old.back ++ (next ∷ [])) 0 0 (suc c) refl refl
          (omega (arith, sizes, length-pointers_of new.front))
          (omega (arith, sizes, length-pointers_of old.front)))

  left_keys :
      copy (keys_of new.front ++ (keys_of new.back ++ (0 ∷ []))) 0 0 (suc c) n.keys
      ≡ some (keys_of new.front ++ (keys_of old.back ++ []))
  left_keys =
      rw (keys, keys_of-parts old.front old.back [] old.parts)
        (copy_lem [] (keys_of new.front) (keys_of new.back ++ (0 ∷ [])) [] (keys_of old.front)
          (keys_of old.back ++ []) 0 0 (suc c) refl refl
          (omega (arith, sizes, length-keys_of new.front))
          (omega (arith, sizes, length-keys_of old.front)))

  right_pointers :
      copy
        (pointers_of new.front ++ (pointers_of new.back ++ (null ∷ [])))
        (suc c)
        0
        (order - suc c)
        (replicate order null)
      ≡ some (pointers_of new.back ++ (replicate c null ++ (null ∷ [])))
  right_pointers =
      rw
        (
          replicate-append (order - suc c) (suc c) order null (omega (arith, sizes)),
          replicate-append c 1 (suc c) null (omega arith),
        )
        (copy_lem (pointers_of new.front) (pointers_of new.back) (null ∷ []) []
          (replicate (order - suc c) null) (replicate c null ++ (null ∷ [])) (suc c) 0
          (order - suc c) (omega (arith, sizes, length-pointers_of new.front)) refl
          (omega (arith, sizes, length-pointers_of new.back))
          (sym (length-replicate (order - suc c) null)))

  right_keys :
      copy
        (keys_of new.front ++ (keys_of new.back ++ (0 ∷ [])))
        (suc c)
        0
        (order - suc c)
        (replicate (order - 1) 0)
      ≡ some (keys_of new.back ++ replicate c 0)
  right_keys =
      rw (replicate-append {A = ℕ} (order - suc c) c (order - 1) 0 (omega (arith, sizes))) (
        copy_lem (keys_of new.front) (keys_of new.back) (0 ∷ []) [] (replicate (order - suc c) 0)
          (replicate c 0) (suc c) 0 (order - suc c) (omega (arith, sizes, length-keys_of new.front))
          refl (omega (arith, sizes, length-keys_of new.back))
          (sym (length-replicate (order - suc c) 0)))

  -- The accesses to the last pointer of each leaf.
  module _ (xs ys : List Ptr) (x v : Ptr) (size : length xs + length ys + 1 ≡ order) where
    last_read : read (xs ++ (ys ++ (x ∷ []))) (order - 1) ≡ some x
    last_read =
        rw (← append_assoc xs ys (x ∷ []))
          (read_at (xs ++ ys) x [] (order - 1) (omega (arith, length-append xs ys)))

    last_write : write (xs ++ (ys ++ (x ∷ []))) (order - 1) v ≡ some (xs ++ (ys ++ (v ∷ [])))
    last_write =
        rw (← append_assoc xs ys (x ∷ []), ← append_assoc xs ys (v ∷ []))
          (write-append (xs ++ ys) x [] (order - 1) v (omega (arith, length-append xs ys)))

    blank_rest :
        (m : ℕ)
        → m ≡ length xs
        → fill m (order - 1 - m) null (xs ++ (ys ++ (x ∷ [])))
          ≡ some (xs ++ (replicate (order - 1 - m) null ++ (x ∷ [])))
    blank_rest m e = fill_lem xs ys (x ∷ []) null m (order - 1 - m) e (omega arith)

  left_node : Node
  left_node = record n {
    keys = keys_of new.front ++ (keys_of old.back ++ []);
    pointers = pointers_of new.front ++ (replicate (order - 1 - suc c) null ++ (q ∷ []));
    num_keys = suc c;
  }

  right_node : Node
  right_node = record (fresh_leaf order) {
    keys = keys_of new.back ++ replicate c 0;
    pointers =
        pointers_of new.back ++ (replicate (order - 1 - (order - suc c)) null ++ (next ∷ []));
    num_keys = order - suc c;
    parent = n.parent;
  }

  split_leaf_parts : split_leaf order n (fresh_leaf order) q k p ≡ some (left_node, right_node)
  unfolding split_leaf left_node right_node
  split_leaf_parts =
      let xs = pointers_of new.front in
      let ys = pointers_of old.back in
      let zs = pointers_of new.back in
      let left_size : length xs + length ys + 1 ≡ order =
        omega (arith, sizes, length-pointers_of new.front, length-pointers_of old.back) in
      let right_size : length zs + length (replicate c null) + 1 ≡ order =
        omega (arith, sizes, length-pointers_of new.back, length-replicate c null) in
      rw
        (
          insertion_point_lem n at [] (order - 1) keys (omega (arith, full)),
          temp_keys,
          temp_pointers,
          cut_at,
          left_pointers,
          left_keys,
          right_pointers,
          right_keys,
          last_read xs ys next q left_size,
          last_write zs (replicate c null) null next right_size,
          last_write xs ys next q left_size,
          blank_rest xs ys q q left_size (suc c)
              (omega (arith, sizes, length-pointers_of new.front)),
          blank_rest zs (replicate c null) next q right_size (order - suc c)
              (omega (arith, sizes, length-pointers_of new.back)),
        )
        refl

  pub pair_of_leaves :
      n.is_leaf ≡ true
      → Split order n (insert_entry k p es) q next (split_leaf order n (fresh_leaf order) q k p)
  unfolding left_node right_node
  pair_of_leaves leaf = record {
    left = left_node;
    right = right_node;
    returned = split_leaf_parts;
    low = new.front;
    high = new.back;
    parts = new.parts;
    left_leaf = record {
      spare_keys = keys_of old.back ++ [];
      spare_pointers = replicate (order - 1 - suc c) null;
      keys = refl;
      pointers = refl;
      count = omega (arith, sizes);
      keys_size =
          omega (arith, sizes, length-keys_of old.back, length-append (keys_of old.back) []);
      pointers_size = omega (arith, sizes, length-replicate (order - 1 - suc c) null);
      leaf = leaf;
    };
    right_leaf = record {
      spare_keys = replicate c 0;
      spare_pointers = replicate (order - 1 - (order - suc c)) null;
      keys = refl;
      pointers = refl;
      count = omega (arith, sizes);
      keys_size = omega (arith, sizes, length-replicate {A = ℕ} c 0);
      pointers_size = omega (arith, sizes, length-replicate (order - 1 - (order - suc c)) null);
      leaf = refl;
    };
    low_size = new.length-front;
    high_size = omega (arith, sizes, cut_at);
    parents = (refl, refl);
  }
