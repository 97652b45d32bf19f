-- ===== src/Btree/Node/Insert/Leaf.antt =====
-- `insert_into_leaf` of trident-workloads/btree/btree1.c on the entries of the leaf.
use trident_micro21_artifact.Base.{
  ℕ, suc, ◌+◌, ◌-◌, ◌<◌, ◌≡◌, refl, sym, ap, ◌∙◌, true, Option, some, List, [], ◌∷◌, ◌++◌, arith,
  ltb, length,
}
use trident_micro21_artifact.Btree.Heap.{Ptr, Node}
use trident_micro21_artifact.Btree.Array.Loops.{make_room}
use trident_micro21_artifact.Btree.Node.Entries.{
  Entry, keys_of, pointers_of, IsLeaf, insert_entry, keys_of-parts, pointers_of-parts, length-parts,
  length-keys_of, length-pointers_of, scan_lem, Place, place, length-insert_entry,
}
use trident_micro21_artifact.Btree.Node.Insert.{insertion_point, insert_into_leaf}

-- The entries behind the insertion point move up in both arrays.
module _ (n : Node) (k : ℕ) (p : Ptr) (us vs : List Entry) (j : ℕ) (spare_keys : List ℕ) (q : Ptr)
    (spare_pointers : List Ptr) where
  insert_into_leaf_parts :
      insertion_point n.keys n.num_keys k ≡ some (length us)
      → n.keys ≡ keys_of us ++ (keys_of vs ++ (j ∷ spare_keys))
      → n.pointers ≡ pointers_of us ++ (pointers_of vs ++ (q ∷ spare_pointers))
      → n.num_keys ≡ length us + length vs
      → insert_into_leaf n k p
        ≡ some (record n {
          keys = keys_of us ++ (k ∷ (keys_of vs ++ spare_keys));
          pointers = pointers_of us ++ (p ∷ (pointers_of vs ++ spare_pointers));
          num_keys = n.num_keys + 1;
        })
  unfolding insert_into_leaf
  insert_into_leaf_parts at ks ps count =
      let room : (n.num_keys - length us ≡ length vs) × Unit {0} = omega arith in
      let (roomy, up, filled) =
        make_room (keys_of us) (keys_of vs) j spare_keys k (length us) (n.num_keys - length us)
          (omega (arith, length-keys_of us)) (omega (arith, length-keys_of vs)) in
      let (roomy', up', filled') =
        make_room (pointers_of us) (pointers_of vs) q spare_pointers p (length us)
          (n.num_keys - length us) (omega (arith, length-pointers_of us))
          (omega (arith, length-pointers_of vs)) in
      rw (at, ks, ps, up, up', filled, filled')

-- What `insert_into_leaf` returns.
pub record Inserted (order : ℕ) (n : Node) (es : List Entry) (next : Ptr) (r : Option Node)
    : Type 0 where
  pub after : Node
  pub returned : r ≡ some after
  pub leaf : IsLeaf order after es next
  pub parent : after.parent ≡ n.parent

-- The scan for the place of the key.
pub insertion_point_lem :
    (n : Node) {es : List Entry} {k : ℕ} {p : Ptr} (at : Place k p es) (spare : List ℕ) (rounds : ℕ)
    → n.keys ≡ keys_of es ++ spare
    → rounds ≡ length es
    → insertion_point n.keys rounds k ≡ some (length at.below)
unfolding insertion_point
insertion_point_lem n {es} {k} at spare rounds ks count = rw ks (
    scan_lem (λ j. ltb j k) [] (keys_of es) spare 0 rounds refl (omega (arith, length-keys_of es))
    ∙ ap some (omega (arith, at.at)))

module _ (order : ℕ) (n : Node) {es : List Entry} (next : Ptr) {k : ℕ} {p : Ptr} (at : Place k p es)
    (count : n.num_keys ≡ length es) (leaf : n.is_leaf ≡ true) where
  open at use {below as us, above as vs, parts as split, inserted}

  insert_at_place :
      (sk : List ℕ) (sp : List Ptr)
      → n.keys ≡ keys_of es ++ sk
      → n.pointers ≡ pointers_of es ++ (sp ++ (next ∷ []))
      → length es + length sk + 1 ≡ order
      → length es + length sp + 1 ≡ order
      → suc (length es) < order
      → Inserted order n (insert_entry k p es) next (insert_into_leaf n k p)
  insert_at_place [] sp ks ps a b room = absurd (omega arith)
  insert_at_place (j ∷ sk) [] ks ps a b room = absurd (omega arith)
  insert_at_place (j ∷ sk) (q ∷ sp) ks ps a b room = record {
    after = record n {
      keys = keys_of us ++ (k ∷ (keys_of vs ++ sk));
      pointers = pointers_of us ++ (p ∷ (pointers_of vs ++ (sp ++ (next ∷ []))));
      num_keys = n.num_keys + 1;
    };
    returned =
        insert_into_leaf_parts n k p us vs j sk q (sp ++ (next ∷ []))
          (insertion_point_lem n at (j ∷ sk) n.num_keys ks count)
          (ks ∙ keys_of-parts us vs (j ∷ sk) split)
          (ps ∙ pointers_of-parts us vs (q ∷ (sp ++ (next ∷ []))) split)
          (omega (arith, length-parts us vs split));
    leaf = record {
      spare_keys = sk;
      spare_pointers = sp;
      keys = sym (keys_of-parts us ((k, p) ∷ vs) sk inserted);
      pointers = sym (pointers_of-parts us ((k, p) ∷ vs) (sp ++ (next ∷ [])) inserted);
      count = omega (arith, length-insert_entry k p es);
      keys_size = omega (arith, length-insert_entry k p es);
      pointers_size = omega (arith, length-insert_entry k p es);
      leaf = leaf;
    };
    parent = refl;
  }

-- A leaf with room takes the new entry in front of the first key that is not below the new one:
-- every access of `insert_into_leaf` is in range, the entries before and behind it keep their
-- order, and the pointer to the leaf on the right and the parent stay.
pub insert_into_leaf-IsLeaf :
    {order : ℕ} {n : Node} {es : List Entry} {next : Ptr} (k : ℕ) (p : Ptr)
    → IsLeaf order n es next
    → suc (length es) < order
    → Inserted order n (insert_entry k p es) next (insert_into_leaf n k p)
insert_into_leaf-IsLeaf {order} {n} {es} {next} k p v room =
    insert_at_place order n next (place k p es) v.count v.leaf v.spare_keys v.spare_pointers v.keys
      v.pointers v.keys_size v.pointers_size room
