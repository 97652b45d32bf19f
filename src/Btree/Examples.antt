-- ===== src/Btree/Examples.antt =====
-- The theorems on the B+ tree of trident-workloads/btree/btree1.c at concrete inputs.
use trident_micro21_artifact.Btree.Tree.Range.{no_leaf, Chain, one_leaf, leaf_link}
use trident_micro21_artifact.Btree.Tree.Between.{find_range-between, between, some_from}
use mathlib.Core.Option.{some-injective, none-ne-some}
use mathlib.Core.Path.{subst}
use trident_micro21_artifact.Btree.Tree.Known.{
  insert-delete-Known, Known, HasRecord, put_record-IsTree,
}
use trident_micro21_artifact.Btree.Node.{child_index, scan}
use trident_micro21_artifact.Btree.Tree.Lookup.{lookup}
use trident_micro21_artifact.Btree.Tree.FindRecord.{find-lookup, Found}
use trident_micro21_artifact.Btree.Node.Insert.SplitLeaf.{split_leaf-Split}
use trident_micro21_artifact.Btree.Search.{find, find_leaf, find_range, descend}
use trident_micro21_artifact.Btree.Node.Insert.{insert_into_leaf, split_leaf}
use trident_micro21_artifact.Btree.Node.Entries.{insert_entry, Entry, IsInner, IsLeaf}
use trident_micro21_artifact.Btree.Node.Insert.Split.{fresh_leaf, Split}
use trident_micro21_artifact.Btree.Heap.{Ptr, Node, Store, null, ok, load, Rec, put_record}
use trident_micro21_artifact.Btree.Node.Insert.Leaf.{insert_into_leaf-IsLeaf, Inserted}
use trident_micro21_artifact.Btree.Tree.{
  IsTree, node_separated, end, Separated, leaf_separated, no_more, contents, at_leaf, at_node,
  route, depth, leaf, and_more, Tree, more, more_separated, end_separated, node,
}
use trident_micro21_artifact.Btree.Rand.{
  next_lem, redis_lrand48_lem, next, IsSeed, Seed, redis_lrand48, value,
}
use trident_micro21_artifact.Base.{
  ℕ, sym, ap, ◌∙◌, Option, Bool-cases, inl, inr, get_elem?, ◌+◌, ◌*◌, ◌/◌, ◌%◌, ◌^◌, ◌<◌, ◌≡◌, refl,
  true, false, none, some, List, [], ◌∷◌, arith, ◌==◌, if◌then◌else◌,
}

abbrev small_leaf : Node
small_leaf = record {
  pointers = 900 ∷ 901 ∷ 0 ∷ 200 ∷ [];
  keys = 2 ∷ 5 ∷ 0 ∷ [];
  parent = 300;
  is_leaf = true;
  num_keys = 2;
  next = null;
}

abbrev small_entries : List Entry
small_entries = (2, 900) ∷ (5, 901) ∷ []

abbrev full_leaf : Node
full_leaf = record small_leaf {
  pointers = 902 ∷ 903 ∷ 904 ∷ 0 ∷ [];
  keys = 7 ∷ 8 ∷ 9 ∷ [];
  num_keys = 3;
}

abbrev full_entries : List Entry
full_entries = (7, 902) ∷ (8, 903) ∷ (9, 904) ∷ []

abbrev top : Node
top = record {
  pointers = 100 ∷ 200 ∷ 0 ∷ 0 ∷ [];
  keys = 7 ∷ 0 ∷ 0 ∷ [];
  parent = null;
  is_leaf = false;
  num_keys = 1;
  next = null;
}

abbrev heap : Store
heap = record {
  nodes = λ p.
      if p == 100
      then some small_leaf
      else (if p == 200 then some full_leaf else (if p == 300 then some top else none));
  records = λ _. none;
  free_nodes = null;
  free_recs = null;
  queue = null;
  order = 4;
  slabs = [];
}

small_leaf-IsLeaf : IsLeaf 4 small_leaf small_entries 200
small_leaf-IsLeaf = record {
  spare_keys = 0 ∷ [];
  spare_pointers = 0 ∷ [];
  keys = refl;
  pointers = refl;
  count = refl;
  keys_size = refl;
  pointers_size = refl;
  leaf = refl;
}

full_leaf-IsLeaf : IsLeaf 4 full_leaf full_entries null
full_leaf-IsLeaf = record {
  spare_keys = [];
  spare_pointers = [];
  keys = refl;
  pointers = refl;
  count = refl;
  keys_size = refl;
  pointers_size = refl;
  leaf = refl;
}

top-IsInner : IsInner 4 top 100 ((7, 200) ∷ [])
top-IsInner = record {
  spare_keys = 0 ∷ 0 ∷ [];
  spare_pointers = 0 ∷ 0 ∷ [];
  keys = refl;
  pointers = refl;
  count = refl;
  keys_size = refl;
  pointers_size = refl;
  inner = refl;
}

abbrev small_tree : Tree
small_tree = node (leaf small_entries) (more 7 (leaf full_entries) end)

small_tree-IsTree : IsTree heap 300 small_tree
small_tree-IsTree =
    at_node (ground arith) refl top-IsInner (at_leaf (ground arith) refl small_leaf-IsLeaf)
      (and_more (at_leaf (ground arith) refl full_leaf-IsLeaf) no_more)

small_tree-Separated : Separated small_tree
unfolding contents
small_tree-Separated = node_separated leaf_separated (
    more_separated (omega arith, (omega arith, tt)) (omega arith, (omega arith, (omega arith, tt)))
      leaf_separated end_separated)

shallow : depth small_tree < 2
unfolding depth
shallow = omega arith

find-lookup_example : Found heap (find 2 300 8 heap) (lookup 8 (contents small_tree))
find-lookup_example = find-lookup 8 2 small_tree-IsTree small_tree-Separated shallow

eighth : Rec
eighth = record { value = 80; flags = 0 }

stocked : Store
stocked = put_record heap 903 eighth

lookup_eighth : lookup 8 (contents small_tree) ≡ some 903
unfolding lookup contents
lookup_eighth = refl

stocked-HasRecord : HasRecord stocked 903
unfolding stocked put_record
stocked-HasRecord = (ground arith, (eighth, refl))

insert-delete-Known_example :
    Known stocked 2 300 8 81 (contents small_tree) (lookup 8 (contents small_tree))
unfolding stocked
insert-delete-Known_example =
    insert-delete-Known stocked 300 8 81 2 (put_record-IsTree heap 903 eighth small_tree-IsTree)
      small_tree-Separated shallow
      (λ r e.
        subst (HasRecord stocked) (some-injective 903 r (sym lookup_eighth ∙ e)) stocked-HasRecord)

insert_into_leaf-IsLeaf_example :
    Inserted 4 small_leaf (insert_entry 3 950 small_entries) 200 (insert_into_leaf small_leaf 3 950)
insert_into_leaf-IsLeaf_example = insert_into_leaf-IsLeaf 3 950 small_leaf-IsLeaf (omega arith)

split_leaf-Split_example :
    Split 4 full_leaf
      (insert_entry 6 960 full_entries)
      400
      null
      (split_leaf 4 full_leaf (fresh_leaf 4) 400 6 960)
split_leaf-Split_example = split_leaf-Split 6 960 400 full_leaf-IsLeaf refl (omega arith)

abbrev some_seed : Seed
some_seed = record { x0 = 0x330E; x1 = 0x1234; x2 = 7 }

some_seed-IsSeed : IsSeed some_seed
some_seed-IsSeed = omega arith

next_lem_example :
    (value (next some_seed) ≡ (0x5DEECE66D * value some_seed + 0xB) % 2 ^ 48)
    × IsSeed (next some_seed)
next_lem_example = next_lem some_seed some_seed-IsSeed

redis_lrand48_lem_example :
    ((redis_lrand48 some_seed).0 ≡ (0x5DEECE66D * value some_seed + 0xB) % 2 ^ 48 / 2 ^ 17)
    × ((redis_lrand48 some_seed).1 ≡ next some_seed)
redis_lrand48_lem_example = redis_lrand48_lem some_seed some_seed-IsSeed

left_leaf_reached : find_leaf 3 300 6 heap ≡ ok 100 heap
unfolding find_leaf descend load child_index scan
left_leaf_reached = refl

seven_not_two : ◌≡◌ {A = Option ℕ} (some 7) (some 2) → ⊥
seven_not_two e = let same : ◌≡◌ {A = ℕ} 7 2 = some-injective 7 2 e in omega arith

leaves_behind : Chain heap 200 (full_entries ∷ [])
leaves_behind = one_leaf (ground arith) refl full_leaf-IsLeaf no_leaf

first_key : (n : Node) (next : Ptr) → IsLeaf 4 n small_entries next → get_elem? n.keys 0 ≡ some 2
first_key n next v = ap (λ ks. get_elem? ks 0) v.keys

-- The leaf with the small entries is at 100.
small_leaf_at :
    (p : Ptr) (n : Node) (next : Ptr)
    → heap.nodes p ≡ some n
    → IsLeaf 4 n small_entries next
    → small_leaf ≡ n
small_leaf_at p n next e v = elim (Bool-cases (p == 100)) [
  | inl first ↦ some-injective small_leaf n (rw first at e)
  | inr other ↦ elim (Bool-cases (p == 200)) [
    | inl second ↦
        let same : full_leaf ≡ n = some-injective full_leaf n (rw (other, second) at e) in
        absurd (seven_not_two (ap (λ m. get_elem? m.keys 0) same ∙ first_key n next v))
    | inr neither ↦ elim (Bool-cases (p == 300)) [
      | inl third ↦
          let same : top ≡ n = some-injective top n (rw (other, neither, third) at e) in
          absurd (seven_not_two (ap (λ m. get_elem? m.keys 0) same ∙ first_key n next v))
      | inr nowhere ↦ absurd (none-ne-some n (rw (other, neither, nowhere) at e))
    ]
  ]
]

behind_small_leaf :
    (p : Ptr) (n : Node) (next : Ptr)
    → heap.nodes p ≡ some n
    → IsLeaf 4 n small_entries next
    → Chain heap next (full_entries ∷ [])
behind_small_leaf p n next e v =
    let link = ap (λ m. get_elem? m.pointers 3) (small_leaf_at p n next e v) ∙ leaf_link v in
    subst (λ q. Chain heap q (full_entries ∷ [])) (some-injective 200 next link) leaves_behind

find_range-between_example :
    find_range 3 300 3 8 heap ≡ ok ((5, 901) ∷ (7, 902) ∷ (8, 903) ∷ []) heap
unfolding route between some_from depth
find_range-between_example =
    find_range-between 2 3 8 small_tree-IsTree (omega arith) behind_small_leaf (omega arith)
      (omega arith)

-- Nothing from 6 to 20, though the tree holds 7, 8 and 9.
range_missed : find_range 3 300 6 20 heap ≡ ok [] heap
unfolding find_range find_leaf descend load child_index scan
range_missed = refl
