-- ===== src/Btree/Tests.antt =====
-- Runs of the B+ tree on small inputs.
use trident_micro21_artifact.Base.{ℕ, ◌+◌, ◌≡◌, refl, Option, none, some, List, [], ◌∷◌, map}
use trident_micro21_artifact.Btree.Heap.{
  Ptr, null, Store, Run, ok, Cmd, pure, ◌>>=◌, load, store, load_record, store_record, put_node,
  put_record, set_parent,
}
use trident_micro21_artifact.Btree.Array.{write, shift_up, shift_down, copy, fill}
use trident_micro21_artifact.Btree.Node.{scan, child_index, key_index, collect, cut}
use trident_micro21_artifact.Btree.Node.Insert as Entry
use trident_micro21_artifact.Btree.Node.Insert.{
  split_leaf, split_node, insertion_point, spread, copy_around, get_left_index,
}
use trident_micro21_artifact.Btree.Node.Delete.{
  remove_entry_from_node, drop_entry, seek, coalesce, take_from_left, take_from_right,
}
use trident_micro21_artifact.Btree.Alloc.{
  carve_nodes, carve_records, alloc_node, pop_node, alloc_record, pop_record, make_record,
  make_node, make_leaf, free_node, free_record,
}
use trident_micro21_artifact.Btree.Search.{
  descend, find_leaf, find, range_loop, find_range, height_loop, height,
}
use trident_micro21_artifact.Btree.Insert.{
  adopt, insert_into_new_root, insert_after_splitting, insert_into_parent,
  insert_into_leaf_after_splitting, start_new_tree, insert,
}
use trident_micro21_artifact.Btree.Delete.{
  get_neighbor_index, release, adjust_root, coalesce_nodes, redistribute_nodes, delete_entry,
  delete,
}

-- Memory of order 4 with twelve free nodes and twelve free records.
abbrev empty : Store
empty = record {
  nodes = λ _. none;
  records = λ _. none;
  free_nodes = null;
  free_recs = null;
  queue = null;
  order = 4;
  slabs = [];
}

abbrev memory : Store
memory = carve_records 12 90_000 (carve_nodes 12 10_000 empty)

-- What every run computes with.
running : Unit {0}
unfolding load store load_record store_record put_node put_record set_parent write shift_up
    shift_down copy fill scan child_index key_index cut descend find_leaf find adopt
running = tt

insert_all : List ℕ → Ptr → Cmd Ptr
unfolding running insert insert_into_leaf_after_splitting insert_into_parent start_new_tree
    insert_into_new_root insert_after_splitting make_record make_leaf make_node alloc_node pop_node
    alloc_record pop_record Entry.insert_into_leaf Entry.insert_into_node split_leaf split_node
    insertion_point spread copy_around get_left_index
insert_all [] root = pure root
insert_all (k ∷ ks) root = do root ← insert 9 root k (k + 100); insert_all ks root

delete_all : List ℕ → Ptr → Cmd Ptr
unfolding running delete delete_entry coalesce_nodes redistribute_nodes adjust_root release
    get_neighbor_index free_node free_record remove_entry_from_node drop_entry seek coalesce
    take_from_left take_from_right
delete_all [] root = pure root
delete_all (k ∷ ks) root = do root ← delete 9 root k; delete_all ks root

value_of : Ptr → ℕ → Cmd ℕ
unfolding running
value_of root k = do (r, _) ← find 9 root k; v ← load_record r; pure v.value

outcome : {A : Type 0} → Run A → Option A
outcome (ok a _) = some a
outcome _ = none

abbrev shuffled : List ℕ
shuffled = 5 ∷ 1 ∷ 9 ∷ 3 ∷ 7 ∷ 2 ∷ 8 ∷ 4 ∷ 6 ∷ 10 ∷ []

found_after_splits :
    outcome {A = ℕ × ℕ} (
      (do root ← insert_all shuffled null; h ← height 9 root; v ← value_of root 7; pure (h, v))
        memory)
    ≡ some (1, 107)
unfolding outcome insert_all value_of height height_loop carve_nodes carve_records
found_after_splits = refl

found_after_merges :
    outcome (
      (do
        root ← insert_all shuffled null
        root ← delete_all (1 ∷ 5 ∷ 3 ∷ 9 ∷ 2 ∷ 10 ∷ 4 ∷ []) root
        es ← find_range 9 root 0 20
        pure (map (λ e. e.0) es))
        memory)
    ≡ some (6 ∷ 7 ∷ 8 ∷ [])
unfolding outcome insert_all delete_all find_range range_loop collect carve_nodes carve_records
found_after_merges = refl
