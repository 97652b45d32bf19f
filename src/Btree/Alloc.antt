-- ===== src/Btree/Alloc.antt =====
-- The slab allocators of trident-workloads/btree/btree1.c: `alloc_node`, `free_node`,
-- `alloc_record`, `free_record`, and `make_record`, `make_node`, `make_leaf` on top of them.
-- A slab comes from `posix_memalign`, which is not code of the repository: the addresses that it
-- returns are `Store.slabs`, and it fails when there are none left. `memset` has zeroed a slab, so
-- a fresh node has no arrays. The arrays of a node come from `allocate_align64`; that they can run
-- out of memory is left out.
use trident_micro21_artifact.Base.{
  ℕ, zero, suc, ◌+◌, ◌-◌, ◌/◌, ◌^◌, false, true, [], ◌∷◌, ◌==◌, if◌then◌else◌, replicate,
}
use trident_micro21_artifact.Btree.Heap.{
  Ptr, null, Node, Store, ok, Cmd, pure, ◌>>=◌, ◌>>◌, exit, get_store, put_node, put_record, load,
  store, load_record, store_record,
}

-- NODE_SLAB_GROW and RECORD_SLAB_GROW, `sizeof (struct node)` and `sizeof (struct record)`.
abbrev pub slab_grow : ℕ
slab_grow = 2 ^ 18

abbrev pub node_size : ℕ
node_size = 48

abbrev pub record_size : ℕ
record_size = 16

abbrev pub blank_node : Ptr → Node
blank_node q = record {
  pointers = [];
  keys = [];
  parent = null;
  is_leaf = false;
  num_keys = 0;
  next = q;
}

-- for (i = ...; rounds to go; i++) { n[i].next = free_nodes; free_nodes = &n[i]; }
unfoldable pub carve_nodes : (rounds : ℕ) → Ptr → Store → Store
carve_nodes zero p s = s
carve_nodes (suc c) p s =
    carve_nodes c (p + node_size)
      (record (put_node s p (blank_node s.free_nodes)) { free_nodes = p })

unfoldable pub carve_records : (rounds : ℕ) → Ptr → Store → Store
carve_records zero p s = s
carve_records (suc c) p s =
    carve_records c (p + record_size)
      (record (put_record s p (record { value = s.free_recs; flags = 0 })) { free_recs = p })

-- `allocate` hands out the next slab.
unfoldable pub allocate : Cmd Ptr
allocate s = elim s.slabs [ [] ↦ exit s | p ∷ ps ↦ ok p (record s { slabs = ps }) ]

unfoldable pub grow_nodes : Cmd (Unit {0})
grow_nodes = do p ← allocate; λ s. ok tt (carve_nodes (slab_grow / node_size) p s)

unfoldable pub grow_records : Cmd (Unit {0})
grow_records = do p ← allocate; λ s. ok tt (carve_records (slab_grow / record_size) p s)

unfoldable pub pop_node : Cmd Ptr
pop_node = do
  s ← get_store
  n ← load s.free_nodes
  λ t. ok s.free_nodes (record t { free_nodes = n.next })

unfoldable pub alloc_node : Cmd Ptr
alloc_node = do s ← get_store; if s.free_nodes == null then grow_nodes >> pop_node else pop_node

unfoldable pub free_node : Ptr → Cmd (Unit {0})
free_node p = do
  n ← load p
  s ← get_store
  store p (record n { next = s.free_nodes })
  λ t. ok tt (record t { free_nodes = p })

unfoldable pub pop_record : Cmd Ptr
pop_record = do
  s ← get_store
  r ← load_record s.free_recs
  λ t. ok s.free_recs (record t { free_recs = r.value })

unfoldable pub alloc_record : Cmd Ptr
alloc_record = do
  s ← get_store
  if s.free_recs == null then grow_records >> pop_record else pop_record

unfoldable pub free_record : Ptr → Cmd (Unit {0})
free_record p = do
  r ← load_record p
  s ← get_store
  store_record p (record r { value = s.free_recs })
  λ t. ok tt (record t { free_recs = p })

unfoldable pub make_record : ℕ → Cmd Ptr
make_record v = do
  p ← alloc_record
  r ← load_record p
  store_record p (record r { value = v })
  pure p

-- A node with empty arrays of the tree's order.
abbrev pub fresh_node : (order : ℕ) → Node
fresh_node order = record {
  pointers = replicate order null;
  keys = replicate (order - 1) 0;
  parent = null;
  is_leaf = false;
  num_keys = 0;
  next = null;
}

unfoldable pub make_node : Cmd Ptr
make_node = do p ← alloc_node; s ← get_store; store p (fresh_node s.order); pure p

unfoldable pub make_leaf : Cmd Ptr
make_leaf = do p ← make_node; n ← load p; store p (record n { is_leaf = true }); pure p
