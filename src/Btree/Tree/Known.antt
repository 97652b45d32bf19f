-- ===== src/Btree/Tree/Known.antt =====
-- `insert` of a key that the tree has and `delete` of one that it does not have, in
-- trident-workloads/btree/btree1.c: neither changes a node.
use trident_micro21_artifact.Btree.Delete.{delete}
use trident_micro21_artifact.Btree.Heap.{
  Ptr, null, ok, Store, Rec, put_record, load_record, store_record,
}
use trident_micro21_artifact.Btree.Insert.{insert}
use trident_micro21_artifact.Btree.Node.Entries.{Entry}
use trident_micro21_artifact.Btree.Search.{find}
use trident_micro21_artifact.Btree.Tree.Lookup.{lookup}
use trident_micro21_artifact.Btree.Tree.FindRecord.{find-lookup, Found}
use trident_micro21_artifact.Btree.Tree.{
  IsTree, IsForest, at_leaf, at_node, no_more, and_more, Tree, Forest, Separated, contents, depth,
}
use trident_micro21_artifact.Base.{
  ℕ, ◌<◌, ◌≡◌, refl, ◌≢◌, inl, inr, false, Option, none, some, List, arith, ◌==◌, if◌then◌else◌,
  Option-cases,
}

-- A tree is made of nodes: it stays where a record changes.
mutual
  unfolding put_record

  pub put_record-IsTree :
      (s : Store) (r : Ptr) (v : Rec) {p : Ptr} {t : Tree}
      → IsTree s p t
      → IsTree (put_record s r v) p t
  put_record-IsTree s r v (at_leaf ne e l) = at_leaf ne e l
  put_record-IsTree s r v (at_node ne e i a b) =
      at_node ne e i (put_record-IsTree s r v a) (put_record-IsForest s r v b)

  put_record-IsForest :
      (s : Store) (r : Ptr) (v : Rec) {es : List Entry} {f : Forest}
      → IsForest s es f
      → IsForest (put_record s r v) es f
  put_record-IsForest s r v no_more = no_more
  put_record-IsForest s r v (and_more a b) =
      and_more (put_record-IsTree s r v a) (put_record-IsForest s r v b)

abbrev pub HasRecord : Store → Ptr → Type 0
HasRecord s r = (r ≢ null) × ((v : Rec) × (s.records r ≡ some v))

-- The insertion has written the value into the record and nothing else.
pub record Updated (s : Store) (fuel root key value r : ℕ) (entries : List Entry) : Type 0 where
  pub old : Rec
  pub after : Store
  pub was : s.records r ≡ some old
  pub inserted : insert fuel root key value s ≡ ok root after
  pub only : after ≡ put_record s r (record old { value = value })
  pub records :
      (q : Ptr)
      → after.records q ≡ (if q == r then some record old { value = value } else s.records q)
  pub finds : (k : ℕ) → Found after (find fuel root k after) (lookup k entries)

abbrev pub Known : Store → (fuel root key value : ℕ) → List Entry → Option Ptr → Type 0
Known s fuel root key value entries none = delete fuel root key s ≡ ok root s
Known s fuel root key value entries (some r) = Updated s fuel root key value r entries

load_record-ok :
    (s : Store) {r : Ptr} {v : Rec} → r ≢ null → s.records r ≡ some v → load_record r s ≡ ok v s
unfolding load_record
load_record-ok s {r} ne e =
    let not_null : (r == null) ≡ false = ground arith in rw (not_null, e) refl

store_record-ok :
    (s : Store) {r : Ptr} {v : Rec} (w : Rec)
    → r ≢ null
    → s.records r ≡ some v
    → store_record r w s ≡ ok tt (put_record s r w)
unfolding store_record
store_record-ok s w ne e = rw (load_record-ok s ne e) refl

module _ (s : Store) (root key fuel : ℕ) {t : Tree} (held : IsTree s root t) (sep : Separated t)
    (deep : depth t < fuel) where
  delete_absent : lookup key (contents t) ≡ none → delete fuel root key s ≡ ok root s
  unfolding delete
  delete_absent absent = let f = find-lookup key fuel held sep deep in rw (f.returned, absent) refl

  insert-Updated :
      (value r : ℕ)
      → lookup key (contents t) ≡ some r
      → HasRecord s r
      → Updated s fuel root key value r (contents t)
  unfolding insert put_record
  insert-Updated value r present (ne, (v, e)) =
      let f = find-lookup key fuel held sep deep in
      let not_null : (r == null) ≡ false = ground arith in
      let new : Rec = record v { value = value } in
      record {
        old = v;
        after = put_record s r new;
        was = e;
        inserted =
            rw (f.returned, present, not_null, load_record-ok s ne e, store_record-ok s new ne e);
        only = refl;
        records = λ q. refl;
        finds = λ k. find-lookup k fuel (put_record-IsTree s r new held) sep deep;
      }

-- On a heap that holds a tree with separated keys, where the key's record, if the tree has one, is
-- in the heap, and with fuel above the depth: if the tree does not have the key, `delete` returns the
-- same root and changes nothing; if it has the key, `insert` writes the value into the record of the
-- key, returns the same root and changes nothing else, and `find` returns for every key what the
-- tree has under it.
pub insert-delete-Known :
    (s : Store) (root key value fuel : ℕ) {t : Tree}
    → IsTree s root t
    → Separated t
    → depth t < fuel
    → ((r : Ptr) → lookup key (contents t) ≡ some r → HasRecord s r)
    → Known s fuel root key value (contents t) (lookup key (contents t))
insert-delete-Known s root key value fuel {t} held sep deep records =
    elim (Option-cases (lookup key (contents t))) [
      | inl absent ↦ rw absent (delete_absent s root key fuel held sep deep absent)
      | inr (r, present) ↦
          rw present
            (insert-Updated s root key fuel held sep deep value r present (records r present))
    ]
