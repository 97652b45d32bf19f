-- ===== src/Btree/Tree/FindRecord.antt =====
-- `find` of trident-workloads/btree/btree1.c on a heap that holds a tree.
use trident_micro21_artifact.Btree.Tree.Find.{load-ok, Reaches, descend-Reaches}
use trident_micro21_artifact.Btree.Tree.Lookup.{lookup, lookup-route}
use trident_micro21_artifact.Btree.Search.{find_leaf, descend, find}
use trident_micro21_artifact.Btree.Node.{key_index}
use trident_micro21_artifact.Btree.Tree.{Separated, at_node, contents, depth, IsTree, Tree, at_leaf}
use trident_micro21_artifact.Btree.Node.Entries.{
  passed, scan_lem, pointers_of, Entry, keys_of, length-keys_of,
}
use trident_micro21_artifact.Base.{
  ℕ, suc, ◌<◌, ◌≡◌, refl, sym, ap, ◌∙◌, ◌≢◌, inl, inr, true, false, not, Option, none, some, List,
  [], ◌∷◌, ◌++◌, arith, ◌==◌, Bool-cases, length, get_elem?, Option-cases,
}
use trident_micro21_artifact.Btree.Heap.{Run, Node, null, Ptr, ok, Store}

-- A key's place among the entries of a leaf.
key_index_lem :
    (n : Node) (es : List Entry) (key : ℕ) (spare : List ℕ)
    → n.keys ≡ keys_of es ++ spare
    → n.num_keys ≡ length es
    → key_index n key ≡ some (passed (λ k. not (k == key)) (keys_of es))
unfolding key_index
key_index_lem n es key spare ks count = rw ks (
    scan_lem (λ k. not (k == key)) [] (keys_of es) spare 0 _ refl
      (omega (arith, count, length-keys_of es))
    ∙ ap some (omega arith))

-- What `find` makes of the entries of the leaf.
abbrev pub result_of : Option Ptr → Ptr
result_of none = null
result_of (some r) = r

lookup_nil : (key : ℕ) (r : Ptr) → lookup key [] ≢ some r
unfolding lookup
lookup_nil key r h = cc

record LookedUp (key : ℕ) (es : List Entry) (rest : List Ptr) (i : ℕ) : Type 0 where
  absent : lookup key es ≡ none → i ≡ length es
  present :
      (r : Ptr)
      → lookup key es ≡ some r
      → (i < length es) × (get_elem? (pointers_of es ++ rest) i ≡ some r)

lookup_hit :
    (key k : ℕ) (p : Ptr) (es : List Entry) → (k == key) ≡ true → lookup key ((k, p) ∷ es) ≡ some p
unfolding lookup
lookup_hit key k p es h = rw h

lookup_miss :
    (key k : ℕ) (p : Ptr) (es : List Entry)
    → (k == key) ≡ false
    → lookup key ((k, p) ∷ es) ≡ lookup key es
unfolding lookup
lookup_miss key k p es h = rw h

passed-lookup :
    (key : ℕ) (es : List Entry) (rest : List Ptr)
    → LookedUp key es rest (passed (λ k. not (k == key)) (keys_of es))
unfolding passed
passed-lookup key [] rest = record {
  absent = λ _. refl;
  present = λ r h. absurd (lookup_nil key r h);
}
passed-lookup key ((k, p) ∷ es) rest = elim (Bool-cases (k == key)) [
  | inl hit ↦ rw hit (record {
    absent = λ h. cc (lookup_hit key k p es hit, h);
    present = λ r h. (omega arith, sym (lookup_hit key k p es hit) ∙ h);
  })
  | inr miss ↦
      let ih = passed-lookup key es rest in
      let same = lookup_miss key k p es miss in
      rw miss (record {
        absent = λ h. ap suc (ih.absent (sym same ∙ h));
        present = λ r h.
            (omega (arith, (ih.present r (sym same ∙ h)).0), (ih.present r (sym same ∙ h)).1);
      })
]

pub root_not_null : {s : Store} {p : Ptr} {t : Tree} → IsTree s p t → p ≢ null
root_not_null (at_leaf ne e v) = ne
root_not_null (at_node ne e v a b) = ne

-- The record that `find` returns, given the leaf.
module _ (s : Store) (fuel root key : ℕ) {es : List Entry} (ne : root ≢ null)
    (r : Reaches s (descend fuel root key s) es) where
  find_absent : lookup key es ≡ none → find fuel root key s ≡ ok (null, r.at) s
  unfolding find find_leaf
  find_absent absent =
      let root_ne : (root == null) ≡ false = ground arith in
      let i = passed (λ k. not (k == key)) (keys_of es) in
      let all : (i == r.found.num_keys) ≡ true =
        ground (arith, r.leaf.count, (passed-lookup key es []).absent absent) in
      rw (
        root_ne,
        r.ends,
        load-ok s r.not_null r.held,
        key_index_lem r.found es key r.leaf.spare_keys r.leaf.keys r.leaf.count,
        all,
      )

  find_present : (p : Ptr) → lookup key es ≡ some p → find fuel root key s ≡ ok (p, r.at) s
  unfolding find find_leaf
  find_present p present =
      let root_ne : (root == null) ≡ false = ground arith in
      let i = passed (λ k. not (k == key)) (keys_of es) in
      let (small, held) =
        (passed-lookup key es (r.leaf.spare_pointers ++ (r.next ∷ []))).present p present in
      let among : (i == r.found.num_keys) ≡ false = ground (arith, r.leaf.count) in
      let there : get_elem? r.found.pointers i ≡ some p = rw r.leaf.pointers held in
      rw (
        root_ne,
        r.ends,
        load-ok s r.not_null r.held,
        key_index_lem r.found es key r.leaf.spare_keys r.leaf.keys r.leaf.count,
        among,
        there,
      )

  find_result : find fuel root key s ≡ ok (result_of (lookup key es), r.at) s
  find_result = elim (Option-cases (lookup key es)) [
    | inl absent ↦ rw absent (find_absent absent)
    | inr (p, present) ↦ rw present (find_present p present)
  ]

-- What `find` returns: the record and, through `leaf_out`, a leaf of the tree.
pub record Found (s : Store) (r : Run (Ptr × Ptr)) (answer : Option Ptr) : Type 0 where
  pub leaf_out : Ptr
  pub returned : r ≡ ok (result_of answer, leaf_out) s
  pub not_null : leaf_out ≢ null

-- On a heap that holds a tree at `root` whose keys separate the subtrees, and with fuel above its
-- depth, `find` returns the record that stands under the key in all the entries of the tree, NULL
-- where none does; the leaf that goes out is not NULL, and the heap is unchanged.
pub find-lookup :
    {s : Store} {root : Ptr} {t : Tree} (key fuel : ℕ)
    → IsTree s root t
    → Separated t
    → depth t < fuel
    → Found s (find fuel root key s) (lookup key (contents t))
find-lookup {s} {root} key fuel held sep h =
    let r = descend-Reaches s key fuel held h in
    record {
      leaf_out = r.at;
      returned = rw (← lookup-route key sep) (find_result s fuel root key (root_not_null held) r);
      not_null = r.not_null;
    }
