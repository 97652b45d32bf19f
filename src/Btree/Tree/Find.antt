-- ===== src/Btree/Tree/Find.antt =====
-- `find_leaf` of trident-workloads/btree/btree1.c on a heap that holds a tree.
use trident_micro21_artifact.Btree.Node.{child_index}
use trident_micro21_artifact.Btree.Search.{descend}
use trident_micro21_artifact.Btree.Tree.{
  route_forest, depth, route, Tree, depth_forest, Forest, IsForest, IsTree, and_more, at_leaf,
  no_more, at_node,
}
use trident_micro21_artifact.Btree.Node.Entries.{
  scan_lem, length-keys_of, passed, keys_of, IsLeaf, Entry, pointers_of, IsInner,
}
use trident_micro21_artifact.Base.{
  ℕ, zero, suc, ◌<◌, ◌≡◌, refl, ap, ◌∙◌, ◌≢◌, inl, inr, true, false, some, List, [], ◌∷◌, ◌++◌,
  arith, leb, ◌==◌, Bool-cases, get_elem?,
}
use trident_micro21_artifact.Btree.Heap.{Ptr, ok, Run, null, load, Node, Store}

-- The walk ends at a leaf that holds these entries, and changes nothing.
pub record Reaches (s : Store) (r : Run Ptr) (es : List Entry) : Type 0 where
  pub at : Ptr
  pub found : Node
  pub next : Ptr
  pub ends : r ≡ ok at s
  pub not_null : at ≢ null
  pub held : s.nodes at ≡ some found
  pub leaf : IsLeaf s.order found es next

pub load-ok : (s : Store) {p : Ptr} {n : Node} → p ≢ null → s.nodes p ≡ some n → load p s ≡ ok n s
unfolding load
load-ok s {p} ne e = let not_null : (p == null) ≡ false = ground arith in rw (not_null, e)

child_index_lem :
    {order : ℕ} {n : Node} {first : Ptr} {es : List Entry} (key : ℕ)
    → IsInner order n first es
    → child_index n key ≡ some (passed (λ k. leb k key) (keys_of es))
unfolding child_index
child_index_lem {es} key v = rw v.keys (
    scan_lem (λ k. leb k key) [] (keys_of es) v.spare_keys 0 _ refl
      (omega (arith, v.count, length-keys_of es))
    ∙ ap some (omega arith))

-- The pointer that follows the keys not above the given one.
pub record Chosen (s : Store) (f key : ℕ) (pointers : List Ptr) (i : ℕ) (es : List Entry)
    : Type 0 where
  pub child : Ptr
  pub chosen : get_elem? pointers i ≡ some child
  pub reaches : Reaches s (descend f child key s) es

module _ (s : Store) {p : Ptr} {n : Node} (key f : ℕ) (ne : p ≢ null) (e : s.nodes p ≡ some n) where
  descend_leaf : n.is_leaf ≡ true → descend (suc f) p key s ≡ ok p s
  unfolding descend
  descend_leaf leaf = rw (load-ok s ne e, leaf)

  descend_inner :
      {i : ℕ} {q : Ptr}
      → n.is_leaf ≡ false
      → child_index n key ≡ some i
      → get_elem? n.pointers i ≡ some q
      → descend (suc f) p key s ≡ descend f q key s
  unfolding descend child_index
  descend_inner inner at child = rw (load-ok s ne e, inner, at, child)

mutual
  unfolding depth route passed

  pub descend-Reaches :
      (s : Store) (key f : ℕ) {p : Ptr} {t : Tree}
      → IsTree s p t
      → depth t < f
      → Reaches s (descend f p key s) (route key t)
  descend-Reaches s key zero (at_leaf ne e v) h = absurd (omega arith)
  descend-Reaches s key zero (at_node ne e v a b) h = absurd (omega arith)
  descend-Reaches s key (suc f) (at_leaf {p} {n} {next} ne e v) h = record {
    at = p;
    found = n;
    next = next;
    ends = descend_leaf s key f ne e v.leaf;
    not_null = ne;
    held = e;
    leaf = v;
  }
  descend-Reaches s key (suc f) (at_node {n} {first} {es} {t} ne e v a b) h =
      let below =
        choose s key f b first (route key t) v.spare_pointers
          (descend-Reaches s key f a (omega arith)) (omega arith) in
      rw
        (descend_inner s key f ne e v.inner (child_index_lem key v) (
          let child : get_elem? n.pointers (passed (λ k. leb k key) (keys_of es))
              ≡ some below.child =
            rw v.pointers below.chosen in
          child))
        below.reaches

  pub choose :
      (s : Store) (key f : ℕ) {es : List Entry} {g : Forest}
      → IsForest s es g
      → (here : Ptr) (entries : List Entry) (spare : List Ptr)
      → Reaches s (descend f here key s) entries
      → depth_forest g < f
      → Chosen s f key
          (here ∷ (pointers_of es ++ spare))
          (passed (λ k. leb k key) (keys_of es))
          (route_forest key entries g)
  choose s key f no_more here entries spare r h = record {
    child = here;
    chosen = refl;
    reaches = r;
  }
  choose s key f (and_more {k} {q} {t} a b) here entries spare r h = elim (Bool-cases (leb k key)) [
    | inl right ↦
        let rest =
          choose s key f b q (route key t) spare (descend-Reaches s key f a (omega arith))
            (omega arith) in
        rw right (record { child = rest.child; chosen = rest.chosen; reaches = rest.reaches })
    | inr stay ↦ rw stay (record { child = here; chosen = refl; reaches = r })
  ]
