-- ===== src/Btree/Tree.antt =====
-- The B+ tree of trident-workloads/btree/btree1.c as a tree of entries, and what it means that a
-- heap holds such a tree at an address.
pub mod Lookup
pub mod Find
pub mod FindRecord
pub mod Known
pub mod Range
pub mod Between
use Prim.Native.Nat.{max}
use trident_micro21_artifact.Btree.Heap.{Node, Ptr, Store, null}
use trident_micro21_artifact.Btree.Node.Entries.{Entry, IsInner, IsLeaf}
use trident_micro21_artifact.Base.{
  ℕ, suc, ◌≤◌, ◌<◌, ◌≡◌, ◌≢◌, some, List, [], ◌∷◌, ◌++◌, leb, if◌then◌else◌,
}

-- A node has a first child, and behind each key one more.
mutual
  pub data Tree : Type 0 where
    leaf : List Entry → Tree
    node : Tree → Forest → Tree

  pub data Forest : Type 0 where
    end : Forest
    more : ℕ → Tree → Forest → Forest

mutual
  pub data IsTree (s : Store) : Ptr → Tree → Type 0 where
    at_leaf :
        {p : Ptr} {n : Node} {es : List Entry} {next : Ptr}
        → p ≢ null
        → s.nodes p ≡ some n
        → IsLeaf s.order n es next
        → IsTree s p (leaf es)
    at_node :
        {p : Ptr} {n : Node} {first : Ptr} {es : List Entry} {t : Tree} {f : Forest}
        → p ≢ null
        → s.nodes p ≡ some n
        → IsInner s.order n first es
        → IsTree s first t
        → IsForest s es f
        → IsTree s p (node t f)

  pub data IsForest (s : Store) : List Entry → Forest → Type 0 where
    no_more : IsForest s [] end
    and_more :
        {k : ℕ} {q : Ptr} {es : List Entry} {t : Tree} {f : Forest}
        → IsTree s q t
        → IsForest s es f
        → IsForest s ((k, q) ∷ es) (more k t f)

unfoldable mutual
  pub depth : Tree → ℕ
  depth (leaf es) = 0
  depth (node t f) = suc (max (depth t) (depth_forest f))

  pub depth_forest : Forest → ℕ
  depth_forest end = 0
  depth_forest (more k t f) = max (depth t) (depth_forest f)

-- All entries, from left to right.
unfoldable mutual
  pub contents : Tree → List Entry
  contents (leaf es) = es
  contents (node t f) = contents t ++ contents_forest f

  pub contents_forest : Forest → List Entry
  contents_forest end = []
  contents_forest (more k t f) = contents t ++ contents_forest f

-- The entries of the leaf that a key leads to.
unfoldable mutual
  pub route : ℕ → Tree → List Entry
  route key (leaf es) = es
  route key (node t f) = route_forest key (route key t) f

  pub route_forest : ℕ → List Entry → Forest → List Entry
  route_forest key here end = here
  route_forest key here (more k t f) = if leb k key then route_forest key (route key t) f else here

abbrev pub AllBelow : ℕ → List Entry → Type 0
AllBelow k [] = Unit
AllBelow k ((j, p) ∷ es) = (j < k) × AllBelow k es

abbrev pub AllFrom : ℕ → List Entry → Type 0
AllFrom k [] = Unit
AllFrom k ((j, p) ∷ es) = (k ≤ j) × AllFrom k es

-- Every key of an internal node separates the entries on its two sides.
mutual
  pub data Separated : Tree → Type 0 where
    leaf_separated : {es : List Entry} → Separated (leaf es)
    node_separated :
        {t : Tree} {f : Forest} → Separated t → SeparatedFrom (contents t) f → Separated (node t f)

  pub data SeparatedFrom : List Entry → Forest → Type 0 where
    end_separated : {before : List Entry} → SeparatedFrom before end
    more_separated :
        {before : List Entry} {k : ℕ} {t : Tree} {f : Forest}
        → AllBelow k before
        → AllFrom k (contents_forest (more k t f))
        → Separated t
        → SeparatedFrom (before ++ contents t) f
        → SeparatedFrom before (more k t f)
