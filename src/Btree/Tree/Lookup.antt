-- ===== src/Btree/Tree/Lookup.antt =====
-- Looking a key up in the entries of a tree: the leaf that the separating keys lead to is enough.
use trident_micro21_artifact.Btree.Node.Entries.{Entry}
use mathlib.Core.List.{append_assoc, append-nil}
use trident_micro21_artifact.Btree.Tree.{
  route_forest, Separated, SeparatedFrom, contents_forest, AllFrom, contents, route, Tree, AllBelow,
  Forest, leaf_separated, more_separated, end_separated, node_separated,
}
use trident_micro21_artifact.Btree.Heap.{Ptr}
use trident_micro21_artifact.Base.{
  ℕ, ◌≤◌, ◌<◌, ◌≡◌, refl, sym, ◌∙◌, inl, inr, Option, none, some, List, [], ◌∷◌, ◌++◌, arith, leb,
  ◌==◌, if◌then◌else◌, Bool-cases,
}

-- The pointer of the first entry with the key.
unfoldable pub lookup : ℕ → List Entry → Option Ptr
lookup key [] = none
lookup key ((k, p) ∷ es) = if k == key then some p else lookup key es

lookup-append_below :
    (k key : ℕ) (us vs : List Entry)
    → AllBelow k us
    → k ≤ key
    → lookup key (us ++ vs) ≡ lookup key vs
unfolding lookup
lookup-append_below k key [] vs a h = refl
lookup-append_below k key ((j, p) ∷ us) vs a h =
    ground (arith, lookup-append_below k key us vs a.1 h)

lookup_from : (k key : ℕ) (vs : List Entry) → AllFrom k vs → key < k → lookup key vs ≡ none
unfolding lookup
lookup_from k key [] a h = refl
lookup_from k key ((j, p) ∷ vs) a h = ground (arith, lookup_from k key vs a.1 h)

lookup-append_from :
    (k key : ℕ) (us vs : List Entry)
    → AllFrom k vs
    → key < k
    → lookup key (us ++ vs) ≡ lookup key us
unfolding lookup
lookup-append_from k key [] vs a h = lookup_from k key vs a h
lookup-append_from k key ((j, p) ∷ us) vs a h = ground (arith, lookup-append_from k key us vs a h)

mutual
  unfolding route contents

  lookup-route_aux :
      (key : ℕ) {t : Tree} → Separated t → lookup key (route key t) ≡ lookup key (contents t)
  lookup-route_aux key leaf_separated = refl
  lookup-route_aux key (node_separated {t} s f) =
      lookup-route_forest key f (route key t) (lookup-route_aux key s)

  lookup-route_forest :
      (key : ℕ) {before : List Entry} {f : Forest}
      → SeparatedFrom before f
      → (here : List Entry) → lookup key here ≡ lookup key before
      → lookup key (route_forest key here f) ≡ lookup key (before ++ contents_forest f)
  lookup-route_forest key (end_separated {before}) here e = rw (append-nil before) e
  lookup-route_forest key (more_separated {before} {k} {t} {f} low high s g) here e =
      elim (Bool-cases (leb k key)) [
        | inl right ↦
            rw (right, ← append_assoc before (contents t) (contents_forest f))
              (lookup-route_forest key g (route key t) (
                lookup-route_aux key s
                ∙ sym (lookup-append_below k key before (contents t) low (ground arith))))
        | inr stay ↦ rw stay (e ∙ sym (lookup-append_from k key before _ high (ground arith)))
      ]

-- The leaf that `find_leaf` reaches knows of a key what the whole tree knows.
pub lookup-route :
    (key : ℕ) {t : Tree} → Separated t → lookup key (route key t) ≡ lookup key (contents t)
lookup-route key s = lookup-route_aux key s
