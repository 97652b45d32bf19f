-- ===== src/Btree/Tree/Between.antt =====
-- `find_range` of trident-workloads/btree/btree1.c on a tree with ascending keys: which entries it
-- returns.
use mathlib.Core.List.{append_assoc}
use mathlib.Core.Path.{subst}
use trident_micro21_artifact.Btree.Heap.{Ptr, Node, Store, null, ok}
use trident_micro21_artifact.Btree.Node.Entries.{Entry, IsLeaf, keys_of, passed}
use trident_micro21_artifact.Btree.Search.{descend, find_leaf, find_range}
use trident_micro21_artifact.Btree.Tree.{IsTree, Tree, AllBelow, AllFrom, depth, route}
use trident_micro21_artifact.Btree.Tree.Find.{descend-Reaches}
use trident_micro21_artifact.Btree.Tree.FindRecord.{root_not_null}
use trident_micro21_artifact.Btree.Tree.Range.{Chain, found_range, up_to, up_to_all}
use trident_micro21_artifact.Base.{
  ℕ, suc, ◌≤◌, ◌<◌, ◌≡◌, refl, sym, ap, ◌∙◌, ◌≢◌, ◌⊎◌, inl, inr, Bool, true, false, ◌&&◌, ◌||◌,
  some, List, [], ◌∷◌, ◌++◌, arith, ltb, leb, ◌==◌, if◌then◌else◌, Bool-cases, length,
}

-- The entries with keys from `key_start` to `key_end`.
unfoldable pub between : (key_start key_end : ℕ) → List Entry → List Entry
between key_start key_end [] = []
between key_start key_end ((k, p) ∷ es) =
    if leb key_start k && leb k key_end
    then (k, p) ∷ between key_start key_end es
    else between key_start key_end es

unfoldable pub some_from : (key_start : ℕ) → List Entry → Bool
some_from key_start [] = false
some_from key_start ((k, p) ∷ es) = leb key_start k || some_from key_start es

abbrev pub Ascending : List Entry → Type 0
Ascending [] = Unit
Ascending ((k, p) ∷ es) = AllFrom k es × Ascending es

-- The entries of all leaves.
abbrev pub all_entries : List (List Entry) → List Entry
all_entries [] = []
all_entries (es ∷ ess) = es ++ all_entries ess

AllFrom-trans : (lo k : ℕ) (es : List Entry) → lo ≤ k → AllFrom k es → AllFrom lo es
AllFrom-trans lo k [] h a = tt
AllFrom-trans lo k ((j, p) ∷ es) h (le, a) = (omega arith, AllFrom-trans lo k es h a)

AllFrom-parts :
    (lo : ℕ) (xs ys : List Entry) → AllFrom lo (xs ++ ys) → AllFrom lo xs × AllFrom lo ys
AllFrom-parts lo [] ys a = (tt, a)
AllFrom-parts lo ((j, p) ∷ xs) ys (le, a) = let (b, c) = AllFrom-parts lo xs ys a in ((le, b), c)

Ascending-parts : (xs ys : List Entry) → Ascending (xs ++ ys) → Ascending xs × Ascending ys
Ascending-parts [] ys a = (tt, a)
Ascending-parts ((j, p) ∷ xs) ys (from, a) =
    let (b, c) = Ascending-parts xs ys a in (((AllFrom-parts j xs ys from).0, b), c)

between-append :
    (lo hi : ℕ) (xs ys : List Entry)
    → between lo hi (xs ++ ys) ≡ between lo hi xs ++ between lo hi ys
unfolding between
between-append lo hi [] ys = refl
between-append lo hi ((k, p) ∷ xs) ys = elim (Bool-cases (leb lo k && leb k hi)) [
  | inl within ↦ rw (within, between-append lo hi xs ys) refl
  | inr outside ↦ rw outside (between-append lo hi xs ys)
]

between-AllBelow : (lo hi : ℕ) (es : List Entry) → AllBelow lo es → between lo hi es ≡ []
unfolding between
between-AllBelow lo hi [] h = refl
between-AllBelow lo hi ((k, p) ∷ es) (less, h) =
    let outside : (leb lo k && leb k hi) ≡ false = ground arith in
    rw outside (between-AllBelow lo hi es h)

between-AllFrom : (lo hi k : ℕ) (es : List Entry) → hi < k → AllFrom k es → between lo hi es ≡ []
unfolding between
between-AllFrom lo hi k [] h a = refl
between-AllFrom lo hi k ((j, p) ∷ es) h (le, a) =
    let outside : (leb lo j && leb j hi) ≡ false = ground arith in
    rw outside (between-AllFrom lo hi k es h a)

up_to-between :
    (lo hi : ℕ) (es : List Entry) → AllFrom lo es → Ascending es → up_to hi es ≡ between lo hi es
unfolding up_to between
up_to-between lo hi [] a b = refl
up_to-between lo hi ((k, p) ∷ es) (le, a) (from, b) = elim (Bool-cases (leb k hi)) [
  | inl within ↦
      let inside : (leb lo k && leb k hi) ≡ true = ground arith in
      rw (inside, within, up_to-between lo hi es a b) refl
  | inr beyond ↦
      let outside : (leb lo k && leb k hi) ≡ false = ground arith in
      rw (outside, beyond) (sym (between-AllFrom lo hi k es (ground arith) from))
]

up_to_all-between :
    (lo hi : ℕ) (ess : List (List Entry))
    → AllFrom lo (all_entries ess)
    → Ascending (all_entries ess)
    → up_to_all hi ess ≡ between lo hi (all_entries ess)
unfolding up_to_all between
up_to_all-between lo hi [] a b = refl
up_to_all-between lo hi (es ∷ ess) a b =
    let (here, behind) = AllFrom-parts lo es (all_entries ess) a in
    let (up, up') = Ascending-parts es (all_entries ess) b in
    rw
      (
        between-append lo hi es (all_entries ess),
        up_to-between lo hi es here up,
        up_to_all-between lo hi ess behind up',
      )
      refl

-- A leaf cut where its keys reach `key_start`.
record Cut (lo : ℕ) (es : List Entry) : Type 0 where
  below : List Entry
  above : List Entry
  parts : es ≡ below ++ above
  at : passed (λ k. ltb k lo) (keys_of es) ≡ length below
  all_below : AllBelow lo below
  starts :
      (length above ≡ 0)
      ⊎ ((k : ℕ) × (p : Ptr) × (rest : List Entry) × (above ≡ (k, p) ∷ rest) × (lo ≤ k))
  some_above : some_from lo es ≡ ltb 0 (length above)

leaf-Cut : (lo : ℕ) (es : List Entry) → Cut lo es
unfolding passed some_from
leaf-Cut lo [] = record {
  below = [];
  above = [];
  parts = refl;
  at = refl;
  all_below = tt;
  starts = inl refl;
  some_above = refl;
}
leaf-Cut lo ((k, p) ∷ es) = elim (Bool-cases (ltb k lo)) [
  | inl less ↦
      let rest = leaf-Cut lo es in
      let not_from : leb lo k ≡ false = ground arith in
      record {
        below = (k, p) ∷ rest.below;
        above = rest.above;
        parts = ap (λ t. (k, p) ∷ t) rest.parts;
        at = rw less (ap suc rest.at);
        all_below = (ground arith, rest.all_below);
        starts = rest.starts;
        some_above = rw not_from rest.some_above;
      }
  | inr reached ↦
      let from : leb lo k ≡ true = ground arith in
      record {
        below = [];
        above = (k, p) ∷ es;
        parts = refl;
        at = rw reached refl;
        all_below = tt;
        starts = inr (k, p, es, refl, ground arith);
        some_above = rw from (ground arith);
      }
]

find_leaf-descend :
    (s : Store) (fuel : ℕ) (root : Ptr) (key : ℕ)
    → root ≢ null
    → find_leaf fuel root key s ≡ descend fuel root key s
unfolding find_leaf
find_leaf-descend s fuel root key ne =
    let not_null : (root == null) ≡ false = ground arith in rw not_null refl

module _ (lo hi : ℕ) (es : List Entry) (ess : List (List Entry))
    (sorted : Ascending (es ++ all_entries ess)) (c : Cut lo es) where
  behind-AllFrom : (length c.above == 0) ≡ false → AllFrom lo (c.above ++ all_entries ess)
  behind-AllFrom some_left = elim c.starts [
    | inl empty ↦ absurd (ground arith)
    | inr (k, p, rest, e, from) ↦
        let whole : Ascending (c.above ++ all_entries ess) =
          (Ascending-parts c.below (c.above ++ all_entries ess) (
            subst Ascending
              (ap (λ t. t ++ all_entries ess) c.parts
                ∙ append_assoc c.below c.above (all_entries ess))
              sorted)).1 in
        let tail = subst (λ t. Ascending (t ++ all_entries ess)) e whole in
        subst (λ t. AllFrom lo (t ++ all_entries ess)) (sym e)
          (from, AllFrom-trans lo k (rest ++ all_entries ess) from tail.0)
  ]

  cut-between :
      (length c.above == 0) ≡ false
      → up_to hi c.above ++ up_to_all hi ess ≡ between lo hi (es ++ all_entries ess)
  cut-between some_left =
      let (here, behind) = AllFrom-parts lo c.above (all_entries ess) (behind-AllFrom some_left) in
      let (up, up') = Ascending-parts es (all_entries ess) sorted in
      let up_above = (Ascending-parts c.below c.above (subst Ascending c.parts up)).1 in
      rw
        (
          between-append lo hi es (all_entries ess),
          up_to-between lo hi c.above here up_above,
          up_to_all-between lo hi ess behind up',
        )
        (ap (λ t. t ++ between lo hi (all_entries ess))
          (sym (
            ap (between lo hi) c.parts
            ∙ between-append lo hi c.below c.above
            ∙ ap (λ t. t ++ between lo hi c.above) (between-AllBelow lo hi c.below c.all_below))))

-- On a heap that holds a tree, with ascending keys in the leaf that `key_start` leads to and the leaves
-- chained behind it, and with fuel above the depth and above the number of those leaves, `find_range`
-- leaves the heap as it is. If that leaf has a key from `key_start` on, it returns the entries of these
-- leaves with keys from `key_start` to `key_end`, in their order; else it returns nothing, whatever
-- the leaves behind hold.
pub find_range-between :
    {s : Store} {root : Ptr} {t : Tree} {ess : List (List Entry)} (fuel key_start key_end : ℕ)
    → IsTree s root t
    → depth t ≤ fuel
    → ((p : Ptr) (n : Node) (next : Ptr)
        → s.nodes p ≡ some n
        → IsLeaf s.order n (route key_start t) next
        → Chain s next ess)
    → length ess < fuel
    → Ascending (route key_start t ++ all_entries ess)
    → find_range (suc fuel) root key_start key_end s
      ≡ ok
          (if some_from key_start (route key_start t)
            then between key_start key_end (route key_start t ++ all_entries ess)
            else [])
          s
find_range-between {s} {root} {t} {ess} fuel key_start key_end held deep chain enough sorted =
    let es = route key_start t in
    let r = descend-Reaches s key_start (suc fuel) held (omega arith) in
    let c = leaf-Cut key_start es in
    let run =
      found_range s fuel key_start key_end root ess
        (find_leaf-descend s (suc fuel) root key_start (root_not_null held) ∙ r.ends) r.not_null
        r.held r.leaf (chain r.at r.found r.next r.held r.leaf) enough c.below c.above c.parts
        c.at in
    elim (Bool-cases (length c.above == 0)) [
      | inl empty ↦
          let nothing : some_from key_start es ≡ false = c.some_above ∙ ground arith in
          rw nothing (run ∙ rw empty refl)
      | inr left ↦
          let something : some_from key_start es ≡ true = c.some_above ∙ ground arith in
          rw something
            (run ∙ rw left (ap (λ o. ok o s) (cut-between key_start key_end es ess sorted c left)))
    ]
