-- ===== src/Graph500/Bfs/State.antt =====
-- The state of the search in trident-workloads/graph500/seq-csr/seq-csr.c, and what one visit keeps.
use trident_micro21_artifact.Graph500.Csr.{same_vertex}
use trident_micro21_artifact.Btree.Array.{write}
use mathlib.Core.List.{Memᴰ}
use trident_micro21_artifact.Graph500.Bfs.{Search, visit}
use trident_micro21_artifact.Base.{
  ℕ, zero, suc, ◌+◌, ◌≤◌, ◌<◌, ◌≡◌, refl, ap, ◌∙◌, ◌≢◌, inl, inr, Bool, true, false, Option, none,
  some, List, [], ◌∷◌, arith, ◌==◌, if◌then◌else◌, lt→ltb, Bool-cases, length, get_elem?, get_or,
  set, length-set, get_or-set, get_elem?-eq-get_or, Option-cases,
}

abbrev pub is_set : Option ℕ → Bool
is_set none = false
is_set (some p) = true

-- `bfs_tree[v] >= 0`
abbrev pub marked : Search → ℕ → Bool
marked st v = is_set (get_or st.bfs_tree v none)

-- The vertices without a parent.
abbrev pub unset : List (Option ℕ) → ℕ
unset [] = 0
unset (none ∷ ps) = suc (unset ps)
unset (some p ∷ ps) = unset ps

pub unset-set :
    (ps : List (Option ℕ)) (i p : ℕ)
    → i < length ps
    → get_or ps i none ≡ none
    → suc (unset (set ps i (some p))) ≡ unset ps
unset-set [] i p h e = absurd (omega arith)
unset-set (none ∷ ps) zero p h e = refl
unset-set (some q ∷ ps) zero p h e = cc
unset-set (none ∷ ps) (suc i) p h e = ap suc (unset-set ps i p (omega arith) e)
unset-set (some q ∷ ps) (suc i) p h e = unset-set ps i p (omega arith) e

pub marked-lt : (ps : List (Option ℕ)) (v : ℕ) → is_set (get_or ps v none) ≡ true → v < length ps
marked-lt [] v h = cc
marked-lt (p ∷ ps) zero h = omega arith
marked-lt (p ∷ ps) (suc v) h = omega (arith, marked-lt ps v h)

-- The vertices that walks along the rows lead to.
pub data Reach (adj : ℕ → List ℕ) (src : ℕ) : ℕ → Type 0 where
  here : Reach adj src src
  walk : {u v : ℕ} → Reach adj src u → Memᴰ v (adj u) → Reach adj src v

module _ (nv : ℕ) (adj : ℕ → List ℕ) (src : ℕ) where
  -- The arrays have their size with room for the vertices that are not reached yet; the list
  -- and the parents agree; what is reached can be reached, and its parent is a neighbour.
  pub record Good (st : Search) : Type 0 where
    pub tree_size : length st.bfs_tree ≡ nv
    pub list_size : length st.vlist ≡ nv
    pub room : unset st.bfs_tree + st.k2 ≡ nv
    pub source : get_or st.bfs_tree src none ≡ some src
    pub listed : (i : ℕ) → i < st.k2 → marked st (get_or st.vlist i 0) ≡ true
    pub found : (v : ℕ) → marked st v ≡ true → (i : ℕ) × (i < st.k2) × (get_or st.vlist i 0 ≡ v)
    pub sound : (v : ℕ) → marked st v ≡ true → Reach adj src v
    pub parents :
        (v p : ℕ)
        → get_or st.bfs_tree v none ≡ some p
        → v ≢ src
        → (marked st p ≡ true) × Memᴰ v (adj p)

-- What later visits leave.
pub record Extends (st st' : Search) : Type 0 where
  pub more : st.k2 ≤ st'.k2
  pub prefix : (i : ℕ) → i < st.k2 → get_or st'.vlist i 0 ≡ get_or st.vlist i 0
  pub kept : (v : ℕ) → marked st v ≡ true → marked st' v ≡ true

pub Extends-refl : (st : Search) → Extends st st
Extends-refl st = record { more = omega arith; prefix = λ i h. refl; kept = λ v h. h }

pub Extends-trans : {r s t : Search} → Extends r s → Extends s t → Extends r t
Extends-trans p q = record {
  more = omega (arith, p.more, q.more);
  prefix = λ i h. q.prefix i (omega (arith, p.more)) ∙ p.prefix i h;
  kept = λ v h. q.kept v (p.kept v h);
}

pub record Visited (nv : ℕ) (adj : ℕ → List ℕ) (src : ℕ) (st : Search) (r : Option Search)
    : Type 0 where
  pub after : Search
  pub returned : r ≡ some after
  pub good : Good nv adj src after
  pub extends : Extends st after

module _ (nv : ℕ) (adj : ℕ → List ℕ) (src u w : ℕ) (st : Search) (g : Good nv adj src st)
    (from : marked st u ≡ true) (edge : Memᴰ w (adj u)) (inside : w < nv) where
  abbrev added : Search
  added = record {
    bfs_tree = set st.bfs_tree w (some u);
    vlist = set st.vlist st.k2 w;
    k2 = st.k2 + 1;
  }

  module _ (fresh : get_or st.bfs_tree w none ≡ none) where
    new_mark : (v : ℕ) → marked added v ≡ (if w == v then true else marked st v)
    new_mark v = ground (arith, get_or-set st.bfs_tree w v (some u) none, g.tree_size)

    space : st.k2 < nv
    space = omega (arith, unset-set st.bfs_tree w u (omega (arith, g.tree_size)) fresh, g.room)

    new_entry : (i : ℕ) → get_or added.vlist i 0 ≡ (if st.k2 == i then w else get_or st.vlist i 0)
    new_entry i = ground (arith, get_or-set st.vlist st.k2 i w 0, g.list_size, space)

    new_parent :
        (v : ℕ)
        → get_or added.bfs_tree v none ≡ (if w == v then some u else get_or st.bfs_tree v none)
    new_parent v = ground (arith, get_or-set st.bfs_tree w v (some u) none, g.tree_size)

    source_differs : (w == src) ≡ false
    source_differs = elim (Bool-cases (w == src)) [
      | inl same ↦
          let e : w ≡ src = ground arith in
          absurd (cc (fresh, ap (λ v. get_or st.bfs_tree v none) e, g.source))
      | inr differ ↦ differ
    ]

    new_listed : (i : ℕ) → i < st.k2 + 1 → marked added (get_or added.vlist i 0) ≡ true
    new_listed i h = elim (Bool-cases (st.k2 == i)) [
      | inl last ↦ rw (new_entry i, last, new_mark w) (ground arith)
      | inr before ↦
          rw (new_entry i, before, new_mark (get_or st.vlist i 0))
            (ground (arith, g.listed i (ground arith)))
    ]

    new_found :
        (v : ℕ) → marked added v ≡ true → (i : ℕ) × (i < st.k2 + 1) × (get_or added.vlist i 0 ≡ v)
    new_found v h = elim (Bool-cases (w == v)) [
      | inl same ↦ (st.k2, omega arith, ground (arith, new_entry st.k2))
      | inr differ ↦
          let old : marked st v ≡ true = ground (arith, new_mark v) in
          let (i, less, e) = g.found v old in (i, omega arith, ground (arith, new_entry i))
    ]

    new_sound : (v : ℕ) → marked added v ≡ true → Reach adj src v
    new_sound v h = elim (Bool-cases (w == v)) [
      | inl same ↦ let e : w ≡ v = ground arith in walk (g.sound u from) (rw (← e) edge)
      | inr differ ↦ g.sound v (ground (arith, new_mark v))
    ]

    new_kept : (v : ℕ) → marked st v ≡ true → marked added v ≡ true
    new_kept v h = ground (arith, new_mark v)

    new_parents :
        (v p : ℕ)
        → get_or added.bfs_tree v none ≡ some p
        → v ≢ src
        → (marked added p ≡ true) × Memᴰ v (adj p)
    new_parents v p e ne = elim (Bool-cases (w == v)) [
      | inl same ↦
          let e' : w ≡ v = ground arith in
          let up : u ≡ p = ground (arith, new_parent v) in
          (rw (← up) (new_kept u from), rw (← up, ← e') edge)
      | inr differ ↦
          let (m, member) = g.parents v p (ground (arith, new_parent v)) ne in
          (new_kept p m, member)
    ]

    added-Good : Good nv adj src added
    added-Good = record {
      tree_size = length-set st.bfs_tree w (some u) ∙ g.tree_size;
      list_size = length-set st.vlist st.k2 w ∙ g.list_size;
      room = omega (arith, unset-set st.bfs_tree w u (omega (arith, g.tree_size)) fresh, g.room);
      source = rw (new_parent src, source_differs) g.source;
      listed = new_listed;
      found = new_found;
      sound = new_sound;
      parents = new_parents;
    }

    added-Extends : Extends st added
    added-Extends = record {
      more = omega arith;
      prefix = λ i h. ground (arith, new_entry i);
      kept = new_kept;
    }

    visit_fresh : visit u (some w) st ≡ some added
    unfolding visit write same_vertex
    visit_fresh =
        let read_tree : get_elem? st.bfs_tree w ≡ some none =
          get_elem?-eq-get_or st.bfs_tree w none (omega (arith, g.tree_size)) ∙ ap some fresh in
        rw
          (
            read_tree,
            lt→ltb w (length st.bfs_tree) (omega (arith, g.tree_size)),
            lt→ltb st.k2 (length st.vlist) (omega (arith, g.list_size, space)),
          )
          refl

  visit_seen : (p : ℕ) → get_or st.bfs_tree w none ≡ some p → visit u (some w) st ≡ some st
  unfolding visit same_vertex
  visit_seen p e =
      let read_tree : get_elem? st.bfs_tree w ≡ some (some p) =
        get_elem?-eq-get_or st.bfs_tree w none (omega (arith, g.tree_size)) ∙ ap some e in
      rw read_tree refl

  -- A visit of a neighbour of a reached vertex.
  pub visit-Visited : (v : Visited nv adj src st (visit u (some w) st)) × (marked v.after w ≡ true)
  visit-Visited = elim (Option-cases (get_or st.bfs_tree w none)) [
    | inl fresh ↦ (
      record {
        after = added;
        returned = visit_fresh fresh;
        good = added-Good fresh;
        extends = added-Extends fresh;
      },
      rw (new_mark fresh w) (ground arith),
    )
    | inr (p, seen) ↦ (
      record { after = st; returned = visit_seen p seen; good = g; extends = Extends-refl st },
      rw seen refl,
    )
  ]

-- The vertices that the first `k` entries of the list have as neighbours are reached.
abbrev pub Closed : (ℕ → List ℕ) → ℕ → Search → Type 0
Closed adj k st = (i w : ℕ) → i < k → Memᴰ w (adj (get_or st.vlist i 0)) → marked st w ≡ true

module _ (adj : ℕ → List ℕ) where
  pub Closed-Extends :
      (k : ℕ) {st st' : Search} → Extends st st' → k ≤ st.k2 → Closed adj k st → Closed adj k st'
  Closed-Extends k x le closed i w h n =
      x.kept w (closed i w h (rw (x.prefix i (omega arith)) at n))

  pub Closed-suc :
      (k : ℕ) (st st' : Search)
      → Extends st st'
      → k < st.k2
      → Closed adj k st
      → ((w : ℕ) → Memᴰ w (adj (get_or st.vlist k 0)) → marked st' w ≡ true)
      → Closed adj (k + 1) st'
  Closed-suc k st st' x less closed reached i w h n = elim (Bool-cases (i == k)) [
    | inl last ↦
        let e : i ≡ k = ground arith in
        let entry : get_or st'.vlist i 0 ≡ get_or st.vlist k 0 =
          x.prefix i (omega arith) ∙ ap (λ j. get_or st.vlist j 0) e in
        reached w (rw entry at n)
    | inr before ↦ Closed-Extends k x (omega arith) closed i w (ground arith) n
  ]
