-- ===== src/Graph500/Bfs/Correct.antt =====
-- The whole search of trident-workloads/graph500/seq-csr/seq-csr.c: it ends with the vertices that can
-- be reached.
use trident_micro21_artifact.Btree.Array.{write}
use trident_micro21_artifact.Graph500.Csr.{Csr}
use trident_micro21_artifact.Graph500.Bfs.Level.{IsCsr, level_lem}
use trident_micro21_artifact.Graph500.Bfs.State.{
  Reach, marked, here, walk, Good, unset-set, unset, Closed,
}
use mathlib.Core.List.{Memᴰ}
use trident_micro21_artifact.Graph500.Bfs.{
  Search, Outcome, done, search_levels, start_search, make_bfs_tree, go_on,
}
use trident_micro21_artifact.Base.{
  ℕ, zero, suc, ◌+◌, ◌-◌, ◌≤◌, ◌<◌, ◌≡◌, refl, sym, ap, ◌∙◌, ◌≢◌, ◌↔◌, inl, inr, true, Option, none,
  some, List, arith, ◌==◌, if◌then◌else◌, lt→ltb, Bool-cases, length, get_or, set, replicate,
  length-set, length-replicate, get_or-set, get_or-set_self, get_or-replicate,
}

pub record Searched (nv : ℕ) (adj : ℕ → List ℕ) (src : ℕ) (r : Outcome) : Type 0 where
  pub after : Search
  pub returned : r ≡ done after
  pub reached : (v : ℕ) → (marked after v ≡ true) ↔ Reach adj src v
  pub root : get_or after.bfs_tree src none ≡ some src
  pub parents :
      (v p : ℕ)
      → get_or after.bfs_tree v none ≡ some p
      → v ≢ src
      → (marked after p ≡ true) × Memᴰ v (adj p)

module _ (nv : ℕ) (adj : ℕ → List ℕ) (src : ℕ) where
  Reach-marked :
      (st : Search)
      → Good nv adj src st
      → Closed adj st.k2 st
      → {v : ℕ} → Reach adj src v
      → marked st v ≡ true
  Reach-marked st good closed here = rw good.source refl
  Reach-marked st good closed (walk {u} {v} r edge) =
      let (i, less, e) = good.found u (Reach-marked st good closed r) in closed i v less (rw e edge)

  pub finish :
      (st : Search) → Good nv adj src st → Closed adj st.k2 st → Searched nv adj src (done st)
  finish st good closed = record {
    after = st;
    returned = refl;
    reached = λ v. (good.sound v, Reach-marked st good closed);
    root = good.source;
    parents = good.parents;
  }

module _ (g : Csr) (adj : ℕ → List ℕ) (src : ℕ) (c : IsCsr g adj) where
  levels_lem :
      (f k1 : ℕ) (st : Search)
      → Good g.nv adj src st
      → k1 ≤ st.k2
      → Closed adj k1 st
      → g.nv < f + k1
      → Searched g.nv adj src (search_levels f g k1 st)
  unfolding search_levels go_on
  levels_lem zero k1 st good le closed h = absurd (omega (arith, good.room))
  levels_lem (suc f) k1 st good le closed h = elim (Bool-cases (k1 == st.k2)) [
    | inl over ↦
        let e : k1 ≡ st.k2 = ground arith in rw over (finish g.nv adj src st good (rw e at closed))
    | inr onward ↦
        let all : k1 + (st.k2 - k1) ≡ st.k2 = omega arith in
        let (level, closed') = level_lem g adj src c (st.k2 - k1) k1 st (omega arith) good closed in
        rw (onward, level.returned)
          (levels_lem f st.k2 level.after level.good level.extends.more (rw all at closed')
            (ground arith))
  ]

unset-replicate : (n : ℕ) → unset (replicate n none) ≡ n
unset-replicate zero = refl
unset-replicate (suc n) = ap suc (unset-replicate n)

module _ (nv : ℕ) (adj : ℕ → List ℕ) (src : ℕ) (inside : src < nv) where
  abbrev blank : List (Option ℕ)
  blank = replicate nv none

  abbrev pub first_search : Search
  first_search = record {
    bfs_tree = set blank src (some src);
    vlist = set (replicate nv 0) 0 src;
    k2 = 1;
  }

  first_mark : (v : ℕ) → get_or first_search.bfs_tree v none ≡ (if src == v then some src else none)
  first_mark v = ground (
    arith,
    get_or-set blank src v (some src) none,
    get_or-replicate {A = Option ℕ} nv v none,
    length-replicate {A = Option ℕ} nv none,
  )

  first_entry : get_or first_search.vlist 0 0 ≡ src
  first_entry =
      get_or-set_self (replicate nv 0) 0 src 0 (omega (arith, length-replicate {A = ℕ} nv 0))

  source_only : (v : ℕ) → marked first_search v ≡ true → src ≡ v
  source_only v h = ground (arith, first_mark v)

  pub first-Good : Good nv adj src first_search
  first-Good = record {
    tree_size = length-set blank src (some src) ∙ length-replicate nv none;
    list_size = length-set (replicate nv 0) 0 src ∙ length-replicate nv 0;
    room = omega (
      arith,
      unset-set blank src src (omega (arith, length-replicate {A = Option ℕ} nv none))
          (get_or-replicate nv src none),
      unset-replicate nv,
    );
    source = rw (first_mark src) (ground arith);
    listed =
        λ i h. let e : i ≡ 0 = omega arith in rw (e, first_entry, first_mark src) (ground arith);
    found = λ v h. (0, omega arith, first_entry ∙ source_only v h);
    sound = λ v h. rw (← source_only v h) here;
    parents = λ v p e ne. absurd (ne (sym (source_only v (rw e refl))));
  }

  pub start_lem : start_search nv src ≡ some first_search
  unfolding start_search write
  start_lem =
      rw
        (
          lt→ltb 0 (length {A = ℕ} (replicate nv 0)) (omega (arith, length-replicate {A = ℕ} nv 0)),
          lt→ltb src (length blank) (omega (arith, length-replicate {A = Option ℕ} nv none)),
        )
        refl

-- On compressed rows of neighbours and from a vertex of the graph, the search returns: no access is
-- out of range and the fuel is enough. The parents are set exactly at the vertices that walks
-- from the source lead to, the source is its own parent, and the parent of any other vertex is
-- a reached vertex that has it as a neighbour.
pub make_bfs_tree-Searched :
    {g : Csr} {adj : ℕ → List ℕ} {src : ℕ}
    → IsCsr g adj
    → src < g.nv
    → Searched g.nv adj src (make_bfs_tree g src)
unfolding make_bfs_tree go_on
make_bfs_tree-Searched {g} {adj} {src} c inside =
    let none_closed : Closed adj 0 (first_search g.nv adj src inside) =
      λ i w h n. absurd (omega arith) in
    rw (start_lem g.nv adj src inside) (
      levels_lem g adj src c (suc g.nv) 0 (first_search g.nv adj src inside)
        (first-Good g.nv adj src inside) (omega arith) none_closed (omega arith))
