-- ===== src/Graph500/SeqList/Walk.antt =====
-- The search of trident-workloads/graph500/seq-list/seq-list.c on lists of neighbours.
use trident_micro21_artifact.Graph500.Csr.{Edge}
use trident_micro21_artifact.Graph500.Bfs.State.{
  Extends-trans, Visited, visit-Visited, Closed, marked, Good, Closed-suc, marked-lt, Extends-refl,
}
use trident_micro21_artifact.Graph500.Bfs.Correct.{
  first-Good, Searched, finish, first_search, start_lem,
}
use trident_micro21_artifact.Graph500.Bfs.{Search, go_on}
use trident_micro21_artifact.Graph500.SeqList.{follow, search_lists, search_tree, end_at, Lists}
use mathlib.Core.List.{Memᴰ}
use mathlib.Core.List.Memᴰ
use trident_micro21_artifact.Base.{
  ℕ, zero, suc, ◌+◌, ◌*◌, ◌≤◌, ◌<◌, ◌≡◌, refl, inl, inr, true, Option, none, some, List, [], ◌∷◌,
  arith, ◌==◌, Bool-cases, length, get_elem?, get_or, get_elem?-eq-get_or,
}

-- From a link on, the list leads to the vertices `ws`; all its links are among the used ones.
abbrev pub ListAt :
    (edges : List Edge) (next : List (Option ℕ)) (used : ℕ → Type 0) → Option ℕ → List ℕ → Type 0
ListAt edges next used p [] = p ≡ none
ListAt edges next used p (w ∷ ws) =
    (t : ℕ) × (q : Option ℕ) × (p ≡ some t)
    × used t
    × (end_at edges t ≡ some (some w))
    × (get_elem? next t ≡ some q)
    × ListAt edges next used q ws

-- The lists of a graph lead to the neighbours `adj` of each vertex, all of them vertices.
pub record IsLists (g : Lists) (adj : ℕ → List ℕ) : Type 0 where
  pub bound : ℕ
  pub first : ℕ → Option ℕ
  pub heads : (v : ℕ) → v < g.nv → get_elem? g.head v ≡ some (first v)
  pub lists : (v : ℕ) → v < g.nv → ListAt g.edges g.next (λ t. t < bound) (first v) (adj v)
  pub short : (v : ℕ) → v < g.nv → length (adj v) ≤ 2 * length g.edges
  pub within : (v w : ℕ) → v < g.nv → Memᴰ w (adj v) → w < g.nv

module _ (g : Lists) (adj : ℕ → List ℕ) (src : ℕ) (c : IsLists g adj) where
  abbrev Visits : Search → Option Search → Type 0
  Visits = Visited g.nv adj src

  follow_lem :
      (u : ℕ) (ws : List ℕ) (fuel : ℕ) (p : Option ℕ) (st : Search)
      → length ws ≤ fuel
      → ListAt g.edges g.next (λ t. t < c.bound) p ws
      → ((w : ℕ) → Memᴰ w ws → Memᴰ w (adj u))
      → u < g.nv
      → Good g.nv adj src st
      → marked st u ≡ true
      → (v : Visits st (follow fuel g u p st)) × ((w : ℕ) → Memᴰ w ws → marked v.after w ≡ true)
  unfolding follow
  follow_lem u [] fuel p st le row sub less good m = (
    record { after = st; returned = rw row refl; good = good; extends = Extends-refl st },
    λ w n. absurd (Memᴰ.not-nil n),
  )
  follow_lem u (w ∷ ws) zero p st le row sub less good m = absurd (omega arith)
  follow_lem u (w ∷ ws) (suc f) p st le (t, q, e, bound, at, next_t, row) sub less good m =
      let edge = sub w (Memᴰ.head refl) in
      let (now, set_now) = visit-Visited g.nv adj src u w st good m edge (c.within u w less edge) in
      let (rest, set_rest) =
        follow_lem u ws f q now.after (omega arith) row (λ x n. sub x (Memᴰ.tail n)) less now.good
          (now.extends.kept u m) in
      (
        record {
          after = rest.after;
          returned = rw (e, at, now.returned, next_t) rest.returned;
          good = rest.good;
          extends = Extends-trans now.extends rest.extends;
        },
        λ x n. elim (Memᴰ.cases_cons n) [
          | inl s ↦ rw s (rest.extends.kept w set_now)
          | inr m' ↦ set_rest x m'
        ],
      )

  search_lem :
      (f k : ℕ) (st : Search)
      → Good g.nv adj src st
      → k ≤ st.k2
      → Closed adj k st
      → g.nv < f + k
      → Searched g.nv adj src (search_lists f g k st)
  unfolding search_lists go_on
  search_lem zero k st good le closed h = absurd (omega (arith, good.room))
  search_lem (suc f) k st good le closed h = elim (Bool-cases (k == st.k2)) [
    | inl over ↦
        let e : k ≡ st.k2 = ground arith in rw over (finish g.nv adj src st good (rw e at closed))
    | inr onward ↦
        let less_k : k < st.k2 = ground arith in
        let u = get_or st.vlist k 0 in
        let m : marked st u ≡ true = good.listed k less_k in
        let less : u < g.nv = omega (arith, marked-lt st.bfs_tree u m, good.tree_size) in
        let at : get_elem? st.vlist k ≡ some u =
          get_elem?-eq-get_or st.vlist k 0 (omega (arith, good.list_size, good.room)) in
        let (now, reached) =
          follow_lem u (adj u) (2 * length g.edges) (c.first u) st (c.short u less) (c.lists u less)
            (λ w n. n) less good m in
        rw (onward, at, c.heads u less, now.returned)
          (search_lem f (k + 1) now.after now.good (omega (arith, now.extends.more))
            (Closed-suc adj k st now.after now.extends less_k closed reached) (omega arith))
  ]

pub search_tree-Searched :
    {g : Lists} {adj : ℕ → List ℕ} {src : ℕ}
    → IsLists g adj
    → src < g.nv
    → Searched g.nv adj src (search_tree g src)
unfolding search_tree go_on
search_tree-Searched {g} {adj} {src} c inside =
    let none_closed : Closed adj 0 (first_search g.nv adj src inside) =
      λ i w h n. absurd (omega arith) in
    rw (start_lem g.nv adj src inside) (
      search_lem g adj src c (suc g.nv) 0 (first_search g.nv adj src inside)
        (first-Good g.nv adj src inside) (omega arith) none_closed (omega arith))
