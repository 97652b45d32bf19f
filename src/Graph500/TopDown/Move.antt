-- ===== src/Graph500/TopDown/Move.antt =====
-- One move of a thread in the top-down step of trident-workloads/graph500/omp-csr/omp-csr.c.
use mathlib.Core.Path.{subst}
use mathlib.Core.Option.{some-injective}
use trident_micro21_artifact.Btree.Array.{read, write}
use trident_micro21_artifact.Graph500.Csr.{Vertex, same_vertex}
use trident_micro21_artifact.Graph500.TopDown.{
  thread_buf_len, Place, scan, attempt, keep, Thread, Shared, int64_cas, flush, test, claim,
  put_local, scan_on, move_at, move,
}
use trident_micro21_artifact.Graph500.TopDown.Count.{
  count, count-append, claimed, claims, claimed-set, claims-set, copy_local-Copied,
}
use trident_micro21_artifact.Base.{
  ℕ, ◌+◌, ◌*◌, ◌≤◌, ◌<◌, ◌≡◌, refl, sym, ap, ◌∙◌, ◌⊎◌, inl, inr, Option, none, some, List, [], ◌∷◌,
  ◌++◌, arith, ltb, ◌==◌, if◌then◌else◌, lt→ltb, le→leb, Bool-cases, length, get_or, set, take,
  length-set, length-append, get_elem?-eq-get_or, get_or-set_self, get_or-set_ne, eq-cases,
  List-cases,
}

-- How many vertices a thread has claimed and not yet put into the queue, and how often one of them.
abbrev pub in_hand : Place → ℕ
in_hand scan = 0
in_hand (attempt v j) = 0
in_hand (keep j) = 1

abbrev pub holds : Place → ℕ → ℕ
holds scan i = 0
holds (attempt v j) i = 0
holds (keep j) i = if j == i then 1 else 0

abbrev pub size : Thread → ℕ
size t = length t.local + in_hand t.place

abbrev pub held : ℕ → Thread → ℕ
held i t = count i t.local + holds t.place i

-- How often a thread is still going to try for a vertex.
abbrev pub tries : ℕ → List (ℕ × ℕ) → ℕ
tries i [] = 0
tries i ((v, j) ∷ todo) = (if j == i then 1 else 0) + tries i todo

abbrev pub tried : Place → ℕ → ℕ
tried scan i = 0
tried (attempt v j) i = if j == i then 1 else 0
tried (keep j) i = 0

abbrev pub waits : ℕ → Thread → ℕ
waits i t = tries i t.todo + tried t.place i

-- A bound on the moves that a thread has left.
abbrev pub at_place : Place → ℕ
at_place scan = 0
at_place (attempt v j) = 3
at_place (keep j) = 2

abbrev pub filled : List ℕ → ℕ
filled [] = 0
filled (j ∷ local) = 1

abbrev pub work : Thread → ℕ
work t = 4 * length t.todo + at_place t.place + filled t.local

Vertex-cases : (p : Vertex) → (p ≡ none) ⊎ ((v : ℕ) × (p ≡ some v))
Vertex-cases none = inl refl
Vertex-cases (some v) = inr (v, refl)

filled-le : (local : List ℕ) → filled local ≤ 1
filled-le [] = omega arith
filled-le (j ∷ local) = omega arith

module _ (nv : ℕ) (Link : ℕ → ℕ → Type 0) where
  -- The tests of a thread are along links between vertices.
  abbrev pub Links : List (ℕ × ℕ) → Type 0
  Links [] = Unit
  Links ((v, j) ∷ todo) = (j < nv) × Link v j × Links todo

  abbrev pub LinkAt : Place → Type 0
  LinkAt scan = Unit
  LinkAt (attempt v j) = (j < nv) × Link v j
  LinkAt (keep j) = Unit

  pub record IsThread (t : Thread) : Type 0 where
    pub buffer : length t.local ≤ thread_buf_len
    pub links : Links t.todo
    pub link_at : LinkAt t.place

  pub record IsShared (m : Shared) : Type 0 where
    pub tree_size : length m.bfs_tree ≡ nv
    pub list_size : length m.vlist ≡ nv

  -- What a move does to the memory and to its thread.
  pub record Moved (m : Shared) (t : Thread) (r : Option (Shared × Thread)) : Type 0 where
    pub memory : Shared
    pub thread : Thread
    pub returned : r ≡ some (memory, thread)
    pub shared : IsShared memory
    pub well_formed : IsThread thread
    pub sizes : memory.k2 + size thread + claims m.bfs_tree ≡ m.k2 + size t + claims memory.bfs_tree
    pub places :
        (i : ℕ)
        → count i (take memory.k2 memory.vlist) + held i thread + claimed m.bfs_tree i
          ≡ count i (take m.k2 m.vlist) + held i t + claimed memory.bfs_tree i
    pub grows : (i : ℕ) → claimed m.bfs_tree i ≤ claimed memory.bfs_tree i
    pub waiting : (i : ℕ) → (waits i t ≤ waits i thread) ⊎ (1 ≤ claimed memory.bfs_tree i)
    pub parents :
        (v j : ℕ)
        → get_or memory.bfs_tree j none ≡ some v
        → (get_or m.bfs_tree j none ≡ some v) ⊎ Link v j
    pub progress : (work thread < work t) ⊎ ((work t ≡ 0) × (work thread ≡ 0))

  module _ (m : Shared) (sh : IsShared m) where
    test-Moved :
        (v j : ℕ) (rest : List (ℕ × ℕ)) (local : List ℕ)
        → IsThread (record { todo = (v, j) ∷ rest; local = local; place = scan })
        → Moved m
            (record { todo = (v, j) ∷ rest; local = local; place = scan })
            (test v j rest m (record { todo = (v, j) ∷ rest; local = local; place = scan }))
    unfolding test same_vertex
    test-Moved v j rest local ok =
        let (low, link, links) = ok.links in
        let found : read m.bfs_tree j ≡ some (get_or m.bfs_tree j none) =
          get_elem?-eq-get_or m.bfs_tree j none (omega (arith, sh.tree_size)) in
        elim (Vertex-cases (get_or m.bfs_tree j none)) [
          | inl unset ↦ record {
            memory = m;
            thread = record { todo = rest; local = local; place = attempt v j };
            returned = rw (found, unset) refl;
            shared = sh;
            well_formed = record { buffer = ok.buffer; links = links; link_at = (low, link) };
            sizes = refl;
            places = λ i. refl;
            grows = λ i. omega arith;
            waiting = λ i. inl (omega arith);
            parents = λ w i e. inl e;
            progress = inl (omega arith);
          }
          | inr (u, e) ↦ record {
            memory = m;
            thread = record { todo = rest; local = local; place = scan };
            returned = rw (found, e) refl;
            shared = sh;
            well_formed = record { buffer = ok.buffer; links = links; link_at = tt };
            sizes = refl;
            places = λ i. refl;
            grows = λ i. omega arith;
            waiting = λ i. elim (eq-cases j i) [
              | inl same ↦ inr (rw (← same) (rw e (omega arith)))
              | inr other ↦ inl (ground arith)
            ];
            parents = λ w i f. inl f;
            progress = inl (omega arith);
          }
        ]

    claim-Moved :
        (v j : ℕ) (todo : List (ℕ × ℕ)) (local : List ℕ)
        → IsThread (record { todo = todo; local = local; place = attempt v j })
        → Moved m
            (record { todo = todo; local = local; place = attempt v j })
            (claim v j m (record { todo = todo; local = local; place = attempt v j }))
    unfolding claim int64_cas same_vertex write
    claim-Moved v j todo local ok =
        let (low, link) = ok.link_at in
        let fits : j < length m.bfs_tree = omega (arith, sh.tree_size) in
        let found : read m.bfs_tree j ≡ some (get_or m.bfs_tree j none) =
          get_elem?-eq-get_or m.bfs_tree j none fits in
        elim (Vertex-cases (get_or m.bfs_tree j none)) [
          | inl unset ↦
              let free : read m.bfs_tree j ≡ some none = found ∙ ap some unset in
              let tree = set m.bfs_tree j (some v) in
              record {
                memory = record m { bfs_tree = tree };
                thread = record { todo = todo; local = local; place = keep j };
                returned = rw (found, unset, lt→ltb j (length m.bfs_tree) fits) refl;
                shared = record {
                  tree_size = length-set m.bfs_tree j (some v) ∙ sh.tree_size;
                  list_size = sh.list_size;
                };
                well_formed = record { buffer = ok.buffer; links = ok.links; link_at = tt };
                sizes = omega (arith, claims-set m.bfs_tree j v free);
                places = λ i. omega (arith, claimed-set m.bfs_tree j v i free);
                grows = λ i. omega (arith, claimed-set m.bfs_tree j v i free);
                waiting = λ i. elim (eq-cases j i) [
                  | inl same ↦ inr (ground (arith, claimed-set m.bfs_tree j v i free))
                  | inr other ↦ inl (ground arith)
                ];
                parents = λ w i e. elim (eq-cases j i) [
                  | inl same ↦
                      let put : get_or tree j none ≡ some v =
                        get_or-set_self m.bfs_tree j (some v) none fits in
                      let agree : v ≡ w =
                        some-injective v w (sym put ∙ ap (λ k. get_or tree k none) same ∙ e) in
                      inr (subst (λ k. Link k i) agree (subst (Link v) same link))
                  | inr other ↦ inl (sym (get_or-set_ne m.bfs_tree j i (some v) none other) ∙ e)
                ];
                progress = inl (omega arith);
              }
          | inr (u, e) ↦ record {
            memory = m;
            thread = record { todo = todo; local = local; place = scan };
            returned = rw (found, e) refl;
            shared = sh;
            well_formed = record { buffer = ok.buffer; links = ok.links; link_at = tt };
            sizes = refl;
            places = λ i. refl;
            grows = λ i. omega arith;
            waiting = λ i. elim (eq-cases j i) [
              | inl same ↦ inr (rw (← same) (rw e (omega arith)))
              | inr other ↦ inl (ground arith)
            ];
            parents = λ w i f. inl f;
            progress = inl (omega arith);
          }
        ]

    record Flushed (local : List ℕ) : Type 0 where
      after : List ℕ
      returned : flush nv local m ≡ some (record m { vlist = after; k2 = m.k2 + length local })
      after_size : length after ≡ nv
      counted :
          (i : ℕ)
          → count i (take (m.k2 + length local) after) ≡ count i (take m.k2 m.vlist) + count i local

    flush-Flushed : (local : List ℕ) → m.k2 + length local ≤ nv → Flushed local
    unfolding flush
    flush-Flushed local room =
        let c = copy_local-Copied local m.k2 m.vlist (omega (arith, sh.list_size)) in
        record {
          after = c.after;
          returned = rw (le→leb (m.k2 + length local) nv room, c.returned) refl;
          after_size = c.size ∙ sh.list_size;
          counted = λ i. ap (count i) c.front ∙ count-append i (take m.k2 m.vlist) local;
        }

    put_local-Moved :
        (j : ℕ) (todo : List (ℕ × ℕ)) (local : List ℕ)
        → IsThread (record { todo = todo; local = local; place = keep j })
        → m.k2 + length local + 1 ≤ nv
        → Moved m
            (record { todo = todo; local = local; place = keep j })
            (put_local nv j m (record { todo = todo; local = local; place = keep j }))
    unfolding put_local
    put_local-Moved j todo local ok room = elim (Bool-cases (ltb (length local) thread_buf_len)) [
      | inl free ↦ record {
        memory = m;
        thread = record { todo = todo; local = local ++ j ∷ []; place = scan };
        returned = rw free refl;
        shared = sh;
        well_formed = record {
          buffer = ground (arith, length-append local (j ∷ []));
          links = ok.links;
          link_at = tt;
        };
        sizes = omega (arith, length-append {0} local (j ∷ []));
        places = λ i. omega (arith, count-append i local (j ∷ []));
        grows = λ i. omega arith;
        waiting = λ i. inl (omega arith);
        parents = λ w i f. inl f;
        progress = inl (omega (arith, filled-le (local ++ j ∷ [])));
      }
      | inr full ↦
          let f = flush-Flushed local (omega arith) in
          record {
            memory = record m { vlist = f.after; k2 = m.k2 + length local };
            thread = record { todo = todo; local = j ∷ []; place = scan };
            returned = rw (full, f.returned) refl;
            shared = record { tree_size = sh.tree_size; list_size = f.after_size };
            well_formed = record { buffer = omega arith; links = ok.links; link_at = tt };
            sizes = omega arith;
            places = λ i. omega (arith, f.counted i);
            grows = λ i. omega arith;
            waiting = λ i. inl (omega arith);
            parents = λ w i e. inl e;
            progress = inl (omega arith);
          }
    ]

    finish-Moved :
        (local : List ℕ)
        → IsThread (record { todo = []; local = local; place = scan })
        → m.k2 + length local ≤ nv
        → Moved m
            (record { todo = []; local = local; place = scan })
            (scan_on nv [] m (record { todo = []; local = local; place = scan }))
    unfolding scan_on
    finish-Moved local ok room =
        let f = flush-Flushed local room in
        record {
          memory = record m { vlist = f.after; k2 = m.k2 + length local };
          thread = record { todo = []; local = []; place = scan };
          returned = rw f.returned refl;
          shared = record { tree_size = sh.tree_size; list_size = f.after_size };
          well_formed = record { buffer = omega arith; links = tt; link_at = tt };
          sizes = omega arith;
          places = λ i. omega (arith, f.counted i);
          grows = λ i. omega arith;
          waiting = λ i. inl (omega arith);
          parents = λ w i e. inl e;
          progress = elim (List-cases local) [
            | inl empty ↦ inr (rw empty refl, refl)
            | inr (j, rest, some_left) ↦ inl (rw some_left (omega arith))
          ];
        }

    at_Place :
        (todo : List (ℕ × ℕ)) (local : List ℕ) (place : Place)
        → IsThread (record { todo = todo; local = local; place = place })
        → m.k2 + size (record { todo = todo; local = local; place = place }) ≤ nv
        → Moved m
            (record { todo = todo; local = local; place = place })
            (move_at nv place m (record { todo = todo; local = local; place = place }))
    unfolding move_at scan_on
    at_Place [] local scan ok room = finish-Moved local ok (omega arith)
    at_Place ((v, j) ∷ rest) local scan ok room = test-Moved v j rest local ok
    at_Place todo local (attempt v j) ok room = claim-Moved v j todo local ok
    at_Place todo local (keep j) ok room = put_local-Moved j todo local ok (omega arith)

    -- Every move of a thread with room in the queue for what it holds.
    pub move-Moved : (t : Thread) → IsThread t → m.k2 + size t ≤ nv → Moved m t (move nv m t)
    unfolding move
    move-Moved t ok room = at_Place t.todo t.local t.place ok room
