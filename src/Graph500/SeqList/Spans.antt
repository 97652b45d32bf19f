-- ===== src/Graph500/SeqList/Spans.antt =====
-- `create_graph_from_edgelist` and `make_bfs_tree` of trident-workloads/graph500/seq-list/seq-list.c, one
-- after the other, against the list of edges.
use trident_micro21_artifact.Graph500.Csr.Links.{neighbours-Linked, Linked}
use trident_micro21_artifact.Btree.Array.Loops.{read_at}
use trident_micro21_artifact.Graph500.Csr.Build.{Linked-inside}
use trident_micro21_artifact.Graph500.Csr.{Edge, find_nv}
use trident_micro21_artifact.Graph500.SeqList.Build.{Held, push_edge-Pushed}
use trident_micro21_artifact.Graph500.Csr.Degrees.{AllInside, find_nv-AllInside}
use trident_micro21_artifact.Graph500.SeqList.{
  create_lists, Lists, push_edges, max_degree, search_tree,
}
use mathlib.Core.Path.{subst}
use trident_micro21_artifact.Graph500.SeqList.Walk.{search_tree-Searched, IsLists}
use trident_micro21_artifact.Graph500.Bfs.Edges.{Spans, Searched-Spans}
use trident_micro21_artifact.Graph500.Csr.Scatter.{from_edge, from_pair, neighbours}
use mathlib.Core.List.{Memᴰ, append_assoc}
use mathlib.Core.List.Memᴰ
use trident_micro21_artifact.Base.{
  ℕ, ◌+◌, ◌*◌, ◌≤◌, ◌<◌, ◌≡◌, refl, sym, ap, ◌∙◌, ◌↔◌, ◌⊎◌, inl, inr, Option, none, some, List, [],
  ◌∷◌, ◌++◌, arith, length, get_elem?, get_or, replicate, length-append, length-replicate,
  get_elem?-eq-get_or, eq-cases, ==-refl, ==-ne, get_or-replicate,
}

length-from_edge : (v : ℕ) (e : Edge) → length (from_edge v e) ≤ 1
unfolding from_edge from_pair
length-from_edge v (none, j) = omega arith
length-from_edge v (some i, none) = omega arith
length-from_edge v (some i, some j) = elim (eq-cases i j) [
  | inl e ↦ rw (e, ==-refl j) (omega arith)
  | inr ne ↦ rw (==-ne i j ne) (elim (eq-cases v i) [
    | inl e ↦ rw (e, ==-refl i) (omega arith)
    | inr a ↦ rw (==-ne v i a) (elim (eq-cases v j) [
      | inl e ↦ rw (e, ==-refl j) (omega arith)
      | inr b ↦ rw (==-ne v j b) (omega arith)
    ])
  ])
]

module _ (all : List Edge) (nv : ℕ) where
  record AllPushed (adj : ℕ → List ℕ) (es : List Edge) (r : Option Lists) : Type 0 where
    after : Lists
    returned : r ≡ some after
    rows : ℕ → List ℕ
    held : Held all nv (2 * length all) rows after
    members : (v w : ℕ) → Memᴰ w (rows v) ↔ (Memᴰ w (neighbours v es) ⊎ Memᴰ w (adj v))
    short : (v : ℕ) → length (rows v) ≤ 2 * length all

  push_edges-AllPushed :
      (es front : List Edge) (k : ℕ) (adj : ℕ → List ℕ) (g : Lists)
      → k ≡ length front
      → all ≡ front ++ es
      → Held all nv (2 * k) adj g
      → AllInside nv es
      → ((v : ℕ) → length (adj v) ≤ 2 * k)
      → AllPushed adj es (push_edges es k g)
  unfolding push_edges neighbours
  push_edges-AllPushed [] front k adj g e parts held inside short =
      let total : length all ≡ k =
        ap (λ xs. length xs) parts ∙ omega (arith, length-append front []) in
      record {
        after = g;
        returned = refl;
        rows = adj;
        held = subst (λ n. Held all nv (2 * n) adj g) (sym total) held;
        members = λ v w. (λ m. inr m, λ m. elim m [ inl n ↦ absurd (Memᴰ.not-nil n) | inr n ↦ n ]);
        short = λ v. omega (arith, short v, total);
      }
  push_edges-AllPushed (d ∷ es) front k adj g e parts held (in_i, in_j, inside) short =
      let total = ap (λ xs. length xs) parts in
      let less : k < length all = omega (arith, total, length-append front (d ∷ es)) in
      let at : get_elem? all k ≡ some d =
        ap (λ xs. get_elem? xs k) parts ∙ read_at front d es k e in
      let (one, e_one, s_one) = push_edge-Pushed all nv k d adj g held less at in_i in_j in
      let rest =
        push_edges-AllPushed es (front ++ (d ∷ [])) (k + 1) (λ v. from_edge v d ++ adj v) one
          (omega (arith, length-append front (d ∷ [])))
          (parts ∙ sym (append_assoc front (d ∷ []) es)) s_one inside
          (λ v.
            omega (arith, length-append (from_edge v d) (adj v), length-from_edge v d, short v)) in
      record {
        after = rest.after;
        returned = rw e_one rest.returned;
        rows = rest.rows;
        held = rest.held;
        members = λ v w. (
          λ m. elim ((rest.members v w).0 m) [
            | inl n ↦ inl (Memᴰ.append_right (from_edge v d) n)
            | inr n ↦ elim (Memᴰ.append_cases (from_edge v d) n) [
              | inl a ↦ inl (Memᴰ.append_left (neighbours v es) a)
              | inr a ↦ inr a
            ]
          ],
          λ m. elim m [
            | inr n ↦ (rest.members v w).1 (inr (Memᴰ.append_right (from_edge v d) n))
            | inl n ↦ elim (Memᴰ.append_cases (from_edge v d) n) [
              | inl a ↦ (rest.members v w).1 (inr (Memᴰ.append_left (adj v) a))
              | inr a ↦ (rest.members v w).1 (inl a)
            ]
          ],
        );
        short = rest.short;
      }

  Pushed-IsLists :
      {adj : ℕ → List ℕ} (g : Lists) (maxdeg : ℕ)
      → Held all nv (2 * length all) adj g
      → ((v : ℕ) → length (adj v) ≤ 2 * length all)
      → ((v w : ℕ) → v < nv → Memᴰ w (adj v) → w < nv)
      → IsLists (record g { maxdeg = maxdeg }) adj
  Pushed-IsLists {adj} g maxdeg s short within = record {
    bound = 2 * length all;
    first = λ v. get_or g.head v none;
    heads = λ v h. get_elem?-eq-get_or g.head v none (omega (arith, s.head_size, s.nv_kept));
    lists = λ v h. rw s.edges_kept (s.lists v (omega (arith, s.nv_kept)));
    short = λ v h. rw s.edges_kept (short v);
    within = λ v w h m. rw s.nv_kept (within v w (omega (arith, s.nv_kept)) m);
  }

blank-Pushed :
    (edges : List Edge) (nv : ℕ)
    → Held edges nv 0
        (λ v. [])
        record {
          edges = edges;
          nv = nv;
          head = replicate nv none;
          deg = replicate nv 0;
          next = replicate (2 * length edges) (some 0);
          maxdeg = 0;
        }
blank-Pushed edges nv = record {
  edges_kept = refl;
  nv_kept = refl;
  head_size = length-replicate {A = Option ℕ} nv none;
  deg_size = length-replicate {A = ℕ} nv 0;
  next_size = length-replicate {A = Option ℕ} (2 * length edges) (some 0);
  lists = λ v h. get_or-replicate {A = Option ℕ} nv v none;
}

-- Whatever the edges, from a vertex of the graph: the lists are built and searched without an
-- access out of range or a failed assertion, and within the fuel. Then exactly the vertices that
-- edges connect to the source have a parent; the source is its own, and that of any other vertex
-- is connected to the source and has an edge to the vertex.
pub create_lists-search_tree :
    (edges : List Edge) (src : ℕ)
    → src < find_nv edges 0
    → (g : Lists) × (create_lists edges ≡ some g) × Spans edges src (search_tree g src)
unfolding create_lists
create_lists-search_tree edges src h =
    let nv = find_nv edges 0 in
    let all_inside = find_nv-AllInside edges 0 in
    let pushed =
      push_edges-AllPushed edges nv edges [] 0 (λ v. [])
        record {
          edges = edges;
          nv = nv;
          head = replicate nv none;
          deg = replicate nv 0;
          next = replicate (2 * length edges) (some 0);
          maxdeg = 0;
        }
        refl refl (blank-Pushed edges nv) all_inside (λ v. omega arith) in
    let g = record pushed.after { maxdeg = max_degree pushed.after.deg 0 } in
    let linked : (v w : ℕ) → v < g.nv → Memᴰ w (pushed.rows v) ↔ Linked edges v w = λ v w less. (
      λ m. elim ((pushed.members v w).0 m) [
        | inl n ↦ (neighbours-Linked v edges w).0 n
        | inr n ↦ absurd (Memᴰ.not-nil n)
      ],
      λ l. (pushed.members v w).1 (inl ((neighbours-Linked v edges w).1 l)),
    ) in
    let within : (v w : ℕ) → v < nv → Memᴰ w (pushed.rows v) → w < nv = λ v w less m.
      Linked-inside nv edges v w all_inside
        ((linked v w (omega (arith, pushed.held.nv_kept))).0 m) in
    let is_lists =
      Pushed-IsLists edges nv pushed.after (max_degree pushed.after.deg 0) pushed.held pushed.short
        within in
    let inside : src < g.nv = rw pushed.held.nv_kept h in
    (
      g,
      rw pushed.returned refl,
      Searched-Spans edges g.nv pushed.rows src inside is_lists.within linked
          (search_tree-Searched is_lists inside),
    )
