-- ===== src/Graph500/SeqList/Push.antt =====
-- The loop of `create_graph_from_edgelist` in trident-workloads/graph500/seq-list/seq-list.c.
use trident_micro21_artifact.Graph500.Csr.{Edge}
use mathlib.Core.Path.{subst}
use trident_micro21_artifact.Btree.Array.Slots.{write-set}
use trident_micro21_artifact.Graph500.SeqList.Walk.{ListAt}
use trident_micro21_artifact.Graph500.Csr.Entries.{get_elem?-set_ne, get_elem?-set_self}
use trident_micro21_artifact.Graph500.SeqList.{end_at, is_link, Lists, push_end}
use trident_micro21_artifact.Graph500.Verify.Assign.{get_elem?-lt}
use trident_micro21_artifact.Graph500.Csr.PackRow.{with_row_other, with_row_self, with_row}
use trident_micro21_artifact.Base.{
  ℕ, ◌+◌, ◌*◌, ◌<◌, ◌≡◌, refl, sym, ◌∙◌, inl, inr, true, lt→ltb, Option, none, some, List, [], ◌∷◌,
  arith, length, get_or, set, length-set, get_or-set_self, get_or-set_ne, get_elem?-eq-get_or,
  eq-cases,
}

-- A write to a link that is not used.
pub ListAt-set :
    (edges : List Edge) (links : List (Option ℕ)) (used : ℕ → Type 0) (t : ℕ) (q : Option ℕ)
    → (used t → ⊥)
    → (ws : List ℕ) (p : Option ℕ) → ListAt edges links used p ws
    → ListAt edges (set links t q) used p ws
ListAt-set edges links used t q free [] p e = e
ListAt-set edges links used t q free (w ∷ ws) p (s, r, e, u, at, n, rest) = (
  s,
  r,
  e,
  u,
  at,
  get_elem?-set_ne links t s q (λ x. free (subst used (sym x) u)) ∙ n,
  ListAt-set edges links used t q free ws r rest,
)

pub ListAt-map :
    (edges : List Edge) (links : List (Option ℕ)) (used wider : ℕ → Type 0)
    → ((t : ℕ) → used t → wider t)
    → (ws : List ℕ) (p : Option ℕ) → ListAt edges links used p ws
    → ListAt edges links wider p ws
ListAt-map edges links used wider f [] p e = e
ListAt-map edges links used wider f (w ∷ ws) p (s, r, e, u, at, n, rest) =
    (s, r, e, f s u, at, n, ListAt-map edges links used wider f ws r rest)

-- The assertion on the old head of a list.
head-is_link :
    (edges : List Edge) (links : List (Option ℕ)) (used : ℕ → Type 0) (ends : ℕ) (ws : List ℕ)
    (p : Option ℕ)
    → length links ≡ ends
    → ListAt edges links used p ws
    → is_link ends p ≡ true
unfolding is_link
head-is_link edges links used ends [] p n e = rw e refl
head-is_link edges links used ends (w ∷ ws) p n (s, q, e, u, at, m, rest) =
    rw e (lt→ltb s ends (omega (arith, get_elem?-lt links s q m)))

module _ (all : List Edge) (nv : ℕ) where
  pub record Pushed (used : ℕ → Type 0) (adj : ℕ → List ℕ) (g : Lists) : Type 0 where
    pub edges_kept : g.edges ≡ all
    pub nv_kept : g.nv ≡ nv
    pub head_size : length g.head ≡ nv
    pub deg_size : length g.deg ≡ nv
    pub next_size : length g.next ≡ 2 * length all
    pub lists : (v : ℕ) → v < nv → ListAt all g.next used (get_or g.head v none) (adj v)

  pub push_end-Pushed :
      (used wider : ℕ → Type 0) (adj : ℕ → List ℕ) (i t w : ℕ) (g : Lists)
      → Pushed used adj g
      → i < nv
      → t < 2 * length all
      → (used t → ⊥)
      → ((s : ℕ) → used s → wider s)
      → wider t
      → end_at all t ≡ some (some w)
      → (after : Lists) × (push_end i t g ≡ some after)
        × Pushed wider (with_row adj i (w ∷ adj i)) after
  unfolding push_end
  push_end-Pushed used wider adj i t w g s h inside free f now at =
      let links = set g.next t (get_or g.head i none) in
      let kept : (v : ℕ) → v < nv → ListAt all links wider (get_or g.head v none) (adj v) =
        λ v less. ListAt-map all links used wider f (adj v) (get_or g.head v none) (
          ListAt-set all g.next used t (get_or g.head i none) free (adj v) (get_or g.head v none)
            (s.lists v less)) in
      (
        record g {
          head = set g.head i (some t);
          deg = set g.deg i (get_or g.deg i 0 + 1);
          next = links;
        },
        rw
            (
              get_elem?-eq-get_or g.head i none (omega (arith, s.head_size)),
              write-set g.head i (some t) (omega (arith, s.head_size)),
              s.edges_kept,
              head-is_link all g.next used (2 * length all) (adj i) (get_or g.head i none)
                  s.next_size (s.lists i h),
              write-set g.next t (get_or g.head i none) (omega (arith, s.next_size)),
              get_elem?-eq-get_or g.deg i 0 (omega (arith, s.deg_size)),
              write-set g.deg i (get_or g.deg i 0 + 1) (omega (arith, s.deg_size)),
            )
            refl,
        record {
          edges_kept = s.edges_kept;
          nv_kept = s.nv_kept;
          head_size = length-set g.head i (some t) ∙ s.head_size;
          deg_size = length-set g.deg i _ ∙ s.deg_size;
          next_size = length-set g.next t _ ∙ s.next_size;
          lists = λ v less. elim (eq-cases v i) [
            | inl e ↦
                rw
                  (
                    e,
                    with_row_self adj i (w ∷ adj i),
                    get_or-set_self g.head i (some t) none (omega (arith, s.head_size)),
                  )
                  (
                    t,
                    get_or g.head i none,
                    refl,
                    now,
                    at,
                    get_elem?-set_self g.next t (get_or g.head i none) (omega (arith, s.next_size)),
                    kept i h,
                  )
            | inr ne ↦
                rw
                  (
                    with_row_other adj i (w ∷ adj i) v ne,
                    get_or-set_ne g.head i v (some t) none (λ e. ne (sym e)),
                  )
                  (kept v less)
          ];
        },
      )
