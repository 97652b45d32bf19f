-- ===== src/Graph500/Verify/Assign.antt =====
-- The second loop of `compute_levels` in trident-workloads/graph500/verify.c: the levels that it gives
-- to the vertices on the way up.
use trident_micro21_artifact.Btree.Array.Slots.{write-set}
use mathlib.Core.Path.{subst}
use trident_micro21_artifact.Graph500.Csr.{Vertex}
use mathlib.Core.Option.{none-ne-some, some-injective}
use trident_micro21_artifact.Graph500.Verify.{level_at, Level, assign}
use trident_micro21_artifact.Graph500.Csr.Entries.{get_elem?-set_ne, get_elem?-set_self}
use trident_micro21_artifact.Base.{
  ℕ, zero, suc, ◌<◌, ◌≡◌, refl, sym, ap, ◌∙◌, ◌≢◌, ◌⊎◌, inl, inr, Option, none, some, List, [], ◌∷◌,
  arith, length, get_elem?, set, length-set, eq-cases, Option-cases,
}

abbrev pub Has : List Level → ℕ → ℕ → Type 0
Has level v l = get_elem? level v ≡ some (some l)

-- A vertex is one level below its parent in the tree.
abbrev pub StepDown : List Vertex → List Level → ℕ → ℕ → Type 0
StepDown tree level k l =
    (p : ℕ) × (b : ℕ) × (get_elem? tree k ≡ some (some p)) × Has level p b × (l ≡ suc b)

pub record Assigned (tree : List Vertex) (before : List Level) (v h : ℕ) (after : List Level)
    : Type 0 where
  pub kept : (k l : ℕ) → Has before k l → Has after k l
  pub own : Has after v h
  pub added : (k l : ℕ) → Has after k l → Has before k l ⊎ StepDown tree after k l
  pub size : length after ≡ length before

-- The state after the loop, where the assertion behind it holds.
abbrev pub AssignedIf : List Vertex → List Level → ℕ → ℕ → Option (List Level × (ℕ × ℕ)) → Type 0
AssignedIf tree before v h none = Unit {0}
AssignedIf tree before v h (some (after, (left, last))) =
    level_at after last ≡ some left → Assigned tree before v h after

pub get_elem?-lt : (xs : List Level) (i : ℕ) (l : Level) → get_elem? xs i ≡ some l → i < length xs
get_elem?-lt [] i l e = absurd (none-ne-some l e)
get_elem?-lt (x ∷ xs) zero l e = omega arith
get_elem?-lt (x ∷ xs) (suc i) l e = omega (arith, get_elem?-lt xs i l e)

pub level_unique : (level : List Level) (v l b : ℕ) → Has level v l → Has level v b → l ≡ b
level_unique level v l b e f = some-injective l b (some-injective (some l) (some b) (sym e ∙ f))

pub level_at-Has : (level : List Level) (v l : ℕ) → level_at level v ≡ some l → Has level v l
unfolding level_at
level_at-Has level v l q = elim (Option-cases (get_elem? level v)) [
  | inl e ↦ absurd (none-ne-some l (rw e at q))
  | inr (o, e) ↦ e ∙ ap (λ a. some a) (rw e at q)
]

pub level_unset :
    (level : List Level) (k v l : ℕ) → get_elem? level v ≡ some none → Has level k l → k ≢ v
level_unset level k v l e f s =
    none-ne-some l (some-injective none (some l) (sym e ∙ ap (get_elem? level) (sym s) ∙ f))

-- A level is kept: nothing is added.
kept-Assigned :
    (tree : List Vertex) (level : List Level) (v h : ℕ)
    → Has level v h
    → Assigned tree level v h level
kept-Assigned tree level v h e = record {
  kept = λ k l m. m;
  own = e;
  added = λ k l m. inl m;
  size = refl;
}

module _ (tree : List Vertex) (level : List Level) (v p h : ℕ)
    (unset : get_elem? level v ≡ some none) (parent : get_elem? tree v ≡ some (some p)) where
  abbrev written : List Level
  written = set level v (some (suc h))

  written-self : Has written v (suc h)
  written-self = get_elem?-set_self level v (some (suc h)) (get_elem?-lt level v none unset)

  add_level :
      (after : List Level) → Assigned tree written p h after → Assigned tree level v (suc h) after
  add_level after a = record {
    kept = λ k l m. a.kept k l (
        get_elem?-set_ne level v k (some (suc h)) (λ e. level_unset level k v l unset m (sym e))
        ∙ m);
    own = a.kept v (suc h) written-self;
    added = λ k l m. elim (a.added k l m) [
      | inr b ↦ inr b
      | inl old ↦ elim (eq-cases k v) [
        | inl e ↦ inr (
          p,
          h,
          ap (get_elem? tree) e ∙ parent,
          a.own,
          level_unique written v l (suc h) (subst (λ n. Has written n l) e old) written-self,
        )
        | inr ne ↦ inl (sym (get_elem?-set_ne level v k (some (suc h)) (λ e. ne (sym e))) ∙ old)
      ]
    ];
    size = a.size ∙ length-set level v (some (suc h));
  }

  add_level_if :
      (o : Option (List Level × (ℕ × ℕ)))
      → AssignedIf tree written p h o
      → AssignedIf tree level v (suc h) o
  add_level_if none a = tt
  add_level_if (some (after, (left, last))) a = λ q. add_level after (a q)

pub assign-AssignedIf :
    (tree : List Vertex) (h v : ℕ) (level : List Level)
    → AssignedIf tree level v h (assign tree h (some v) level)
unfolding assign
assign-AssignedIf tree zero v level = elim (Option-cases (get_elem? level v)) [
  | inl e ↦ rw e tt
  | inr (none, e) ↦ rw e tt
  | inr (some l, e) ↦ rw e (λ q. kept-Assigned tree level v 0 (level_at-Has level v _ q))
]
assign-AssignedIf tree (suc h) v level = elim (Option-cases (get_elem? level v)) [
  | inl e ↦ rw e tt
  | inr (none, e) ↦
      rw (e, write-set level v (some (suc h)) (get_elem?-lt level v none e))
        (elim (Option-cases (get_elem? tree v)) [
          | inl f ↦ rw f tt
          | inr (none, f) ↦ rw f tt
          | inr (some p, f) ↦ rw f (
              add_level_if tree level v p h e f _
                (assign-AssignedIf tree h p (set level v (some (suc h)))))
        ])
  | inr (some l, e) ↦ rw e (λ q. kept-Assigned tree level v (suc h) (level_at-Has level v _ q))
]
