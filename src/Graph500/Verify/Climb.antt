-- ===== src/Graph500/Verify/Climb.antt =====
-- The loops of `compute_levels` in trident-workloads/graph500/verify.c come to an end without a failure:
-- the way up that the first loop finds is the one that the second goes.
use trident_micro21_artifact.Btree.Array.Slots.{write-set}
use trident_micro21_artifact.Graph500.Csr.Entries.{get_elem?-set_ne}
use mathlib.Core.Path.{subst}
use trident_micro21_artifact.Graph500.Csr.{same_vertex, Vertex}
use trident_micro21_artifact.Graph500.Verify.{climb, Level, above_zero, assign, check_levels}
use mathlib.Core.Option.{none-ne-some, some-injective}
use trident_micro21_artifact.Graph500.Verify.Assign.{Has, level_unset, get_elem?-lt, StepDown}
use trident_micro21_artifact.Btree.Array.{◌>>=◌}
use trident_micro21_artifact.Base.{
  ℕ, zero, suc, ◌+◌, ◌≤◌, ◌<◌, ◌≡◌, refl, sym, ap, ap₂, ◌∙◌, ◌≢◌, ◌⊎◌, inl, inr, Bool, true, false,
  Option, none, some, List, [], ◌∷◌, arith, if◌then◌else◌, lt→ltb, length, get_elem?, set, ==-refl,
  ==-ne, Option-cases,
}

-- The command does not fail.
abbrev pub Ends {ℓ} : {A : Type ℓ} → Option A → Type ℓ
Ends {A = A} o = (a : A) × (o ≡ some a)

pub Ends-bind {ℓ κ} :
    {A : Type ℓ} {B : Type κ} (o : Option A) (f : A → Option B)
    → Ends o
    → ((a : A) → o ≡ some a → Ends (f a))
    → Ends (o >>= f)
Ends-bind none f (a, e) h = absurd (none-ne-some a e)
Ends-bind (some b) f e h = h b refl

pub Ends-if {ℓ} :
    {A : Type ℓ} (b : Bool) (x y : Option A)
    → (b ≡ true → Ends x)
    → (b ≡ false → Ends y)
    → Ends (if b then x else y)
Ends-if true x y f g = f refl
Ends-if false x y f g = g refl

pub Ends-read {ℓ} : {A : Type ℓ} (xs : List A) (i : ℕ) → i < length xs → Ends (get_elem? xs i)
Ends-read [] i h = absurd (omega arith)
Ends-read (x ∷ xs) zero h = (x, refl)
Ends-read (x ∷ xs) (suc i) h = Ends-read xs i (omega arith)

-- The parents are vertices, and no vertex but the root is its own.
pub record TreeShape (nv root : ℕ) (tree : List Vertex) : Type 0 where
  pub size : length tree ≡ nv
  pub inside : root < nv
  pub parents : (v p : ℕ) → get_elem? tree v ≡ some (some p) → (p < nv) × (v ≢ root → v ≢ p)

-- After `n` hops over vertices without a level, a vertex with one.
abbrev pub Up : List Vertex → List Level → (n v top l : ℕ) → Type 0
Up tree level zero v top l = (v ≡ top) × Has level v l
Up tree level (suc n) v top l =
    (get_elem? level v ≡ some none)
    × ((p : ℕ) × (get_elem? tree v ≡ some (some p)) × Up tree level n p top l)

module _ (nv root : ℕ) (tree : List Vertex) (shape : TreeShape nv root tree) where
  -- Where the first loop of `compute_levels` ends.
  abbrev Climbed : List Level → (rounds nhop v : ℕ) → Type 0
  Climbed level rounds nhop v =
      (top : Vertex) × (m : ℕ) × (climb tree level rounds nhop (some v) ≡ some (top, nhop + m))
      × ((t : ℕ) → top ≡ some t → (m ≡ rounds) ⊎ ((l : ℕ) × Up tree level m v t l))

  climb_step :
      (level : List Level) (c nhop v p : ℕ)
      → get_elem? level v ≡ some none
      → get_elem? tree v ≡ some (some p)
      → v ≢ p
      → Climbed level c (nhop + 1) p
      → Climbed level (suc c) nhop v
  unfolding climb same_vertex
  climb_step level c nhop v p unset up ne (top, m, e, found) = (
    top,
    suc m,
    rw (unset, up, ==-ne v p ne) (e ∙ ap (λ n. some (top, n)) (omega arith)),
    λ t s. elim (found t s) [
      | inl q ↦ inl (omega arith)
      | inr (l, u) ↦ inr (l, (unset, (p, up, u)))
    ],
  )

  pub climb-Climbed :
      (level : List Level) (rounds nhop v : ℕ)
      → length level ≡ nv
      → Has level root 0
      → v < nv
      → Climbed level rounds nhop v
  unfolding climb same_vertex
  climb-Climbed level zero nhop v size at_root less =
      let (l, e) = Ends-read level v (omega arith) in
      (some v, 0, rw e (ap (λ n. some (some v, n)) (omega arith)), λ t s. inl refl)
  climb-Climbed level (suc c) nhop v size at_root less =
      let (l, e) = Ends-read level v (omega arith) in
      elim (Option-cases l) [
        | inr (b, f) ↦ (
          some v,
          0,
          rw (e, f) (ap (λ n. some (some v, n)) (omega arith)),
          λ t s. inr (b, (some-injective v t s, e ∙ ap (λ o. some o) f)),
        )
        | inl f ↦
            let unset = e ∙ ap (λ o. some o) f in
            let (up, g) = Ends-read tree v (omega (arith, shape.size)) in
            elim (Option-cases up) [
              | inl h ↦ (none, 1, rw (e, f, g, h) refl, λ t s. absurd (none-ne-some t s))
              | inr (p, h) ↦
                  let to_p = g ∙ ap (λ o. some o) h in
                  let (in_p, ne) = shape.parents v p to_p in
                  climb_step level c nhop v p unset to_p
                    (ne (λ s. level_unset level root v 0 unset at_root (sym s)))
                    (climb-Climbed level c (nhop + 1) p size at_root in_p)
            ]
      ]

Up-unique :
    (tree : List Vertex) (level : List Level) (a b v t l s m : ℕ)
    → Up tree level a v t l
    → Up tree level b v s m
    → a ≡ b
Up-unique tree level zero zero v t l s m u w = refl
Up-unique tree level zero (suc b) v t l s m (e, has) (unset, w) =
    absurd (level_unset level v v l unset has refl)
Up-unique tree level (suc a) zero v t l s m (unset, u) (e, has) =
    absurd (level_unset level v v m unset has refl)
Up-unique tree level (suc a) (suc b) v t l s m (unset, (p, e, u)) (unset', (q, f, w)) =
    let same : p ≡ q = some-injective p q (some-injective (some p) (some q) (sym e ∙ f)) in
    ap suc (Up-unique tree level a b q t l s m (subst (λ x. Up tree level a x t l) same u) w)

-- A write to a vertex that the way up does not meet.
Up-set :
    (tree : List Vertex) (level : List Level) (n v q t l h : ℕ)
    → ((m : ℕ) → m ≤ n → Up tree level m v t l → Unit {0} → ⊥)
    → Up tree level n q t l
    → Up tree (set level v (some h)) n q t l
Up-set tree level zero v q t l h away (e, has) = (
  e,
  get_elem?-set_ne level v q (some h)
        (λ s. away 0 (omega arith) (s ∙ e, ap (get_elem? level) s ∙ has) tt)
      ∙ has,
)
Up-set tree level (suc n) v q t l h away (unset, (p, e, u)) = (
  get_elem?-set_ne level v q (some h) (λ s.
        away (suc n) (omega arith)
          (subst (λ x. Up tree level (suc n) x t l) (sym s) (unset, (p, e, u))) tt)
      ∙ unset,
  (p, e, Up-set tree level n v p t l h (λ m le w. away m (omega arith) w) u),
)

pub zero_plus : (n : ℕ) → 0 + n ≡ n
zero_plus n = omega arith

-- The second loop ends at the vertex where the first one did, with its level to spare.
pub assign-Ends :
    (tree : List Vertex) (n v t l h : ℕ) (level : List Level)
    → h ≡ n + l
    → Up tree level n v t l
    → (after : List Level) × (assign tree h (some v) level ≡ some (after, (l, t))) × Has after t l
unfolding assign
assign-Ends tree zero v t l zero level q (e, has) = (
  level,
  rw has (ap₂ (λ x y. some (level, (x, y))) (omega arith) e),
  ap (get_elem? level) (sym e) ∙ has,
)
assign-Ends tree zero v t l (suc h) level q (e, has) = (
  level,
  rw has (ap₂ (λ x y. some (level, (x, y))) (omega arith) e),
  ap (get_elem? level) (sym e) ∙ has,
)
assign-Ends tree (suc n) v t l zero level q u = absurd (omega arith)
assign-Ends tree (suc n) v t l (suc h) level q (unset, (p, e, u)) =
    let inside = get_elem?-lt level v none unset in
    let (after, f, has) = assign-Ends tree n p t l h (set level v (some (suc h))) (omega arith) (
      Up-set tree level n v p t l (suc h)
        (λ m le w x. omega (arith, Up-unique tree level m (suc n) v t l t l w (unset, (p, e, u))))
        u) in
    (after, rw (unset, write-set level v (some (suc h)) inside, e) f, has)

above_zero-suc : (b : ℕ) → above_zero (some (suc b)) ≡ true
unfolding above_zero
above_zero-suc b = lt→ltb 0 (suc b) (omega arith)

above_zero-zero : above_zero (some 0) ≡ false
unfolding above_zero
above_zero-zero = refl

-- The assertions of the last loop hold on levels that go down by one.
pub check_levels-Ends :
    (root : ℕ) (tree : List Vertex) (level : List Level)
    → ((k l : ℕ) → Has level k l → ((k ≡ root) × (l ≡ 0)) ⊎ StepDown tree level k l)
    → (b v : ℕ) → Has level v b
    → Ends (check_levels tree level (suc b) (some v))
unfolding check_levels same_vertex
check_levels-Ends root tree level steps zero v has = (tt, rw (has, above_zero-zero) refl)
check_levels-Ends root tree level steps (suc b) v has = elim (steps v (suc b) has) [
  | inl (e, f) ↦ absurd (omega arith)
  | inr (p, c, e, f, g) ↦
      let (x, h) =
        check_levels-Ends root tree level steps b p (subst (Has level p) (omega arith) f) in
      (x, rw (has, above_zero-suc b, ==-refl (suc b), e) h)
]

-- The vertex at the end of the way up has its level.
pub Up-top :
    (tree : List Vertex) (level : List Level) (n v t l : ℕ) → Up tree level n v t l → Has level t l
Up-top tree level zero v t l (e, has) = ap (get_elem? level) (sym e) ∙ has
Up-top tree level (suc n) v t l (unset, (p, e, u)) = Up-top tree level n p t l u
