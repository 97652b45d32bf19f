-- ===== src/Graph500/Verify/Levels.antt =====
-- `compute_levels` in trident-workloads/graph500/verify.c: what the levels are when it finds no error.
use mathlib.Core.Option.{none-ne-some, some-injective}
use trident_micro21_artifact.Graph500.Bfs.State.{is_set}
use trident_micro21_artifact.Btree.Array.{◌>>=◌}
use trident_micro21_artifact.Graph500.Csr.{Vertex}
use trident_micro21_artifact.Graph500.Verify.Assign.{
  assign-AssignedIf, StepDown, Has, AssignedIf, Assigned,
}
use mathlib.Core.Path.{subst}
use trident_micro21_artifact.Graph500.Verify.{
  level_at, assign, assign_levels, check_levels, Level, climb_error, climb, level_vertex,
  first_levels, level_vertices, compute_levels,
}
use trident_micro21_artifact.Base.{
  ℕ, zero, suc, ◌+◌, ◌<◌, ◌≡◌, refl, sym, ap, ◌∙◌, ◌⊎◌, inl, inr, Bool, true, false, not, ◌||◌,
  Option, none, some, List, arith, ◌==◌, if◌then◌else◌, ==_iff, get_elem?, eq-cases, ==-refl, ==-ne,
}

-- What holds where a command does not fail.
abbrev pub Holds {ℓ} : {A : Type ℓ} → (A → Type 0) → Option A → Type 0
Holds P none = Unit {0}
Holds P (some a) = P a

pub Holds-bind {ℓ κ} :
    {A : Type ℓ} {B : Type κ} (P : B → Type 0) (o : Option A) (f : A → Option B)
    → ((a : A) → o ≡ some a → Holds P (f a))
    → Holds P (o >>= f)
Holds-bind P none f h = tt
Holds-bind P (some a) f h = h a refl

pub Holds-map {ℓ} :
    {A : Type ℓ} {P Q : A → Type 0} → ((a : A) → P a → Q a) → (o : Option A) → Holds P o → Holds Q o
Holds-map f none h = tt
Holds-map f (some a) h = f a h

pub Holds-if {ℓ} :
    {A : Type ℓ} (P : A → Type 0) (b : Bool) (x y : Option A)
    → (b ≡ true → Holds P x)
    → (b ≡ false → Holds P y)
    → Holds P (if b then x else y)
Holds-if P true x y f g = f refl
Holds-if P false x y f g = g refl

pub record Leveled (nv root : ℕ) (tree : List Vertex) (upto : ℕ) (level : List Level) : Type 0 where
  pub root_level : Has level root 0
  pub steps : (k l : ℕ) → Has level k l → ((k ≡ root) × (l ≡ 0)) ⊎ StepDown tree level k l
  pub covered : (k p : ℕ) → k < upto → get_elem? tree k ≡ some (some p) → (l : ℕ) × Has level k l

pub is_set-some : (o : Option ℕ) → is_set o ≡ true → (x : ℕ) × (o ≡ some x)
is_set-some none h = cc
is_set-some (some x) h = (x, refl)

or-left : (a b : Bool) → (a || not b) ≡ true → b ≡ true → a ≡ true
or-left true b h e = refl
or-left false true h e = h
or-left false false h e = e

pub or-false : (a b : Bool) → (a || not b) ≡ false → b ≡ true
or-false true b h = cc
or-false false true h = refl
or-false false false h = sym h

tree-or :
    (parent : Vertex) (b : Bool) (p : ℕ)
    → (not (is_set parent) || b) ≡ true
    → parent ≡ some p
    → b ≡ true
tree-or none b p h e = absurd (none-ne-some p e)
tree-or (some q) b p h e = h

module _ (nv root : ℕ) (tree : List Vertex) where
  abbrev pub Assigns : List Level → ℕ → List Level → Type 0
  Assigns before k after = (h : ℕ) × Assigned tree before k h after

  assigned_lem :
      (k h : ℕ) (level after : List Level) (left last now : ℕ)
      → AssignedIf tree level k h (some (after, (left, last)))
      → level_at after last ≡ some now
      → Holds (Assigns level k) (
          if left == now
          then (do
            own ← level_at after k
            checked ← check_levels tree after (own + 1) (some k)
            some after)
          else none)
  assigned_lem k h level after left last now a e =
      Holds-if (Assigns level k) (left == now) _ none
        (λ s. Holds-bind (Assigns level k) (level_at after k) _ (λ own f.
          Holds-bind (Assigns level k) (check_levels tree after (own + 1) (some k)) _
            (λ checked g. (h, a (e ∙ ap (λ n. some n) (sym ((==_iff left now).0 s)))))))
        (λ s. tt)

  pub assign_levels-Assigns :
      (k nhop : ℕ) (top : Vertex) (level : List Level)
      → Holds (Assigns level k) (assign_levels tree k nhop top level)
  unfolding assign_levels
  assign_levels-Assigns k nhop none level = tt
  assign_levels-Assigns k nhop (some top) level =
      Holds-bind (Assigns level k) (level_at level top) _ (λ l e.
        Holds-bind (Assigns level k) (assign tree (nhop + l) (some k) level) _
          (λ (after, (left, last)) f. Holds-bind (Assigns level k) (level_at after last) _ (λ now g.
            assigned_lem k (nhop + l) level after left last now
              (subst (AssignedIf tree level k (nhop + l)) f
                (assign-AssignedIf tree (nhop + l) k level))
              g)))

  -- The state of the loop: without an error, the levels up to a vertex.
  abbrev pub LevelsSound : ℕ → ℕ × List Level → Type 0
  LevelsSound k (err, level) = err ≡ 0 → Leveled nv root tree k level

  -- A vertex with a level, or one that is not in the tree.
  skip_vertex :
      (k : ℕ) (level : List Level)
      → ((p : ℕ) → get_elem? tree k ≡ some (some p) → (l : ℕ) × Has level k l)
      → Leveled nv root tree k level
      → Leveled nv root tree (k + 1) level
  skip_vertex k level here_lem s = record {
    root_level = s.root_level;
    steps = s.steps;
    covered = λ v p h e. elim (eq-cases v k) [
      | inl same ↦
          let (l, m) = here_lem p (ap (get_elem? tree) (sym same) ∙ e) in
          (l, ap (get_elem? level) same ∙ m)
      | inr ne ↦ s.covered v p (omega arith) e
    ];
  }

  pub Assigned-Leveled :
      (k h : ℕ) (before after : List Level)
      → Assigned tree before k h after
      → Leveled nv root tree k before
      → Leveled nv root tree (k + 1) after
  Assigned-Leveled k h before after a s =
      skip_vertex k after (λ p e. (h, a.own))
        record {
          root_level = a.kept root 0 s.root_level;
          steps = λ v l m. elim (a.added v l m) [
            | inr b ↦ inr b
            | inl old ↦ elim (s.steps v l old) [
              | inl r ↦ inl r
              | inr (p, b, e, f, g) ↦ inr (p, b, e, a.kept p b f, g)
            ]
          ];
          covered = λ v p h e. let (l, m) = s.covered v p h e in (l, a.kept v l m);
        }

  pub level_vertex-LevelsSound :
      (k err : ℕ) (level : List Level)
      → LevelsSound k (err, level)
      → Holds (LevelsSound (k + 1)) (level_vertex nv root k tree (err, level))
  unfolding level_vertex
  level_vertex-LevelsSound k err level s =
      Holds-bind (LevelsSound (k + 1)) (get_elem? level k) _ (λ l e.
        Holds-if (LevelsSound (k + 1)) (is_set l || not (err == 0)) _ _
          (λ t q.
            let (x, f) = is_set-some l (or-left (is_set l) (err == 0) t ((==_iff err 0).1 q)) in
            skip_vertex k level (λ p g. (x, e ∙ ap (λ o. some o) f)) (s q))
          (λ t. Holds-bind (LevelsSound (k + 1)) (get_elem? tree k) _ (λ parent f.
            Holds-if (LevelsSound (k + 1)) (not (is_set parent) || k == root) _ _
              (λ u q.
                skip_vertex k level
                  (λ p g.
                    let at_root =
                      tree-or parent (k == root) p u (some-injective parent (some p) (sym f ∙ g)) in
                    (0, ap (get_elem? level) ((==_iff k root).0 at_root) ∙ (s q).root_level))
                  (s q))
              (λ u.
                Holds-bind (LevelsSound (k + 1)) (climb tree level nv 0 (some k)) _
                  (λ (top, nhop) g.
                    Holds-if (LevelsSound (k + 1)) (climb_error nv nhop top == 0) _ _
                      (λ w.
                        Holds-bind (LevelsSound (k + 1)) (assign_levels tree k nhop top level) _
                          (λ after x q.
                            let (h, a) =
                              subst (Holds (Assigns level k)) x
                                (assign_levels-Assigns k nhop top level) in
                            Assigned-Leveled k h level after a
                              (s ((==_iff err 0).0 (or-false (is_set l) (err == 0) t)))))
                      (λ w q. absurd (ground arith)))))))

  level_vertices-LevelsSound :
      (rounds k err : ℕ) (level : List Level)
      → LevelsSound k (err, level)
      → Holds (LevelsSound (k + rounds)) (level_vertices nv root tree rounds k (err, level))
  unfolding level_vertices
  level_vertices-LevelsSound zero k err level s =
      λ q. subst (λ n. Leveled nv root tree n level) (omega arith) (s q)
  level_vertices-LevelsSound (suc c) k err level s =
      Holds-bind (LevelsSound (k + suc c)) (level_vertex nv root k tree (err, level)) _
        (λ (err', level') e.
          let now =
            subst (Holds (LevelsSound (k + 1))) e (level_vertex-LevelsSound k err level s) in
          subst (λ n. Holds (LevelsSound n) (level_vertices nv root tree c (k + 1) (err', level')))
            {x = k + 1 + c} {y = k + suc c} (omega arith)
            (level_vertices-LevelsSound c (k + 1) err' level' now))

  first_levels-none :
      (rounds k i : ℕ) → (l : ℕ) → Has (first_levels rounds k root) i l → (k + i ≡ root) × (l ≡ 0)
  unfolding first_levels
  first_levels-none zero k i l m = absurd (none-ne-some (some l) m)
  first_levels-none (suc c) k zero l m = elim (eq-cases k root) [
    | inl e ↦ (
      omega arith,
      sym (some-injective 0 l (some-injective (some 0) (some l) (rw (e, ==-refl root) at m))),
    )
    | inr ne ↦ absurd (none-ne-some l (some-injective none (some l) (rw (==-ne k root ne) at m)))
  ]
  first_levels-none (suc c) k (suc i) l m =
      let (e, f) = first_levels-none c (k + 1) i l m in (omega arith, f)

  first_levels-root :
      (rounds k i : ℕ) → k + i ≡ root → i < rounds → Has (first_levels rounds k root) i 0
  unfolding first_levels
  first_levels-root zero k i e h = absurd (omega arith)
  first_levels-root (suc c) k zero e h = rw ((==_iff k root).1 (omega arith)) refl
  first_levels-root (suc c) k (suc i) e h =
      first_levels-root c (k + 1) i (omega arith) (omega arith)

  pub first_levels-Leveled : root < nv → Leveled nv root tree 0 (first_levels nv 0 root)
  first_levels-Leveled h = record {
    root_level = first_levels-root nv 0 root (omega arith) h;
    steps = λ k l m. let (e, f) = first_levels-none nv 0 k l m in inl (omega arith, f);
    covered = λ k p less e. absurd (omega arith);
  }

  pub compute_levels-Leveled : root < nv → Holds (LevelsSound nv) (compute_levels nv tree root)
  unfolding compute_levels
  compute_levels-Leveled h =
      subst (λ n. Holds (LevelsSound n) (compute_levels nv tree root)) (omega arith)
        (level_vertices-LevelsSound nv 0 0 (first_levels nv 0 root) (λ q. first_levels-Leveled h))
