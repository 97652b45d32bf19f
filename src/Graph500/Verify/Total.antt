-- ===== src/Graph500/Verify/Total.antt =====
-- `verify_bfs_tree` in trident-workloads/graph500/verify.c answers on every tree with parents in range.
use trident_micro21_artifact.Graph500.Bfs.State.{is_set}
use trident_micro21_artifact.Graph500.Verify.Levels.{
  LevelsSound, Assigned-Leveled, Leveled, Holds, Holds-bind, assign_levels-Assigns, or-false,
  Assigns, Holds-if, level_vertex-LevelsSound, first_levels-Leveled,
}
use mathlib.Core.Path.{subst}
use trident_micro21_artifact.Graph500.Csr.{Vertex}
use trident_micro21_artifact.Graph500.Verify.{
  Level, level_at, assign_levels, climb_error, check_levels, climb, level_vertices, level_vertex,
  first_levels,
}
use trident_micro21_artifact.Graph500.Verify.Assign.{assign-AssignedIf, Has, AssignedIf}
use trident_micro21_artifact.Graph500.Verify.Climb.{
  Up, Up-top, TreeShape, Ends, assign-Ends, check_levels-Ends, Ends-bind, zero_plus, Ends-read,
  climb-Climbed, Ends-if,
}
use trident_micro21_artifact.Btree.Array.{◌>>=◌}
use trident_micro21_artifact.Base.{
  ℕ, zero, suc, ◌+◌, ◌≤◌, ◌<◌, ◌≡◌, refl, ap, ◌∙◌, ◌⊎◌, inl, inr, not, ◌||◌, none, some, List,
  arith, ◌==◌, if◌then◌else◌, ==_iff, length, get_elem?, ==-refl,
}

level_at-Ends : (level : List Level) (v l : ℕ) → Has level v l → level_at level v ≡ some l
unfolding level_at
level_at-Ends level v l has = rw has refl

module _ (nv root : ℕ) (tree : List Vertex) (shape : TreeShape nv root tree) where
  assign_levels-Ends :
      (k m t l : ℕ) (level : List Level)
      → Leveled nv root tree k level
      → Up tree level m k t l
      → Ends (assign_levels tree k m (some t) level)
  unfolding assign_levels
  assign_levels-Ends k m t l level leveled up =
      let (after, e, has) = assign-Ends tree m k t l (m + l) level refl up in
      let at_top = Up-top tree level m k t l up in
      let a =
        subst (AssignedIf tree level k (m + l)) e (assign-AssignedIf tree (m + l) k level)
          (level_at-Ends after t l has) in
      let s = Assigned-Leveled nv root tree k (m + l) level after a leveled in
      let (x, f) = check_levels-Ends root tree after s.steps (m + l) k a.own in
      let checked : check_levels tree after (m + l + 1) (some k) ≡ some x =
        subst (λ n. check_levels tree after n (some k) ≡ some x) (omega arith) f in
      (
        after,
        rw
            (
              level_at-Ends level t l at_top,
              e,
              level_at-Ends after t l has,
              ==-refl l,
              level_at-Ends after k (m + l) a.own,
              checked,
            )
            refl,
      )

  -- Where the loop over the vertices stands.
  abbrev pub Running : ℕ → ℕ × List Level → Type 0
  Running k (err, level) = (length level ≡ nv) × LevelsSound nv root tree k (err, level)

  climbed_lem :
      (k m : ℕ) (top : Vertex) (level : List Level)
      → Leveled nv root tree k level
      → ((t : ℕ) → top ≡ some t → (m ≡ nv) ⊎ ((l : ℕ) × Up tree level m k t l))
      → climb_error nv m top ≡ 0
      → Ends (assign_levels tree k m top level)
  unfolding climb_error
  climbed_lem k m none level s found z = absurd (omega arith)
  climbed_lem k m (some t) level s found z = elim (found t refl) [
    | inl e ↦ absurd (ground arith)
    | inr (l, up) ↦ assign_levels-Ends k m t l level s up
  ]

  climb_block :
      (k : ℕ) (level : List Level)
      → length level ≡ nv
      → Leveled nv root tree k level
      → k < nv
      → Ends {A = ℕ × List Level} (do
        (top, nhop) ← climb tree level nv 0 (some k)
        let terr = climb_error nv nhop top
        if terr == 0
            then (do level ← assign_levels tree k nhop top level; some (0, level))
            else some (terr, level))
  climb_block k level size leveled less =
      let (top, m, g, found) =
        climb-Climbed nv root tree shape level nv 0 k size leveled.root_level less in
      rw (g ∙ ap (λ n. some (top, n)) (zero_plus m)) (
        Ends-if (climb_error nv m top == 0) _ _
          (λ w.
            Ends-bind (assign_levels tree k m top level) _
              (climbed_lem k m top level leveled found ((==_iff (climb_error nv m top) 0).0 w))
              (λ after x. ((0, after), refl)))
          (λ w. ((climb_error nv m top, level), refl)))

  level_vertex-Ends :
      (k err : ℕ) (level : List Level)
      → Running k (err, level)
      → k < nv
      → Ends (level_vertex nv root k tree (err, level))
  unfolding level_vertex
  level_vertex-Ends k err level (size, sound) less =
      Ends-bind (get_elem? level k) _ (Ends-read level k (omega arith)) (λ l e.
        Ends-if (is_set l || not (err == 0)) _ _ (λ t. ((err, level), refl))
          (λ t.
            let leveled = sound ((==_iff err 0).0 (or-false (is_set l) (err == 0) t)) in
            Ends-bind (get_elem? tree k) _ (Ends-read tree k (omega (arith, shape.size)))
              (λ parent f.
                Ends-if (not (is_set parent) || k == root) _ _ (λ u. ((err, level), refl))
                  (λ u. climb_block k level size leveled less))))

  level_vertex-size :
      (k err : ℕ) (level : List Level)
      → Holds (λ (e, after). length after ≡ length level) (level_vertex nv root k tree (err, level))
  unfolding level_vertex
  level_vertex-size k err level = Holds-bind _ (get_elem? level k) _ (λ l e.
      Holds-if _ (is_set l || not (err == 0)) _ _ (λ t. refl)
        (λ t. Holds-bind _ (get_elem? tree k) _ (λ parent f.
          Holds-if _ (not (is_set parent) || k == root) _ _ (λ u. refl)
            (λ u. Holds-bind _ (climb tree level nv 0 (some k)) _ (λ (top, nhop) g.
              Holds-if _ (climb_error nv nhop top == 0) _ _
                (λ w. Holds-bind _ (assign_levels tree k nhop top level) _ (λ after x.
                  let (h, a) =
                    subst (Holds (Assigns nv root tree level k)) x
                      (assign_levels-Assigns nv root tree k nhop top level) in
                  a.size))
                (λ w. refl))))))

  pub level_vertices-Ends :
      (rounds k err : ℕ) (level : List Level)
      → Running k (err, level)
      → k + rounds ≤ nv
      → (st : ℕ × List Level) × (level_vertices nv root tree rounds k (err, level) ≡ some st)
        × Running (k + rounds) st
  unfolding level_vertices
  level_vertices-Ends zero k err level r h =
      ((err, level), refl, subst (λ n. Running n (err, level)) (omega arith) r)
  level_vertices-Ends (suc c) k err level r h =
      let ((err', after), e) = level_vertex-Ends k err level r (omega arith) in
      let size = subst (Holds _) e (level_vertex-size k err level) in
      let sound =
        subst (Holds (LevelsSound nv root tree (k + 1))) e
          (level_vertex-LevelsSound nv root tree k err level (r.1)) in
      let (st, f, r') =
        level_vertices-Ends c (k + 1) err' after (size ∙ r.0, sound) (omega arith) in
      (st, rw e f, subst (λ n. Running n st) (omega arith) r')

  length-first_levels : (rounds k : ℕ) → length (first_levels rounds k root) ≡ rounds
  unfolding first_levels
  length-first_levels zero k = refl
  length-first_levels (suc c) k = ap suc (length-first_levels c (k + 1))

  pub first_levels-Running : Running 0 (0, first_levels nv 0 root)
  first_levels-Running =
      (length-first_levels nv 0, λ q. first_levels-Leveled nv root tree shape.inside)
