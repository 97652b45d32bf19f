-- ===== src/Graph500/Mrg/Skip.antt =====
-- The powers of trident-workloads/graph500/generator/splittable_mrg.c, its table of skip matrices, and
-- `mrg_skip`: they act as runs of the original step. The table of mrg_transitions.c is what
-- `dump_mrg_powers` prints, and is modelled by that function's arithmetic.
use native.Mathlib.Nat.{pow-suc}
use mathlib.Core.Path.{subst}
use trident_micro21_artifact.Graph500.Mrg.{
  Matrix, MrgState, mrg_multiply, mrg_apply_transition, mrg_make_identity, mrg_make_a, mrg_power,
  power_loop, mrg_step, skip_bytes, mrg_skip,
}
use trident_micro21_artifact.Graph500.Mrg.Apply.{
  IsState, mrg_make_a-mrg_orig_step, mrg_apply_transition-Applied,
}
use trident_micro21_artifact.Graph500.Mrg.Product.{IsCached, mrg_update_cache-IsCached}
use trident_micro21_artifact.Graph500.Mrg.Compose.{mrg_multiply-Composes, mrg_multiply-IsCached}
use trident_micro21_artifact.Graph500.Mrg.Steps.{steps, steps-add}
use trident_micro21_artifact.Base.{
  ℕ, zero, suc, ◌+◌, ◌*◌, ◌/◌, ◌%◌, ◌^◌, ◌<◌, ◌≡◌, sym, ap, ◌∙◌, inl, inr, arith, ◌==◌,
  if◌then◌else◌, Bool-cases, bit_and_mask,
}

-- transitions[i] of `dump_mrg_powers`
unfoldable pub transitions : ℕ → Matrix
transitions zero = mrg_make_a
transitions (suc i) = mrg_power (transitions i) 256

-- What `dump_mrg_powers` prints as entry `j` of byte `i`.
unfoldable pub mrg_skip_matrices : (i j : ℕ) → Matrix
mrg_skip_matrices i zero = mrg_make_identity
mrg_skip_matrices i (suc zero) = transitions i
mrg_skip_matrices i (suc (suc k)) = mrg_power (transitions i) (suc (suc k))

-- The transition of `m` is `n` original steps.
pub record Acts (m : Matrix) (n : ℕ) : Type 0 where
  pub well_formed : IsCached m
  pub same : (st : MrgState) → IsState st → mrg_apply_transition m st ≡ steps n st

mrg_multiply-Acts : (m k : Matrix) (a b : ℕ) → Acts m a → Acts k b → Acts (mrg_multiply m k) (b + a)
mrg_multiply-Acts m k a b p q = record {
  well_formed = mrg_multiply-IsCached m k p.well_formed.matrix q.well_formed.matrix;
  same = λ st v.
      (mrg_multiply-Composes m k st p.well_formed q.well_formed v).1
      ∙ p.same (mrg_apply_transition k st)
          ((mrg_apply_transition-Applied k st q.well_formed.matrix v).1)
      ∙ ap (steps a) (q.same st v)
      ∙ sym (steps-add b a st);
}

mrg_make_identity-Acts : Acts mrg_make_identity 0
unfolding mrg_make_identity steps
mrg_make_identity-Acts = record {
  well_formed =
      mrg_update_cache-IsCached 0 0 0 0 1 (omega arith) (omega arith) (omega arith) (omega arith)
        (omega arith);
  same = λ st v. (mrg_make_a-mrg_orig_step st v).1;
}

pub mrg_make_a-Acts : Acts mrg_make_a 1
unfolding mrg_make_a steps
mrg_make_a-Acts = record {
  well_formed =
      mrg_update_cache-IsCached 0 0 0 1 0 (omega arith) (omega arith) (omega arith) (omega arith)
        (omega arith);
  same = λ st v. (mrg_make_a-mrg_orig_step st v).0;
}

ap-Acts : (m : Matrix) (a b : ℕ) → a ≡ b → Acts m a → Acts m b
ap-Acts m a b e p = subst (Acts m) e p

power_loop-Acts :
    (f exponent : ℕ) (current result : Matrix) (c r : ℕ)
    → exponent < 2 ^ f
    → Acts current c
    → Acts result r
    → Acts (power_loop f exponent current result) (exponent * c + r)
unfolding power_loop
power_loop-Acts zero exponent current result c r h p q =
    let none : exponent ≡ 0 = omega arith in
    ap-Acts result r (exponent * c + r) (rw none (omega arith)) q
power_loop-Acts (suc f) exponent current result c r h p q =
    let square = mrg_multiply-Acts current current c c p p in
    let half : exponent / 2 < 2 ^ f = omega (arith, pow-suc 2 f) in
    elim (Bool-cases (exponent == 0)) [
      | inl finished ↦
          let none : exponent ≡ 0 = ground arith in
          rw finished (ap-Acts result r (exponent * c + r) (rw none (omega arith)) q)
      | inr more ↦ rw more (elim (Bool-cases (exponent % 2 == 1)) [
        | inl odd ↦
            let whole : exponent ≡ 2 * (exponent / 2) + 1 = ground arith in
            let scaled = ap (λ t. t * c) whole in
            rw odd (
              ap-Acts _ _ (exponent * c + r) (omega arith) (
                power_loop-Acts f (exponent / 2) (mrg_multiply current current)
                  (mrg_multiply result current) (c + c) (c + r) half square
                  (mrg_multiply-Acts result current r c q p)))
        | inr even ↦
            let whole : exponent ≡ 2 * (exponent / 2) = ground arith in
            let scaled = ap (λ t. t * c) whole in
            rw even (
              ap-Acts _ _ (exponent * c + r) (omega arith) (
                power_loop-Acts f (exponent / 2) (mrg_multiply current current) result (c + c) r
                  half square q))
      ])
    ]

-- A power of a matrix in range whose transition is `c` original steps, for an exponent of 32 bits, is
-- such a matrix again, and its transition is `exponent` times as many steps.
pub mrg_power-Acts :
    (m : Matrix) (c exponent : ℕ)
    → exponent < 2 ^ 32
    → Acts m c
    → Acts (mrg_power m exponent) (exponent * c)
unfolding mrg_power
mrg_power-Acts m c exponent h p =
    ap-Acts _ _ (exponent * c) (omega arith)
      (power_loop-Acts 32 exponent m mrg_make_identity c 0 h p mrg_make_identity-Acts)

transitions-Acts : (i : ℕ) → Acts (transitions i) (256 ^ i)
unfolding transitions
transitions-Acts zero = mrg_make_a-Acts
transitions-Acts (suc i) =
    ap-Acts _ _ (256 ^ suc i) (omega (arith, pow-suc 256 i))
      (mrg_power-Acts (transitions i) (256 ^ i) 256 (omega arith) (transitions-Acts i))

-- Entry `j` of byte `i` of the table stands for `j * 256 ^ i` steps.
pub mrg_skip_matrices-Acts : (i j : ℕ) → j < 256 → Acts (mrg_skip_matrices i j) (j * 256 ^ i)
unfolding mrg_skip_matrices
mrg_skip_matrices-Acts i zero h = ap-Acts _ _ (0 * 256 ^ i) (omega arith) mrg_make_identity-Acts
mrg_skip_matrices-Acts i (suc zero) h = ap-Acts _ _ (1 * 256 ^ i) (omega arith) (transitions-Acts i)
mrg_skip_matrices-Acts i (suc (suc k)) h =
    mrg_power-Acts (transitions i) (256 ^ i) (suc (suc k)) (omega arith) (transitions-Acts i)

place_value : (e b : ℕ) → e % 256 * 256 ^ b + e / 256 * 256 ^ suc b ≡ e * 256 ^ b
place_value e b =
    let whole : e ≡ e % 256 + e / 256 * 256 = omega arith in
    let scaled = ap (λ t. t * 256 ^ b) whole in
    omega (arith, ap (λ t. e / 256 * t) (pow-suc 256 b), scaled)

-- One byte of the exponent.
abbrev next_state : (b val : ℕ) → MrgState → MrgState
next_state b val st = if val == 0 then st else mrg_step (mrg_skip_matrices b val) st

next_state-steps :
    (b val : ℕ) (st : MrgState)
    → val < 256
    → IsState st
    → (next_state b val st ≡ steps (val * 256 ^ b) st) × IsState (next_state b val st)
unfolding mrg_step steps
next_state-steps b val st h v = elim (Bool-cases (val == 0)) [
  | inl nothing ↦
      let e : val ≡ 0 = ground arith in
      rw nothing (sym (ap (λ k. steps k st) {x = val * 256 ^ b} {y = 0} (rw e (omega arith))), v)
  | inr some_steps ↦
      let acts = mrg_skip_matrices-Acts b val h in
      rw some_steps (
        acts.same st v,
        (mrg_apply_transition-Applied (mrg_skip_matrices b val) st acts.well_formed.matrix v).1,
      )
]

pub skip_bytes-steps :
    (rounds b e : ℕ) (st : MrgState)
    → e < 256 ^ rounds
    → IsState st
    → (skip_bytes mrg_skip_matrices rounds b e st ≡ steps (e * 256 ^ b) st)
      × IsState (skip_bytes mrg_skip_matrices rounds b e st)
unfolding skip_bytes steps
skip_bytes-steps zero b e st h v =
    let none : e ≡ 0 = omega arith in
    (sym (ap (λ k. steps k st) {x = e * 256 ^ b} {y = 0} (rw none (omega arith))), v)
skip_bytes-steps (suc f) b e st h v = elim (Bool-cases (e == 0)) [
  | inl finished ↦
      let none : e ≡ 0 = ground arith in
      rw finished (sym (ap (λ k. steps k st) {x = e * 256 ^ b} {y = 0} (rw none (omega arith))), v)
  | inr more ↦
      let (byte, v') = next_state-steps b (e % 256) st (omega arith) v in
      let (rest, v'') =
        skip_bytes-steps f (suc b) (e / 256) (next_state b (e % 256) st)
          (omega (arith, pow-suc 256 f)) v' in
      rw (more, bit_and_mask 8 e)
        (
          rest
              ∙ ap (steps (e / 256 * 256 ^ suc b)) byte
              ∙ sym (steps-add (e % 256 * 256 ^ b) (e / 256 * 256 ^ suc b) st)
              ∙ ap (λ k. steps k st) (place_value e b),
          v'',
        )
]

-- For three words of 64 bits and a state in range, `mrg_skip` with the table that `dump_mrg_powers`
-- prints reaches the state that as many original steps reach as the three words count together,
-- and that state is in range.
pub mrg_skip-steps :
    (high middle low : ℕ) (st : MrgState)
    → high < 2 ^ 64
    → middle < 2 ^ 64
    → low < 2 ^ 64
    → IsState st
    → (mrg_skip mrg_skip_matrices high middle low st
        ≡ steps (low + middle * 2 ^ 64 + high * 2 ^ 128) st)
      × IsState (mrg_skip mrg_skip_matrices high middle low st)
unfolding mrg_skip
mrg_skip-steps high middle low st ph pm pl v =
    let (one, v1) = skip_bytes-steps 8 0 low st pl v in
    let (two, v2) = skip_bytes-steps 8 8 middle _ pm v1 in
    let (three, v3) = skip_bytes-steps 8 16 high _ ph v2 in
    (
      three
          ∙ ap (steps (high * 256 ^ 16)) (two ∙ ap (steps (middle * 256 ^ 8)) one)
          ∙ ap (steps (high * 256 ^ 16)) (sym (steps-add (low * 256 ^ 0) (middle * 256 ^ 8) st))
          ∙ sym (steps-add (low * 256 ^ 0 + middle * 256 ^ 8) (high * 256 ^ 16) st)
          ∙ ap (λ k. steps k st) (omega arith),
      v3,
    )
