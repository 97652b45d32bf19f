-- ===== src/Graph500/Mrg/Steps.antt =====
-- Runs of the original step of trident-workloads/graph500/generator/splittable_mrg.c.
use native.Mathlib.Nat.{suc-add, zero-add}
use trident_micro21_artifact.Graph500.Mrg.{MrgState, mrg_orig_step}
use trident_micro21_artifact.Graph500.Mrg.Apply.{IsState, orig_first, orig_rest}
use trident_micro21_artifact.Base.{ℕ, zero, suc, ◌+◌, ◌<◌, ◌≡◌, ap, ◌∙◌, arith}

unfoldable pub steps : ℕ → MrgState → MrgState
steps zero st = st
steps (suc n) st = steps n (mrg_orig_step st)

pub steps-add : (m n : ℕ) (st : MrgState) → steps (m + n) st ≡ steps n (steps m st)
unfolding steps
steps-add zero n st = ap (λ k. steps k st) (zero-add n)
steps-add (suc m) n st = ap (λ k. steps k st) (suc-add m n) ∙ steps-add m n (mrg_orig_step st)

-- A state that the generator may be in: in range, and not zero.
pub record IsLive (st : MrgState) : Type 0 where
  pub state : IsState st
  pub nonzero : 0 < st.z1 + st.z2 + st.z3 + st.z4 + st.z5

pub mrg_orig_step-IsLive : (st : MrgState) → IsLive st → IsLive (mrg_orig_step st)
mrg_orig_step-IsLive st v =
    let first = orig_first st v.state in
    let rest = orig_rest st in
    record { state = omega (arith, v.state); nonzero = omega (arith, v.state, v.nonzero) }

pub steps-IsLive : (n : ℕ) (st : MrgState) → IsLive st → IsLive (steps n st)
unfolding steps
steps-IsLive zero st v = v
steps-IsLive (suc n) st v = steps-IsLive n (mrg_orig_step st) (mrg_orig_step-IsLive st v)
