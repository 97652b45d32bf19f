-- ===== src/Graph500/Mrg/Apply.antt =====
-- The transitions of trident-workloads/graph500/generator/splittable_mrg.c are products with a matrix
-- modulo 2 ^ 31 - 1, and two of them are known steps.
use trident_micro21_artifact.Graph500.Mrg.Rows.{x}
use trident_micro21_artifact.Graph500.Mrg.{
  mrg_apply_transition, Matrix, MrgState, mrg_orig_step, mrg_make_identity, mrg_make_a,
  mrg_update_cache,
}
use trident_micro21_artifact.Graph500.ModArith.{
  mod_mac2_lem, modulus, mod_mul_constants, mod_ops_lem, mod_mac3_lem, mod_mac_y, mod_mac4_lem,
  mod_mul, schrage, reduce, mod_mul_x, mod_add,
}
use trident_micro21_artifact.Base.{ℕ, ◌+◌, ◌*◌, ◌%◌, ◌<◌, ◌≡◌, refl, sym, ◌∙◌, arith}

-- The operands that the arithmetic asserts.
pub record IsState (st : MrgState) : Type 0 where
  pub small1 : st.z1 < modulus
  pub small2 : st.z2 < modulus
  pub small3 : st.z3 < modulus
  pub small4 : st.z4 < modulus
  pub small5 : st.z5 < modulus

pub record IsMatrix (m : Matrix) : Type 0 where
  pub small_s : m.s < modulus
  pub small_t : m.t < modulus
  pub small_u : m.u < modulus
  pub small_v : m.v < modulus
  pub small_w : m.w < modulus
  pub small_a : m.a < modulus
  pub small_b : m.b < modulus
  pub small_c : m.c < modulus
  pub small_d : m.d < modulus

-- A sum that is reduced in two parts.
two_parts :
    (sum x p q : ℕ)
    → sum ≡ p % modulus
    → x ≡ q % modulus
    → (mod_mac_y sum x ≡ (p + 104480 * q) % modulus) × (mod_mac_y sum x < modulus)
two_parts sum x p q e f =
    let value = (mod_mul_constants sum x (omega arith) (omega arith)).2 in
    (omega arith, omega arith)

pub mod_mul_lem :
    (a b : ℕ)
    → a < modulus
    → b < modulus
    → (mod_mul a b ≡ a * b % modulus) × (mod_mul a b < modulus)
mod_mul_lem a b ha hb = let e = (mod_ops_lem a a b ha ha hb).1 in (e, omega arith)

-- The product of a row of the matrix with the state, for the five rows.
abbrev y : ℕ
y = 104480

pub record Applied (m : Matrix) (st r : MrgState) : Type 0 where
  pub row1 :
      r.z1 ≡ (m.d * st.z1 + y * (m.s * st.z2 + m.a * st.z3 + m.b * st.z4 + m.c * st.z5)) % modulus
  pub row2 :
      r.z2 ≡ (m.c * st.z1 + m.w * st.z2 + y * (m.s * st.z3 + m.a * st.z4 + m.b * st.z5)) % modulus
  pub row3 :
      r.z3 ≡ (m.b * st.z1 + m.v * st.z2 + m.w * st.z3 + y * (m.s * st.z4 + m.a * st.z5)) % modulus
  pub row4 :
      r.z4 ≡ (m.a * st.z1 + m.u * st.z2 + m.v * st.z3 + m.w * st.z4 + y * (m.s * st.z5)) % modulus
  pub row5 : r.z5 ≡ (m.s * st.z1 + m.t * st.z2 + m.u * st.z3 + m.v * st.z4 + m.w * st.z5) % modulus

module _ (m : Matrix) (st : MrgState) (p : IsMatrix m) (q : IsState st) where
  first_row :
      let r = mrg_apply_transition m st in
      (r.z1 ≡ (m.d * st.z1 + y * (m.s * st.z2 + m.a * st.z3 + m.b * st.z4 + m.c * st.z5)) % modulus)
      × (r.z1 < modulus)
  unfolding mrg_apply_transition
  first_row =
      let e = (mod_mul_lem m.d st.z1 p.small_d q.small1).0 in
      let (f, _) =
        mod_mac4_lem 0 m.s st.z2 m.a st.z3 m.b st.z4 m.c st.z5 (omega arith) p.small_s q.small2
          p.small_a q.small3 p.small_b q.small4 p.small_c q.small5 in
      two_parts _ _ (m.d * st.z1) (m.s * st.z2 + m.a * st.z3 + m.b * st.z4 + m.c * st.z5) e
        (f ∙ omega arith)

  second_row :
      let r = mrg_apply_transition m st in
      (r.z2 ≡ (m.c * st.z1 + m.w * st.z2 + y * (m.s * st.z3 + m.a * st.z4 + m.b * st.z5)) % modulus)
      × (r.z2 < modulus)
  unfolding mrg_apply_transition
  second_row =
      let (e, _) =
        mod_mac2_lem 0 m.c st.z1 m.w st.z2 (omega arith) p.small_c q.small1 p.small_w q.small2 in
      let (f, _) =
        mod_mac3_lem 0 m.s st.z3 m.a st.z4 m.b st.z5 (omega arith) p.small_s q.small3 p.small_a
          q.small4 p.small_b q.small5 in
      two_parts _ _ (m.c * st.z1 + m.w * st.z2) (m.s * st.z3 + m.a * st.z4 + m.b * st.z5)
        (e ∙ omega arith) (f ∙ omega arith)

  third_row :
      let r = mrg_apply_transition m st in
      (r.z3 ≡ (m.b * st.z1 + m.v * st.z2 + m.w * st.z3 + y * (m.s * st.z4 + m.a * st.z5)) % modulus)
      × (r.z3 < modulus)
  unfolding mrg_apply_transition
  third_row =
      let (e, _) =
        mod_mac3_lem 0 m.b st.z1 m.v st.z2 m.w st.z3 (omega arith) p.small_b q.small1 p.small_v
          q.small2 p.small_w q.small3 in
      let (f, _) =
        mod_mac2_lem 0 m.s st.z4 m.a st.z5 (omega arith) p.small_s q.small4 p.small_a q.small5 in
      two_parts _ _ (m.b * st.z1 + m.v * st.z2 + m.w * st.z3) (m.s * st.z4 + m.a * st.z5)
        (e ∙ omega arith) (f ∙ omega arith)

  fourth_row :
      let r = mrg_apply_transition m st in
      (r.z4 ≡ (m.a * st.z1 + m.u * st.z2 + m.v * st.z3 + m.w * st.z4 + y * (m.s * st.z5)) % modulus)
      × (r.z4 < modulus)
  unfolding mrg_apply_transition
  fourth_row =
      let (e, _) =
        mod_mac4_lem 0 m.a st.z1 m.u st.z2 m.v st.z3 m.w st.z4 (omega arith) p.small_a q.small1
          p.small_u q.small2 p.small_v q.small3 p.small_w q.small4 in
      let f = (mod_mul_lem m.s st.z5 p.small_s q.small5).0 in
      two_parts _ _ (m.a * st.z1 + m.u * st.z2 + m.v * st.z3 + m.w * st.z4) (m.s * st.z5)
        (e ∙ omega arith) f

  fifth_row :
      let r = mrg_apply_transition m st in
      (r.z5 ≡ (m.s * st.z1 + m.t * st.z2 + m.u * st.z3 + m.v * st.z4 + m.w * st.z5) % modulus)
      × (r.z5 < modulus)
  unfolding mrg_apply_transition
  fifth_row =
      let (e, small) =
        mod_mac3_lem 0 m.s st.z1 m.t st.z2 m.u st.z3 (omega arith) p.small_s q.small1 p.small_t
          q.small2 p.small_u q.small3 in
      let (f, less) =
        mod_mac2_lem _ m.v st.z4 m.w st.z5 small p.small_v q.small4 p.small_w q.small5 in
      (f ∙ omega arith, less)

-- For a matrix and a state of numbers below 2 ^ 31 - 1, a transition is the product of the matrix
-- that the comment of the file shows with the state, modulo 2 ^ 31 - 1.
pub mrg_apply_transition-Applied :
    (m : Matrix) (st : MrgState)
    → IsMatrix m
    → IsState st
    → Applied m st (mrg_apply_transition m st) × IsState (mrg_apply_transition m st)
mrg_apply_transition-Applied m st p q =
    let (row1, small1) = first_row m st p q in
    let (row2, small2) = second_row m st p q in
    let (row3, small3) = third_row m st p q in
    let (row4, small4) = fourth_row m st p q in
    let (row5, small5) = fifth_row m st p q in
    (
      record { row1 = row1; row2 = row2; row3 = row3; row4 = row4; row5 = row5 },
      record {
        small1 = small1;
        small2 = small2;
        small3 = small3;
        small4 = small4;
        small5 = small5;
      },
    )

pub MrgState_ext :
    {r q : MrgState} → r.z1 ≡ q.z1 → r.z2 ≡ q.z2 → r.z3 ≡ q.z3 → r.z4 ≡ q.z4 → r.z5 ≡ q.z5 → r ≡ q
MrgState_ext e1 e2 e3 e4 e5 = λ i. record { z1 = e1 i; z2 = e2 i; z3 = e3 i; z4 = e4 i; z5 = e5 i }

pub mrg_make_a-IsMatrix : IsMatrix mrg_make_a
unfolding mrg_make_a mrg_update_cache mod_add mod_mul_x schrage reduce
mrg_make_a-IsMatrix = omega arith

pub mrg_make_identity-IsMatrix : IsMatrix mrg_make_identity
unfolding mrg_make_identity mrg_update_cache mod_add mod_mul_x schrage reduce
mrg_make_identity-IsMatrix = omega arith

pub orig_first :
    (st : MrgState)
    → IsState st
    → (mrg_orig_step st).z1 ≡ (107374182 * st.z1 + 104480 * st.z5) % modulus
unfolding mrg_orig_step
orig_first st q =
    (two_parts (mod_mul_x st.z1) st.z5 (107374182 * st.z1) st.z5
      ((mod_mul_constants 0 st.z1 (omega arith) q.small1).0) (omega (arith, q.small5))).0

-- The states that rows of the two matrices leave.
rows_of_a :
    (st r : MrgState)
    → IsState st
    → Applied mrg_make_a st r
    → (r.z1 ≡ (107374182 * st.z1 + 104480 * st.z5) % modulus)
      × (r.z2 ≡ st.z1)
      × (r.z3 ≡ st.z2)
      × (r.z4 ≡ st.z3)
      × (r.z5 ≡ st.z4)
unfolding mrg_make_a mrg_update_cache mod_add mod_mul_x schrage reduce
rows_of_a st r q e = (
  e.row1 ∙ omega arith,
  e.row2 ∙ omega (arith, q.small1),
  e.row3 ∙ omega (arith, q.small2),
  e.row4 ∙ omega (arith, q.small3),
  e.row5 ∙ omega (arith, q.small4),
)

rows_of_identity : (st r : MrgState) → IsState st → Applied mrg_make_identity st r → r ≡ st
unfolding mrg_make_identity mrg_update_cache mod_add mod_mul_x schrage reduce
rows_of_identity st r q e =
    MrgState_ext (e.row1 ∙ omega (arith, q.small1)) (e.row2 ∙ omega (arith, q.small2))
      (e.row3 ∙ omega (arith, q.small3)) (e.row4 ∙ omega (arith, q.small4))
      (e.row5 ∙ omega (arith, q.small5))

pub orig_rest :
    (st : MrgState)
    → let r = mrg_orig_step st in (r.z2 ≡ st.z1) × (r.z3 ≡ st.z2) × (r.z4 ≡ st.z3) × (r.z5 ≡ st.z4)
unfolding mrg_orig_step
orig_rest st = (refl, refl, refl, refl)

-- On a state of numbers below 2 ^ 31 - 1 the transition of `mrg_make_A` is `mrg_orig_step`, and that
-- of `mrg_make_identity` changes nothing.
pub mrg_make_a-mrg_orig_step :
    (st : MrgState)
    → IsState st
    → (mrg_apply_transition mrg_make_a st ≡ mrg_orig_step st)
      × (mrg_apply_transition mrg_make_identity st ≡ st)
mrg_make_a-mrg_orig_step st q =
    let step = (mrg_apply_transition-Applied mrg_make_a st mrg_make_a-IsMatrix q).0 in
    let stay = (mrg_apply_transition-Applied mrg_make_identity st mrg_make_identity-IsMatrix q).0 in
    let (e1, e2, e3, e4, e5) = rows_of_a st (mrg_apply_transition mrg_make_a st) q step in
    let (f2, f3, f4, f5) = orig_rest st in
    (
      MrgState_ext (e1 ∙ sym (orig_first st q)) (e2 ∙ sym f2) (e3 ∙ sym f3) (e4 ∙ sym f4)
          (e5 ∙ sym f5),
      rows_of_identity st (mrg_apply_transition mrg_make_identity st) q stay,
    )
