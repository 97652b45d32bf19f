-- ===== src/Graph500/Mrg/Product.antt =====
-- `mrg_multiply` of trident-workloads/graph500/generator/splittable_mrg.c: a product of matrices is one
-- transition after the other.
use trident_micro21_artifact.Base.Residues.{multiples_of_mod, mod_of_multiples}
use trident_micro21_artifact.Graph500.ModArith.{
  modulus, mod_add, mod_mul_x, mod_ops_lem, mod_mul_constants,
}
use trident_micro21_artifact.Graph500.Mrg.{Matrix, MrgState, mrg_update_cache}
use trident_micro21_artifact.Graph500.Mrg.Apply.{IsMatrix}
use trident_micro21_artifact.Graph500.Mrg.Rows.{x, y, plain, rows}
use trident_micro21_artifact.Base.{ℕ, ◌+◌, ◌*◌, ◌/◌, ◌%◌, ◌<◌, ◌≡◌, refl, ap, arith}

infix 4 ◌≈◌
abbrev pub ◌≈◌ : ℕ → ℕ → Type 0
a ≈ b = a % modulus ≡ b % modulus

pub mul_cong : (a a' b b' : ℕ) → a ≈ a' → b ≈ b' → a * b ≈ a' * b'
mul_cong a a' b b' e f =
    let p = multiples_of_mod modulus a a' e in
    let q = multiples_of_mod modulus b b' f in
    mod_of_multiples modulus (a * b) (a' * b') (a' / modulus * b + a' * (b' / modulus))
      (a / modulus * b + a' * (b / modulus)) (omega (arith, ap (λ n. n * b) p, ap (λ n. a' * n) q))

pub record Agree (m n : Matrix) : Type 0 where
  pub agree_s : m.s ≈ n.s
  pub agree_t : m.t ≈ n.t
  pub agree_u : m.u ≈ n.u
  pub agree_v : m.v ≈ n.v
  pub agree_w : m.w ≈ n.w
  pub agree_a : m.a ≈ n.a
  pub agree_b : m.b ≈ n.b
  pub agree_c : m.c ≈ n.c
  pub agree_d : m.d ≈ n.d

pub record AgreeState (q r : MrgState) : Type 0 where
  pub agree1 : q.z1 ≈ r.z1
  pub agree2 : q.z2 ≈ r.z2
  pub agree3 : q.z3 ≈ r.z3
  pub agree4 : q.z4 ≈ r.z4
  pub agree5 : q.z5 ≈ r.z5

-- Sums of five products, weighted.
sum_cong :
    (p1 p2 p3 p4 p5 q1 q2 q3 q4 q5 : ℕ)
    → p1 ≈ q1
    → p2 ≈ q2
    → p3 ≈ q3
    → p4 ≈ q4
    → p5 ≈ q5
    → (p1 + y * (p2 + p3 + p4 + p5) ≈ q1 + y * (q2 + q3 + q4 + q5))
      × (p1 + p2 + y * (p3 + p4 + p5) ≈ q1 + q2 + y * (q3 + q4 + q5))
      × (p1 + p2 + p3 + y * (p4 + p5) ≈ q1 + q2 + q3 + y * (q4 + q5))
      × (p1 + p2 + p3 + p4 + y * p5 ≈ q1 + q2 + q3 + q4 + y * q5)
      × (p1 + p2 + p3 + p4 + p5 ≈ q1 + q2 + q3 + q4 + q5)
sum_cong p1 p2 p3 p4 p5 q1 q2 q3 q4 q5 e1 e2 e3 e4 e5 = omega arith

module _ (m n : Matrix) (q r : MrgState) (e : Agree m n) (f : AgreeState q r) where
  pub rows-Agree : AgreeState (rows m q) (rows n r)
  rows-Agree = record {
    agree1 =
        (sum_cong _ _ _ _ _ _ _ _ _ _ (mul_cong m.d n.d q.z1 r.z1 e.agree_d f.agree1)
          (mul_cong m.s n.s q.z2 r.z2 e.agree_s f.agree2)
          (mul_cong m.a n.a q.z3 r.z3 e.agree_a f.agree3)
          (mul_cong m.b n.b q.z4 r.z4 e.agree_b f.agree4)
          (mul_cong m.c n.c q.z5 r.z5 e.agree_c f.agree5)).0;
    agree2 =
        (sum_cong _ _ _ _ _ _ _ _ _ _ (mul_cong m.c n.c q.z1 r.z1 e.agree_c f.agree1)
          (mul_cong m.w n.w q.z2 r.z2 e.agree_w f.agree2)
          (mul_cong m.s n.s q.z3 r.z3 e.agree_s f.agree3)
          (mul_cong m.a n.a q.z4 r.z4 e.agree_a f.agree4)
          (mul_cong m.b n.b q.z5 r.z5 e.agree_b f.agree5)).1;
    agree3 =
        (sum_cong _ _ _ _ _ _ _ _ _ _ (mul_cong m.b n.b q.z1 r.z1 e.agree_b f.agree1)
          (mul_cong m.v n.v q.z2 r.z2 e.agree_v f.agree2)
          (mul_cong m.w n.w q.z3 r.z3 e.agree_w f.agree3)
          (mul_cong m.s n.s q.z4 r.z4 e.agree_s f.agree4)
          (mul_cong m.a n.a q.z5 r.z5 e.agree_a f.agree5)).2;
    agree4 =
        (sum_cong _ _ _ _ _ _ _ _ _ _ (mul_cong m.a n.a q.z1 r.z1 e.agree_a f.agree1)
          (mul_cong m.u n.u q.z2 r.z2 e.agree_u f.agree2)
          (mul_cong m.v n.v q.z3 r.z3 e.agree_v f.agree3)
          (mul_cong m.w n.w q.z4 r.z4 e.agree_w f.agree4)
          (mul_cong m.s n.s q.z5 r.z5 e.agree_s f.agree5)).3;
    agree5 =
        (sum_cong _ _ _ _ _ _ _ _ _ _ (mul_cong m.s n.s q.z1 r.z1 e.agree_s f.agree1)
          (mul_cong m.t n.t q.z2 r.z2 e.agree_t f.agree2)
          (mul_cong m.u n.u q.z3 r.z3 e.agree_u f.agree3)
          (mul_cong m.v n.v q.z4 r.z4 e.agree_v f.agree4)
          (mul_cong m.w n.w q.z5 r.z5 e.agree_w f.agree5)).4;
  }

-- A matrix in range whose cached numbers are those that its last row gives.
abbrev pub plain_of : Matrix → Matrix
plain_of m = plain m.s m.t m.u m.v m.w

pub record IsCached (m : Matrix) : Type 0 where
  pub matrix : IsMatrix m
  pub cached : Agree m (plain_of m)

pub plain-Agree :
    (s t u v w s' t' u' v' w' : ℕ)
    → s ≈ s'
    → t ≈ t'
    → u ≈ u'
    → v ≈ v'
    → w ≈ w'
    → Agree (plain s t u v w) (plain s' t' u' v' w')
plain-Agree s t u v w s' t' u' v' w' e1 e2 e3 e4 e5 = record {
  agree_s = e1;
  agree_t = e2;
  agree_u = e3;
  agree_v = e4;
  agree_w = e5;
  agree_a = omega arith;
  agree_b = omega arith;
  agree_c = omega arith;
  agree_d = omega arith;
}

add_x :
    (a b : ℕ)
    → a < modulus
    → b < modulus
    → (mod_add (mod_mul_x a) b ≡ (x * a + b) % modulus) × (mod_add (mod_mul_x a) b < modulus)
add_x a b p q =
    let product = (mod_mul_constants 0 a (omega arith) p).0 in
    let sum = (mod_ops_lem 0 (mod_mul_x a) b (omega arith) (omega arith) q).0 in
    (omega arith, omega arith)

pub mrg_update_cache-IsCached :
    (s t u v w : ℕ)
    → s < modulus
    → t < modulus
    → u < modulus
    → v < modulus
    → w < modulus
    → IsCached (mrg_update_cache s t u v w)
unfolding mrg_update_cache
mrg_update_cache-IsCached s t u v w ps pt pu pv pw =
    let (a, pa) = add_x s t ps pt in
    let (b, pb) = add_x _ u pa pu in
    let (c, pc) = add_x _ v pb pv in
    let (d, pd) = add_x _ w pc pw in
    record {
      matrix = record {
        small_s = ps;
        small_t = pt;
        small_u = pu;
        small_v = pv;
        small_w = pw;
        small_a = pa;
        small_b = pb;
        small_c = pc;
        small_d = pd;
      };
      cached = record {
        agree_s = refl;
        agree_t = refl;
        agree_u = refl;
        agree_v = refl;
        agree_w = refl;
        agree_a = omega arith;
        agree_b = omega arith;
        agree_c = omega arith;
        agree_d = omega arith;
      };
    }
