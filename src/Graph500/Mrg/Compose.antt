-- ===== src/Graph500/Mrg/Compose.antt =====
-- `mrg_multiply` of trident-workloads/graph500/generator/splittable_mrg.c: the transition of a product is
-- one transition after the other.
use native.Mathlib.Nat.{mod-mod}
use trident_micro21_artifact.Graph500.ModArith.{
  modulus, mod_mul, mod_mac, mod_mul_y, mod_mac_lem, mod_mul_constants,
}
use trident_micro21_artifact.Graph500.Mrg.{
  Matrix, MrgState, mrg_multiply, mrg_apply_transition, mrg_update_cache,
}
use trident_micro21_artifact.Graph500.Mrg.Apply.{
  IsMatrix, IsState, MrgState_ext, mrg_apply_transition-Applied, mod_mul_lem,
}
use trident_micro21_artifact.Graph500.Mrg.Rows.{
  y, rows, times, row1-times, row2-times, row3-times, row4-times, row5-times,
}
use trident_micro21_artifact.Graph500.Mrg.Product.{
  ◌≈◌, mul_cong, Agree, AgreeState, rows-Agree, plain_of, IsCached, plain-Agree,
  mrg_update_cache-IsCached,
}
use trident_micro21_artifact.Base.{ℕ, ◌+◌, ◌*◌, ◌%◌, ◌<◌, ◌≡◌, refl, ap, ◌∙◌, arith}

-- A reduced number and the sum that it stands for.
abbrev Reduced : (n sum : ℕ) → Type 0
Reduced n sum = (n ≡ sum % modulus) × (n < modulus)

add_product :
    (n sum a b : ℕ)
    → Reduced n sum
    → a < modulus
    → b < modulus
    → Reduced (mod_mac n a b) (sum + a * b)
add_product n sum a b (e, small) p q =
    let (value, less) = mod_mac_lem n a b small p q in (value ∙ omega arith, less)

times_y : (n sum : ℕ) → Reduced n sum → Reduced (mod_mul_y n) (y * sum)
times_y n sum (e, small) =
    let value = (mod_mul_constants 0 n (omega arith) small).1 in (omega arith, omega arith)

again : (n sum : ℕ) → Reduced n sum → n ≈ sum
again n sum (e, small) = omega arith

-- The last row of the product, as the code reduces it.
record LastRow (m n : Matrix) : Type 0 where
  reduced_s :
      Reduced
        (mod_mac (mod_mac (mod_mac (mod_mac (mod_mul m.s n.d) m.t n.c) m.u n.b) m.v n.a) m.w n.s)
        (times m n).s
  reduced_t :
      Reduced
        (mod_mac
          (mod_mac (mod_mac (mod_mac (mod_mul_y (mod_mul m.s n.s)) m.t n.w) m.u n.v) m.v n.u)
          m.w
          n.t)
        (times m n).t
  reduced_u :
      Reduced
        (mod_mac
          (mod_mac (mod_mac (mod_mul_y (mod_mac (mod_mul m.s n.a) m.t n.s)) m.u n.w) m.v n.v)
          m.w
          n.u)
        (times m n).u
  reduced_v :
      Reduced
        (mod_mac
          (mod_mac (mod_mul_y (mod_mac (mod_mac (mod_mul m.s n.b) m.t n.a) m.u n.s)) m.v n.w)
          m.w
          n.v)
        (times m n).v
  reduced_w :
      Reduced
        (mod_mac
          (mod_mul_y (mod_mac (mod_mac (mod_mac (mod_mul m.s n.c) m.t n.b) m.u n.a) m.v n.s))
          m.w
          n.w)
        (times m n).w

module _ (m n : Matrix) (p : IsMatrix m) (q : IsMatrix n) where
  multiply-LastRow : LastRow m n
  multiply-LastRow =
      let ms = p.small_s in
      let mt = p.small_t in
      let mu = p.small_u in
      let mv = p.small_v in
      let mw = p.small_w in
      record {
        reduced_s =
            add_product _ _ _ _
              (add_product _ _ _ _
                (add_product _ _ _ _
                  (add_product _ _ _ _ (mod_mul_lem m.s n.d ms q.small_d) mt q.small_c) mu
                  q.small_b)
                mv q.small_a)
              mw q.small_s;
        reduced_t =
            add_product _ _ _ _
              (add_product _ _ _ _
                (add_product _ _ _ _
                  (add_product _ _ _ _ (times_y _ _ (mod_mul_lem m.s n.s ms q.small_s)) mt
                    q.small_w)
                  mu q.small_v)
                mv q.small_u)
              mw q.small_t;
        reduced_u =
            add_product _ _ _ _
              (add_product _ _ _ _
                (add_product _ _ _ _
                  (times_y _ _
                    (add_product _ _ _ _ (mod_mul_lem m.s n.a ms q.small_a) mt q.small_s))
                  mu q.small_w)
                mv q.small_v)
              mw q.small_u;
        reduced_v =
            add_product _ _ _ _
              (add_product _ _ _ _
                (times_y _ _ (
                  add_product _ _ _ _
                    (add_product _ _ _ _ (mod_mul_lem m.s n.b ms q.small_b) mt q.small_a) mu
                    q.small_s))
                mv q.small_w)
              mw q.small_v;
        reduced_w =
            add_product _ _ _ _
              (times_y _ _ (
                add_product _ _ _ _
                  (add_product _ _ _ _
                    (add_product _ _ _ _ (mod_mul_lem m.s n.c ms q.small_c) mt q.small_b) mu
                    q.small_a)
                  mv q.small_s))
              mw q.small_w;
      }

  pub mrg_multiply-IsCached : IsCached (mrg_multiply m n)
  unfolding mrg_multiply
  mrg_multiply-IsCached =
      let r = multiply-LastRow in
      mrg_update_cache-IsCached _ _ _ _ _ r.reduced_s.1 r.reduced_t.1 r.reduced_u.1 r.reduced_v.1
        r.reduced_w.1

  multiply-times : Agree (plain_of (mrg_multiply m n)) (times m n)
  unfolding mrg_multiply mrg_update_cache
  multiply-times =
      let r = multiply-LastRow in
      plain-Agree _ _ _ _ _ _ _ _ _ _ (again _ _ r.reduced_s) (again _ _ r.reduced_t)
        (again _ _ r.reduced_u) (again _ _ r.reduced_v) (again _ _ r.reduced_w)

Agree-trans : {m n k : Matrix} → Agree m n → Agree n k → Agree m k
Agree-trans e f = record {
  agree_s = e.agree_s ∙ f.agree_s;
  agree_t = e.agree_t ∙ f.agree_t;
  agree_u = e.agree_u ∙ f.agree_u;
  agree_v = e.agree_v ∙ f.agree_v;
  agree_w = e.agree_w ∙ f.agree_w;
  agree_a = e.agree_a ∙ f.agree_a;
  agree_b = e.agree_b ∙ f.agree_b;
  agree_c = e.agree_c ∙ f.agree_c;
  agree_d = e.agree_d ∙ f.agree_d;
}

-- The weighted sums of the last row of a product.
weighted_cong :
    (p1 p2 p3 p4 p5 q1 q2 q3 q4 q5 : ℕ)
    → p1 ≈ q1
    → p2 ≈ q2
    → p3 ≈ q3
    → p4 ≈ q4
    → p5 ≈ q5
    → (p1 + p2 + p3 + p4 + p5 ≈ q1 + q2 + q3 + q4 + q5)
      × (y * p1 + p2 + p3 + p4 + p5 ≈ y * q1 + q2 + q3 + q4 + q5)
      × (y * (p1 + p2) + p3 + p4 + p5 ≈ y * (q1 + q2) + q3 + q4 + q5)
      × (y * (p1 + p2 + p3) + p4 + p5 ≈ y * (q1 + q2 + q3) + q4 + q5)
      × (y * (p1 + p2 + p3 + p4) + p5 ≈ y * (q1 + q2 + q3 + q4) + q5)
weighted_cong p1 p2 p3 p4 p5 q1 q2 q3 q4 q5 e1 e2 e3 e4 e5 = omega arith

module _ (m m' n n' : Matrix) (e : Agree m m') (f : Agree n n') where
  last_cong :
      (n1 n2 n3 n4 n5 k1 k2 k3 k4 k5 : ℕ)
      → n1 ≈ k1
      → n2 ≈ k2
      → n3 ≈ k3
      → n4 ≈ k4
      → n5 ≈ k5
      → let p1 = m.s * n1 in
        let p2 = m.t * n2 in
        let p3 = m.u * n3 in
        let p4 = m.v * n4 in
        let p5 = m.w * n5 in
        let q1 = m'.s * k1 in
        let q2 = m'.t * k2 in
        let q3 = m'.u * k3 in
        let q4 = m'.v * k4 in
        let q5 = m'.w * k5 in
        (p1 + p2 + p3 + p4 + p5 ≈ q1 + q2 + q3 + q4 + q5)
        × (y * p1 + p2 + p3 + p4 + p5 ≈ y * q1 + q2 + q3 + q4 + q5)
        × (y * (p1 + p2) + p3 + p4 + p5 ≈ y * (q1 + q2) + q3 + q4 + q5)
        × (y * (p1 + p2 + p3) + p4 + p5 ≈ y * (q1 + q2 + q3) + q4 + q5)
        × (y * (p1 + p2 + p3 + p4) + p5 ≈ y * (q1 + q2 + q3 + q4) + q5)
  last_cong n1 n2 n3 n4 n5 k1 k2 k3 k4 k5 h1 h2 h3 h4 h5 =
      weighted_cong _ _ _ _ _ _ _ _ _ _ (mul_cong m.s m'.s n1 k1 e.agree_s h1)
        (mul_cong m.t m'.t n2 k2 e.agree_t h2) (mul_cong m.u m'.u n3 k3 e.agree_u h3)
        (mul_cong m.v m'.v n4 k4 e.agree_v h4) (mul_cong m.w m'.w n5 k5 e.agree_w h5)

  times-Agree : Agree (times m n) (times m' n')
  times-Agree =
      plain-Agree _ _ _ _ _ _ _ _ _ _
        (last_cong n.d n.c n.b n.a n.s n'.d n'.c n'.b n'.a n'.s f.agree_d f.agree_c f.agree_b
          f.agree_a f.agree_s).0
        (last_cong n.s n.w n.v n.u n.t n'.s n'.w n'.v n'.u n'.t f.agree_s f.agree_w f.agree_v
          f.agree_u f.agree_t).1
        (last_cong n.a n.s n.w n.v n.u n'.a n'.s n'.w n'.v n'.u f.agree_a f.agree_s f.agree_w
          f.agree_v f.agree_u).2
        (last_cong n.b n.a n.s n.w n.v n'.b n'.a n'.s n'.w n'.v f.agree_b f.agree_a f.agree_s
          f.agree_w f.agree_v).3
        (last_cong n.c n.b n.a n.s n.w n'.c n'.b n'.a n'.s n'.w f.agree_c f.agree_b f.agree_a
          f.agree_s f.agree_w).4

-- A transition agrees with the rows of its matrix.
apply-Agree :
    (m : Matrix) (st : MrgState)
    → IsMatrix m
    → IsState st
    → AgreeState (mrg_apply_transition m st) (rows m st)
apply-Agree m st p q =
    let a = (mrg_apply_transition-Applied m st p q).0 in
    record {
      agree1 = ap (λ n. n % modulus) a.row1 ∙ mod-mod _ modulus;
      agree2 = ap (λ n. n % modulus) a.row2 ∙ mod-mod _ modulus;
      agree3 = ap (λ n. n % modulus) a.row3 ∙ mod-mod _ modulus;
      agree4 = ap (λ n. n % modulus) a.row4 ∙ mod-mod _ modulus;
      agree5 = ap (λ n. n % modulus) a.row5 ∙ mod-mod _ modulus;
    }

AgreeState-trans : {q r k : MrgState} → AgreeState q r → AgreeState r k → AgreeState q k
AgreeState-trans e f = record {
  agree1 = e.agree1 ∙ f.agree1;
  agree2 = e.agree2 ∙ f.agree2;
  agree3 = e.agree3 ∙ f.agree3;
  agree4 = e.agree4 ∙ f.agree4;
  agree5 = e.agree5 ∙ f.agree5;
}

-- Reduced states that agree are equal.
AgreeState-eq : (q r k : MrgState) → IsState q → IsState r → AgreeState q k → AgreeState r k → q ≡ r
AgreeState-eq q r k p p' e f =
    MrgState_ext (omega (arith, p.small1, p'.small1, e.agree1, f.agree1))
      (omega (arith, p.small2, p'.small2, e.agree2, f.agree2))
      (omega (arith, p.small3, p'.small3, e.agree3, f.agree3))
      (omega (arith, p.small4, p'.small4, e.agree4, f.agree4))
      (omega (arith, p.small5, p'.small5, e.agree5, f.agree5))

AgreeState-refl : (q : MrgState) → AgreeState q q
AgreeState-refl q = record {
  agree1 = refl;
  agree2 = refl;
  agree3 = refl;
  agree4 = refl;
  agree5 = refl;
}

plain_times-Agree :
    (m n : Matrix) (st : MrgState)
    → AgreeState
        (rows (times (plain_of m) (plain_of n)) st)
        (rows (plain_of m) (rows (plain_of n) st))
plain_times-Agree m n st = record {
  agree1 = ap (λ k. k % modulus) (row1-times m.s m.t m.u m.v m.w n.s n.t n.u n.v n.w st);
  agree2 = ap (λ k. k % modulus) (row2-times m.s m.t m.u m.v m.w n.s n.t n.u n.v n.w st);
  agree3 = ap (λ k. k % modulus) (row3-times m.s m.t m.u m.v m.w n.s n.t n.u n.v n.w st);
  agree4 = ap (λ k. k % modulus) (row4-times m.s m.t m.u m.v m.w n.s n.t n.u n.v n.w st);
  agree5 = ap (λ k. k % modulus) (row5-times m.s m.t m.u m.v m.w n.s n.t n.u n.v n.w st);
}

-- For two matrices in range whose cached numbers fit their last rows, as all that the file makes do,
-- and a state in range, the transition of the product is the transition of the second matrix and
-- then that of the first; the product is such a matrix again.
pub mrg_multiply-Composes :
    (m n : Matrix) (st : MrgState)
    → IsCached m
    → IsCached n
    → IsState st
    → IsCached (mrg_multiply m n)
      × (mrg_apply_transition (mrg_multiply m n) st
          ≡ mrg_apply_transition m (mrg_apply_transition n st))
mrg_multiply-Composes m n st p q v =
    let r = mrg_multiply-IsCached m n p.matrix q.matrix in
    let after = (mrg_apply_transition-Applied n st q.matrix v).1 in
    let one = AgreeState-trans (apply-Agree (mrg_multiply m n) st r.matrix v) (
      AgreeState-trans
        (rows-Agree (mrg_multiply m n) (times (plain_of m) (plain_of n)) st st
          (Agree-trans r.cached (
            Agree-trans (multiply-times m n p.matrix q.matrix)
              (times-Agree m (plain_of m) n (plain_of n) p.cached q.cached)))
          (AgreeState-refl st))
        (plain_times-Agree m n st)) in
    let two = AgreeState-trans (apply-Agree m (mrg_apply_transition n st) p.matrix after) (
      rows-Agree m (plain_of m) (mrg_apply_transition n st) (rows (plain_of n) st) p.cached (
        AgreeState-trans (apply-Agree n st q.matrix v)
          (rows-Agree n (plain_of n) st st q.cached (AgreeState-refl st)))) in
    (
      r,
      AgreeState-eq _ _ _ (mrg_apply_transition-Applied (mrg_multiply m n) st r.matrix v).1
          (mrg_apply_transition-Applied m (mrg_apply_transition n st) p.matrix after).1 one two,
    )
