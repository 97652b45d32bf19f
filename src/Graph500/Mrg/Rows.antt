-- ===== src/Graph500/Mrg/Rows.antt =====
-- The matrices of trident-workloads/graph500/generator/splittable_mrg.c without reductions: rows times
-- states, products, and that numbers which agree modulo 2 ^ 31 - 1 may be put for one another.
use native.Mathlib.Nat.{mul_comm}
use trident_micro21_artifact.Graph500.Mrg.{Matrix, MrgState}
use trident_micro21_artifact.Base.{ℕ, ◌+◌, ◌*◌, ◌≡◌, ap, arith}

abbrev pub x : ℕ
x = 107374182

abbrev pub y : ℕ
y = 104480

-- `mrg_update_cache` without reductions.
abbrev pub plain : (s t u v w : ℕ) → Matrix
plain s t u v w =
    let a = x * s + t in
    let b = x * a + u in
    let c = x * b + v in
    let d = x * c + w in record { s = s; t = t; u = u; v = v; w = w; a = a; b = b; c = c; d = d }

abbrev pub row1 : Matrix → MrgState → ℕ
row1 m z = m.d * z.z1 + y * (m.s * z.z2 + m.a * z.z3 + m.b * z.z4 + m.c * z.z5)

abbrev pub row2 : Matrix → MrgState → ℕ
row2 m z = m.c * z.z1 + m.w * z.z2 + y * (m.s * z.z3 + m.a * z.z4 + m.b * z.z5)

abbrev pub row3 : Matrix → MrgState → ℕ
row3 m z = m.b * z.z1 + m.v * z.z2 + m.w * z.z3 + y * (m.s * z.z4 + m.a * z.z5)

abbrev pub row4 : Matrix → MrgState → ℕ
row4 m z = m.a * z.z1 + m.u * z.z2 + m.v * z.z3 + m.w * z.z4 + y * (m.s * z.z5)

abbrev pub row5 : Matrix → MrgState → ℕ
row5 m z = m.s * z.z1 + m.t * z.z2 + m.u * z.z3 + m.v * z.z4 + m.w * z.z5

abbrev pub rows : Matrix → MrgState → MrgState
rows m z = record { z1 = row1 m z; z2 = row2 m z; z3 = row3 m z; z4 = row4 m z; z5 = row5 m z }

-- The product, by its last row.
abbrev pub times : (m n : Matrix) → Matrix
times m n =
    plain (m.s * n.d + m.t * n.c + m.u * n.b + m.v * n.a + m.w * n.s)
      (y * (m.s * n.s) + m.t * n.w + m.u * n.v + m.v * n.u + m.w * n.t)
      (y * (m.s * n.a + m.t * n.s) + m.u * n.w + m.v * n.v + m.w * n.u)
      (y * (m.s * n.b + m.t * n.a + m.u * n.s) + m.v * n.w + m.w * n.v)
      (y * (m.s * n.c + m.t * n.b + m.u * n.a + m.v * n.s) + m.w * n.w)

distribute :
    (a b c d e n : ℕ) → (a + y * (b + c + d + e)) * n ≡ a * n + y * (b * n + c * n + d * n + e * n)
distribute a b c d e n = omega arith

module _ (s t u v w s' t' u' v' w' : ℕ) (z : MrgState) where
  abbrev first : Matrix
  first = plain s t u v w

  abbrev second : Matrix
  second = plain s' t' u' v' w'

  corner :
      (times first second).d
      ≡ first.d * second.d
        + y * (first.s * second.c + first.a * second.b + first.b * second.a + first.c * second.s)
  corner = omega arith

  pub row1-times : row1 (times first second) z ≡ row1 first (rows second z)
  row1-times =
      let scaled = ap (λ n. n * z.z1) corner in
      let spread =
        distribute (first.d * second.d) (first.s * second.c) (first.a * second.b)
          (first.b * second.a) (first.c * second.s) z.z1 in
      let spread' =
        distribute (second.d * z.z1) (second.s * z.z2) (second.a * z.z3) (second.b * z.z4)
          (second.c * z.z5) first.d in
      omega (arith, scaled, spread, spread', mul_comm first.d (row1 second z))

  pub row2-times : row2 (times first second) z ≡ row2 first (rows second z)
  row2-times = omega arith

  pub row3-times : row3 (times first second) z ≡ row3 first (rows second z)
  row3-times = omega arith

  pub row4-times : row4 (times first second) z ≡ row4 first (rows second z)
  row4-times = omega arith

  pub row5-times : row5 (times first second) z ≡ row5 first (rows second z)
  row5-times = omega arith
