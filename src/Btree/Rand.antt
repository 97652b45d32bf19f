-- ===== src/Btree/Rand.antt =====
-- The random numbers of trident-workloads/btree/btree1.c: `next`, `redisLrand48`, `redisSrand48` and
-- their macros. The numbers are `uint64_t`, so sums and products wrap at 2 ^ 64. An argument of
-- `MUL` is below 2 ^ 16, so the product fits `long`; it is stored in an `int32_t`, and its bits are
-- read back as `unsigned`, so `l` is kept as its bit pattern.
use trident_micro21_artifact.Base.{
  ℕ, ◌+◌, ◌-◌, ◌*◌, ◌/◌, ◌%◌, ◌^◌, ◌<◌, bit_and, ◌≡◌, refl, ap₂, ◌∙◌, arith, ltb, if◌then◌else◌,
  bit_and_mask,
}

-- MASK, LOW (x), HIGH (x)
abbrev pub mask : ℕ
mask = 2 ^ 15 + 2 ^ 15 - 1

unfoldable pub low : ℕ → ℕ
low x = bit_and (x % 2 ^ 32) mask

-- HIGH of the `int32_t` with bit pattern `l`: `>>` keeps the sign, and LOW drops the copies of it.
unfoldable pub high : ℕ → ℕ
high l = low (if ltb l (2 ^ 31) then l / 2 ^ 16 else l / 2 ^ 16 + (2 ^ 32 - 2 ^ 16))

-- MUL (x, y, z): the two halves of the product.
unfoldable pub mul : ℕ → ℕ → ℕ × ℕ
mul x y = let l = x * y % 2 ^ 32 in (low l, high l)

-- CARRY (x, y): `(int32_t)(x) + (long)(y) > MASK`, for x below 2 ^ 31 and y below 2 ^ 63.
unfoldable pub carry : ℕ → ℕ → ℕ
carry x y = if ltb mask (x + y) then 1 else 0

-- x[0], x[1], x[2]; a[0], a[1], a[2]; c
pub record Seed : Type 0 where
  pub x0 : ℕ
  pub x1 : ℕ
  pub x2 : ℕ

abbrev pub a0 : ℕ
a0 = 0xE66D

abbrev pub a1 : ℕ
a1 = 0xDEEC

abbrev pub a2 : ℕ
a2 = 0x5

abbrev pub c : ℕ
c = 0xB

-- ADDEQU (x, y, z) is `z = CARRY (x, y), x = LOW (x + y)`: the new x, and z.
unfoldable pub addequ : ℕ → ℕ → ℕ × ℕ
addequ x y = (low ((x + y) % 2 ^ 64), carry x y)

unfoldable pub next : Seed → Seed
next s =
    let p = mul a0 s.x0 in
    let p0 = addequ p.0 c in
    let p1 = addequ p.1 p0.1 in
    let q = mul a0 s.x1 in
    let p1' = addequ p1.0 q.0 in
    let r = mul a1 s.x0 in
    record {
      x2 = low (
          (p1'.1 + p1.1 + carry p1'.0 r.0 + q.1 + r.1 + a0 * s.x2 + a1 * s.x1 + a2 * s.x0)
          % 2 ^ 64);
      x1 = low ((p1'.0 + r.0) % 2 ^ 64);
      x0 = low p0.0;
    }

-- The value, and the state after it.
unfoldable pub redis_lrand48 : Seed → ℕ × Seed
redis_lrand48 s = let t = next s in ((t.x2 * 2 ^ 15 % 2 ^ 64 + t.x1 / 2) % 2 ^ 64, t)

-- `seedval` is the bit pattern of an `int32_t`.
unfoldable pub redis_srand48 : ℕ → Seed
redis_srand48 seedval = record { x0 = 0x330E; x1 = low seedval; x2 = high seedval }

-- The 48-bit number that the three halves stand for.
abbrev pub value : Seed → ℕ
value s = s.x0 + s.x1 * 2 ^ 16 + s.x2 * 2 ^ 32

pub record IsSeed (s : Seed) : Type 0 where
  pub small0 : s.x0 < 2 ^ 16
  pub small1 : s.x1 < 2 ^ 16
  pub small2 : s.x2 < 2 ^ 16

pub low_lem : (x : ℕ) → low x ≡ x % 2 ^ 16
unfolding low
low_lem x = bit_and_mask 16 (x % 2 ^ 32) ∙ omega arith

pub high_lem : (l : ℕ) → l < 2 ^ 32 → high l ≡ l / 2 ^ 16
unfolding high
high_lem l h = ground (arith, low_lem (l / 2 ^ 16), low_lem (l / 2 ^ 16 + (2 ^ 32 - 2 ^ 16)))

pub mul_lem : (x y : ℕ) → x * y < 2 ^ 32 → mul x y ≡ (x * y % 2 ^ 16, x * y / 2 ^ 16)
unfolding mul
mul_lem x y h =
    ap₂ (λ (a b : ℕ). (a, b)) (low_lem (x * y % 2 ^ 32) ∙ omega arith)
      (high_lem (x * y % 2 ^ 32) (omega arith) ∙ omega arith)

pub carry_lem : (x y : ℕ) → x + y < 2 ^ 17 → carry x y ≡ (x + y) / 2 ^ 16
unfolding carry
carry_lem x y h = ground arith

pub addequ_lem : (x y : ℕ) → x + y < 2 ^ 17 → addequ x y ≡ ((x + y) % 2 ^ 16, (x + y) / 2 ^ 16)
unfolding addequ
addequ_lem x y h =
    ap₂ (λ (a b : ℕ). (a, b)) (low_lem ((x + y) % 2 ^ 64) ∙ omega arith) (carry_lem x y h)

-- The three 16-bit columns of a sum of products, with the carries between them.
module _ (p q r rest : ℕ) where
  abbrev pub column : ℕ
  column = (p + c) / 2 ^ 16 + q % 2 ^ 16 + r % 2 ^ 16

  abbrev pub columns : Seed
  columns = record {
    x0 = (p + c) % 2 ^ 16;
    x1 = column % 2 ^ 16;
    x2 = (column / 2 ^ 16 + q / 2 ^ 16 + r / 2 ^ 16 + rest) % 2 ^ 16;
  }

  value-columns : value columns ≡ (p + c + (q + r) * 2 ^ 16 + rest * 2 ^ 32) % 2 ^ 48
  value-columns = omega arith

  columns-IsSeed : IsSeed columns
  columns-IsSeed = omega arith

Seed_ext : {s t : Seed} → s.x0 ≡ t.x0 → s.x1 ≡ t.x1 → s.x2 ≡ t.x2 → s ≡ t
Seed_ext p q r = λ i. record { x0 = p i; x1 = q i; x2 = r i }

next-columns :
    (s : Seed)
    → IsSeed s
    → next s ≡ columns (a0 * s.x0) (a0 * s.x1) (a1 * s.x0) (a0 * s.x2 + a1 * s.x1 + a2 * s.x0)
unfolding next
next-columns s v =
    let p = a0 * s.x0 in
    let q = a0 * s.x1 in
    let r = a1 * s.x0 in
    let k0 = (p % 2 ^ 16 + c) / 2 ^ 16 in
    let u = (p / 2 ^ 16 + k0) % 2 ^ 16 in
    rw
      (
        mul_lem a0 s.x0 (omega (arith, v.small0)),
        mul_lem a0 s.x1 (omega (arith, v.small1)),
        mul_lem a1 s.x0 (omega (arith, v.small0)),
        addequ_lem (p % 2 ^ 16) c (omega arith),
        addequ_lem (p / 2 ^ 16) k0 (omega (arith, v.small0)),
        addequ_lem u (q % 2 ^ 16) (omega arith),
        carry_lem ((u + q % 2 ^ 16) % 2 ^ 16) (r % 2 ^ 16) (omega arith),
      )
      (Seed_ext (low_lem _ ∙ omega arith) (low_lem _ ∙ omega arith)
        (low_lem _ ∙ omega (arith, v.small0, v.small1, v.small2)))

-- On a state of three 16-bit halves, one run of `next` is the step of the 48-bit linear congruential
-- generator, X := 0x5DEECE66D * X + 0xB modulo 2 ^ 48, and leaves three 16-bit halves.
pub next_lem :
    (s : Seed)
    → IsSeed s
    → (value (next s) ≡ (0x5DEECE66D * value s + 0xB) % 2 ^ 48) × IsSeed (next s)
next_lem s v =
    let p = a0 * s.x0 in
    let q = a0 * s.x1 in
    let r = a1 * s.x0 in
    let rest = a0 * s.x2 + a1 * s.x1 + a2 * s.x0 in
    rw (next-columns s v) (value-columns p q r rest ∙ omega arith, columns-IsSeed p q r rest)

-- On a state of three 16-bit halves, `redisLrand48` returns the upper 31 of the 48 bits of the
-- generator's next number, and the state after it is that of `next`.
pub redis_lrand48_lem :
    (s : Seed)
    → IsSeed s
    → ((redis_lrand48 s).0 ≡ (0x5DEECE66D * value s + 0xB) % 2 ^ 48 / 2 ^ 17)
      × ((redis_lrand48 s).1 ≡ next s)
unfolding redis_lrand48
redis_lrand48_lem s v = (omega (arith, next_lem s v), refl)
