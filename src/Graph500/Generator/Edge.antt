-- ===== src/Graph500/Generator/Edge.antt =====
-- `make_one_edge` of trident-workloads/graph500/generator/graph_generator.c: its loop ends, its assertions
-- hold, and the ends of the edge are vertices.
use native.Mathlib.Nat.{one-le-pow, pow-suc, pow-le-pow_right}
use trident_micro21_artifact.Graph500.Mrg.{MrgState}
use trident_micro21_artifact.Graph500.Mrg.Steps.{IsLive}
use trident_micro21_artifact.Graph500.Generator.{
  edge_loop, offsets, make_one_edge, write_edge, scramble,
}
use trident_micro21_artifact.Graph500.Generator.Draw.{
  generate_4way_bernoulli-SquareDrawn, square-lt,
}
use trident_micro21_artifact.Graph500.Generator.Scramble.{scramble-Permutes}
use trident_micro21_artifact.Base.{
  ℕ, zero, suc, ◌+◌, ◌*◌, ◌/◌, ◌%◌, ◌^◌, ◌≤◌, ◌<◌, ◌≡◌, refl, ◌⊎◌, inl, true, some, arith, ltb, leb,
  lt→ltb, le→leb,
}

-- The square that is left to choose from: on the diagonal, or above it by its size or more.
abbrev IsSquare : (total nverts base_src base_tgt : ℕ) → Type 0
IsSquare total nverts base_src base_tgt =
    ((base_src ≡ base_tgt) ⊎ (base_src + nverts ≤ base_tgt)) × (base_tgt + nverts ≤ total)

abbrev Flipped : (base_src base_tgt : ℕ) → ℕ × ℕ → Type 0
Flipped base_src base_tgt (so, to) = (so < 2) × (to < 2) × (base_src ≡ base_tgt → so ≤ to)

offsets-Flipped :
    (base_src base_tgt square : ℕ)
    → square < 4
    → Flipped base_src base_tgt (offsets base_src base_tgt square)
unfolding offsets
offsets-Flipped base_src base_tgt square h = ground arith

quarter-IsSquare :
    (total half base_src base_tgt so to : ℕ)
    → IsSquare total (2 * half) base_src base_tgt
    → Flipped base_src base_tgt (so, to)
    → IsSquare total half (base_src + half * so) (base_tgt + half * to)
quarter-IsSquare total half s t zero zero q f = ground arith
quarter-IsSquare total half s t zero (suc zero) q f = ground arith
quarter-IsSquare total half s t (suc zero) zero q f = ground arith
quarter-IsSquare total half s t (suc zero) (suc zero) q f = ground arith
quarter-IsSquare total half s t (suc (suc n)) to q f = absurd (omega arith)
quarter-IsSquare total half s t zero (suc (suc n)) q f = absurd (omega arith)
quarter-IsSquare total half s t (suc zero) (suc (suc n)) q f = absurd (omega arith)

-- An edge that points up from the diagonal.
pub record DrawnEnds (total fuel rounds nverts base_src base_tgt : ℕ) (st : MrgState) : Type 0 where
  pub src : ℕ
  pub tgt : ℕ
  pub returned : edge_loop fuel rounds nverts base_src base_tgt st ≡ some (src, tgt)
  pub ordered : src ≤ tgt
  pub below : tgt < total

edge_loop-DrawnEnds :
    (total m base_src base_tgt : ℕ) (st : MrgState)
    → IsSquare total (2 ^ m) base_src base_tgt
    → IsLive st
    → DrawnEnds total 9 (suc m) (2 ^ m) base_src base_tgt st
unfolding edge_loop
edge_loop-DrawnEnds total zero s t st q v = record {
  src = s;
  tgt = t;
  returned = refl;
  ordered = ground arith;
  below = ground arith;
}
edge_loop-DrawnEnds total (suc m) s t st q v =
    let b = generate_4way_bernoulli-SquareDrawn st v in
    let half : 2 ^ suc m / 2 ≡ 2 ^ m = omega (arith, pow-suc 2 m) in
    let big : ltb 1 (2 ^ suc m) ≡ true =
      lt→ltb 1 (2 ^ suc m) (omega (arith, pow-suc 2 m, one-le-pow m 2)) in
    let ordered : leb s t ≡ true = le→leb s t (ground arith) in
    let (so, to) = offsets s t b.square in
    let rest =
      edge_loop-DrawnEnds total m (s + 2 ^ m * so) (t + 2 ^ m * to) b.drawn.after
        (quarter-IsSquare total (2 ^ m) s t so to (ground (arith, pow-suc 2 m))
          (offsets-Flipped s t b.square (square-lt b.share)))
        b.drawn.live in
    record {
      src = rest.src;
      tgt = rest.tgt;
      returned = rw (big, b.returned, ordered, half) rest.returned;
      ordered = rest.ordered;
      below = rest.below;
    }

pub record MadeEdge (lg_n : ℕ) (st : MrgState) (val0 val1 : ℕ) : Type 0 where
  pub chosen : DrawnEnds (2 ^ lg_n) 9 (suc lg_n) (2 ^ lg_n) 0 0 st
  pub v0 : ℕ
  pub v1 : ℕ
  pub returned : make_one_edge 9 (2 ^ lg_n) lg_n st val0 val1 ≡ some (v0, v1)
  pub first : scramble chosen.src lg_n val0 val1 ≡ some v0
  pub second : scramble chosen.tgt lg_n val0 val1 ≡ some v1
  pub below0 : v0 < 2 ^ lg_n
  pub below1 : v1 < 2 ^ lg_n

-- For a graph of 2 ^ lg_n vertices, lg_n from 1 to 32, and a state of the generator that is in range
-- and not zero, `make_one_edge` draws nine numbers at most for each level, passes its assertions,
-- and writes the scrambled ends of an edge that points up from the diagonal. Both are vertices,
-- and nothing of them is cut off.
pub make_one_edge-MadeEdge :
    (lg_n : ℕ) (st : MrgState) (val0 val1 : ℕ)
    → 0 < lg_n
    → lg_n ≤ 32
    → IsLive st
    → MadeEdge lg_n st val0 val1
unfolding make_one_edge write_edge
make_one_edge-MadeEdge lg_n st val0 val1 pos le v =
    let c = edge_loop-DrawnEnds (2 ^ lg_n) lg_n 0 0 st (inl refl, omega arith) v in
    let permutes = (scramble-Permutes lg_n val0 val1 pos (omega arith)).0 in
    let (v0, e0, low0) = permutes c.src (omega (arith, c.ordered, c.below)) in
    let (v1, e1, low1) = permutes c.tgt c.below in
    let fits : 2 ^ lg_n ≤ 2 ^ 32 = pow-le-pow_right {n = 2} (omega arith) {i = lg_n} {j = 32} le in
    let whole0 : v0 % 2 ^ 32 ≡ v0 = omega arith in
    let whole1 : v1 % 2 ^ 32 ≡ v1 = omega arith in
    record {
      chosen = c;
      v0 = v0;
      v1 = v1;
      returned = rw (c.returned, e0, e1, whole0, whole1) refl;
      first = e0;
      second = e1;
      below0 = low0;
      below1 = low1;
    }
