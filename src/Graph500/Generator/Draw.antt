-- ===== src/Graph500/Generator/Draw.antt =====
-- `generate_4way_bernoulli` of trident-workloads/graph500/generator/graph_generator.c draws until a
-- number is not below `limit`: the loop ends, since the generator cannot give nine small numbers
-- in a row unless its state is zero.
use trident_micro21_artifact.Graph500.ModArith.{modulus}
use trident_micro21_artifact.Graph500.Mrg.{MrgState, mrg_orig_step, mrg_get_uint_orig}
use trident_micro21_artifact.Graph500.Mrg.Apply.{orig_first, orig_rest}
use trident_micro21_artifact.Graph500.Mrg.Steps.{steps, IsLive, mrg_orig_step-IsLive}
use trident_micro21_artifact.Graph500.Generator.{
  limit, draw, generate_4way_bernoulli, initiator_denominator, square_of,
}
use trident_micro21_artifact.Base.{
  ℕ, zero, suc, ◌+◌, ◌-◌, ◌*◌, ◌/◌, ◌%◌, ◌≤◌, ◌<◌, ◌≡◌, refl, ◌⊎◌, inl, inr, some, arith, ltb,
  Bool-cases,
}

-- Two small numbers do not give a third one.
small_numbers :
    (a b c : ℕ)
    → a < limit
    → b < limit
    → c < limit
    → c ≡ (107374182 * a + 104480 * b) % modulus
    → (a ≡ 0) × (b ≡ 0) × (c ≡ 0)
small_numbers a b c p q r e = omega arith

-- After `k` small numbers in a row.
abbrev Stage : ℕ → MrgState → Type 0
Stage k st =
    (1 ≤ k → st.z1 < limit)
    × (2 ≤ k → st.z2 < limit)
    × (3 ≤ k → st.z3 < limit)
    × (4 ≤ k → st.z4 < limit)
    × (5 ≤ k → st.z5 < limit)
    × (6 ≤ k → st.z1 + st.z2 ≡ 0)
    × (7 ≤ k → st.z3 ≡ 0)
    × (8 ≤ k → st.z4 ≡ 0)

early-Stage :
    (k : ℕ) (st next : MrgState)
    → k < 5
    → Stage k st
    → next.z1 < limit
    → (next.z2 ≡ st.z1) × (next.z3 ≡ st.z2) × (next.z4 ≡ st.z3) × (next.z5 ≡ st.z4)
    → Stage (suc k) next
early-Stage k st next h s small (e2, e3, e4, e5) = (
  λ _. small,
  λ le. rw e2 (s.0 (omega arith)),
  λ le. rw e3 (s.1 (omega arith)),
  λ le. rw e4 (s.2 (omega arith)),
  λ le. rw e5 (s.3 (omega arith)),
  λ le. absurd (omega arith),
  λ le. absurd (omega arith),
  λ le. absurd (omega arith),
)

late-Stage :
    (k : ℕ) (st next : MrgState)
    → 5 ≤ k
    → k < 9
    → Stage k st
    → IsLive st
    → next.z1 < limit
    → next.z1 ≡ (107374182 * st.z1 + 104480 * st.z5) % modulus
    → (next.z2 ≡ st.z1) × (next.z3 ≡ st.z2) × (next.z4 ≡ st.z3) × (next.z5 ≡ st.z4)
    → (k < 8) × Stage (suc k) next
late-Stage k st next ge lt (s1, s2, s3, s4, s5, s6, s7, s8) v small e (e2, e3, e4, e5) =
    let z = small_numbers st.z1 st.z5 next.z1 (s1 (omega arith)) (s5 ge) small e in
    let low2 = s2 (omega arith) in
    let low3 = s3 (omega arith) in
    let low4 = s4 (omega arith) in
    let live = v.nonzero in
    (
      elim (Bool-cases (ltb k 8)) [
        | inl below ↦ ground arith
        | inr full ↦
            let eight : 8 ≤ k = ground arith in
            let z12 = s6 (omega arith) in
            let z3 = s7 (omega arith) in let z4 = s8 eight in absurd (omega arith)
      ],
      (
        λ _. small,
        λ le. omega arith,
        λ le. omega arith,
        λ le. omega arith,
        λ le. omega arith,
        λ le. omega arith,
        λ le. let z12 = s6 (omega arith) in omega arith,
        λ le. let z3 = s7 (omega arith) in omega arith,
      ),
    )

pub record Drawn (fuel : ℕ) (st : MrgState) : Type 0 where
  pub value : ℕ
  pub after : MrgState
  pub count : ℕ
  pub returned : draw fuel st ≡ some (value, after)
  pub some_rounds : 0 < count
  pub reached : after ≡ steps count st
  pub is_first : value ≡ after.z1
  pub skipped : (i : ℕ) → 0 < i → i < count → (steps i st).z1 < limit
  pub enough : limit ≤ value
  pub below : value < modulus
  pub live : IsLive after

next-Stage :
    (k : ℕ) (st : MrgState)
    → k < 9
    → Stage k st
    → IsLive st
    → (mrg_orig_step st).z1 < limit
    → (k < 8) × Stage (suc k) (mrg_orig_step st)
next-Stage k st h s v small = elim (Bool-cases (ltb k 5)) [
  | inl early ↦
      let five : k < 5 = ground arith in
      (omega arith, early-Stage k st (mrg_orig_step st) five s small (orig_rest st))
  | inr late ↦
      late-Stage k st (mrg_orig_step st) (ground arith) h s v small (orig_first st v.state)
        (orig_rest st)
]

skipped_suc :
    (st : MrgState) (count i : ℕ)
    → (mrg_orig_step st).z1 < limit
    → ((j : ℕ) → 0 < j → j < count → (steps j (mrg_orig_step st)).z1 < limit)
    → 0 < i
    → i < suc count
    → (steps i st).z1 < limit
unfolding steps
skipped_suc st count zero low h pos lt = absurd (omega arith)
skipped_suc st count (suc zero) low h pos lt = low
skipped_suc st count (suc (suc i)) low h pos lt = h (suc i) (omega arith) (omega arith)

draw-Stage : (f k : ℕ) (st : MrgState) → f + k ≡ 9 → k < 9 → Stage k st → IsLive st → Drawn f st
unfolding draw mrg_get_uint_orig steps
draw-Stage zero k st e lt s v = absurd (omega arith)
draw-Stage (suc f) k st e lt s v =
    let next = mrg_orig_step st in
    let live = mrg_orig_step-IsLive st v in
    elim (Bool-cases (ltb next.z1 limit)) [
      | inl small ↦
          let low : next.z1 < limit = ground arith in
          let (more, stage) = next-Stage k st lt s v low in
          let rest = draw-Stage f (suc k) next (omega arith) (omega arith) stage live in
          record {
            value = rest.value;
            after = rest.after;
            count = suc rest.count;
            returned = rw small rest.returned;
            some_rounds = omega arith;
            reached = rest.reached;
            is_first = rest.is_first;
            skipped = λ i. skipped_suc st rest.count i low rest.skipped;
            enough = rest.enough;
            below = rest.below;
            live = rest.live;
          }
      | inr large ↦ record {
        value = next.z1;
        after = next;
        count = 1;
        returned = rw large refl;
        some_rounds = omega arith;
        reached = refl;
        is_first = refl;
        skipped = λ i pos lt. absurd (omega arith);
        enough = ground arith;
        below = live.state.small1;
        live = live;
      }
    ]

-- Nine rounds are enough.
pub draw-Drawn : (st : MrgState) → IsLive st → Drawn 9 st
draw-Drawn st v =
    let never : (k : ℕ) → suc k ≤ 0 → ⊥ = λ k h. omega arith in
    draw-Stage 9 0 st (omega arith) (omega arith)
      (
        λ h. absurd (never 0 h),
        λ h. absurd (never 1 h),
        λ h. absurd (never 2 h),
        λ h. absurd (never 3 h),
        λ h. absurd (never 4 h),
        λ h. absurd (never 5 h),
        λ h. absurd (never 6 h),
        λ h. absurd (never 7 h),
      )
      v

-- The shares of the four squares among the numbers from 0 to 9999.
abbrev pub HasShare : (residue square : ℕ) → Type 0
HasShare residue square =
    ((residue < 1900) × (square ≡ 1))
    ⊎ ((1900 ≤ residue) × (residue < 3800) × (square ≡ 2))
    ⊎ ((3800 ≤ residue) × (residue < 9500) × (square ≡ 0))
    ⊎ ((9500 ≤ residue) × (residue < 10000) × (square ≡ 3))

square_of-HasShare : (residue : ℕ) → residue < 10000 → HasShare residue (square_of residue)
unfolding square_of
square_of-HasShare residue h = ground arith

-- The accepted numbers lie in `rounds_of_all` stretches, each with every remainder once.
abbrev pub rounds_of_all : ℕ
rounds_of_all = 214748

pub record Spread (residue : ℕ) : Type 0 where
  pub nth : ℕ → ℕ
  pub accepted :
      (i : ℕ)
      → i < rounds_of_all
      → (limit ≤ nth i) × (nth i < modulus) × (nth i % initiator_denominator ≡ residue)
  pub distinct : (i k : ℕ) → nth i ≡ nth k → i ≡ k
  pub all :
      (value : ℕ)
      → limit ≤ value
      → value < modulus
      → value % initiator_denominator ≡ residue
      → (i : ℕ) × (i < rounds_of_all) × (nth i ≡ value)

Spread-each : (residue : ℕ) → residue < initiator_denominator → Spread residue
Spread-each residue h =
    let first = limit + (residue + initiator_denominator - limit) % initiator_denominator in
    record {
      nth = λ i. first + i * initiator_denominator;
      accepted = λ i lt. (omega arith, omega arith, omega arith);
      distinct = λ i k e. omega arith;
      all = λ value le lt e. ((value - limit) / initiator_denominator, omega arith, omega arith);
    }

pub record SquareDrawn (st : MrgState) : Type 0 where
  pub drawn : Drawn 9 st
  pub square : ℕ
  pub returned : generate_4way_bernoulli 9 st ≡ some (square, drawn.after)
  pub share : HasShare (drawn.value % initiator_denominator) square
  pub spread : (residue : ℕ) → residue < initiator_denominator → Spread residue

-- From every state of the generator that is in range and not zero, `generate_4way_bernoulli` ends
-- within nine rounds. It takes the first number from `limit` on, and returns 1, 2, 0 or 3 for 1900,
-- 1900, 5700 and 500 of the 10000 remainders; the state is again in range and not zero. Of the
-- numbers from `limit` on below the modulus, each remainder has 214748.
pub generate_4way_bernoulli-SquareDrawn : (st : MrgState) → IsLive st → SquareDrawn st
unfolding generate_4way_bernoulli
generate_4way_bernoulli-SquareDrawn st v =
    let drawn = draw-Drawn st v in
    record {
      drawn = drawn;
      square = square_of (drawn.value % initiator_denominator);
      returned = rw drawn.returned refl;
      share = square_of-HasShare (drawn.value % initiator_denominator) (omega arith);
      spread = Spread-each;
    }

pub square-lt : {residue square : ℕ} → HasShare residue square → square < 4
square-lt share = ground arith
