-- ===== src/Gups/Starts.antt =====
-- The jump of `HPCC_starts` of trident-workloads/gups/gups.c to a place of the sequence.
use trident_micro21_artifact.Gups.Square.{sequence-suc, square-sequence, square, power-pos}
use native.Mathlib.Nat.{div-div-eq-div-mul, div-eq_of_lt, lt-mul-div-succ, pow-suc}
use native.Mathlib.Nat.{pow-suc}
use trident_micro21_artifact.Gups.{
  step, sequence, hpcc_starts, top_bit, jump, within, period, start,
}
use trident_micro21_artifact.Base.{
  ℕ, zero, suc, ◌+◌, ◌-◌, ◌*◌, ◌/◌, ◌%◌, ◌^◌, ◌≤◌, ◌<◌, ◌≡◌, refl, sym, ap, ◌∙◌, inl, inr, arith,
  ltb, ◌==◌, ltb-false, ltb-false→le, Bool-cases,
}

-- The next digit of the place.
place-suc : (n i : ℕ) → n / 2 ^ i ≡ 2 * (n / 2 ^ suc i) + n / 2 ^ i % 2
place-suc n i =
    let e : 2 ^ i * 2 ≡ 2 ^ suc i = omega (arith, pow-suc 2 i) in
    let halves : n / 2 ^ i / 2 ≡ n / 2 ^ suc i =
      div-div-eq-div-mul n (2 ^ i) 2 ∙ ap (λ d. n / d) e in
    omega arith

jump-sequence : (n i : ℕ) → jump n i (sequence (n / 2 ^ i)) ≡ sequence n
unfolding jump square
jump-sequence n zero = let e : n / 2 ^ 0 ≡ n = omega arith in rw e refl
jump-sequence n (suc i) =
    let doubled = square-sequence (n / 2 ^ suc i) in
    elim (Bool-cases (n / 2 ^ i % 2 == 1)) [
      | inl odd ↦
          let e : n / 2 ^ i ≡ suc (2 * (n / 2 ^ suc i)) = ground (arith, place-suc n i) in
          rw odd (
            ap (jump n i)
              (ap step doubled ∙ sym (sequence-suc (2 * (n / 2 ^ suc i))) ∙ ap sequence (sym e))
            ∙ jump-sequence n i)
      | inr even ↦
          let e : n / 2 ^ i ≡ 2 * (n / 2 ^ suc i) = ground (arith, place-suc n i) in
          rw even (ap (jump n i) (doubled ∙ ap sequence (sym e)) ∙ jump-sequence n i)
    ]

below-power : (n i : ℕ) → n / 2 ^ i ≡ 0 → n < 2 ^ i
below-power n i e =
    let unit : 2 ^ i * (0 + 1) ≡ 2 ^ i = omega arith in
    rw (e, unit) at (lt-mul-div-succ n (power-pos i))

-- The search stops at the top bit.
top_bit_lem : (n rounds : ℕ) → 0 < n → n < 2 ^ rounds → n / 2 ^ top_bit n rounds ≡ 1
unfolding top_bit
top_bit_lem n zero p h = absurd (omega arith)
top_bit_lem n (suc i) p h =
    let above : n / 2 ^ suc i ≡ 0 = div-eq_of_lt h in
    elim (Bool-cases (n / 2 ^ i % 2 == 1)) [
      | inl found ↦ rw found (ground (arith, place-suc n i))
      | inr passed ↦
          let none : n / 2 ^ i ≡ 0 = ground (arith, place-suc n i) in
          rw passed (top_bit_lem n i p (below-power n i none))
    ]

sequence-zero : 1 ≡ sequence 0
unfolding sequence
sequence-zero = refl

sequence-one : 2 ≡ sequence 1
unfolding sequence step
sequence-one = refl

start-sequence : (n : ℕ) → n < 2 ^ 63 → start n ≡ sequence n
unfolding start
start-sequence n h = elim (Bool-cases (n == 0)) [
  | inl e ↦ let z : n ≡ 0 = ground arith in rw z sequence-zero
  | inr e ↦
      let top = top_bit_lem n 63 (ground arith) h in
      rw e (
        ap (jump n (top_bit n 63)) (sequence-one ∙ ap sequence (sym top))
        ∙ jump-sequence n (top_bit n 63))
]

within-le : (fuel n : ℕ) → n ≤ suc fuel * period → within fuel n ≤ period
unfolding within
within-le zero n h = omega arith
within-le (suc fuel) n h = elim (Bool-cases (ltb period n)) [
  | inl above ↦ rw above (within-le fuel (n - period) (omega arith))
  | inr below ↦ rw below (ltb-false→le period n below)
]

within_same : (fuel n : ℕ) → n ≤ period → within (suc fuel) n ≡ n
unfolding within
within_same fuel n h = rw (ltb-false period n h) refl

-- For a place from 0 below 2 ^ 63, `HPCC_starts` returns the number of the sequence at the place
-- that its loop reduces to at most `PERIOD`, and a place up to `PERIOD` stays what it is.
pub hpcc_starts-sequence :
    (n : ℕ)
    → n < 2 ^ 63
    → (hpcc_starts n ≡ sequence (within 7 n))
      × (within 7 n ≤ period)
      × (n ≤ period → hpcc_starts n ≡ sequence n)
unfolding hpcc_starts
hpcc_starts-sequence n h =
    let small : within 7 n ≤ period = within-le 7 n (omega arith) in
    let here : hpcc_starts n ≡ sequence (within 7 n) = start-sequence (within 7 n) (omega arith) in
    (here, small, λ le. here ∙ ap sequence (within_same 6 n le))
