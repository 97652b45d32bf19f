-- ===== src/Graph500/Generator/Scramble.antt =====
-- `scramble` of trident-workloads/graph500/generator/graph_generator.c: its two assertions hold, and it
-- gives different vertices different numbers.
use native.Mathlib.Nat.{one-le-pow, mod-eq_of_lt, div-lt_iff_lt-mul}
use mathlib.Core.Option.{some-injective}
use trident_micro21_artifact.Base.Digits.{
  digit, digit-shift, digit-mod, digit_ext, digit-bit_or, digit-zero, digit-lt, two_pow_add,
}
use trident_micro21_artifact.Base.Residues.{mod_cancel_add, mod_cancel_odd}
use trident_micro21_artifact.Graph500.Generator.{bitreverse, scramble_round, scramble}
use trident_micro21_artifact.Graph500.Generator.Reverse.{digit-bitreverse, bitreverse-lt}
use trident_micro21_artifact.Base.{
  ℕ, ◌+◌, ◌-◌, ◌*◌, ◌/◌, ◌%◌, ◌^◌, ◌≤◌, ◌<◌, bit_or, ◌≡◌, refl, sym, ap, ◌∙◌, some, arith,
}

mod_word : (n v : ℕ) → n ≤ 64 → v % 2 ^ 64 % 2 ^ n ≡ v % 2 ^ n
mod_word n v le =
    digit_ext n (v % 2 ^ 64 % 2 ^ n) (v % 2 ^ n) (ground (arith, one-le-pow n 2))
      (ground (arith, one-le-pow n 2))
      (λ k h.
        digit-mod n (v % 2 ^ 64) k h ∙ digit-mod 64 v k (omega arith) ∙ sym (digit-mod n v k h))

-- What a round returns.
abbrev top_bits : (n u : ℕ) → ℕ
top_bits n u = bitreverse u / 2 ^ (64 - n)

module _ (n : ℕ) (fits : n ≤ 64) where
  word_parts : 2 ^ 64 ≡ 2 ^ (64 - n) * 2 ^ n
  word_parts = ap (λ k. 2 ^ k) {x = 64} {y = 64 - n + n} (omega arith) ∙ two_pow_add (64 - n) n

  top_bits-lt : (u : ℕ) → top_bits n u < 2 ^ n
  top_bits-lt u =
      (div-lt_iff_lt-mul (one-le-pow (64 - n) 2 (omega arith))).1
        (omega (arith, word_parts, bitreverse-lt u))

  digit-top_bits : (u k : ℕ) → u < 2 ^ 64 → k < n → digit (top_bits n u) k ≡ digit u (n - 1 - k)
  digit-top_bits u k h low =
      digit-shift (bitreverse u) (64 - n) k
      ∙ digit-bitreverse u (64 - n + k) h (omega arith)
      ∙ ap (digit u) (omega arith)

  scramble_round_lem :
      (factor v : ℕ) → scramble_round n factor v ≡ some (top_bits n (v * factor % 2 ^ 64))
  unfolding scramble_round
  scramble_round_lem factor v =
      let none_above : top_bits n (v * factor % 2 ^ 64) / 2 ^ n ≡ 0 =
        let below_one =
          (div-lt_iff_lt-mul {x = top_bits n (v * factor % 2 ^ 64)} {y = 1}
              (one-le-pow n 2 (omega arith))).1
            (omega (arith, top_bits-lt (v * factor % 2 ^ 64))) in
        omega arith in
      rw none_above refl

  -- A round with an odd factor tells numbers apart by their `n` low bits.
  top_bits_inj :
      (factor v w : ℕ)
      → factor % 2 ≡ 1
      → top_bits n (v * factor % 2 ^ 64) ≡ top_bits n (w * factor % 2 ^ 64)
      → v % 2 ^ n ≡ w % 2 ^ n
  top_bits_inj factor v w odd e = mod_cancel_odd n v w factor odd (
      sym (mod_word n (v * factor) fits)
      ∙ digit_ext n (v * factor % 2 ^ 64 % 2 ^ n) (w * factor % 2 ^ 64 % 2 ^ n)
          (ground (arith, one-le-pow n 2)) (ground (arith, one-le-pow n 2))
          (λ k h.
            digit-mod n (v * factor % 2 ^ 64) k h
            ∙ ap (digit (v * factor % 2 ^ 64)) {y = n - 1 - (n - 1 - k)} (omega arith)
            ∙ sym (digit-top_bits (v * factor % 2 ^ 64) (n - 1 - k) (omega arith) (omega arith))
            ∙ ap (λ t. digit t (n - 1 - k)) e
            ∙ digit-top_bits (w * factor % 2 ^ 64) (n - 1 - k) (omega arith) (omega arith)
            ∙ ap (digit (w * factor % 2 ^ 64)) {x = n - 1 - (n - 1 - k)} (omega arith)
            ∙ sym (digit-mod n (w * factor % 2 ^ 64) k h))
      ∙ mod_word n (w * factor) fits)

odd_or : (v w : ℕ) → w % 2 ≡ 1 → bit_or v w % 2 ≡ 1
odd_or v w odd =
    ground
      (arith, digit-bit_or v w 0, digit-zero (bit_or v w), digit-zero v, digit-zero w, digit-lt v 0)

abbrev pub scrambled : (lg_n val0 val1 v : ℕ) → ℕ
scrambled lg_n val0 val1 v =
    let first = (v + (val0 + val1) % 2 ^ 64) % 2 ^ 64 in
    let second = top_bits lg_n (first * bit_or val0 0x4519840211493211 % 2 ^ 64) in
    top_bits lg_n (second * bit_or val1 0x3050852102C843A5 % 2 ^ 64)

module _ (lg_n val0 val1 : ℕ) (fits : lg_n ≤ 64) where
  scramble_lem : (v : ℕ) → scramble v lg_n val0 val1 ≡ some (scrambled lg_n val0 val1 v)
  unfolding scramble
  scramble_lem v =
      rw
        (
          scramble_round_lem lg_n fits (bit_or val0 0x4519840211493211)
              ((v + (val0 + val1) % 2 ^ 64) % 2 ^ 64),
          scramble_round_lem lg_n fits (bit_or val1 0x3050852102C843A5) (
              top_bits lg_n
                ((v + (val0 + val1) % 2 ^ 64) % 2 ^ 64 * bit_or val0 0x4519840211493211 % 2 ^ 64)),
        )
        refl

  scrambled_inj :
      (v w : ℕ)
      → v < 2 ^ lg_n
      → w < 2 ^ lg_n
      → scrambled lg_n val0 val1 v ≡ scrambled lg_n val0 val1 w
      → v ≡ w
  scrambled_inj v w p q e =
      let c = (val0 + val1) % 2 ^ 64 in
      let middle =
        top_bits_inj lg_n fits (bit_or val1 0x3050852102C843A5) _ _
          (odd_or val1 0x3050852102C843A5 refl) e in
      let first =
        top_bits_inj lg_n fits (bit_or val0 0x4519840211493211) ((v + c) % 2 ^ 64)
          ((w + c) % 2 ^ 64) (odd_or val0 0x4519840211493211 refl)
          (sym (mod-eq_of_lt (top_bits-lt lg_n fits _))
            ∙ middle
            ∙ mod-eq_of_lt (top_bits-lt lg_n fits _)) in
      sym (mod-eq_of_lt p)
      ∙ mod_cancel_add (2 ^ lg_n) v w c
          (sym (mod_word lg_n (v + c) fits) ∙ first ∙ mod_word lg_n (w + c) fits)
      ∙ mod-eq_of_lt q

-- For 1 to 63 bits and all values, `scramble` passes its assertions and gives a vertex of that many
-- bits a number of that many bits; no two of these vertices get the same number, so it is a
-- permutation of them.
pub scramble-Permutes :
    (lg_n val0 val1 : ℕ)
    → 0 < lg_n
    → lg_n < 64
    → ((v : ℕ) → v < 2 ^ lg_n → (r : ℕ) × (scramble v lg_n val0 val1 ≡ some r) × (r < 2 ^ lg_n))
      × ((v w r : ℕ)
          → v < 2 ^ lg_n
          → w < 2 ^ lg_n
          → scramble v lg_n val0 val1 ≡ some r
          → scramble w lg_n val0 val1 ≡ some r
          → v ≡ w)
scramble-Permutes lg_n val0 val1 pos h = (
  λ v small. (
    scrambled lg_n val0 val1 v,
    scramble_lem lg_n val0 val1 (omega arith) v,
    top_bits-lt lg_n (omega arith) _,
  ),
  λ v w r p q e f. scrambled_inj lg_n val0 val1 (omega arith) v w p q (
      some-injective _ _ (
        sym (scramble_lem lg_n val0 val1 (omega arith) v)
        ∙ e
        ∙ sym f
        ∙ scramble_lem lg_n val0 val1 (omega arith) w)),
)
