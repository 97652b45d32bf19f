-- ===== src/Gups.antt =====
-- trident-workloads/gups/gups.c (and gupstoy.c, which has the same generator): the random access
-- workload. The generator steps a 64-bit word, `HPCC_starts` jumps to a place in its sequence, and
-- the update loop changes two table entries for each number.
pub mod Linear
pub mod Square
pub mod Starts
pub mod Table
mod Examples
use trident_micro21_artifact.Base.{
  ℕ, zero, suc, ◌-◌, ◌*◌, ◌/◌, ◌%◌, ◌^◌, bit_xor, List, [], ◌∷◌, ltb, leb, ◌==◌, if◌then◌else◌,
}

abbrev pub poly : ℕ
poly = 7

abbrev pub period : ℕ
period = 1317624576693539401

-- (v << 1) ^ ((int64_t) v < 0 ? POLY : 0)
unfoldable pub step : ℕ → ℕ
step v = bit_xor (v * 2 % 2 ^ 64) (if leb (2 ^ 63) v then poly else 0)

-- for (i=0; i<64; i++) { m2[i] = temp; temp = step (temp); temp = step (temp); }
unfoldable pub squares : (rounds temp : ℕ) → List ℕ
squares zero temp = []
squares (suc c) temp = temp ∷ squares c (step (step temp))

abbrev pub m2 : List ℕ
m2 = squares 64 1

-- for (j=0; j<64; j++) if ((ran >> j) & 1) temp ^= m2[j]; here over the rest of `m2`, with what is
-- left of `ran` after the shift.
unfoldable pub combine : List ℕ → (ran temp : ℕ) → ℕ
combine [] ran temp = temp
combine (m ∷ ms) ran temp = combine ms (ran / 2) (if ran % 2 == 1 then bit_xor temp m else temp)

-- while (i > 0) { ...; i -= 1; if ((n >> i) & 1) ran = step (ran); }
unfoldable pub jump : (n i ran : ℕ) → ℕ
jump n zero ran = ran
jump n (suc i) ran =
    let squared = combine m2 ran 0 in
    jump n i (if n / 2 ^ i % 2 == 1 then step squared else squared)

-- for (i=62; i>=0; i--) if ((n >> i) & 1) break; here with `i` rounds to go.
unfoldable pub top_bit : (n rounds : ℕ) → ℕ
top_bit n zero = 0
top_bit n (suc i) = if n / 2 ^ i % 2 == 1 then i else top_bit n i

-- while (n > PERIOD) n -= PERIOD;
unfoldable pub within : (fuel n : ℕ) → ℕ
within zero n = n
within (suc fuel) n = let rest = within fuel (n - period) in if ltb period n then rest else n

-- if (n == 0) return 0x1; ...
unfoldable pub start : ℕ → ℕ
start n = if n == 0 then 1 else jump n (top_bit n 63) 2

-- `HPCC_starts` for an argument from 0 below 2 ^ 63: the loop over negative arguments is left out,
-- and seven rounds are enough for the other.
unfoldable pub hpcc_starts : ℕ → ℕ
hpcc_starts n = start (within 7 n)

-- The `n`-th number of the sequence.
unfoldable pub sequence : ℕ → ℕ
sequence zero = 1
sequence (suc n) = step (sequence n)
