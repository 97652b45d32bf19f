-- ===== src/Gups/Examples.antt =====
-- The theorems on trident-workloads/gups/gups.c at concrete inputs, and the first numbers.
use trident_micro21_artifact.Gups.Table.Rounded.{rounded-RoundedTo, RoundedTo}
use trident_micro21_artifact.Gups.Table.Sweeps.{places, numbers_at, sweeps-updates, drawn, advance}
use trident_micro21_artifact.Gups.Starts.{hpcc_starts-sequence}
use trident_micro21_artifact.Gups.Table.Order.{updates-Perm}
use trident_micro21_artifact.Gups.Table.{updates, sweeps, rounded, starts}
use trident_micro21_artifact.Gups.{
  within, sequence, period, step, squares, top_bit, hpcc_starts, jump, start, combine,
}
use mathlib.Core.List.{Permᴰ}
use trident_micro21_artifact.Base.{ℕ, ◌≤◌, ◌≡◌, refl, some, List, [], ◌∷◌, ◌++◌, arith, length}

fifth : hpcc_starts 70 ≡ sequence 70
unfolding hpcc_starts within start top_bit jump combine squares step sequence
fifth = refl

hpcc_starts-sequence_example :
    (hpcc_starts 70 ≡ sequence (within 7 70))
    × (within 7 70 ≤ period)
    × (70 ≤ period → hpcc_starts 70 ≡ sequence 70)
hpcc_starts-sequence_example = hpcc_starts-sequence 70 (omega arith)

abbrev words : List ℕ
words = 0 ∷ 1 ∷ 2 ∷ 3 ∷ 0 ∷ 0 ∷ []

swapped : Permᴰ {A = ℕ} (8 ∷ 5 ∷ 5 ∷ []) (5 ∷ 8 ∷ 5 ∷ [])
swapped = Permᴰ.swap refl refl

updates-Perm_example :
    ((t : List ℕ) × (updates 4 (8 ∷ 5 ∷ 5 ∷ []) words ≡ some t) × (length t ≡ length words))
    × (updates 4 (8 ∷ 5 ∷ 5 ∷ []) words ≡ updates 4 (5 ∷ 8 ∷ 5 ∷ []) words)
    × (updates 4 ((8 ∷ 5 ∷ 5 ∷ []) ++ (8 ∷ 5 ∷ 5 ∷ [])) words ≡ some words)
updates-Perm_example =
    updates-Perm 4 (8 ∷ 5 ∷ 5 ∷ []) (5 ∷ 8 ∷ 5 ∷ []) words (omega arith) (omega arith) swapped

rounded-RoundedTo_example : RoundedTo 100 (rounded 64 0 100)
rounded-RoundedTo_example = rounded-RoundedTo 100 (omega arith) (omega arith)

sweeps-updates_example :
    let ps = places 2 0 2 in
    (after : List ℕ) × (updates 4 (drawn 3 ps) words ≡ some after)
    × (sweeps 4 3 (starts 2 0 2) words ≡ some (numbers_at (advance 3 ps), after))
sweeps-updates_example = sweeps-updates 4 2 2 3 words (omega arith) (omega arith) (omega arith)
