-- ===== src/Gups/Table/Sweeps.antt =====
-- The update loop of trident-workloads/gups/gups.c draws consecutive numbers of the sequence.
use trident_micro21_artifact.Gups.Starts.{hpcc_starts-sequence}
use trident_micro21_artifact.Gups.Table.Order.{
  all_in-append, update_in, updates_lem, update_lem, all_in, length-all_in, length-update_in,
}
use trident_micro21_artifact.Gups.{period, sequence, step}
use trident_micro21_artifact.Gups.Table.{sweep, sweeps, starts, updates}
use trident_micro21_artifact.Base.{
  ℕ, zero, suc, ◌+◌, ◌*◌, ◌≤◌, ◌<◌, ◌≡◌, refl, sym, ap, ap₂, ◌∙◌, some, List, [], ◌∷◌, ◌++◌, arith,
  length,
}

-- The numbers at some places of the sequence, and the places after them.
unfoldable pub numbers_at : List ℕ → List ℕ
numbers_at [] = []
numbers_at (p ∷ ps) = sequence p ∷ numbers_at ps

unfoldable pub next_places : List ℕ → List ℕ
next_places [] = []
next_places (p ∷ ps) = suc p ∷ next_places ps

-- The places after some rounds, and the numbers that the rounds draw.
unfoldable pub advance : (rounds : ℕ) → List ℕ → List ℕ
advance zero ps = ps
advance (suc c) ps = advance c (next_places ps)

unfoldable pub drawn : (rounds : ℕ) → List ℕ → List ℕ
drawn zero ps = []
drawn (suc c) ps = numbers_at (next_places ps) ++ drawn c (next_places ps)

-- stride * first, stride * (first + 1), ...
unfoldable pub places : (stride first count : ℕ) → List ℕ
places stride first zero = []
places stride first (suc c) = stride * first ∷ places stride (suc first) c

starts_lem :
    (stride first count : ℕ)
    → stride * (first + count) ≤ period
    → starts stride first count ≡ numbers_at (places stride first count)
unfolding starts numbers_at places
starts_lem stride first zero h = refl
starts_lem stride first (suc c) h =
    let here : stride * first ≤ period = grind arith in
    let rest : stride * (suc first + c) ≤ period = rw (← plus_suc first c) at h in
    ap₂ ◌∷◌ ((hpcc_starts-sequence (stride * first) (omega arith)).2 here)
      (starts_lem stride (suc first) c rest)
  where
    plus_suc : (a b : ℕ) → suc a + b ≡ a + suc b
    plus_suc a b = omega arith

module _ (size : ℕ) (positive : 0 < size) where
  sweep_lem :
      (ps table : List ℕ)
      → size < length table
      → sweep size (numbers_at ps) table
        ≡ some (numbers_at (next_places ps), all_in size (numbers_at (next_places ps)) table)
  unfolding sweep numbers_at next_places all_in sequence
  sweep_lem [] table h = refl
  sweep_lem (p ∷ ps) table h =
      let r = step (sequence p) in
      rw
        (
          update_lem size r table positive h,
          sweep_lem ps (update_in size r table) (omega (arith, length-update_in size r table)),
        )
        refl

  sweeps_lem :
      (rounds : ℕ) (ps table : List ℕ)
      → size < length table
      → sweeps size rounds (numbers_at ps) table
        ≡ some (numbers_at (advance rounds ps), all_in size (drawn rounds ps) table)
  unfolding sweeps advance drawn all_in
  sweeps_lem zero ps table h = refl
  sweeps_lem (suc c) ps table h =
      let now = numbers_at (next_places ps) in
      rw (sweep_lem ps table h) (
        sweeps_lem c (next_places ps) (all_in size now table)
          (omega (arith, length-all_in size now table))
        ∙ ap (λ t. some (numbers_at (advance c (next_places ps)), t))
            (sym (all_in-append size now (drawn c (next_places ps)) table)))

-- On a table of more than `size` words, `size` positive, and from generators that `HPCC_starts` has
-- put at multiples of a stride, none above `PERIOD`, the rounds of the update loop are one run of
-- updates with the numbers that follow those places in the sequence, and leave the generators
-- as many places on as there were rounds.
pub sweeps-updates :
    (size stride count rounds : ℕ) (table : List ℕ)
    → 0 < size
    → size < length table
    → stride * count ≤ period
    → let ps = places stride 0 count in
      (after : List ℕ) × (updates size (drawn rounds ps) table ≡ some after)
      × (sweeps size rounds (starts stride 0 count) table
          ≡ some (numbers_at (advance rounds ps), after))
sweeps-updates size stride count rounds table positive h inside =
    let ps = places stride 0 count in
    let all : 0 + count ≡ count = omega arith in
    let inside' : stride * (0 + count) ≤ period = rw all inside in
    (
      all_in size (drawn rounds ps) table,
      updates_lem size (drawn rounds ps) table positive h,
      rw (starts_lem stride 0 count inside') (sweeps_lem size positive rounds ps table h),
    )
