-- ===== src/HashJoin/Examples.antt =====
-- The theorems on trident-workloads/hashjoin/hashjoin.c and hashjoin_2.c at concrete inputs.
use trident_micro21_artifact.HashJoin.Lookups.{join_lem}
use trident_micro21_artifact.Btree.Array.{write}
use trident_micro21_artifact.HashJoin.Setup.{Step, setup-Filled}
use trident_micro21_artifact.HashJoin.{
  set_element, lookup_once, join, key_at, fill_elements, region_bytes, setup, region_keys, probe,
  fresh, lookups, put_region,
}
use trident_micro21_artifact.HashJoin.TwoLevel.Count.{Joined, hits, visits, join_levels-Joined}
use trident_micro21_artifact.HashJoin.TwoLevel.{
  join_levels, setup_levels, fill_tables, fill_slots, set_slot, probe_slots, probe_levels,
  count_payload, lookup_levels,
}
use trident_micro21_artifact.Base.{ℕ, ◌+◌, ◌*◌, ◌%◌, ◌^◌, ◌≡◌, refl, some, arith, [], ◌∷◌}

setup-Filled_example : Step 6 6 (setup 6)
setup-Filled_example = setup-Filled 6 (omega arith)

abbrev some_hash : ℕ → ℕ × ℕ
some_hash k = (k * 2654435761, k + 0xF000000000000000)

join_lem_example : join some_hash 3 6 5 ≡ some (4 * 5 % 2 ^ 64)
join_lem_example = join_lem some_hash 3 6 5 (omega arith) (omega arith)

join_of_six : join some_hash 3 6 5 ≡ some 20
unfolding join setup fill_elements set_element fresh region_keys region_bytes put_region write
    lookups lookup_once probe key_at
join_of_six = refl

join_levels-Joined_example :
    Joined 5 (hits some_hash 2 3 5 7 0) (visits 5 7 0) (join_levels some_hash 2 3 5 7)
join_levels-Joined_example =
    join_levels-Joined some_hash 2 3 5 7 (omega arith) (omega arith) (omega arith)

-- Three of the seven lookups are of slot 0.
join_levels_of_seven : join_levels some_hash 2 3 5 7 ≡ some (4, 2 ∷ 2 ∷ 1 ∷ 1 ∷ 1 ∷ [])
unfolding join_levels setup_levels fill_tables fill_slots set_slot write lookup_levels probe_levels
    probe_slots count_payload
join_levels_of_seven = refl
