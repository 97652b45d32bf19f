-- ===== src/HashJoin/Lookups.antt =====
-- The lookup loop of trident-workloads/hashjoin/hashjoin.c: every probe finds an element.
use native.Mathlib.Nat.{mod-lt}
use trident_micro21_artifact.HashJoin.Setup.{Filled, key_fits, setup-Filled}
use trident_micro21_artifact.HashJoin.{
  lookups, key_at, Tables, num_regions, probe, join, lookup_once,
}
use trident_micro21_artifact.Btree.Array.{read}
use trident_micro21_artifact.Base.{
  ℕ, zero, suc, ◌+◌, ◌*◌, ◌/◌, ◌%◌, ◌^◌, ◌<◌, ◌≡◌, refl, ap, ◌∙◌, false, none, some, arith, ◌==◌,
  get_elem?-eq-get_or,
}

module _ (hashsize : ℕ) (t : Tables) (v : Filled hashsize hashsize t) (positive : 0 < hashsize)
    (small : hashsize < 2 ^ 58) where
  probe_lem : (h matches : ℕ) → probe hashsize h t matches ≡ some ((matches + 1) % 2 ^ 64)
  unfolding probe key_at
  probe_lem h matches =
      let j = h % hashsize in
      let low : j < hashsize = mod-lt h positive in
      let slot : read t.hashtable j ≡ some (some (j % num_regions, j / num_regions)) =
        get_elem?-eq-get_or t.hashtable j none (omega (arith, v.table_size))
        ∙ ap some (v.slots j low) in
      let key : read (t.regions (j % num_regions)) (j / num_regions) ≡ some (j + 1) =
        get_elem?-eq-get_or (t.regions (j % num_regions)) (j / num_regions) 0
          (omega (arith, key_fits hashsize j small low, v.region_size (j % num_regions)))
        ∙ ap some (v.keys j low) in
      let set_key : (j + 1 == 0) ≡ false = ground arith in rw (slot, key, set_key) refl

  lookup_once_lem :
      (h : ℕ × ℕ) (matches : ℕ)
      → matches < 2 ^ 64
      → lookup_once hashsize h t matches ≡ some ((matches + 4) % 2 ^ 64)
  unfolding lookup_once
  lookup_once_lem (h0, h1) matches fits =
      rw
        (
          probe_lem h0 matches,
          probe_lem h1 ((matches + 1) % 2 ^ 64),
          probe_lem (h0 * 2 ^ 2 % 2 ^ 64) (((matches + 1) % 2 ^ 64 + 1) % 2 ^ 64),
          probe_lem (h1 * 2 ^ 2 % 2 ^ 64) ((((matches + 1) % 2 ^ 64 + 1) % 2 ^ 64 + 1) % 2 ^ 64),
        )
        (ap some (omega arith))

  lookups_lem :
      (hash : ℕ → ℕ × ℕ) (nkeys rounds i matches : ℕ)
      → matches < 2 ^ 64
      → lookups hash nkeys hashsize rounds i t matches ≡ some ((matches + 4 * rounds) % 2 ^ 64)
  unfolding lookups
  lookups_lem hash nkeys zero i matches fits = ap some (omega arith)
  lookups_lem hash nkeys (suc c) i matches fits =
      rw (lookup_once_lem (hash (i % nkeys)) matches fits) (
        lookups_lem hash nkeys c (suc i) ((matches + 4) % 2 ^ 64) (omega arith)
        ∙ ap some (omega arith))

-- Whatever the hash function returns, a join on a table of 1 to 2 ^ 58 - 1 slots makes no access
-- out of range, and its four probes of each lookup all match: it prints four times the number of
-- lookups, modulo 2 ^ 64.
pub join_lem :
    (hash : ℕ → ℕ × ℕ) (nkeys hashsize nlookups : ℕ)
    → 0 < hashsize
    → hashsize < 2 ^ 58
    → join hash nkeys hashsize nlookups ≡ some (4 * nlookups % 2 ^ 64)
unfolding join
join_lem hash nkeys hashsize nlookups positive small =
    let s = setup-Filled hashsize small in
    rw s.returned (
      lookups_lem hashsize s.after s.filled positive small hash nkeys nlookups 0 0 (omega arith)
      ∙ ap some (omega arith))
