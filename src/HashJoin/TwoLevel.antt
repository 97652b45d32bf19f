-- ===== src/HashJoin/TwoLevel.antt =====
-- trident-workloads/hashjoin/hashjoin_2.c: the hash table of two levels. The sizes of the levels and the
-- number of keys, constants in the source, are arguments here; the hash function is one as in
-- HashJoin.antt. `element` addresses an element of `htelms` by its index, and only the keys of the
-- elements and the first payload word of the data table are read or changed. The OpenMP loop is
-- run in its order by one thread. `none` is an access out of range, or through NULL.
pub mod Fill
pub mod Count
use trident_micro21_artifact.Btree.Array.{◌>>=◌, read, write}
use trident_micro21_artifact.Base.{
  ℕ, zero, suc, ◌+◌, ◌*◌, ◌%◌, ◌^◌, Option, none, some, List, ◌==◌, if◌then◌else◌, replicate,
}

abbrev pub Slots : Type 0
Slots = List (Option ℕ)

-- A second-level table and the keys of all elements.
pub record Level2 : Type 0 where
  pub slots : Slots
  pub keys : List ℕ

pub record Levels : Type 0 where
  pub l1_hash_table : List (Option Slots)
  pub keys : List ℕ

-- ht[j] = &htelms[j]; ht[j]->key = j; in both branches of the test of `j % 2`.
unfoldable pub set_slot : ℕ → Level2 → Option Level2
set_slot j t = do
  slots ← write t.slots j (some j)
  keys ← write t.keys j j
  some record { slots = slots; keys = keys }

unfoldable pub fill_slots : (rounds j : ℕ) → Level2 → Option Level2
fill_slots zero j t = some t
fill_slots (suc c) j t = do t ← set_slot j t; fill_slots c (suc j) t

-- for (size_t i = 0; i < L1_HASH_TABLE_SIZE; i++) { ... }, from `i` on with `rounds` to go.
unfoldable pub fill_tables : (l2 rounds i : ℕ) → Levels → Option Levels
fill_tables l2 zero i t = some t
fill_tables l2 (suc c) i t = do
  level ← fill_slots l2 0 (record { slots = replicate l2 none; keys = t.keys })
  tables ← write t.l1_hash_table i (some level.slots)
  fill_tables l2 c (suc i) (record { l1_hash_table = tables; keys = level.keys })

unfoldable pub setup_levels : (l1 l2 : ℕ) → Option Levels
setup_levels l1 l2 =
    fill_tables l2 l1 0 (record { l1_hash_table = replicate l1 none; keys = replicate (l1 * l2) 0 })

-- if (ht) { e = ht[...]; if (e->key) matches++; } else ...
unfoldable pub probe_slots : (l2 h : ℕ) → (keys : List ℕ) → Option Slots → (matches : ℕ) → Option ℕ
probe_slots l2 h keys none matches = some matches
probe_slots l2 h keys (some slots) matches = do
  slot ← read slots (h % l2)
  element ← slot
  key ← read keys element
  some (if key == 0 then matches else (matches + 1) % 2 ^ 64)

unfoldable pub probe_levels : (l1 l2 : ℕ) → ℕ × ℕ → Levels → (matches : ℕ) → Option ℕ
probe_levels l1 l2 (h0, h1) t matches = do
  ht ← read t.l1_hash_table (h0 % l1)
  probe_slots l2 h1 t.keys ht matches

-- table[idx].payload[0] += 1;
unfoldable pub count_payload : (idx : ℕ) → List ℕ → Option (List ℕ)
count_payload idx payload = do p ← read payload idx; write payload idx ((p + 1) % 2 ^ 64)

-- for (size_t i = 0; i < nlookups; i++) { ... }; the key of `table[idx]` is `idx % (l1 * l2)`.
unfoldable pub lookup_levels :
    (hash : ℕ → ℕ × ℕ) (l1 l2 nkeys rounds i : ℕ)
    → Levels
    → (matches : ℕ) → List ℕ
    → Option (ℕ × List ℕ)
lookup_levels hash l1 l2 nkeys zero i t matches payload = some (matches, payload)
lookup_levels hash l1 l2 nkeys (suc c) i t matches payload = do
  matches ← probe_levels l1 l2 (hash (i % nkeys % (l1 * l2))) t matches
  payload ← count_payload (i % nkeys) payload
  lookup_levels hash l1 l2 nkeys c (suc i) t matches payload

-- The number that is printed, and the payloads.
unfoldable pub join_levels : (hash : ℕ → ℕ × ℕ) (l1 l2 nkeys nlookups : ℕ) → Option (ℕ × List ℕ)
join_levels hash l1 l2 nkeys nlookups = do
  t ← setup_levels l1 l2
  lookup_levels hash l1 l2 nkeys nlookups 0 t 0 (replicate nkeys 0)
