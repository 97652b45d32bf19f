-- ===== src/HashJoin.antt =====
-- trident-workloads/hashjoin/hashjoin.c: the hash table with its elements in four regions, and the
-- lookup loop. MurmurHash3 is a copy of another library: here a function `hash` from a key to the
-- two 64-bit words. `allocate` zeroes what it returns and ends the program when memory is used up;
-- only the first is modelled.
pub mod Setup
pub mod Lookups
pub mod TwoLevel
mod Examples
use trident_micro21_artifact.Base.{
  ℕ, zero, suc, ◌+◌, ◌-◌, ◌*◌, ◌/◌, ◌%◌, ◌^◌, Option, none, some, List, ◌==◌, if◌then◌else◌,
  replicate,
}
use trident_micro21_artifact.Btree.Array.{◌>>=◌, read, write}

-- NUM_REGIONS, and the bytes of `struct htelm`.
abbrev pub num_regions : ℕ
num_regions = 4

abbrev pub htelm_size : ℕ
htelm_size = 64

-- hashsize * sizeof(struct htelm) / NUM_REGIONS
unfoldable pub region_bytes : ℕ → ℕ
region_bytes hashsize = hashsize * htelm_size % 2 ^ 64 / num_regions

-- How many elements, counted from 0, have their `key` (the first 8 bytes) inside a region.
unfoldable pub region_keys : ℕ → ℕ
region_keys hashsize = (region_bytes hashsize + (htelm_size - 8)) / htelm_size

-- `&hte[i / NUM_REGIONS]`: the region and the index in it.
abbrev pub Element : Type 0
Element = ℕ × ℕ

-- The keys of the elements of each region, and the hash table with NULL for what is not set.
pub record Tables : Type 0 where
  pub regions : ℕ → List ℕ
  pub hashtable : List (Option Element)

unfoldable pub fresh : ℕ → Tables
fresh hashsize = record {
  regions = λ _. replicate (region_keys hashsize) 0;
  hashtable = replicate hashsize none;
}

unfoldable pub put_region : (ℕ → List ℕ) → ℕ → List ℕ → ℕ → List ℕ
put_region regions r keys q = if q == r then keys else regions q

-- hashtable[i] = &hte[i / NUM_REGIONS]; hashtable[i]->key = i+1;
unfoldable pub set_element : ℕ → Tables → Option Tables
set_element i t = do
  table ← write t.hashtable i (some (i % num_regions, i / num_regions))
  keys ← write (t.regions (i % num_regions)) (i / num_regions) (i + 1)
  some record { regions = put_region t.regions (i % num_regions) keys; hashtable = table }

-- for (size_t i = 0; i < hashsize; i++) { ... }, from `i` on with `rounds` to go.
unfoldable pub fill_elements : (rounds i : ℕ) → Tables → Option Tables
fill_elements zero i t = some t
fill_elements (suc c) i t = do next ← set_element i t; fill_elements c (suc i) next

unfoldable pub setup : ℕ → Option Tables
setup hashsize = fill_elements hashsize 0 (fresh hashsize)

-- struct htelm *e = hashtable[h % hashsize]; if (e && e->key) { matches++; }
unfoldable pub key_at : Tables → Option Element → Option ℕ
key_at t none = some 0
key_at t (some (r, i)) = read (t.regions r) i

unfoldable pub probe : (hashsize h : ℕ) → Tables → (matches : ℕ) → Option ℕ
probe hashsize h t matches = do
  e ← read t.hashtable (h % hashsize)
  key ← key_at t e
  some (if key == 0 then matches else (matches + 1) % 2 ^ 64)

-- The four probes of one lookup, with the two words of the hash.
unfoldable pub lookup_once : (hashsize : ℕ) → ℕ × ℕ → Tables → (matches : ℕ) → Option ℕ
lookup_once hashsize (h0, h1) t matches = do
  m1 ← probe hashsize h0 t matches
  m2 ← probe hashsize h1 t m1
  m3 ← probe hashsize (h0 * 2 ^ 2 % 2 ^ 64) t m2
  probe hashsize (h1 * 2 ^ 2 % 2 ^ 64) t m3

-- for (size_t i = 0; i < nlookups; i++) { ... }; the key of `table[i % DEFAULT_NKEYS]` is its index.
unfoldable pub lookups :
    (hash : ℕ → ℕ × ℕ) (nkeys hashsize rounds i : ℕ) → Tables → (matches : ℕ) → Option ℕ
lookups hash nkeys hashsize zero i t matches = some matches
lookups hash nkeys hashsize (suc c) i t matches = do
  m ← lookup_once hashsize (hash (i % nkeys)) t matches
  lookups hash nkeys hashsize c (suc i) t m

-- The number that the program prints.
unfoldable pub join : (hash : ℕ → ℕ × ℕ) (nkeys hashsize nlookups : ℕ) → Option ℕ
join hash nkeys hashsize nlookups = do
  t ← setup hashsize
  lookups hash nkeys hashsize nlookups 0 t 0
