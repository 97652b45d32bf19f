-- ===== src/HashJoin/Setup.antt =====
-- The setup loop of trident-workloads/hashjoin/hashjoin.c stays inside its four regions and gives each
-- slot of the hash table its own element.
use trident_micro21_artifact.Btree.Array.{write}
use trident_micro21_artifact.HashJoin.{
  set_element, region_keys, put_region, fresh, num_regions, Tables, region_bytes, fill_elements,
  setup, Element,
}
use trident_micro21_artifact.Base.{
  ℕ, zero, suc, ◌+◌, ◌/◌, ◌%◌, ◌^◌, ◌<◌, ◌≡◌, refl, sym, ap, ◌∙◌, inl, inr, Option, none, some,
  List, arith, ◌==◌, lt→ltb, Bool-cases, length, get_or, set, length-set, length-replicate,
  get_or-set_self, get_or-set_ne,
}

-- After `i` rounds.
pub record Filled (hashsize i : ℕ) (t : Tables) : Type 0 where
  pub table_size : length t.hashtable ≡ hashsize
  pub region_size : (r : ℕ) → length (t.regions r) ≡ region_keys hashsize
  pub slots : (j : ℕ) → j < i → get_or t.hashtable j none ≡ some (j % num_regions, j / num_regions)
  pub keys : (j : ℕ) → j < i → get_or (t.regions (j % num_regions)) (j / num_regions) 0 ≡ j + 1

-- The last elements of a region may reach beyond it, but their keys do not.
pub key_fits :
    (hashsize i : ℕ) → hashsize < 2 ^ 58 → i < hashsize → i / num_regions < region_keys hashsize
unfolding region_keys region_bytes
key_fits hashsize i small h = omega arith

fresh-Filled : (hashsize : ℕ) → Filled hashsize 0 (fresh hashsize)
unfolding fresh
fresh-Filled hashsize = record {
  table_size = length-replicate hashsize none;
  region_size = λ r. length-replicate (region_keys hashsize) 0;
  slots = λ j h. absurd (omega arith);
  keys = λ j h. absurd (omega arith);
}

same_place :
    (i j : ℕ) → i % num_regions ≡ j % num_regions → i / num_regions ≡ j / num_regions → i ≡ j
same_place i j p q = omega arith

pub record Step (hashsize i : ℕ) (r : Option Tables) : Type 0 where
  pub after : Tables
  pub returned : r ≡ some after
  pub filled : Filled hashsize i after

module _ (hashsize i : ℕ) (t : Tables) (v : Filled hashsize i t) (small : hashsize < 2 ^ 58)
    (h : i < hashsize) where
  abbrev new_table : List (Option Element)
  new_table = set t.hashtable i (some (i % num_regions, i / num_regions))

  abbrev new_keys : List ℕ
  new_keys = set (t.regions (i % num_regions)) (i / num_regions) (i + 1)

  abbrev next_tables : Tables
  next_tables = record {
    regions = put_region t.regions (i % num_regions) new_keys;
    hashtable = new_table;
  }

  in_region : i / num_regions < length (t.regions (i % num_regions))
  in_region = omega (arith, key_fits hashsize i small h, v.region_size (i % num_regions))

  next_keys :
      (j : ℕ)
      → j < suc i
      → get_or (next_tables.regions (j % num_regions)) (j / num_regions) 0 ≡ j + 1
  unfolding put_region
  next_keys j below = elim (Bool-cases (j % num_regions == i % num_regions)) [
    | inl same ↦
        let region : j % num_regions ≡ i % num_regions = ground arith in
        rw same (elim (Bool-cases (j == i)) [
          | inl here ↦
              let e : j ≡ i = ground arith in
              ap (λ k. get_or new_keys (k / num_regions) 0) e
              ∙ get_or-set_self (t.regions (i % num_regions)) (i / num_regions) (i + 1) 0 in_region
              ∙ ap (◌+ 1) (sym e)
          | inr there ↦
              let before : j < i = ground arith in
              get_or-set_ne (t.regions (i % num_regions)) (i / num_regions) (j / num_regions)
                (i + 1) 0 (λ q. absurd (ground (arith, same_place i j (sym region) q)))
              ∙ ap (λ r. get_or (t.regions r) (j / num_regions) 0) (sym region)
              ∙ v.keys j before
        ])
    | inr other ↦
        let before : j < i = elim (Bool-cases (j == i)) [
          | inl here ↦ absurd (ground arith)
          | inr there ↦ ground arith
        ] in
        rw other (v.keys j before)
  ]

  next_slots :
      (j : ℕ) → j < suc i → get_or new_table j none ≡ some (j % num_regions, j / num_regions)
  next_slots j below = elim (Bool-cases (j == i)) [
    | inl here ↦
        let e : j ≡ i = ground arith in
        ap (λ k. get_or new_table k none) e
        ∙ get_or-set_self t.hashtable i _ none (omega (arith, v.table_size))
        ∙ ap (λ k. some (k % num_regions, k / num_regions)) (sym e)
    | inr there ↦
        get_or-set_ne t.hashtable i j _ none (λ q. absurd (ground arith)) ∙ v.slots j (ground arith)
  ]

  next_sizes : (r : ℕ) → length (next_tables.regions r) ≡ region_keys hashsize
  unfolding put_region
  next_sizes r = elim (Bool-cases (r == i % num_regions)) [
    | inl same ↦ rw same (
        length-set (t.regions (i % num_regions)) (i / num_regions) (i + 1)
        ∙ v.region_size (i % num_regions))
    | inr other ↦ rw other (v.region_size r)
  ]

  next_tables-Filled : Filled hashsize (suc i) next_tables
  next_tables-Filled = record {
    table_size = length-set t.hashtable i _ ∙ v.table_size;
    region_size = next_sizes;
    slots = next_slots;
    keys = next_keys;
  }

  set_element-Step : Step hashsize (suc i) (set_element i t)
  unfolding set_element write
  set_element-Step = record {
    after = next_tables;
    returned =
        rw
          (
            lt→ltb i (length t.hashtable) (omega (arith, v.table_size)),
            lt→ltb (i / num_regions) (length (t.regions (i % num_regions))) in_region,
          )
          refl;
    filled = next_tables-Filled;
  }

fill_elements-Step :
    (hashsize rounds i : ℕ) (t : Tables)
    → Filled hashsize i t
    → hashsize < 2 ^ 58
    → rounds + i ≡ hashsize
    → Step hashsize hashsize (fill_elements rounds i t)
unfolding fill_elements
fill_elements-Step hashsize zero i t v small e =
    let e' : i ≡ hashsize = omega arith in
    record { after = t; returned = refl; filled = rw e' at v }
fill_elements-Step hashsize (suc c) i t v small e =
    let s = set_element-Step hashsize i t v small (omega arith) in
    let rest = fill_elements-Step hashsize c (suc i) s.after s.filled small (omega arith) in
    record { after = rest.after; returned = rw s.returned rest.returned; filled = rest.filled }

-- For a table size below 2 ^ 58, divisible by four or not, the setup makes no access out of range,
-- and after it each slot of the hash table leads to its own element, whose key is one more than
-- the number of the slot.
pub setup-Filled : (hashsize : ℕ) → hashsize < 2 ^ 58 → Step hashsize hashsize (setup hashsize)
unfolding setup
setup-Filled hashsize small =
    fill_elements-Step hashsize hashsize 0 (fresh hashsize) (fresh-Filled hashsize) small
      (omega arith)
