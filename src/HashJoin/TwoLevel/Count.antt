-- ===== src/HashJoin/TwoLevel/Count.antt =====
-- The lookup loop of trident-workloads/hashjoin/hashjoin_2.c: what it counts.
use native.Mathlib.Nat.{mod-lt, mul-le-mul_right}
use trident_micro21_artifact.Btree.Array.{read, write}
use trident_micro21_artifact.HashJoin.TwoLevel.Fill.{IsLevels, setup_levels-SetUp}
use trident_micro21_artifact.HashJoin.TwoLevel.{
  Slots, Levels, probe_slots, probe_levels, count_payload, lookup_levels, join_levels,
}
use trident_micro21_artifact.Base.{
  ℕ, zero, suc, ◌+◌, ◌*◌, ◌%◌, ◌^◌, ◌≤◌, ◌<◌, ◌≡◌, refl, ap, ◌∙◌, inl, inr, Option, none, some,
  List, arith, ◌==◌, if◌then◌else◌, lt→ltb, length, get_or, set, length-set, length-replicate,
  get_or-set, get_or-replicate, get_elem?-eq-get_or, replicate, Bool-cases,
}

-- Whether a probe of slot `h % l2` counts: element 0 has key 0, as if it were free.
unfoldable pub hit : (l2 h : ℕ) → ℕ
hit l2 h = if h % l2 == 0 then 0 else 1

-- The probes that count in `rounds` lookups from `i` on.
unfoldable pub hits : (hash : ℕ → ℕ × ℕ) (l1 l2 nkeys rounds i : ℕ) → ℕ
hits hash l1 l2 nkeys zero i = 0
hits hash l1 l2 nkeys (suc c) i =
    hit l2 ((hash (i % nkeys % (l1 * l2))).1) + hits hash l1 l2 nkeys c (suc i)

-- How many of `rounds` lookups from `i` on are of entry `k` of the data table.
unfoldable pub visits : (nkeys rounds i k : ℕ) → ℕ
visits nkeys zero i k = 0
visits nkeys (suc c) i k = (if i % nkeys == k then 1 else 0) + visits nkeys c (suc i) k

get_or-set_visit :
    (payload : List ℕ) (x k : ℕ)
    → x < length payload
    → get_or payload k 0 < 2 ^ 64
    → get_or (set payload x ((get_or payload x 0 + 1) % 2 ^ 64)) k 0
      ≡ (get_or payload k 0 + (if x == k then 1 else 0)) % 2 ^ 64
get_or-set_visit payload x k low small =
    ground (arith, get_or-set payload x k ((get_or payload x 0 + 1) % 2 ^ 64) 0)

-- The end of a run: the number printed, and what each payload of the data table has become.
pub record Joined (nkeys matches : ℕ) (payload : ℕ → ℕ) (r : Option (ℕ × List ℕ)) : Type 0 where
  pub table : List ℕ
  pub returned : r ≡ some (matches % 2 ^ 64, table)
  pub size : length table ≡ nkeys
  pub counted : (k : ℕ) → k < nkeys → get_or table k 0 ≡ payload k % 2 ^ 64

module _ (l1 l2 size : ℕ) (room : l2 ≤ size) (some1 : 0 < l1) (some2 : 0 < l2) (t : Levels)
    (v : IsLevels l2 size room l1 l1 t) where
  probe_slots_lem :
      (h : ℕ) (slots : Slots) (matches : ℕ)
      → length slots ≡ l2
      → ((j : ℕ) → j < l2 → get_or slots j none ≡ some j)
      → matches < 2 ^ 64
      → probe_slots l2 h t.keys (some slots) matches ≡ some ((matches + hit l2 h) % 2 ^ 64)
  unfolding probe_slots hit
  probe_slots_lem h slots matches n leads fits =
      let j = h % l2 in
      let low : j < l2 = mod-lt h some2 in
      let slot : read slots j ≡ some (some j) =
        get_elem?-eq-get_or slots j none (omega (arith, n)) ∙ ap some (leads j low) in
      let key : read t.keys j ≡ some j =
        get_elem?-eq-get_or t.keys j 0 (omega (arith, v.key_count))
        ∙ ap some (v.numbered some1 j low) in
      elim (Bool-cases (j == 0)) [
        | inl zeroth ↦ rw (slot, key, zeroth) (ap some (omega arith))
        | inr other ↦ rw (slot, key, other) refl
      ]

  probe_levels_lem :
      (h : ℕ × ℕ) (matches : ℕ)
      → matches < 2 ^ 64
      → probe_levels l1 l2 h t matches ≡ some ((matches + hit l2 h.1) % 2 ^ 64)
  unfolding probe_levels
  probe_levels_lem (h0, h1) matches fits =
      let r = h0 % l1 in
      let low : r < l1 = mod-lt h0 some1 in
      let (slots, e, (n, leads)) = v.tables r low in
      let table : read t.l1_hash_table r ≡ some (some slots) =
        get_elem?-eq-get_or t.l1_hash_table r none (omega (arith, v.table_count)) ∙ ap some e in
      rw table (probe_slots_lem h1 slots matches n leads fits)

  lookup_levels-Joined :
      (hash : ℕ → ℕ × ℕ) (nkeys rounds i matches : ℕ) (payload : List ℕ)
      → 0 < nkeys
      → matches < 2 ^ 64
      → length payload ≡ nkeys
      → ((k : ℕ) → k < nkeys → get_or payload k 0 < 2 ^ 64)
      → Joined nkeys
          (matches + hits hash l1 l2 nkeys rounds i)
          (λ k. get_or payload k 0 + visits nkeys rounds i k)
          (lookup_levels hash l1 l2 nkeys rounds i t matches payload)
  unfolding lookup_levels count_payload write hits visits
  lookup_levels-Joined hash nkeys zero i matches payload keyed fits n small = record {
    table = payload;
    returned = ap (λ m. some (m, payload)) (omega arith);
    size = n;
    counted = λ k h. omega (arith, small k h);
  }
  lookup_levels-Joined hash nkeys (suc c) i matches payload keyed fits n small =
      let x = i % nkeys in
      let low : x < length payload = omega (arith, mod-lt i keyed) in
      let h = hash (x % (l1 * l2)) in
      let after = set payload x ((get_or payload x 0 + 1) % 2 ^ 64) in
      let counts =
        λ (k : ℕ) (below : k < nkeys). get_or-set_visit payload x k low (small k below) in
      let rest =
        lookup_levels-Joined hash nkeys c (suc i) ((matches + hit l2 h.1) % 2 ^ 64) after keyed
          (omega arith) (length-set payload x ((get_or payload x 0 + 1) % 2 ^ 64) ∙ n)
          (λ k below. omega (arith, counts k below)) in
      record {
        table = rest.table;
        returned =
            rw
              (
                probe_levels_lem h matches fits,
                get_elem?-eq-get_or payload x 0 low,
                lt→ltb x (length payload) low,
              )
              (rest.returned ∙ ap (λ m. some (m, rest.table)) (omega arith));
        size = rest.size;
        counted = λ k below. rest.counted k below ∙ omega (arith, counts k below);
      }

-- For levels and a data table of any sizes but 0 and whatever the hash function returns, the join
-- makes no access out of range and reads no NULL. Modulo 2 ^ 64 it prints the number of lookups
-- whose second word is not a multiple of the size of a second-level table, and adds to each entry
-- of the data table the number of its lookups.
pub join_levels-Joined :
    (hash : ℕ → ℕ × ℕ) (l1 l2 nkeys nlookups : ℕ)
    → 0 < l1
    → 0 < l2
    → 0 < nkeys
    → Joined nkeys
        (hits hash l1 l2 nkeys nlookups 0)
        (visits nkeys nlookups 0)
        (join_levels hash l1 l2 nkeys nlookups)
unfolding join_levels
join_levels-Joined hash l1 l2 nkeys nlookups some1 some2 keyed =
    let room : l2 ≤ l1 * l2 = omega (arith, mul-le-mul_right l2 some1) in
    let s = setup_levels-SetUp l1 l2 room in
    let clear : (k : ℕ) → ◌≡◌ {A = ℕ} (get_or (replicate nkeys 0) k 0) 0 =
      λ k. get_or-replicate nkeys k 0 in
    let run =
      lookup_levels-Joined l1 l2 (l1 * l2) room some1 some2 s.after s.levels hash nkeys nlookups 0 0
        (replicate nkeys 0) keyed (omega arith) (length-replicate nkeys 0)
        (λ k _. omega (arith, clear k)) in
    record {
      table = run.table;
      returned = rw s.returned (run.returned ∙ ap (λ m. some (m, run.table)) (omega arith));
      size = run.size;
      counted = λ k below. run.counted k below ∙ omega (arith, clear k);
    }
