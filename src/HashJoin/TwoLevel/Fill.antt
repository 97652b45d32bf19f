-- ===== src/HashJoin/TwoLevel/Fill.antt =====
-- The setup of trident-workloads/hashjoin/hashjoin_2.c: every slot of every second-level table leads to the
-- element of its own number, so all tables share their elements.
use mathlib.Core.Path.{subst}
use trident_micro21_artifact.Btree.Array.{write}
use trident_micro21_artifact.HashJoin.TwoLevel.{
  Slots, Level2, Levels, set_slot, fill_slots, fill_tables, setup_levels,
}
use trident_micro21_artifact.Base.{
  ℕ, zero, suc, ◌+◌, ◌*◌, ◌≤◌, ◌<◌, ◌≡◌, refl, sym, ap, ◌∙◌, inl, inr, Option, none, some, List,
  arith, lt→ltb, length, get_or, set, length-set, length-replicate, get_or-set_self, get_or-set_ne,
  eq-cases, replicate,
}

abbrev pub LeadsTo : (l2 : ℕ) → Slots → Type 0
LeadsTo l2 slots = (length slots ≡ l2) × ((j : ℕ) → j < l2 → get_or slots j none ≡ some j)

-- The elements that the slots lead to carry their numbers as keys.
abbrev pub Numbered : (l2 : ℕ) → List ℕ → Type 0
Numbered l2 keys = (j : ℕ) → j < l2 → get_or keys j 0 ≡ j

record Filling (l2 size j : ℕ) (t : Level2) : Type 0 where
  slot_count : length t.slots ≡ l2
  key_count : length t.keys ≡ size
  slots : (k : ℕ) → k < j → get_or t.slots k none ≡ some k
  keys : (k : ℕ) → k < j → get_or t.keys k 0 ≡ k

module _ (l2 size : ℕ) (room : l2 ≤ size) where
  record Filled (j : ℕ) (r : Option Level2) : Type 0 where
    after : Level2
    returned : r ≡ some after
    filling : Filling l2 size j after

  set_slot-Filled :
      (j : ℕ) (t : Level2) → j < l2 → Filling l2 size j t → Filled (suc j) (set_slot j t)
  unfolding set_slot write
  set_slot-Filled j t lt v =
      let in_slots : j < length t.slots = omega (arith, v.slot_count) in
      let in_keys : j < length t.keys = omega (arith, v.key_count) in
      record {
        after = record { slots = set t.slots j (some j); keys = set t.keys j j };
        returned = rw (lt→ltb j (length t.slots) in_slots, lt→ltb j (length t.keys) in_keys) refl;
        filling = record {
          slot_count = length-set t.slots j (some j) ∙ v.slot_count;
          key_count = length-set t.keys j j ∙ v.key_count;
          slots = λ k h. elim (eq-cases j k) [
            | inl same ↦
                ap (λ i. get_or (set t.slots j (some j)) i none) (sym same)
                ∙ get_or-set_self t.slots j (some j) none in_slots
                ∙ ap some same
            | inr other ↦ get_or-set_ne t.slots j k (some j) none other ∙ v.slots k (ground arith)
          ];
          keys = λ k h. elim (eq-cases j k) [
            | inl same ↦
                ap (λ i. get_or (set t.keys j j) i 0) (sym same)
                ∙ get_or-set_self t.keys j j 0 in_keys
                ∙ same
            | inr other ↦ get_or-set_ne t.keys j k j 0 other ∙ v.keys k (ground arith)
          ];
        };
      }

  fill_slots-Filled :
      (rounds j : ℕ) (t : Level2)
      → rounds + j ≡ l2
      → Filling l2 size j t
      → Filled l2 (fill_slots rounds j t)
  unfolding fill_slots
  fill_slots-Filled zero j t e v =
      let all : j ≡ l2 = omega arith in
      record { after = t; returned = refl; filling = subst (λ k. Filling l2 size k t) all v }
  fill_slots-Filled (suc c) j t e v =
      let s = set_slot-Filled j t (omega arith) v in
      let rest = fill_slots-Filled c (suc j) s.after (omega arith) s.filling in
      record { after = rest.after; returned = rw s.returned rest.returned; filling = rest.filling }

  pub record IsLevels (l1 i : ℕ) (t : Levels) : Type 0 where
    pub table_count : length t.l1_hash_table ≡ l1
    pub key_count : length t.keys ≡ size
    pub tables :
        (r : ℕ)
        → r < i
        → (slots : Slots) × (get_or t.l1_hash_table r none ≡ some slots) × LeadsTo l2 slots
    pub numbered : 0 < i → Numbered l2 t.keys

  next_tables :
      (tables : List (Option Slots)) (i : ℕ) (new : Slots)
      → i < length tables
      → LeadsTo l2 new
      → ((r : ℕ) → r < i → (slots : Slots) × (get_or tables r none ≡ some slots) × LeadsTo l2 slots)
      → (r : ℕ) → r < suc i
      → (slots : Slots) × (get_or (set tables i (some new)) r none ≡ some slots) × LeadsTo l2 slots
  next_tables tables i new lt leads before r h = elim (eq-cases i r) [
    | inl same ↦ (
      new,
      ap (λ k. get_or (set tables i (some new)) k none) (sym same)
          ∙ get_or-set_self tables i (some new) none lt,
      leads,
    )
    | inr other ↦
        let (slots, e, l) = before r (ground arith) in
        (slots, get_or-set_ne tables i r (some new) none other ∙ e, l)
  ]

  pub record SetUp (l1 : ℕ) (r : Option Levels) : Type 0 where
    pub after : Levels
    pub returned : r ≡ some after
    pub levels : IsLevels l1 l1 after

  fill_tables-SetUp :
      (l1 rounds i : ℕ) (t : Levels)
      → rounds + i ≡ l1
      → IsLevels l1 i t
      → SetUp l1 (fill_tables l2 rounds i t)
  unfolding fill_tables write
  fill_tables-SetUp l1 zero i t e v =
      let all : i ≡ l1 = omega arith in
      record { after = t; returned = refl; levels = subst (λ k. IsLevels l1 k t) all v }
  fill_tables-SetUp l1 (suc c) i t e v =
      let level =
        fill_slots-Filled l2 0 (record { slots = replicate l2 none; keys = t.keys }) (omega arith)
          (record {
            slot_count = length-replicate l2 none;
            key_count = v.key_count;
            slots = λ k h. absurd (omega arith);
            keys = λ k h. absurd (omega arith);
          }) in
      let below : i < length t.l1_hash_table = omega (arith, v.table_count) in
      let f = level.filling in
      let next : Levels = record {
        l1_hash_table = set t.l1_hash_table i (some level.after.slots);
        keys = level.after.keys;
      } in
      let rest = fill_tables-SetUp l1 c (suc i) next (omega arith) (record {
        table_count = length-set t.l1_hash_table i (some level.after.slots) ∙ v.table_count;
        key_count = f.key_count;
        tables =
            next_tables t.l1_hash_table i level.after.slots below (f.slot_count, f.slots) v.tables;
        numbered = λ _. f.keys;
      }) in
      record {
        after = rest.after;
        returned = rw (level.returned, lt→ltb i (length t.l1_hash_table) below) rest.returned;
        levels = rest.levels;
      }

pub setup_levels-SetUp :
    (l1 l2 : ℕ) → (room : l2 ≤ l1 * l2) → SetUp l2 (l1 * l2) room l1 (setup_levels l1 l2)
unfolding setup_levels
setup_levels-SetUp l1 l2 room =
    fill_tables-SetUp l2 (l1 * l2) room l1 l1 0
      (record { l1_hash_table = replicate l1 none; keys = replicate (l1 * l2) 0 }) (omega arith)
      (record {
        table_count = length-replicate l1 none;
        key_count = length-replicate (l1 * l2) 0;
        tables = λ r h. absurd (omega arith);
        numbered = λ h. absurd (omega arith);
      })
