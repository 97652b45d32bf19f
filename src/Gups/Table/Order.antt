-- ===== src/Gups/Table/Order.antt =====
-- The updates of trident-workloads/gups/gups.c stay in the table, and their order does not matter.
use native.Mathlib.Nat.{mod-lt}
use mathlib.Core.List.{Permᴰ}
use trident_micro21_artifact.Btree.Array.{write}
use trident_micro21_artifact.Gups.Table.{update, xor_at, updates}
use trident_micro21_artifact.Base.{
  ℕ, zero, suc, ◌-◌, ◌%◌, ◌<◌, bit_xor, ◌≡◌, refl, sym, ap, ap₂, ◌∙◌, some, List, [], ◌∷◌, ◌++◌,
  arith, lt→ltb, length, get_or, set, get_elem?-eq-get_or, bit_xor_self, zero-bit_xor, bit_xor_comm,
  bit_xor_assoc,
}

-- One change, within the table or not.
xor_in : (i r : ℕ) → List ℕ → List ℕ
xor_in i r [] = []
xor_in zero r (v ∷ table) = bit_xor v r ∷ table
xor_in (suc i) r (v ∷ table) = v ∷ xor_in i r table

xor_in-set :
    (i r : ℕ) (table : List ℕ) → set table i (bit_xor (get_or table i 0) r) ≡ xor_in i r table
unfolding xor_in
xor_in-set i r [] = refl
xor_in-set zero r (v ∷ table) = refl
xor_in-set (suc i) r (v ∷ table) = ap (v ∷◌) (xor_in-set i r table)

length-xor_in : (i r : ℕ) (table : List ℕ) → length (xor_in i r table) ≡ length table
unfolding xor_in
length-xor_in i r [] = refl
length-xor_in zero r (v ∷ table) = refl
length-xor_in (suc i) r (v ∷ table) = ap suc (length-xor_in i r table)

xor_in_comm :
    (i j r s : ℕ) (table : List ℕ) → xor_in i r (xor_in j s table) ≡ xor_in j s (xor_in i r table)
unfolding xor_in
xor_in_comm i j r s [] = refl
xor_in_comm zero zero r s (v ∷ table) =
    ap (◌∷ table)
      (bit_xor_assoc v s r ∙ ap (bit_xor v) (bit_xor_comm s r) ∙ sym (bit_xor_assoc v r s))
xor_in_comm zero (suc j) r s (v ∷ table) = refl
xor_in_comm (suc i) zero r s (v ∷ table) = refl
xor_in_comm (suc i) (suc j) r s (v ∷ table) = ap (v ∷◌) (xor_in_comm i j r s table)

xor_in_twice : (i r : ℕ) (table : List ℕ) → xor_in i r (xor_in i r table) ≡ table
unfolding xor_in
xor_in_twice i r [] = refl
xor_in_twice zero r (v ∷ table) =
    ap (◌∷ table)
      (bit_xor_assoc v r r ∙ ap (bit_xor v) (bit_xor_self r) ∙ bit_xor_comm v 0 ∙ zero-bit_xor v)
xor_in_twice (suc i) r (v ∷ table) = ap (v ∷◌) (xor_in_twice i r table)

xor_at_lem :
    (i r : ℕ) (table : List ℕ) → i < length table → xor_at i r table ≡ some (xor_in i r table)
unfolding xor_at write
xor_at_lem i r table h =
    rw (get_elem?-eq-get_or table i 0 h, lt→ltb i (length table) h) (ap some (xor_in-set i r table))

-- One update, within the table or not.
pub update_in : (size r : ℕ) → List ℕ → List ℕ
update_in size r table = xor_in (size - r % size) r (xor_in (r % size) r table)

pub update_lem :
    (size r : ℕ) (table : List ℕ)
    → 0 < size
    → size < length table
    → update size r table ≡ some (update_in size r table)
unfolding update update_in
update_lem size r table p h =
    let low : r % size < size = mod-lt r p in
    rw (xor_at_lem (r % size) r table (omega arith)) (
      xor_at_lem (size - r % size) r (xor_in (r % size) r table)
        (omega (arith, length-xor_in (r % size) r table)))

pub length-update_in :
    (size r : ℕ) (table : List ℕ) → length (update_in size r table) ≡ length table
unfolding update_in
length-update_in size r table =
    length-xor_in (size - r % size) r (xor_in (r % size) r table) ∙ length-xor_in (r % size) r table

update_in_comm :
    (size r s : ℕ) (table : List ℕ)
    → update_in size r (update_in size s table) ≡ update_in size s (update_in size r table)
unfolding update_in
update_in_comm size r s table =
    let i = r % size in
    let i' = size - r % size in
    let j = s % size in
    let j' = size - s % size in
    ap (xor_in i' r) (xor_in_comm i j' r s (xor_in j s table))
    ∙ xor_in_comm i' j' r s (xor_in i r (xor_in j s table))
    ∙ ap (λ t. xor_in j' s (xor_in i' r t)) (xor_in_comm i j r s table)
    ∙ ap (xor_in j' s) (xor_in_comm i' j r s (xor_in i r table))

update_in_twice : (size r : ℕ) (table : List ℕ) → update_in size r (update_in size r table) ≡ table
unfolding update_in
update_in_twice size r table =
    let i = r % size in
    let i' = size - r % size in
    ap (xor_in i' r) (xor_in_comm i i' r r (xor_in i r table))
    ∙ xor_in_twice i' r (xor_in i r (xor_in i r table))
    ∙ xor_in_twice i r table

-- A list of updates, within the table or not.
unfoldable pub all_in : (size : ℕ) → (rs table : List ℕ) → List ℕ
all_in size [] table = table
all_in size (r ∷ rs) table = all_in size rs (update_in size r table)

pub length-all_in : (size : ℕ) (rs table : List ℕ) → length (all_in size rs table) ≡ length table
unfolding all_in
length-all_in size [] table = refl
length-all_in size (r ∷ rs) table =
    length-all_in size rs (update_in size r table) ∙ length-update_in size r table

pub updates_lem :
    (size : ℕ) (rs table : List ℕ)
    → 0 < size
    → size < length table
    → updates size rs table ≡ some (all_in size rs table)
unfolding updates all_in
updates_lem size [] table p h = refl
updates_lem size (r ∷ rs) table p h =
    rw (update_lem size r table p h) (
      updates_lem size rs (update_in size r table) p (omega (arith, length-update_in size r table)))

all_in-Perm :
    (size : ℕ) {rs ss : List ℕ} (table : List ℕ)
    → Permᴰ rs ss
    → all_in size rs table ≡ all_in size ss table
unfolding all_in
all_in-Perm size table Permᴰ.nil = refl
all_in-Perm size table (Permᴰ.cons {b = b} {l₂ = l₂} e d) =
    all_in-Perm size _ d ∙ ap (λ r. all_in size l₂ (update_in size r table)) e
all_in-Perm size table (Permᴰ.swap {a = a} {b = b} {l = l} e f) =
    ap (all_in size l)
      (update_in_comm size b a table ∙ ap₂ (λ x y. update_in size x (update_in size y table)) e f)
all_in-Perm size table (Permᴰ.trans d e) = all_in-Perm size table d ∙ all_in-Perm size table e

pub all_in-append :
    (size : ℕ) (rs ss table : List ℕ)
    → all_in size (rs ++ ss) table ≡ all_in size ss (all_in size rs table)
unfolding all_in
all_in-append size [] ss table = refl
all_in-append size (r ∷ rs) ss table = all_in-append size rs ss (update_in size r table)

all_in-update_in :
    (size r : ℕ) (rs table : List ℕ)
    → all_in size rs (update_in size r table) ≡ update_in size r (all_in size rs table)
unfolding all_in
all_in-update_in size r [] table = refl
all_in-update_in size r (s ∷ rs) table =
    ap (all_in size rs) (update_in_comm size s r table)
    ∙ all_in-update_in size r rs (update_in size s table)

all_in_twice : (size : ℕ) (rs table : List ℕ) → all_in size rs (all_in size rs table) ≡ table
unfolding all_in
all_in_twice size [] table = refl
all_in_twice size (r ∷ rs) table =
    ap (all_in size rs) (sym (all_in-update_in size r rs (update_in size r table)))
    ∙ ap (λ t. all_in size rs (all_in size rs t)) (update_in_twice size r table)
    ∙ all_in_twice size rs table

-- On a table of more than `size` words, `size` positive, a run of updates makes no access out of
-- range and keeps the table's length; any reordering of the numbers leaves the same table; and
-- the same run again brings the old table back.
pub updates-Perm :
    (size : ℕ) (rs ss table : List ℕ)
    → 0 < size
    → size < length table
    → Permᴰ rs ss
    → ((t : List ℕ) × (updates size rs table ≡ some t) × (length t ≡ length table))
      × (updates size rs table ≡ updates size ss table)
      × (updates size (rs ++ rs) table ≡ some table)
updates-Perm size rs ss table p h d =
    let run = updates_lem size rs table p h in
    (
      (all_in size rs table, run, length-all_in size rs table),
      run ∙ ap some (all_in-Perm size table d) ∙ sym (updates_lem size ss table p h),
      updates_lem size (rs ++ rs) table p h
          ∙ ap some (all_in-append size rs rs table ∙ all_in_twice size rs table),
    )
