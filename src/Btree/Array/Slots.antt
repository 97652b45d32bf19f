-- ===== src/Btree/Array/Slots.antt =====
-- Accesses that are in range, for the loops in trident-workloads/graph500/ that write at computed places.
use trident_micro21_artifact.Btree.Array.{write}
use trident_micro21_artifact.Base.{ℕ, ◌<◌, ◌≡◌, refl, some, List, lt→ltb, length, set}

pub write-set {ℓ} :
    {A : Type ℓ} (xs : List A) (i : ℕ) (v : A) → i < length xs → write xs i v ≡ some (set xs i v)
unfolding write
write-set xs i v h = rw (lt→ltb i (length xs) h) refl
