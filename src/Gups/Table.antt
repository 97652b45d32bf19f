-- ===== src/Gups/Table.antt =====
-- The update loops of trident-workloads/gups/gups.c and gupstoy.c, on the table as a list of the
-- words that were allocated. `size` is `TableSize`, which is less than that in gups.c.
pub mod Order
pub mod Rounded
pub mod Sweeps
use trident_micro21_artifact.Gups.{step, hpcc_starts}
use trident_micro21_artifact.Base.{
  ℕ, zero, suc, ◌-◌, ◌*◌, ◌%◌, ◌^◌, bit_xor, Option, none, some, List, [], ◌∷◌, ltb, ◌==◌,
  if◌then◌else◌,
}
use trident_micro21_artifact.Btree.Array.{◌>>=◌, read, write}

-- for (int i = 0; i < 64; i++) if (1ULL << i > mem) { mem = 1ULL << (i - 1); break; }
-- from `i` on, with `rounds` to go. The shift by -1, for no bytes at all, is not defined.
unfoldable pub rounded : (rounds i mem : ℕ) → Option ℕ
rounded zero i mem = some mem
rounded (suc c) i mem =
    let rest = rounded c (suc i) mem in
    if ltb mem (2 ^ i) then (if i == 0 then none else some (2 ^ (i - 1))) else rest

-- Table[i] ^= r;
unfoldable pub xor_at : (i r : ℕ) → List ℕ → Option (List ℕ)
xor_at i r table = do v ← read table i; write table i (bit_xor v r)

-- size_t elm = ran[j] % TableSize; Table[elm] ^= ran[j]; Table[TableSize - elm] ^= ran[j];
unfoldable pub update : (size r : ℕ) → List ℕ → Option (List ℕ)
update size r table = do changed ← xor_at (r % size) r table; xor_at (size - r % size) r changed

-- for (size_t j=0; j<128; j++) { ran[j] = step (ran[j]); ... }, for any number of generators.
unfoldable pub sweep : (size : ℕ) → (ran table : List ℕ) → Option (List ℕ × List ℕ)
sweep size [] table = some ([], table)
sweep size (r ∷ ran) table = do
  changed ← update size (step r) table
  rest ← sweep size ran changed
  some (step r ∷ rest.0, rest.1)

-- for (size_t i=0; i<NUPDATE/128; i++) { ... }
unfoldable pub sweeps : (size rounds : ℕ) → (ran table : List ℕ) → Option (List ℕ × List ℕ)
sweeps size zero ran table = some (ran, table)
sweeps size (suc c) ran table = do next ← sweep size ran table; sweeps size c next.0 next.1

-- for (size_t j=0; j<128; j++) ran[j] = HPCC_starts ((NUPDATE/128) * j);
-- with `first` of them done and `count` to go.
unfoldable pub starts : (stride first count : ℕ) → List ℕ
starts stride first zero = []
starts stride first (suc c) = hpcc_starts (stride * first) ∷ starts stride (suc first) c

-- A run of updates.
unfoldable pub updates : (size : ℕ) → (rs table : List ℕ) → Option (List ℕ)
updates size [] table = some table
updates size (r ∷ rs) table = do changed ← update size r table; updates size rs changed
