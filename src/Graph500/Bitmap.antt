-- ===== src/Graph500/Bitmap.antt =====
-- trident-workloads/graph500/omp-csr/bitmap.h: bits in 64-bit words. A bitmap is the list of its words;
-- the atomic `bm_set_bit_atomic` is a retry around the same change of one word. Positions are not
-- negative, and -1, "no further bit", is `none` inside the result.
pub mod Digits
pub mod Next
use trident_micro21_artifact.Base.{
  ℕ, zero, suc, ◌+◌, ◌/◌, ◌^◌, bit_and, bit_or, Option, none, some, List, [], ◌∷◌, ◌==◌,
  if◌then◌else◌, length, drop, replicate,
}
use trident_micro21_artifact.Btree.Array.{◌>>=◌, write, read}

-- WORD_OFFSET and BIT_OFFSET
unfoldable pub word_offset : ℕ → ℕ
word_offset n = n / 64

unfoldable pub bit_offset : ℕ → ℕ
bit_offset n = bit_and n 0x3f

unfoldable pub bm_reset : List ℕ → List ℕ
bm_reset words = replicate (length words) 0

unfoldable pub bm_init : (size : ℕ) → List ℕ
bm_init size = bm_reset (replicate ((size + 63) / 64) 0)

unfoldable pub bm_get_bit : List ℕ → (pos : ℕ) → Option ℕ
bm_get_bit words pos = do
  word ← read words (word_offset pos)
  some (bit_and word (2 ^ bit_offset pos))

unfoldable pub bm_set_bit : List ℕ → (pos : ℕ) → Option (List ℕ)
bm_set_bit words pos = do
  word ← read words (word_offset pos)
  write words (word_offset pos) (bit_or word (2 ^ bit_offset pos))

-- while (!temp) { it++; if (it >= bm->end) return -1; temp = *it; next += 64; }
-- on the words behind `it`; the next word that is not zero, and `next`.
unfoldable pub skip_words : List ℕ → (next : ℕ) → Option (ℕ × ℕ)
skip_words [] next = none
skip_words (word ∷ words) next =
    let rest = skip_words words (next + 64) in if word == 0 then rest else some (word, next + 64)

-- while (!(temp & 1)) { temp = temp >> 1; next++; }; a word has 64 bits.
unfoldable pub lowest_bit : (fuel temp next : ℕ) → ℕ
lowest_bit zero temp next = next
lowest_bit (suc f) temp next =
    let rest = lowest_bit f (temp / 2) (next + 1) in if bit_and temp 1 == 0 then rest else next

-- The end of `bm_get_next_bit`, for what its first loop leaves.
unfoldable pub finish_next : Option (ℕ × ℕ) → Option ℕ
finish_next none = none
finish_next (some (temp, next)) = some (lowest_bit 64 temp next)

unfoldable pub bm_get_next_bit : List ℕ → (pos : ℕ) → Option (Option ℕ)
bm_get_next_bit words pos = do
  word ← read words (word_offset pos)
  let temp = if bit_offset pos == 63 then 0 else word / 2 ^ (bit_offset pos + 1)
  some (
      finish_next (
        if temp == 0
        then skip_words (drop (word_offset pos + 1) words) (bit_and pos 0xffffffc0)
        else some (temp, pos + 1)))

unfoldable pub bm_swap : List ℕ × List ℕ → List ℕ × List ℕ
bm_swap (a, b) = (b, a)
