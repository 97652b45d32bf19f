-- ===== src/Graph500/Bitmap/Next.antt =====
-- `bm_get_next_bit` in trident-workloads/graph500/omp-csr/bitmap.h.
use native.Mathlib.Nat.{div-le_self, div-one, mul-one, div-div-eq-div-mul, pow-suc}
use trident_micro21_artifact.Graph500.Bitmap.{
  skip_words, finish_next, lowest_bit, bm_get_next_bit, word_offset, bit_offset,
}
use trident_micro21_artifact.Graph500.Bitmap.Digits.{Lowest, lowest_bit-Lowest, digit-high}
use trident_micro21_artifact.Base.Digits.{digit-shift, digit, zero-digit}
use trident_micro21_artifact.Base.{
  ℕ, zero, suc, ◌+◌, ◌-◌, ◌*◌, ◌/◌, ◌%◌, ◌^◌, ◌<◌, bit_and, ◌≡◌, refl, sym, ap, ◌∙◌, ◌≢◌, inl, inr,
  Option, none, some, List, [], ◌∷◌, arith, ltb, ◌==◌, if◌then◌else◌, ltb→lt, ltb-false→le, ==_iff,
  Bool-cases, length, get_or, drop, get_elem?-eq-get_or, bit_and_step, mul-two-pow-suc, ap₂,
  bit_and_mask, eq-cases, ==-ne,
}

abbrev pub bit : List ℕ → ℕ → ℕ
bit words n = digit (get_or words (n / 64) 0) (n % 64)

-- What the loop over the words behind one finds: `base` is 64 times the place of that one.
abbrev Skipped : List ℕ → ℕ → Option (ℕ × ℕ) → Type 0
Skipped ws base none = (i : ℕ) → get_or ws i 0 ≡ 0
Skipped ws base (some (w, n)) =
    (i : ℕ) × (get_or ws i 0 ≡ w)
    × (w ≢ 0)
    × (n ≡ base + 64 * (i + 1))
    × ((j : ℕ) → j < i → get_or ws j 0 ≡ 0)

behind :
    (w : ℕ) (ws : List ℕ) (base : ℕ) (r : Option (ℕ × ℕ))
    → w ≡ 0
    → Skipped ws (base + 64) r
    → Skipped (w ∷ ws) base r
behind w ws base none z s = all
  where
    all : (i : ℕ) → get_or (w ∷ ws) i 0 ≡ 0
    all zero = z
    all (suc i) = s i
behind w ws base (some (v, n)) z (i, at, ne, e, zeros) = (suc i, at, ne, omega arith, all)
  where
    all : (j : ℕ) → j < suc i → get_or (w ∷ ws) j 0 ≡ 0
    all zero h = z
    all (suc j) h = zeros j (omega arith)

skip_words-Skipped : (ws : List ℕ) (base : ℕ) → Skipped ws base (skip_words ws base)
unfolding skip_words
skip_words-Skipped [] base = λ i. refl
skip_words-Skipped (w ∷ ws) base = elim (eq-cases w 0) [
  | inl z ↦
      rw ((==_iff w 0).1 z)
        (behind w ws base (skip_words ws (base + 64)) z (skip_words-Skipped ws (base + 64)))
  | inr ne ↦ rw (==-ne w 0 ne) (0, refl, ne, omega arith, λ j h. absurd (omega arith))
]

get_or-drop : (a : ℕ) (xs : List ℕ) (i : ℕ) → get_or (drop a xs) i 0 ≡ get_or xs (a + i) 0
get_or-drop zero xs i = ap (λ n. get_or xs n 0) (omega arith)
get_or-drop (suc a) [] i = refl
get_or-drop (suc a) (x ∷ xs) i =
    get_or-drop a xs i
    ∙ ap (λ n. get_or (x ∷ xs) n 0) {x = suc (a + i)} {y = suc a + i} (omega arith)

-- The mask of `bm_get_next_bit` clears the six low bits of a position of 32 bits.
low_zero : (v m : ℕ) → bit_and v (2 * m) ≡ 2 * bit_and (v / 2) m
low_zero v m =
    let half : 2 * m / 2 ≡ m = omega arith in
    omega (arith, bit_and_step v (2 * m), ap (bit_and (v / 2)) half)

low_zeros : (k v m : ℕ) → bit_and v (m * 2 ^ k) ≡ bit_and (v / 2 ^ k) m * 2 ^ k
low_zeros zero v m = ap₂ bit_and (sym (div-one v)) (mul-one m) ∙ sym (mul-one (bit_and (v / 1) m))
low_zeros (suc k) v m =
    let over : v / 2 / 2 ^ k ≡ v / 2 ^ suc k =
      div-div-eq-div-mul v 2 (2 ^ k) ∙ ap (λ n. v / n) (omega (arith, pow-suc 2 k)) in
    ap (bit_and v) (mul-two-pow-suc m k)
    ∙ low_zero v (m * 2 ^ k)
    ∙ ap (λ n. 2 * n) (low_zeros k (v / 2) m ∙ ap (λ n. bit_and n m * 2 ^ k) over)
    ∙ sym (mul-two-pow-suc (bit_and (v / 2 ^ suc k) m) k)

mask_lem : (pos : ℕ) → pos < 2 ^ 32 → bit_and pos 0xffffffc0 ≡ 64 * (pos / 64)
mask_lem pos h = omega (arith, low_zeros 6 pos 0x3ffffff, bit_and_mask 26 (pos / 64))

-- The least position above `pos` with a bit, or none.
abbrev pub NextBit : List ℕ → ℕ → Option ℕ → Type 0
NextBit words pos none = (m : ℕ) → pos < m → bit words m ≡ 0
NextBit words pos (some n) =
    (pos < n) × (bit words n ≡ 1) × ((m : ℕ) → pos < m → m < n → bit words m ≡ 0)

module _ (words : List ℕ) (pos : ℕ) (small : (i : ℕ) → get_or words i 0 < 2 ^ 64) where
  abbrev word : ℕ
  word = get_or words (pos / 64) 0

  abbrev rest_of_word : ℕ
  rest_of_word = word / 2 ^ (pos % 64 + 1)

  -- The bits above the position in its word.
  bit_same :
      (m : ℕ) → pos < m → m / 64 ≡ pos / 64 → bit words m ≡ digit rest_of_word (m - (pos + 1))
  bit_same m h e =
      ap (λ i. digit (get_or words i 0) (m % 64)) e
      ∙ ap (digit word) {y = pos % 64 + 1 + (m - (pos + 1))} (omega arith)
      ∙ sym (digit-shift word (pos % 64 + 1) (m - (pos + 1)))

  place_below : (w p : ℕ) → w < 2 ^ 64 → digit w p ≡ 1 → p < 64
  place_below w p h one = elim (Bool-cases (ltb p 64)) [
    | inl l ↦ ltb→lt p 64 l
    | inr l ↦ absurd (omega (arith, digit-high w p h (ltb-false→le p 64 l)))
  ]

  no_word : (m : ℕ) → get_or words (m / 64) 0 ≡ 0 → bit words m ≡ 0
  no_word m e = ap (λ w. digit w (m % 64)) e ∙ zero-digit (m % 64)

  in_word :
      (r : ℕ) → rest_of_word ≢ 0 → Lowest rest_of_word (pos + 1) r → NextBit words pos (some r)
  in_word r ne l =
      let below =
        place_below word (pos % 64 + 1 + l.place) (small (pos / 64))
          (sym (digit-shift word (pos % 64 + 1) l.place) ∙ l.is_one) in
      (
        omega (arith, l.found),
        bit_same r (omega (arith, l.found)) (omega (arith, l.found))
            ∙ ap (digit rest_of_word) {y = l.place} (omega (arith, l.found))
            ∙ l.is_one,
        λ m h less.
            bit_same m h (omega (arith, l.found))
            ∙ l.zeros (m - (pos + 1)) (omega (arith, l.found)),
      )

  in_word_finish :
      rest_of_word ≢ 0
      → Lowest rest_of_word (pos + 1) (lowest_bit 64 rest_of_word (pos + 1))
      → NextBit words pos (finish_next (some (rest_of_word, pos + 1)))
  unfolding finish_next
  in_word_finish ne l = in_word (lowest_bit 64 rest_of_word (pos + 1)) ne l

  same_word : (m : ℕ) → rest_of_word ≡ 0 → pos < m → m / 64 ≡ pos / 64 → bit words m ≡ 0
  same_word m z h e =
      bit_same m h e ∙ ap (λ w. digit w (m - (pos + 1))) z ∙ zero-digit (m - (pos + 1))

  -- The word behind, at a place of its own.
  word_behind :
      (i k : ℕ) → k ≡ pos / 64 + 1 + i → get_or words k 0 ≡ get_or (drop (pos / 64 + 1) words) i 0
  word_behind i k e = ap (λ n. get_or words n 0) e ∙ sym (get_or-drop (pos / 64 + 1) words i)

  in_next_words :
      (r : Option (ℕ × ℕ))
      → rest_of_word ≡ 0
      → Skipped (drop (pos / 64 + 1) words) (64 * (pos / 64)) r
      → NextBit words pos (finish_next r)
  unfolding finish_next
  in_next_words none z s = λ m h. elim (eq-cases (m / 64) (pos / 64)) [
    | inl e ↦ same_word m z h e
    | inr ne ↦
        let i = m / 64 - (pos / 64 + 1) in no_word m (word_behind i (m / 64) (omega arith) ∙ s i)
  ]
  in_next_words (some (w, n)) z (i, at, ne, e, zeros) =
      let is_word : get_or words (pos / 64 + 1 + i) 0 ≡ w =
        word_behind i (pos / 64 + 1 + i) refl ∙ at in
      let fits : w < 2 ^ 64 = omega (arith, is_word, small (pos / 64 + 1 + i)) in
      let l = lowest_bit-Lowest 64 w n ne fits in
      let below = place_below w l.place fits l.is_one in
      let r = lowest_bit 64 w n in
      let here_at : (m : ℕ) → m / 64 ≡ pos / 64 + 1 + i → bit words m ≡ digit w (m % 64) =
        λ m q. ap (λ v. digit v (m % 64)) (ap (λ k. get_or words k 0) q ∙ is_word) in
      (
        omega (arith, l.found),
        here_at r (omega (arith, l.found))
            ∙ ap (digit w) {y = l.place} (omega (arith, l.found))
            ∙ l.is_one,
        λ m h less. elim (eq-cases (m / 64) (pos / 64)) [
          | inl q ↦ same_word m z h q
          | inr a ↦ elim (eq-cases (m / 64) (pos / 64 + 1 + i)) [
            | inl q ↦ here_at m q ∙ l.zeros (m % 64) (omega (arith, l.found))
            | inr b ↦
                let j = m / 64 - (pos / 64 + 1) in
                no_word m (word_behind j (m / 64) (omega arith) ∙ zeros j (omega (arith, l.found)))
          ]
        ],
      )

temp_lem : (o w : ℕ) → w < 2 ^ 64 → (if o == 63 then 0 else w / 2 ^ (o + 1)) ≡ w / 2 ^ (o + 1)
temp_lem o w small = elim (eq-cases o 63) [
  | inl e ↦ rw e (omega arith)
  | inr ne ↦ rw (==-ne o 63 ne) refl
]

shrink : (w k : ℕ) → w < 2 ^ 64 → w / 2 ^ k < 2 ^ 64
shrink w k small = omega (arith, div-le_self w (2 ^ k))

-- On words of 64 bits and from a position below 2 ^ 32 in them, `bm_get_next_bit` returns the least
-- position above it whose bit is set, and none exactly where no further bit is set.
pub bm_get_next_bit-NextBit :
    (words : List ℕ) (pos : ℕ)
    → ((i : ℕ) → get_or words i 0 < 2 ^ 64)
    → pos / 64 < length words
    → pos < 2 ^ 32
    → (r : Option ℕ) × (bm_get_next_bit words pos ≡ some r) × NextBit words pos r
unfolding bm_get_next_bit word_offset bit_offset
bm_get_next_bit-NextBit words pos small inside below =
    let w = get_or words (pos / 64) 0 in
    let temp = w / 2 ^ (pos % 64 + 1) in
    let start =
      if temp == 0
      then skip_words (drop (pos / 64 + 1) words) (64 * (pos / 64))
      else some (temp, pos + 1) in
    let runs : bm_get_next_bit words pos ≡ some (finish_next start) =
      rw
        (
          get_elem?-eq-get_or words (pos / 64) 0 inside,
          bit_and_mask 6 pos,
          temp_lem (pos % 64) w (small (pos / 64)),
          mask_lem pos below,
        )
        refl in
    (
      finish_next start,
      runs,
      elim (eq-cases temp 0) [
        | inl z ↦ rw ((==_iff temp 0).1 z) (
            in_next_words words pos small (skip_words (drop (pos / 64 + 1) words) (64 * (pos / 64)))
              z (skip_words-Skipped (drop (pos / 64 + 1) words) (64 * (pos / 64))))
        | inr ne ↦ rw (==-ne temp 0 ne) (
            in_word_finish words pos small ne
              (lowest_bit-Lowest 64 temp (pos + 1) ne (shrink w (pos % 64 + 1) (small (pos / 64)))))
      ],
    )
