-- ===== src/Btree/Array/Loops.antt =====
-- What the array loops of trident-workloads/btree/btree1.c do, each on an array written as its
-- parts. No access is out of range where the parts have these lengths.
use mathlib.Core.List.{append_assoc, reverse_aux}
use trident_micro21_artifact.Base.{
  ℕ, zero, suc, ◌+◌, ◌≡◌, refl, ap, some, List, [], ◌∷◌, ◌++◌, arith, length, set, replicate,
  length-append,
}
use trident_micro21_artifact.Btree.Array.{read, write, shift_up, shift_down, copy, fill}

module _ {ℓ} {A : Type ℓ} where
  pub read-append : (us ys : List A) (k i : ℕ) → k ≡ length us + i → read (us ++ ys) k ≡ read ys i
  read-append [] ys k i e = rw e (ap (read ys) (omega arith))
  read-append (u ∷ us) ys zero i e = absurd (omega arith)
  read-append (u ∷ us) ys (suc k) i e = read-append us ys k i (omega arith)

  set-append :
      (us ys : List A) (k i : ℕ) (v : A) → k ≡ length us + i → set (us ++ ys) k v ≡ us ++ set ys i v
  set-append [] ys k i v e = rw e (ap (λ j. set ys j v) (omega arith))
  set-append (u ∷ us) ys zero i v e = absurd (omega arith)
  set-append (u ∷ us) ys (suc k) i v e = ap (λ t. u ∷ t) (set-append us ys k i v (omega arith))

  pub write-append :
      (us : List A) (x : A) (ys : List A) (k : ℕ) (v : A)
      → k ≡ length us
      → write (us ++ (x ∷ ys)) k v ≡ some (us ++ (v ∷ ys))
  unfolding write
  write-append us x ys k v e =
      ground (arith, set-append us (x ∷ ys) k 0 v, length-append us (x ∷ ys))

  pub read_at :
      (us : List A) (x : A) (ys : List A) (k : ℕ) → k ≡ length us → read (us ++ (x ∷ ys)) k ≡ some x
  read_at us x ys k e = read-append us (x ∷ ys) k 0 (omega arith)

  reverse_aux-append : (rs ys zs : List A) → reverse_aux rs (ys ++ zs) ≡ reverse_aux rs ys ++ zs
  reverse_aux-append [] ys zs = refl
  reverse_aux-append (r ∷ rs) ys zs = reverse_aux-append rs (r ∷ ys) zs

  length-reverse_aux : (rs ys : List A) → length (reverse_aux rs ys) ≡ length rs + length ys
  length-reverse_aux [] ys = omega arith
  length-reverse_aux (r ∷ rs) ys = omega (arith, length-reverse_aux rs (r ∷ ys))

  front : (us rs ys : List A) → us ++ reverse_aux rs ys ≡ (us ++ reverse_aux rs []) ++ ys
  front us rs ys = rw (append_assoc, ← reverse_aux-append rs [] ys)

  length-front : (us rs : List A) → length (us ++ reverse_aux rs []) ≡ length us + length rs
  length-front us rs = omega (arith, length-append us (reverse_aux rs []), length-reverse_aux rs [])

  read_back :
      (us rs : List A) (r : A) (ys : List A)
      → read (us ++ reverse_aux rs (r ∷ ys)) (length us + length rs) ≡ some r
  read_back us rs r ys =
      rw (front us rs (r ∷ ys))
        (read_at (us ++ reverse_aux rs []) r ys _ (omega (arith, length-front us rs)))

  write_back :
      (us rs : List A) (j : A) (ys : List A) (v : A)
      → write (us ++ reverse_aux rs (j ∷ ys)) (length us + length rs) v
        ≡ some (us ++ reverse_aux rs (v ∷ ys))
  write_back us rs j ys v =
      rw (front us rs (j ∷ ys), front us rs (v ∷ ys))
        (write-append (us ++ reverse_aux rs []) j ys _ v (omega (arith, length-front us rs)))

  -- Moving the part `rs` (last element first) up by one slot leaves a gap before it.
  pub shift_up_lem :
      (us rs : List A) (j : A) (rest : List A)
      → (gap : A) × (shift_up (length us) (length rs) (us ++ reverse_aux rs (j ∷ rest))
          ≡ some (us ++ (gap ∷ reverse_aux rs rest)))
  unfolding shift_up
  shift_up_lem us [] j rest = (j, refl)
  shift_up_lem us (r ∷ rs) j rest =
      let (gap, ih) = shift_up_lem us rs r (r ∷ rest) in
      (gap, rw (read_back us rs r (j ∷ rest), write_back us (r ∷ rs) j rest r) ih)

  reverse_aux-reverse_aux :
      (xs ys zs : List A) → reverse_aux (reverse_aux xs ys) zs ≡ reverse_aux ys (xs ++ zs)
  reverse_aux-reverse_aux [] ys zs = refl
  reverse_aux-reverse_aux (x ∷ xs) ys zs = reverse_aux-reverse_aux xs (x ∷ ys) zs

  -- The insertion: the part from `length us` on goes up, and a write fills the gap.
  pub make_room :
      (us bs : List A) (j : A) (rest : List A) (v : A) (k n : ℕ)
      → k ≡ length us
      → n ≡ length bs
      → (roomy : List A) × (shift_up k n (us ++ (bs ++ (j ∷ rest))) ≡ some roomy)
        × (write roomy k v ≡ some (us ++ (v ∷ (bs ++ rest))))
  make_room us bs j rest v k n e p =
      let (gap, moved) = shift_up_lem us (reverse_aux bs []) j rest in
      let m : length (reverse_aux bs []) ≡ n = omega (arith, length-reverse_aux bs []) in
      (
        us ++ (gap ∷ (bs ++ rest)),
        rw
            (
              e,
              ← m,
              ← reverse_aux-reverse_aux bs [] (j ∷ rest),
              ← reverse_aux-reverse_aux bs [] rest,
            )
            moved,
        write-append us gap (bs ++ rest) k v e,
      )

  -- Moving the part `bs` down by one slot drops the element before it.
  pub shift_down_lem :
      (us : List A) (x : A) (bs rest : List A) (k n : ℕ)
      → k ≡ length us
      → n ≡ length bs
      → (left : A) × (shift_down k n (us ++ (x ∷ (bs ++ rest)))
          ≡ some (us ++ (bs ++ (left ∷ rest))))
  unfolding shift_down
  shift_down_lem us x [] rest k zero e p = (x, refl)
  shift_down_lem us x [] rest k (suc n) e p = absurd (omega arith)
  shift_down_lem us x (b ∷ bs) rest k zero e p = absurd (omega arith)
  shift_down_lem us x (b ∷ bs) rest k (suc n) e p =
      let (left, ih) =
        shift_down_lem (us ++ (b ∷ [])) b bs rest (suc k) n
          (omega (arith, length-append us (b ∷ []))) (omega arith) in
      (
        left,
        rw
            (
              read-append us (x ∷ b ∷ (bs ++ rest)) (suc k) 1 (omega arith),
              write-append us x (b ∷ (bs ++ rest)) k b e,
            )
            (rw
              (
                append_assoc us (b ∷ []) (b ∷ (bs ++ rest)),
                append_assoc us (b ∷ []) (bs ++ (left ∷ rest)),
              )
              at ih),
      )

  -- Copying the part `ms` of one array over the part `vs` of another.
  pub copy_lem :
      (us ms ts hs vs rest : List A) (i j n : ℕ)
      → i ≡ length us
      → j ≡ length hs
      → n ≡ length ms
      → n ≡ length vs
      → copy (us ++ (ms ++ ts)) i j n (hs ++ (vs ++ rest)) ≡ some (hs ++ (ms ++ rest))
  unfolding copy
  copy_lem us [] ts hs [] rest i j zero e f p q = refl
  copy_lem us [] ts hs (v ∷ vs) rest i j zero e f p q = absurd (omega arith)
  copy_lem us (m ∷ ms) ts hs vs rest i j zero e f p q = absurd (omega arith)
  copy_lem us [] ts hs vs rest i j (suc n) e f p q = absurd (omega arith)
  copy_lem us (m ∷ ms) ts hs [] rest i j (suc n) e f p q = absurd (omega arith)
  copy_lem us (m ∷ ms) ts hs (v ∷ vs) rest i j (suc n) e f p q =
      let ih =
        copy_lem (us ++ (m ∷ [])) ms ts (hs ++ (m ∷ [])) vs rest (suc i) (suc j) n
          (omega (arith, length-append us (m ∷ []))) (omega (arith, length-append hs (m ∷ [])))
          (omega arith) (omega arith) in
      rw (read_at us m (ms ++ ts) i e, write-append hs v (vs ++ rest) j m f)
        (rw
          (
            append_assoc us (m ∷ []) (ms ++ ts),
            append_assoc hs (m ∷ []) (vs ++ rest),
            append_assoc hs (m ∷ []) (ms ++ rest),
          )
          at ih)

  pub fill_lem :
      (us vs rest : List A) (v : A) (k n : ℕ)
      → k ≡ length us
      → n ≡ length vs
      → fill k n v (us ++ (vs ++ rest)) ≡ some (us ++ (replicate n v ++ rest))
  unfolding fill
  fill_lem us [] rest v k zero e p = refl
  fill_lem us [] rest v k (suc n) e p = absurd (omega arith)
  fill_lem us (x ∷ vs) rest v k zero e p = absurd (omega arith)
  fill_lem us (x ∷ vs) rest v k (suc n) e p =
      let ih =
        fill_lem (us ++ (v ∷ [])) vs rest v (suc k) n (omega (arith, length-append us (v ∷ [])))
          (omega arith) in
      rw (write-append us x (vs ++ rest) k v e) (
        rw (append_assoc us (v ∷ []) (vs ++ rest), append_assoc us (v ∷ []) (replicate n v ++ rest))
          at ih)
