-- ===== src/Btree/Node/Insert/Spread.antt =====
-- The temporary array of a split in trident-workloads/btree/btree1.c: the old entries, with the new
-- one in its place.
use mathlib.Core.List.{append_assoc}
use trident_micro21_artifact.Base.{
  ℕ, zero, suc, ◌+◌, ◌<◌, ◌≡◌, refl, sym, ap, ◌∙◌, true, false, some, List, [], ◌∷◌, ◌++◌, arith,
  ◌==◌, length, replicate, length-append, length-replicate, replicate-append,
}
use trident_micro21_artifact.Btree.Array.Loops.{read_at, write-append}
use trident_micro21_artifact.Btree.Node.Insert.{copy_around, spread}

module _ {ℓ} {A : Type ℓ} where
  -- Behind the gap the copy goes on as any copy.
  copy_past :
      (skip : ℕ) (us ms ts hs vs rest : List A) (i j n : ℕ)
      → i ≡ length us
      → j ≡ length hs
      → n ≡ length ms
      → n ≡ length vs
      → skip < j
      → copy_around skip (us ++ (ms ++ ts)) i j n (hs ++ (vs ++ rest)) ≡ some (hs ++ (ms ++ rest))
  unfolding copy_around
  copy_past skip us [] ts hs [] rest i j zero e f p q lt = refl
  copy_past skip us [] ts hs (v ∷ vs) rest i j zero e f p q lt = absurd (omega arith)
  copy_past skip us (m ∷ ms) ts hs vs rest i j zero e f p q lt = absurd (omega arith)
  copy_past skip us [] ts hs vs rest i j (suc n) e f p q lt = absurd (omega arith)
  copy_past skip us (m ∷ ms) ts hs [] rest i j (suc n) e f p q lt = absurd (omega arith)
  copy_past skip us (m ∷ ms) ts hs (v ∷ vs) rest i j (suc n) e f p q lt =
      let past : (j == skip) ≡ false = ground arith in
      let ih =
        copy_past skip (us ++ (m ∷ [])) ms ts (hs ++ (m ∷ [])) vs rest (i + 1) (j + 1) n
          (omega (arith, length-append us (m ∷ []))) (omega (arith, length-append hs (m ∷ [])))
          (omega arith) (omega arith) (omega arith) in
      rw (past, read_at us m (ms ++ ts) i e, write-append hs v (vs ++ rest) j m f)
        (rw
          (
            append_assoc us (m ∷ []) (ms ++ ts),
            append_assoc hs (m ∷ []) (vs ++ rest),
            append_assoc hs (m ∷ []) (ms ++ rest),
          )
          at ih)

  copy_from_gap :
      (skip : ℕ) (xs ys : List A) (i n : ℕ)
      → copy_around skip xs i skip n ys ≡ copy_around skip xs i (skip + 1) n ys
  unfolding copy_around
  copy_from_gap skip xs ys i zero = refl
  copy_from_gap skip xs ys i (suc n) =
      let at : (skip == skip) ≡ true = ground arith in
      let past : (skip + 1 == skip) ≡ false = ground arith in rw (at, past)

  copy_around_lem :
      (us ms ns ts hs vs : List A) (x : A) (ws rest : List A) (skip i j n : ℕ)
      → i ≡ length us
      → j ≡ length hs
      → skip ≡ length hs + length ms
      → length ms ≡ length vs
      → length ns ≡ length ws
      → n ≡ length ms + length ns
      → copy_around skip (us ++ (ms ++ (ns ++ ts))) i j n (hs ++ (vs ++ (x ∷ (ws ++ rest))))
        ≡ some (hs ++ (ms ++ (x ∷ (ns ++ rest))))
  unfolding copy_around
  copy_around_lem us [] ns ts hs [] x ws rest skip i j n e f s a b c =
      let same : j ≡ skip = omega arith in
      rw (same, copy_from_gap skip (us ++ (ns ++ ts)) (hs ++ (x ∷ (ws ++ rest))) i n)
        (rw (append_assoc hs (x ∷ []) (ws ++ rest), append_assoc hs (x ∷ []) (ns ++ rest)) at
          (copy_past skip us ns ts (hs ++ (x ∷ [])) ws rest i (skip + 1) n e
            (omega (arith, length-append hs (x ∷ []))) (omega arith) (omega arith) (omega arith)))
  copy_around_lem us [] ns ts hs (v ∷ vs) x ws rest skip i j n e f s a b c = absurd (omega arith)
  copy_around_lem us (m ∷ ms) ns ts hs [] x ws rest skip i j n e f s a b c = absurd (omega arith)
  copy_around_lem us (m ∷ ms) ns ts hs (v ∷ vs) x ws rest skip i j zero e f s a b c =
      absurd (omega arith)
  copy_around_lem us (m ∷ ms) ns ts hs (v ∷ vs) x ws rest skip i j (suc n) e f s a b c =
      let before : (j == skip) ≡ false = ground arith in
      let ih =
        copy_around_lem (us ++ (m ∷ [])) ms ns ts (hs ++ (m ∷ [])) vs x ws rest skip (i + 1) (j + 1)
          n (omega (arith, length-append us (m ∷ []))) (omega (arith, length-append hs (m ∷ [])))
          (omega (arith, length-append hs (m ∷ []))) (omega arith) b (omega arith) in
      rw
        (
          before,
          read_at us m (ms ++ (ns ++ ts)) i e,
          write-append hs v (vs ++ (x ∷ (ws ++ rest))) j m f,
        )
        (rw
          (
            append_assoc us (m ∷ []) (ms ++ (ns ++ ts)),
            append_assoc hs (m ∷ []) (vs ++ (x ∷ (ws ++ rest))),
            append_assoc hs (m ∷ []) (ms ++ (x ∷ (ns ++ rest))),
          )
          at ih)

  -- The new entry between the old ones, and the blanks that are left.
  pub spread_lem :
      (size : ℕ) (blank : A) (us vs ts : List A) (v : A) (n at extra : ℕ)
      → at ≡ length us
      → n ≡ length us + length vs
      → size ≡ n + 1 + extra
      → spread size blank (us ++ (vs ++ ts)) n at v
        ≡ some (us ++ (v ∷ (vs ++ replicate extra blank)))
  unfolding spread
  spread_lem size blank us vs ts v n at extra e p q =
      let zs = replicate (length us) blank in
      let ws = replicate (length vs) blank in
      let blanks : replicate size blank ≡ zs ++ (blank ∷ (ws ++ replicate extra blank)) =
        replicate-append (length us) (suc (length vs + extra)) size blank (omega arith)
        ∙ ap (λ t. zs ++ (blank ∷ t)) (replicate-append (length vs) extra _ blank refl) in
      rw
        (
          blanks,
          copy_around_lem [] us vs ts [] zs blank ws (replicate extra blank) at 0 0 n refl refl
              (omega arith) (sym (length-replicate (length us) blank))
              (sym (length-replicate (length vs) blank)) p,
        )
        (write-append us blank (vs ++ replicate extra blank) at v e)
