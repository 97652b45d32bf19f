-- ===== src/Btree/Tree/Range.antt =====
-- `find_range` of trident-workloads/btree/btree1.c along the chain of leaves.
use trident_micro21_artifact.Btree.Tree.Find.{load-ok}
use trident_micro21_artifact.Btree.Array.Loops.{read_at}
use trident_micro21_artifact.Btree.Search.{range_loop, find_range, find_leaf}
use trident_micro21_artifact.Btree.Node.{collect, scan}
use trident_micro21_artifact.Btree.Node.Entries.{
  pointers_of-append, keys_of, length-parts, length-keys_of, IsLeaf, pointers_of, pointers_of-parts,
  Entry, length-pointers_of, keys_of-parts, keys_of-append, scan_lem, passed,
}
use mathlib.Core.List.{append_assoc}
use trident_micro21_artifact.Btree.Heap.{Ptr, Node, Store, null, ok}
use trident_micro21_artifact.Base.{
  ℕ, zero, suc, ◌+◌, ◌-◌, ◌<◌, ◌≡◌, refl, sym, ap, ◌∙◌, ◌≢◌, inl, inr, true, false, some, List, [],
  ◌∷◌, ◌++◌, arith, ltb, leb, ◌==◌, if◌then◌else◌, Bool-cases, length, get_elem?, length-append,
}

-- The leaves from an address to the right, by what they hold.
pub data Chain (s : Store) : Ptr → List (List Entry) → Type 0 where
  no_leaf : Chain s null []
  one_leaf :
      {p : Ptr} {n : Node} {es : List Entry} {next : Ptr} {ess : List (List Entry)}
      → p ≢ null
      → s.nodes p ≡ some n
      → IsLeaf s.order n es next
      → Chain s next ess
      → Chain s p (es ∷ ess)

-- The entries up to a key, and those from a key on.
unfoldable pub up_to : ℕ → List Entry → List Entry
up_to key_end [] = []
up_to key_end ((k, p) ∷ es) = if leb k key_end then (k, p) ∷ up_to key_end es else []

unfoldable pub up_to_all : ℕ → List (List Entry) → List Entry
up_to_all key_end [] = []
up_to_all key_end (es ∷ ess) = up_to key_end es ++ up_to_all key_end ess

collect_lem :
    (key_end : ℕ) (n : Node) (us vs : List Entry) (sk : List ℕ) (sp : List Ptr) (c i : ℕ)
    → n.keys ≡ keys_of us ++ (keys_of vs ++ sk)
    → n.pointers ≡ pointers_of us ++ (pointers_of vs ++ sp)
    → i ≡ length us
    → c ≡ length vs
    → collect key_end n c i ≡ some (up_to key_end vs)
unfolding collect up_to
collect_lem key_end n us [] sk sp zero i ks ps e f = refl
collect_lem key_end n us [] sk sp (suc c) i ks ps e f = absurd (omega arith)
collect_lem key_end n us ((k, p) ∷ vs) sk sp zero i ks ps e f = absurd (omega arith)
collect_lem key_end n us ((k, p) ∷ vs) sk sp (suc c) i ks ps e f =
    let ih =
      collect_lem key_end n (us ++ ((k, p) ∷ [])) vs sk sp c (i + 1)
        (ks
          ∙ sym (
              ap (◌++ (keys_of vs ++ sk)) (keys_of-append us ((k, p) ∷ []))
              ∙ append_assoc (keys_of us) (k ∷ []) (keys_of vs ++ sk)))
        (ps
          ∙ sym (
              ap (◌++ (pointers_of vs ++ sp)) (pointers_of-append us ((k, p) ∷ []))
              ∙ append_assoc (pointers_of us) (p ∷ []) (pointers_of vs ++ sp)))
        (omega (arith, length-append us ((k, p) ∷ []))) (omega arith) in
    let key : get_elem? n.keys i ≡ some k =
      rw ks (read_at (keys_of us) k (keys_of vs ++ sk) i (omega (arith, length-keys_of us))) in
    let pointer : get_elem? n.pointers i ≡ some p = rw ps (
      read_at (pointers_of us) p (pointers_of vs ++ sp) i (omega (arith, length-pointers_of us))) in
    elim (Bool-cases (leb k key_end)) [
      | inl within ↦ rw (key, within, pointer, ih) refl
      | inr beyond ↦ rw (key, beyond) refl
    ]

-- The last pointer of a leaf leads to the next one.
pub leaf_link :
    {order : ℕ} {n : Node} {es : List Entry} {next : Ptr}
    → IsLeaf order n es next
    → get_elem? n.pointers (order - 1) ≡ some next
leaf_link {order} {n} {es} {next} v =
    rw (v.pointers, ← append_assoc (pointers_of es) v.spare_pointers (next ∷ []))
      (read_at (pointers_of es ++ v.spare_pointers) next [] (order - 1) (
        omega (
          arith,
          v.pointers_size,
          length-append (pointers_of es) v.spare_pointers,
          length-pointers_of es,
        )))

module _ (s : Store) (key_end : ℕ) where
  -- From some entry of a leaf on.
  range_leaf :
      {p : Ptr} {n : Node} {es : List Entry} {next : Ptr} (ess : List (List Entry))
      (us vs : List Entry) (f i : ℕ)
      → p ≢ null
      → s.nodes p ≡ some n
      → IsLeaf s.order n es next
      → es ≡ us ++ vs
      → i ≡ length us
      → range_loop f key_end next 0 s ≡ ok (up_to_all key_end ess) s
      → range_loop (suc f) key_end p i s ≡ ok (up_to key_end vs ++ up_to_all key_end ess) s
  unfolding range_loop
  range_leaf {p} {n} {es} {next} ess us vs f i ne e v split at rest =
      let root_ne : (p == null) ≡ false = ground arith in
      let found =
        collect_lem key_end n us vs v.spare_keys (v.spare_pointers ++ (next ∷ [])) (n.num_keys - i)
          i (v.keys ∙ keys_of-parts us vs v.spare_keys split)
          (v.pointers ∙ pointers_of-parts us vs (v.spare_pointers ++ (next ∷ [])) split) at
          (omega (arith, v.count, length-parts us vs split)) in
      rw (root_ne, load-ok s ne e, found, leaf_link v, rest) refl

  range_null : (f : ℕ) → range_loop (suc f) key_end null 0 s ≡ ok [] s
  unfolding range_loop
  range_null f = refl

  range-Chain :
      {p : Ptr} {ess : List (List Entry)} (f : ℕ)
      → Chain s p ess
      → length ess < f
      → range_loop f key_end p 0 s ≡ ok (up_to_all key_end ess) s
  unfolding up_to_all
  range-Chain zero c h = absurd (omega arith)
  range-Chain (suc f) no_leaf h = range_null f
  range-Chain (suc f) (one_leaf {es = es} ne e v c) h =
      range_leaf _ [] es f 0 ne e v refl refl (range-Chain f c (omega arith))

module _ (s : Store) (fuel key_start key_end : ℕ) (root : Ptr) {p : Ptr} {n : Node}
    {es : List Entry} {next : Ptr} (ess : List (List Entry))
    (reached : find_leaf (suc fuel) root key_start s ≡ ok p s) (ne : p ≢ null)
    (e : s.nodes p ≡ some n) (v : IsLeaf s.order n es next) (c : Chain s next ess)
    (enough : length ess < fuel) where
  pub found_range :
      (us vs : List Entry)
      → es ≡ us ++ vs
      → passed (λ k. ltb k key_start) (keys_of es) ≡ length us
      → find_range (suc fuel) root key_start key_end s
        ≡ (if length vs == 0 then ok [] s else ok (up_to key_end vs ++ up_to_all key_end ess) s)
  unfolding find_range
  found_range us vs split at =
      let root_ne : (p == null) ≡ false = ground arith in
      let i : scan (λ k. ltb k key_start) n.keys n.num_keys 0 ≡ some (length us) = rw v.keys (
        scan_lem (λ k. ltb k key_start) [] (keys_of es) v.spare_keys 0 n.num_keys refl
          (omega (arith, v.count, length-keys_of es))
        ∙ ap some (omega arith)) in
      let rest =
        range_leaf s key_end ess us vs fuel (length us) ne e v split refl
          (range-Chain s key_end fuel c enough) in
      elim (Bool-cases (length vs == 0)) [
        | inl none_left ↦
            let end : (length us == n.num_keys) ≡ true =
              ground (arith, v.count, length-parts us vs split) in
            rw (reached, root_ne, load-ok s ne e, i, end, none_left) refl
        | inr some_left ↦
            let more : (length us == n.num_keys) ≡ false =
              ground (arith, v.count, length-parts us vs split) in
            rw (reached, root_ne, load-ok s ne e, i, more, some_left) rest
      ]
