-- ===== src/Btree/Node/Entries.antt =====
-- The abstract content of a node of trident-workloads/btree/btree1.c: a list of entries, of which
-- the arrays hold the keys and the pointers side by side.
use mathlib.Core.List.{append_assoc}
use trident_micro21_artifact.Base.{
  ℕ, zero, suc, ◌+◌, ◌≡◌, refl, Bool, true, false, some, List, [], ◌∷◌, ◌++◌, length, ltb,
  if◌then◌else◌, arith, length-append, Bool-cases, inl, inr, ap,
}
use trident_micro21_artifact.Btree.Heap.{Ptr, Node}
use trident_micro21_artifact.Btree.Array.Loops.{read_at}
use trident_micro21_artifact.Btree.Node.{scan}

abbrev pub Entry : Type 0
Entry = ℕ × Ptr

abbrev pub keys_of : List Entry → List ℕ
keys_of [] = []
keys_of ((k, p) ∷ es) = k ∷ keys_of es

abbrev pub pointers_of : List Entry → List Ptr
pointers_of [] = []
pointers_of ((k, p) ∷ es) = p ∷ pointers_of es

-- A leaf of a tree of the given order. Behind the entries the arrays have slots to spare, and the
-- last pointer leads to the leaf on the right.
pub record IsLeaf (order : ℕ) (n : Node) (es : List Entry) (next : Ptr) : Type 0 where
  pub spare_keys : List ℕ
  pub spare_pointers : List Ptr
  pub keys : n.keys ≡ keys_of es ++ spare_keys
  pub pointers : n.pointers ≡ pointers_of es ++ (spare_pointers ++ (next ∷ []))
  pub count : n.num_keys ≡ length es
  pub keys_size : length es + length spare_keys + 1 ≡ order
  pub pointers_size : length es + length spare_pointers + 1 ≡ order
  pub leaf : n.is_leaf ≡ true

-- An internal node: a first child, and for each key the child on its right.
pub record IsInner (order : ℕ) (n : Node) (first : Ptr) (es : List Entry) : Type 0 where
  pub spare_keys : List ℕ
  pub spare_pointers : List Ptr
  pub keys : n.keys ≡ keys_of es ++ spare_keys
  pub pointers : n.pointers ≡ first ∷ (pointers_of es ++ spare_pointers)
  pub count : n.num_keys ≡ length es
  pub keys_size : length es + length spare_keys + 1 ≡ order
  pub pointers_size : length es + length spare_pointers + 1 ≡ order
  pub inner : n.is_leaf ≡ false

-- The entry goes in front of the first key that is not below its own.
unfoldable pub insert_entry : ℕ → Ptr → List Entry → List Entry
insert_entry k p [] = (k, p) ∷ []
insert_entry k p ((j, q) ∷ es) =
    if ltb j k then (j, q) ∷ insert_entry k p es else (k, p) ∷ (j, q) ∷ es

pub keys_of-append : (us vs : List Entry) → keys_of (us ++ vs) ≡ keys_of us ++ keys_of vs
keys_of-append [] vs = refl
keys_of-append ((k, p) ∷ us) vs = ap (λ t. k ∷ t) (keys_of-append us vs)

pub pointers_of-append :
    (us vs : List Entry) → pointers_of (us ++ vs) ≡ pointers_of us ++ pointers_of vs
pointers_of-append [] vs = refl
pointers_of-append ((k, p) ∷ us) vs = ap (λ t. p ∷ t) (pointers_of-append us vs)

pub length-keys_of : (es : List Entry) → length (keys_of es) ≡ length es
length-keys_of [] = refl
length-keys_of ((k, p) ∷ es) = ap suc (length-keys_of es)

pub length-pointers_of : (es : List Entry) → length (pointers_of es) ≡ length es
length-pointers_of [] = refl
length-pointers_of ((k, p) ∷ es) = ap suc (length-pointers_of es)

-- How many keys a scan passes.
unfoldable pub passed : (ℕ → Bool) → List ℕ → ℕ
passed test [] = 0
passed test (k ∷ ks) = if test k then suc (passed test ks) else 0

pub scan_lem :
    (test : ℕ → Bool) (us ks rest : List ℕ) (i n : ℕ)
    → i ≡ length us
    → n ≡ length ks
    → scan test (us ++ (ks ++ rest)) n i ≡ some (i + passed test ks)
unfolding scan passed
scan_lem test us [] rest i zero e p = ap some (omega arith)
scan_lem test us [] rest i (suc n) e p = absurd (omega arith)
scan_lem test us (k ∷ ks) rest i zero e p = absurd (omega arith)
scan_lem test us (k ∷ ks) rest i (suc n) e p =
    let ih =
      scan_lem test (us ++ (k ∷ [])) ks rest (i + 1) n (omega (arith, length-append us (k ∷ [])))
        (omega arith) in
    rw (read_at us k (ks ++ rest) i e) (elim (Bool-cases (test k)) [
      | inl goes ↦
          rw (goes, rw (append_assoc us (k ∷ []) (ks ++ rest)) at ih) (ap some (omega arith))
      | inr stops ↦ rw stops (ap some (omega arith))
    ])

-- The two sides of the place where an entry goes in.
pub record Place (k : ℕ) (p : Ptr) (es : List Entry) : Type 0 where
  pub below : List Entry
  pub above : List Entry
  pub parts : es ≡ below ++ above
  pub at : passed (λ j. ltb j k) (keys_of es) ≡ length below
  pub inserted : insert_entry k p es ≡ below ++ ((k, p) ∷ above)

pub place : (k : ℕ) (p : Ptr) (es : List Entry) → Place k p es
unfolding passed insert_entry
place k p [] = record { below = []; above = []; parts = refl; at = refl; inserted = refl }
place k p ((j, q) ∷ es) = elim (Bool-cases (ltb j k)) [
  | inl lower ↦
      let rest = place k p es in
      record {
        below = (j, q) ∷ rest.below;
        above = rest.above;
        parts = ap (λ t. (j, q) ∷ t) rest.parts;
        at = rw lower (ap suc rest.at);
        inserted = rw lower (ap (λ t. (j, q) ∷ t) rest.inserted);
      }
  | inr not_lower ↦ record {
    below = [];
    above = (j, q) ∷ es;
    parts = refl;
    at = rw not_lower;
    inserted = rw not_lower;
  }
]

pub length-insert_entry :
    (k : ℕ) (p : Ptr) (es : List Entry) → length (insert_entry k p es) ≡ suc (length es)
unfolding insert_entry
length-insert_entry k p [] = refl
length-insert_entry k p ((j, q) ∷ es) = ground (arith, length-insert_entry k p es)

-- The arrays of two runs of entries, one behind the other.
pub keys_of-parts :
    {es : List Entry} (us vs : List Entry) (rest : List ℕ)
    → es ≡ us ++ vs
    → keys_of es ++ rest ≡ keys_of us ++ (keys_of vs ++ rest)
keys_of-parts us vs rest e =
    rw (e, keys_of-append us vs) (append_assoc (keys_of us) (keys_of vs) rest)

pub pointers_of-parts :
    {es : List Entry} (us vs : List Entry) (rest : List Ptr)
    → es ≡ us ++ vs
    → pointers_of es ++ rest ≡ pointers_of us ++ (pointers_of vs ++ rest)
pointers_of-parts us vs rest e =
    rw (e, pointers_of-append us vs) (append_assoc (pointers_of us) (pointers_of vs) rest)

pub length-parts :
    {es : List Entry} (us vs : List Entry) → es ≡ us ++ vs → length es ≡ length us + length vs
length-parts us vs e = rw e (length-append us vs)
