-- ===== src/Btree/Heap.antt =====
-- The memory of trident-workloads/btree/btree1.c: nodes and records at addresses, the globals, and
-- commands that read and write them. The `keys` and `pointers` arrays of a node are never shared,
-- so they are lists inside the node; every access to them is checked (Btree/Array.antt).
use trident_micro21_artifact.Base.{ℕ, Bool, Option, none, some, List, ◌==◌, if◌then◌else◌}

abbrev pub Ptr : Type 0
Ptr = ℕ

abbrev pub null : Ptr
null = 0

-- `struct node`. `pointers` holds addresses of nodes, in a leaf those of records.
pub record Node : Type 0 where
  pub pointers : List Ptr
  pub keys : List ℕ
  pub parent : Ptr
  pub is_leaf : Bool
  pub num_keys : ℕ
  pub next : Ptr

-- `struct record`. `value` and `next` are one word, a union in the source.
pub record Rec : Type 0 where
  pub value : ℕ
  pub flags : ℕ

-- `slabs` holds the addresses that `posix_memalign` is going to return for the slabs of nodes and
-- records, in order; with none left it reports that the memory is used up.
pub record Store : Type 0 where
  pub nodes : Ptr → Option Node
  pub records : Ptr → Option Rec
  pub free_nodes : Ptr
  pub free_recs : Ptr
  pub queue : Ptr
  pub order : ℕ
  pub slabs : List Ptr

-- `fault` is undefined behaviour (a wild pointer, an index out of range), `exited` a call of `exit`.
pub data Run (A : Type 0) : Type 0 where
  ok : A → Store → Run A
  fault : Run A
  exited : Run A
  out_of_fuel : Run A

abbrev pub Cmd : Type 0 → Type 0
Cmd A = Store → Run A

abbrev pub pure : {A : Type 0} → A → Cmd A
pure = ok

module _ {A B : Type 0} where
  -- The rest of a command runs only after a result.
  abbrev pub then_run : (A → Cmd B) → Run A → Run B
  then_run rest out_of_fuel = out_of_fuel
  then_run rest exited = exited
  then_run rest fault = fault
  then_run rest (ok a s) = rest a s

  infixl 5 ◌>>=◌ ◌>>◌
  abbrev pub ◌>>=◌ : Cmd A → (A → Cmd B) → Cmd B
  first >>= rest = λ s. then_run rest (first s)

  abbrev pub ◌>>◌ : Cmd A → Cmd B → Cmd B
  first >> rest = first >>= (λ _. rest)

-- An array access that failed its check.
abbrev pub checked : {A : Type 0} → Option A → Cmd A
checked none = λ _. fault
checked (some a) = ok a

abbrev pub exit : {A : Type 0} → Cmd A
exit = λ _. exited

abbrev pub get_store : Cmd Store
get_store s = ok s s

unfoldable pub put_node : Store → Ptr → Node → Store
put_node s p n = record s { nodes = λ q. if q == p then some n else s.nodes q }

unfoldable pub put_record : Store → Ptr → Rec → Store
put_record s p r = record s { records = λ q. if q == p then some r else s.records q }

-- `*p`: a fault at `NULL` and where no node lies.
unfoldable pub load : Ptr → Cmd Node
load p s = if p == null then fault else elim (s.nodes p) [ none ↦ fault | some n ↦ ok n s ]

unfoldable pub store : Ptr → Node → Cmd (Unit {0})
store p n = load p >>= λ _ s. ok tt (put_node s p n)

unfoldable pub load_record : Ptr → Cmd Rec
load_record p s = if p == null then fault else elim (s.records p) [ none ↦ fault | some r ↦ ok r s ]

unfoldable pub store_record : Ptr → Rec → Cmd (Unit {0})
store_record p r = load_record p >>= λ _ s. ok tt (put_record s p r)

-- `p->parent = q`
unfoldable pub set_parent : Ptr → Ptr → Cmd (Unit {0})
set_parent p q = do n ← load p; store p (record n { parent = q })
