-- ===== src/Btree/Array.antt =====
-- Checked accesses to the arrays of trident-workloads/btree/btree1.c, and the loops that its
-- functions share: moving a part of an array up or down by one slot, copying between arrays.
-- `none` is an access out of range.
pub mod Loops
pub mod Slots
use trident_micro21_artifact.Base.{
  ℕ, zero, suc, ◌+◌, ◌<◌, ◌≤◌, ◌≡◌, refl, ap, ◌∙◌, Option, none, some, List, [], ◌∷◌, ◌++◌, arith,
  ltb, if◌then◌else◌, Bool-cases, inl, inr, true, false,
}
use trident_micro21_artifact.Base.{length, get_elem?, set, length-append}

infixl 5 ◌>>=◌
abbrev pub ◌>>=◌ {ℓ κ} : {A : Type ℓ} {B : Type κ} → Option A → (A → Option B) → Option B
none >>= f = none
some a >>= f = f a

module _ {ℓ} {A : Type ℓ} where
  -- `xs[i]`
  abbrev pub read : List A → ℕ → Option A
  read = get_elem?

  -- `xs[i] = v`
  unfoldable pub write : List A → ℕ → A → Option (List A)
  write xs i v = if ltb i (length xs) then some (set xs i v) else none

  -- for (i = stop + rounds; i > stop; i--) xs[i] = xs[i - 1];
  unfoldable pub shift_up : (stop rounds : ℕ) → List A → Option (List A)
  shift_up stop zero xs = some xs
  shift_up stop (suc c) xs = do
    x ← read xs (stop + c)
    ys ← write xs (stop + suc c) x
    shift_up stop c ys

  -- for (i = from; i < from + rounds; i++) xs[i - 1] = xs[i]; here `from` is the target of the first
  unfoldable pub shift_down : (to rounds : ℕ) → List A → Option (List A)
  shift_down to zero xs = some xs
  shift_down to (suc c) xs = do x ← read xs (suc to); ys ← write xs to x; shift_down (suc to) c ys

  -- for (i = from, j = to; ...; i++, j++) ys[j] = xs[i];
  unfoldable pub copy : (xs : List A) (from to rounds : ℕ) → List A → Option (List A)
  copy xs from to zero ys = some ys
  copy xs from to (suc c) ys = do
    x ← read xs from
    zs ← write ys to x
    copy xs (suc from) (suc to) c zs

  -- for (i = from; i < from + rounds; i++) xs[i] = v;
  unfoldable pub fill : (from rounds : ℕ) → A → List A → Option (List A)
  fill from zero v xs = some xs
  fill from (suc c) v xs = do ys ← write xs from v; fill (suc from) c v ys
