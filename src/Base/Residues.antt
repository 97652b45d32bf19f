-- ===== src/Base/Residues.antt =====
-- Equations between remainders, as equations with multiples of the modulus, and what can be
-- cancelled in them.
use Prim.Native.Nat.{ℕ, zero, suc, ◌+◌, ◌*◌, ◌/◌, ◌%◌, ◌^◌}
use mathlib.Core.Path.{◌≡◌, sym, ap, ◌∙◌}
use native.Mathlib.Nat.{mod-add-div', add-mul-mod_self_right, pow-suc}
use native.Mathlib.Omega.{arith}

pub multiples_of_mod : (m a b : ℕ) → a % m ≡ b % m → a + b / m * m ≡ b + a / m * m
multiples_of_mod m a b e = omega (arith, mod-add-div' a m, mod-add-div' b m)

pub mod_of_multiples : (m a b i j : ℕ) → a + i * m ≡ b + j * m → a % m ≡ b % m
mod_of_multiples m a b i j e =
    sym (add-mul-mod_self_right a i m) ∙ ap (λ v. v % m) e ∙ add-mul-mod_self_right b j m

pub mod_cancel_add : (m a b c : ℕ) → (a + c) % m ≡ (b + c) % m → a % m ≡ b % m
mod_cancel_add m a b c e =
    let whole = multiples_of_mod m (a + c) (b + c) e in
    mod_of_multiples m a b ((b + c) / m) ((a + c) / m) (omega arith)

-- An odd factor, modulo a power of two.
pub mod_cancel_odd :
    (n a b m : ℕ) → m % 2 ≡ 1 → a * m % 2 ^ n ≡ b * m % 2 ^ n → a % 2 ^ n ≡ b % 2 ^ n
mod_cancel_odd zero a b m odd e = omega arith
mod_cancel_odd (suc n) a b m odd e =
    let p = 2 ^ n in
    let i = b * m / 2 ^ suc n in
    let j = a * m / 2 ^ suc n in
    let whole : a * m + i * 2 ^ suc n ≡ b * m + j * 2 ^ suc n =
      multiples_of_mod (2 ^ suc n) (a * m) (b * m) e in
    let doubled : a * m + 2 * (i * p) ≡ b * m + 2 * (j * p) =
      omega (arith, ap (λ t. i * t) (pow-suc 2 n), ap (λ t. j * t) (pow-suc 2 n)) in
    let half : m ≡ 2 * (m / 2) + 1 = omega arith in
    let parity : a % 2 ≡ b % 2 = omega (arith, ap (λ t. a * t) half, ap (λ t. b * t) half) in
    let split_a : a * m ≡ 2 * (a / 2 * m) + a % 2 * m =
      ap (λ t. t * m) {y = 2 * (a / 2) + a % 2} (omega arith) ∙ omega arith in
    let split_b : b * m ≡ 2 * (b / 2 * m) + b % 2 * m =
      ap (λ t. t * m) {y = 2 * (b / 2) + b % 2} (omega arith) ∙ omega arith in
    let same : a % 2 * m ≡ b % 2 * m = ap (λ t. t * m) parity in
    let rest =
      mod_cancel_odd n (a / 2) (b / 2) m odd
        (mod_of_multiples p (a / 2 * m) (b / 2 * m) i j (omega arith)) in
    let halves = multiples_of_mod p (a / 2) (b / 2) rest in
    mod_of_multiples (2 ^ suc n) a b (b / 2 / p) (a / 2 / p)
      (omega (arith, ap (λ t. b / 2 / p * t) (pow-suc 2 n), ap (λ t. a / 2 / p * t) (pow-suc 2 n)))
