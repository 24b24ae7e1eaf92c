-- ===== src/Base/Powers.antt =====
-- Powers and remainders that the library does not state for the native numbers.
use Prim.Native.Nat.{ℕ, zero, suc, ◌+◌, ◌*◌, ◌/◌, ◌%◌, ◌^◌}
use mathlib.Core.Path.{◌≡◌, refl, sym, ap, ◌∙◌}
use native.Mathlib.Nat.{pow-suc, add-mul-mod_self_left, div-add-mod, mul_comm, div-div-eq-div-mul}
use native.Mathlib.Numerals.{unary_clauses}
use native.Mathlib.Omega.{arith}

pub pow-add : (b m n : ℕ) → b ^ (m + n) ≡ b ^ m * b ^ n
pow-add b m zero = simp unary_clauses (omega arith)
pow-add b m (suc n) =
    ap (λ (t : ℕ). b ^ t) (omega arith)
    ∙ pow-suc b (m + n)
    ∙ omega (arith, ap (λ (t : ℕ). t * b) (pow-add b m n), ap (λ (t : ℕ). b ^ m * t) (pow-suc b n))

pub one-pow : (n : ℕ) → 1 ^ n ≡ 1
one-pow zero = refl
one-pow (suc n) = omega (arith, pow-suc 1 n, one-pow n)

pub mul-pow : (a b n : ℕ) → (a * b) ^ n ≡ a ^ n * b ^ n
mul-pow a b zero = simp unary_clauses
mul-pow a b (suc n) = omega (
  arith,
  pow-suc (a * b) n,
  ap (λ (t : ℕ). t * (a * b)) (mul-pow a b n),
  ap (λ (t : ℕ). t * b ^ suc n) (pow-suc a n),
  ap (λ (t : ℕ). a ^ n * a * t) (pow-suc b n),
)

-- A factor may be reduced before the product is.
pub mod-mul-mod : (a b m : ℕ) → a % m * b % m ≡ a * b % m
mod-mul-mod a b m = sym (
    ap (λ (t : ℕ). t % m) (omega (arith, ap (λ (t : ℕ). t * b) (div-add-mod a m)))
    ∙ add-mul-mod_self_left (a % m * b) m (a / m * b))

pub mul-mod-mod : (a b m : ℕ) → a * (b % m) % m ≡ a * b % m
mul-mod-mod a b m =
    ap (λ (t : ℕ). t % m) (mul_comm a (b % m))
    ∙ mod-mul-mod b a m
    ∙ ap (λ (t : ℕ). t % m) (mul_comm b a)

-- A remainder by a product, digit by digit.
pub mod-mul : (v m n : ℕ) → v % (m * n) ≡ m * (v / m % n) + v % m
mod-mul v m n = omega (
  arith,
  div-add-mod v m,
  ap (λ (t : ℕ). m * t) (div-add-mod (v / m) n),
  ap (λ (t : ℕ). m * n * t) (div-div-eq-div-mul v m n),
  div-add-mod v (m * n),
)
