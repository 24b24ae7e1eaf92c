-- ===== src/Word/Shifts.antt =====
-- The logical shifts and the powers of two.
use native.Mathlib.Nat.{mul-mod_right, mod-eq_of_lt, pow-le-pow_right, one-le-pow, div-le_self}
use evm_sail.Base.{
  ℕ, ◌-◌, ◌/◌, ◌%◌, ◌^◌, ◌<◌, ◌≤◌, ◌≡◌, ◌≢◌, ◌⊎◌, inl, inr, arith, ap, ◌∙◌, pow-add, lt→ltb, ge→ltb,
  ==-ne,
}
use evm_sail.Word.Arith.{modulus, IsWord, alu_mul, alu_div}
use evm_sail.Word.Shift.{alu_shl, alu_shr}
use evm_sail.Word.Exp.{alu_exp}
use evm_sail.Word.Power.{alu_exp-eq-pow}

pub below_or_not : (s : ℕ) → (s < 256) ⊎ (256 ≤ s)
below_or_not s = grind arith

two_pow_wraps : (s : ℕ) → 256 ≤ s → 2 ^ s % modulus ≡ 0
two_pow_wraps s h =
    ap (λ (t : ℕ). 2 ^ t % modulus) (omega arith)
    ∙ ap (λ (t : ℕ). t % modulus) (pow-add 2 256 (s - 256))
    ∙ mul-mod_right (2 ^ 256) (2 ^ (s - 256))

two_pow_small : (s : ℕ) → s < 256 → 2 ^ s % modulus ≡ 2 ^ s
two_pow_small s h =
    mod-eq_of_lt
      (omega (arith, pow-le-pow_right {n = 2} (omega arith) {i = s} {j = 255} (omega arith)))

-- A left shift by any word is the product with 2 to that word, and a right shift the quotient,
-- as `alu_mul`, `alu_div` and `alu_exp` compute them. From 256 on the power wraps to zero, and
-- both shifts and both other sides give zero.
alu_shl-alu_shr :
    (s v : ℕ)
    → IsWord s
    → IsWord v
    → (alu_shl s v ≡ alu_mul v (alu_exp 2 s)) × (alu_shr s v ≡ alu_div v (alu_exp 2 s))
unfolding alu_shl alu_shr alu_mul alu_div
alu_shl-alu_shr s v hs hv = elim (below_or_not s) [
  | inl small ↦
      let m : v % 2 ^ 256 ≡ v = omega arith in
      let q : v / 2 ^ s % 2 ^ 256 ≡ v / 2 ^ s = omega (arith, div-le_self v (2 ^ s)) in
      let p : 2 ^ s ≢ 0 = omega (arith, one-le-pow s 2 (omega arith)) in
      (
        rw (alu_exp-eq-pow 2 s hs, two_pow_small s small, lt→ltb s 256 small, m),
        rw (
          alu_exp-eq-pow 2 s hs,
          two_pow_small s small,
          lt→ltb s 256 small,
          m,
          q,
          ==-ne (2 ^ s) 0 p,
        ),
      )
  | inr large ↦ (
    rw (alu_exp-eq-pow 2 s hs, two_pow_wraps s large, ge→ltb s 256 large) (omega arith),
    rw (alu_exp-eq-pow 2 s hs, two_pow_wraps s large, ge→ltb s 256 large),
  )
]
