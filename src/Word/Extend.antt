-- ===== src/Word/Extend.antt =====
-- `alu_sar` and the integers that words stand for.
use native.Mathlib.Nat.{
  div-add-mod', mod-lt, one-le-pow, pow-le-pow_right, div-eq_of_lt-le, mod-eq_of_lt,
  div-lt_iff_lt-mul, mul_comm, div-eq_of_lt, div-le_self,
}
use evm_sail.Base.{
  ℕ, ◌+◌, ◌-◌, ◌*◌, ◌/◌, ◌%◌, ◌^◌, ◌<◌, ◌≤◌, ◌≡◌, ◌⊎◌, inl, inr, arith, lt→ltb, ge→ltb, ap, sym,
  ◌∙◌, pow-add, bit_or_parts_low,
}
use evm_sail.Base.Int.{ℤ, pos, negsuc}
use evm_sail.Word.Arith.{modulus, IsWord}
use evm_sail.Word.Shift.{word_arithmetic_shift_right, alu_sar}
use evm_sail.Word.SignedLaws.{signed}
use evm_sail.Word.Shifts.{below_or_not}

-- The integer shifted right: division by a power of two, rounded down.
abbrev pub shift_right_int : ℤ → ℕ → ℤ
shift_right_int (pos n) s = pos (n / 2 ^ s)
shift_right_int (negsuc n) s = negsuc (n / 2 ^ s)

-- `2 ^ 256` as the product of the kept and the filled part.
split_modulus : (s : ℕ) → s ≤ 256 → 2 ^ (256 - s) * 2 ^ s ≡ 2 ^ 256
split_modulus s h = sym (pow-add 2 (256 - s) s) ∙ ap (λ (t : ℕ). 2 ^ t) {y = 256} (omega arith)

pub fill_lem : (s : ℕ) → s ≤ 256 → (2 ^ s - 1) * 2 ^ (256 - s) + 2 ^ (256 - s) ≡ 2 ^ 256
fill_lem s hs =
    let spare : 2 ^ s - 1 + 1 ≡ 2 ^ s = omega (arith, one-le-pow s 2 (omega arith)) in
    omega (
      arith,
      split_modulus s hs,
      mul_comm (2 ^ s) (2 ^ (256 - s)),
      ap (λ (t : ℕ). t * 2 ^ (256 - s)) spare,
    )

-- Ones in all places from bit `k` up.
complement_div : (m n p q : ℕ) → p * q ≡ m → n < m → 0 < q → (m - n - 1) / q ≡ p - 1 - n / q
complement_div m n p q e h pos_q =
    let below : n / q < p = (div-lt_iff_lt-mul pos_q).1 (omega arith) in
    let split : p ≡ n / q + 1 + (p - 1 - n / q) = omega arith in
    let split_mul : p * q ≡ n / q * q + q + (p - 1 - n / q) * q =
      omega (arith, ap (λ (t : ℕ). t * q) split) in
    div-eq_of_lt-le q {m = m - n - 1} (omega (arith, split_mul, div-add-mod' n q, mod-lt n pos_q))
      (omega (arith, split_mul, div-add-mod' n q, mod-lt n pos_q))

-- Ones in all places from bit `256 - s` up.
pub high_ones :
    (s : ℕ) → s ≤ 256 → (2 ^ 256 - 1) * 2 ^ (256 - s) % 2 ^ 256 ≡ (2 ^ s - 1) * 2 ^ (256 - s)
high_ones s hs = omega (arith, fill_lem s hs, one-le-pow (256 - s) 2 (omega arith))

-- The arithmetic shift of a negative word fills the upper bits with ones.
negative_shift :
    (v s : ℕ)
    → IsWord v
    → 2 ^ 255 ≤ v
    → s ≤ 256
    → word_arithmetic_shift_right v s ≡ (2 ^ s - 1) * 2 ^ (256 - s) + v / 2 ^ s
unfolding word_arithmetic_shift_right
negative_shift v s hv neg hs =
    let split = split_modulus s hs in
    let p : 0 < 2 ^ s = one-le-pow s 2 (omega arith) in
    let bit : v % 2 ^ 256 / 2 ^ 255 % 2 ≡ 1 = omega arith in
    let m : v % 2 ^ 256 ≡ v = omega arith in
    let low : (2 ^ s - 1) * 2 ^ (256 - s) + 2 ^ (256 - s) ≡ 2 ^ 256 = fill_lem s hs in
    let fits : v / 2 ^ s < 2 ^ (256 - s) = (div-lt_iff_lt-mul p).1 (omega (arith, split)) in
    let q : v / 2 ^ s % 2 ^ 256 ≡ v / 2 ^ s = omega (arith, low) in
    let f : (2 ^ s - 1) * 2 ^ (256 - s) % 2 ^ 256 ≡ (2 ^ s - 1) * 2 ^ (256 - s) =
      omega (arith, low, one-le-pow (256 - s) 2 (omega arith)) in
    rw (bit, m, q, q, high_ones s hs, f, bit_or_parts_low (256 - s) (2 ^ s - 1) (v / 2 ^ s) fits)
      (mod-eq_of_lt (omega (arith, low)))

-- The quotient of a number below `2 ^ 256` by a power at least as large.
shifted_out : (n s : ℕ) → n < 2 ^ 256 → 256 ≤ s → n / 2 ^ s ≡ 0
shifted_out n s h hs = div-eq_of_lt (omega (arith, pow-le-pow_right {n = 2} (omega arith) hs))

sar_positive : (s v : ℕ) → v < 2 ^ 255 → signed (alu_sar s v) ≡ pos (v / 2 ^ s)
unfolding alu_sar
sar_positive s v h =
    let bit : v % 2 ^ 256 / 2 ^ 255 % 2 ≡ 0 = omega arith in
    let m : v % 2 ^ 256 ≡ v = omega arith in
    let q : v / 2 ^ s % 2 ^ 256 ≡ v / 2 ^ s = omega (arith, div-le_self v (2 ^ s)) in
    elim (below_or_not s) [
      | inl small ↦ rw (
        lt→ltb s 256 small,
        bit,
        m,
        q,
        lt→ltb (v / 2 ^ s) (2 ^ 255) (omega (arith, div-le_self v (2 ^ s))),
      )
      | inr large ↦ rw (ge→ltb s 256 large, bit, shifted_out v s (omega arith) large)
    ]

sar_negative :
    (s v : ℕ) → IsWord v → 2 ^ 255 ≤ v → signed (alu_sar s v) ≡ negsuc ((modulus - v - 1) / 2 ^ s)
unfolding alu_sar
sar_negative s v hv h =
    let bit : v % 2 ^ 256 / 2 ^ 255 % 2 ≡ 1 = omega arith in
    elim (below_or_not s) [
      | inl small ↦
          let hs : s ≤ 256 = omega arith in
          let p : 0 < 2 ^ s = one-le-pow s 2 (omega arith) in
          let rest : (modulus - v - 1) / 2 ^ s ≡ 2 ^ (256 - s) - 1 - v / 2 ^ s =
            complement_div modulus v (2 ^ (256 - s)) (2 ^ s) (split_modulus s hs) hv p in
          let fits : v / 2 ^ s < 2 ^ (256 - s) =
            (div-lt_iff_lt-mul p).1 (omega (arith, split_modulus s hs)) in
          rw (lt→ltb s 256 small, negative_shift v s hv h hs)
            (ground (arith, rest, fits, fill_lem s hs, div-le_self (modulus - v - 1) (2 ^ s)))
      | inr large ↦
          rw (ge→ltb s 256 large, bit, shifted_out (modulus - v - 1) s (omega arith) large)
    ]

-- `alu_sar` of words is the shift of the integer that the word stands for, rounded down: also by
-- amounts from 256 on, which leave 0 or -1.
pub alu_sar-eq-shift : (s v : ℕ) → IsWord v → signed (alu_sar s v) ≡ shift_right_int (signed v) s
alu_sar-eq-shift s v hv = elim (lower_or_not v) [
  | inl low ↦ rw (lt→ltb v (2 ^ 255) low) (sar_positive s v low)
  | inr high ↦ rw (ge→ltb v (2 ^ 255) high) (sar_negative s v hv high)
]
  where
    lower_or_not : (n : ℕ) → (n < 2 ^ 255) ⊎ (2 ^ 255 ≤ n)
    lower_or_not n = grind arith
