-- ===== src/Runtime/Digits.antt =====
-- The binary digits that `bit_length` counts.
use native.Mathlib.Nat.{
  pow-suc, pow-le-pow_right, div-add-mod', mod-lt, one-le-pow, mul-le-mul_right,
}
use evm_sail.Base.{
  ℕ, zero, suc, ◌+◌, ◌*◌, ◌/◌, ◌^◌, ◌<◌, ◌≤◌, ◌≡◌, ◌≢◌, ◌⊎◌, arith, pow-add, inl, inr, ap, refl,
}
use evm_sail.Runtime.{bit_length_below, bit_length}

-- `k` is the number of binary digits of `n`: none for zero, and for any other number `2 ^ k` is
-- above `n` and `2 ^ (k - 1)` is not.
abbrev pub HasBitLength : ℕ → ℕ → Type 0
HasBitLength n k = (n < 2 ^ k) × (2 ^ k ≤ 2 * n + 1)

HasBitLength-half : (n k : ℕ) → HasBitLength (suc n / 2) k → HasBitLength (suc n) (suc k)
HasBitLength-half n zero h = omega (arith, pow-suc 2 0)
HasBitLength-half n (suc k) h = omega (arith, pow-suc 2 (suc k), pow-suc 2 k)

bit_length_below_lem : (bound n : ℕ) → n ≤ bound → HasBitLength n (bit_length_below bound n)
unfolding bit_length_below
bit_length_below_lem zero zero h = omega arith
bit_length_below_lem zero (suc n) h = absurd (omega arith)
bit_length_below_lem (suc bound) zero h = omega arith
bit_length_below_lem (suc bound) (suc n) h = ground (
  arith,
  HasBitLength-half n (bit_length_below bound (suc n / 2))
      (bit_length_below_lem bound (suc n / 2) (omega arith)),
)

pub bit_length-HasBitLength : (n : ℕ) → HasBitLength n (bit_length n)
unfolding bit_length
bit_length-HasBitLength n = bit_length_below_lem n n (omega arith)

-- A number below `2 ^ w` has at most `w` digits.
pub HasBitLength-le : (n k w : ℕ) → HasBitLength n k → n < 2 ^ w → k ≤ w
HasBitLength-le n k w h lt = elim (le_or_gt k w) [
  | inl le ↦ le
  | inr gt ↦ absurd (omega (arith, pow-suc 2 w, pow-le-pow_right {n = 2} (omega arith) gt))
]
  where
    le_or_gt : (a b : ℕ) → (a ≤ b) ⊎ (b < a)
    le_or_gt a b = grind arith

-- The number of digits is determined by the number.
pub HasBitLength-unique : (n j k : ℕ) → HasBitLength n j → HasBitLength n k → j ≡ k
HasBitLength-unique n zero zero g h = refl
HasBitLength-unique n zero (suc k) g h = absurd (omega (arith, pow-suc 2 k, one-le-pow k 2))
HasBitLength-unique n (suc j) zero g h = absurd (omega (arith, pow-suc 2 j, one-le-pow j 2))
HasBitLength-unique n (suc j) (suc k) g h =
    ap suc (HasBitLength-unique (n / 2) j k (halved j g) (halved k h))
  where
    halved : (i : ℕ) → HasBitLength n (suc i) → HasBitLength (n / 2) i
    halved i b = omega (arith, pow-suc 2 i)

-- Dropping `s` low digits of a number that has more leaves the others.
pub HasBitLength-shift :
    (n s k : ℕ) → n / 2 ^ s ≢ 0 → HasBitLength (n / 2 ^ s) k → HasBitLength n (s + k)
HasBitLength-shift n s zero ne h = absurd (ne (omega arith))
HasBitLength-shift n s (suc k) ne h =
    rw (pow-add 2 s (suc k), pow-suc 2 k)
      (omega (
        arith,
        div-add-mod' n (2 ^ s),
        mod-lt n {m = 2 ^ s} (one-le-pow s 2 (omega arith)),
        mul-le-mul_right {m = n / 2 ^ s + 1} {n = 2 ^ k * 2} (2 ^ s) (omega (arith, pow-suc 2 k)),
        mul-le-mul_right {m = 2 ^ k} {n = n / 2 ^ s} (2 ^ s) (omega (arith, pow-suc 2 k)),
      ))
