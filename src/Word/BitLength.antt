-- ===== src/Word/BitLength.antt =====
-- The lengths of a word: `word_bit_length`, `word_byte_length` and `alu_clz`.
use native.Mathlib.Nat.{pow-suc, pow-le-pow_right}
use evm_sail.Base.{
  ℕ, zero, suc, ◌+◌, ◌-◌, ◌*◌, ◌/◌, ◌%◌, ◌^◌, ◌<◌, ◌≤◌, ◌≡◌, ◌≢◌, ◌⊎◌, inl, inr, arith, ==-ne,
}
use evm_sail.Runtime.{bits, bit_length, count_leading_zeros}
use evm_sail.Runtime.Digits.{
  HasBitLength, bit_length-HasBitLength, HasBitLength-le, HasBitLength-shift, HasBitLength-unique,
}
use evm_sail.Word.Arith.{IsWord}
use evm_sail.Word.Bits.{u64_bit_length, word_bit_length, word_byte_length, alu_clz}

u64_bit_length_lem : (n : ℕ) → n < 2 ^ 64 → HasBitLength n (u64_bit_length n)
unfolding u64_bit_length count_leading_zeros
u64_bit_length_lem n h =
    let e : n % 2 ^ 64 ≡ n = omega arith in
    let b = HasBitLength-le n (bit_length n) 64 (bit_length-HasBitLength n) h in
    let d : 64 - (64 - bit_length n) ≡ bit_length n = omega (arith, b) in
    rw (e, d) (bit_length-HasBitLength n)

-- The limb at bit `s`, when it is the highest that is not zero, gives the length of the word.
limb_lem :
    (n s : ℕ)
    → n / 2 ^ s < 2 ^ 64
    → n / 2 ^ s ≢ 0
    → HasBitLength n (s + u64_bit_length (bits 64 (n / 2 ^ s)))
limb_lem n s fits ne =
    let e : n / 2 ^ s % 2 ^ 64 ≡ n / 2 ^ s = omega arith in
    rw e
      (HasBitLength-shift n s (u64_bit_length (n / 2 ^ s)) ne (u64_bit_length_lem (n / 2 ^ s) fits))

zero_or_not : (n : ℕ) → (n ≡ 0) ⊎ (n ≢ 0)
zero_or_not n = grind arith

-- The length, by the highest limb that is not zero.
word_bit_length_limb3 :
    (v : ℕ)
    → IsWord v
    → v / 2 ^ 192 ≢ 0
    → word_bit_length v ≡ 192 + u64_bit_length (bits 64 (v / 2 ^ 192))
unfolding word_bit_length
word_bit_length_limb3 v h ne = rw (==-ne (bits 64 (v / 2 ^ 192)) 0 (omega arith))

word_bit_length_limb2 :
    (v : ℕ)
    → v / 2 ^ 192 ≡ 0
    → v / 2 ^ 128 ≢ 0
    → word_bit_length v ≡ 128 + u64_bit_length (bits 64 (v / 2 ^ 128))
unfolding word_bit_length
word_bit_length_limb2 v z ne = rw (z, ==-ne (bits 64 (v / 2 ^ 128)) 0 (omega arith))

word_bit_length_limb1 :
    (v : ℕ)
    → v / 2 ^ 128 ≡ 0
    → v / 2 ^ 64 ≢ 0
    → word_bit_length v ≡ 64 + u64_bit_length (bits 64 (v / 2 ^ 64))
unfolding word_bit_length
word_bit_length_limb1 v z ne =
    let y : v / 2 ^ 192 ≡ 0 = omega arith in rw (y, z, ==-ne (bits 64 (v / 2 ^ 64)) 0 (omega arith))

word_bit_length_limb0 : (v : ℕ) → v / 2 ^ 64 ≡ 0 → word_bit_length v ≡ u64_bit_length (bits 64 v)
unfolding word_bit_length
word_bit_length_limb0 v z =
    let x : v / 2 ^ 192 ≡ 0 = omega arith in let y : v / 2 ^ 128 ≡ 0 = omega arith in rw (x, y, z)

-- The bit length of a word: the word is below `2 ^ word_bit_length`, and no lower power of two
-- bounds it.
pub word_bit_length-HasBitLength : (v : ℕ) → IsWord v → HasBitLength v (word_bit_length v)
word_bit_length-HasBitLength v h = elim (zero_or_not (v / 2 ^ 192)) [
  | inr ne ↦ rw (word_bit_length_limb3 v h ne) (limb_lem v 192 (omega arith) ne)
  | inl z3 ↦ elim (zero_or_not (v / 2 ^ 128)) [
    | inr ne ↦ rw (word_bit_length_limb2 v z3 ne) (limb_lem v 128 (omega arith) ne)
    | inl z2 ↦ elim (zero_or_not (v / 2 ^ 64)) [
      | inr ne ↦ rw (word_bit_length_limb1 v z2 ne) (limb_lem v 64 (omega arith) ne)
      | inl z1 ↦
          let e : v % 2 ^ 64 ≡ v = omega arith in
          rw (word_bit_length_limb0 v z1, e) (u64_bit_length_lem v (omega arith))
    ]
  ]
]

pub word_bit_length-le : (v : ℕ) → IsWord v → word_bit_length v ≤ 256
word_bit_length-le v h =
    HasBitLength-le v (word_bit_length v) 256 (word_bit_length-HasBitLength v h) h

-- `word_bit_length` of a word is the number of its binary digits, counted one by one, and
-- `alu_clz` is the number of zeros above them.
pub word_bit_length-eq-bit_length :
    (v : ℕ) → IsWord v → (word_bit_length v ≡ bit_length v) × (alu_clz v + bit_length v ≡ 256)
unfolding alu_clz
word_bit_length-eq-bit_length v h =
    let e =
      HasBitLength-unique v (word_bit_length v) (bit_length v) (word_bit_length-HasBitLength v h)
        (bit_length-HasBitLength v) in
    (e, omega (arith, e, word_bit_length-le v h))

-- Bytes enough for `k` bits, and no more.
bytes_lem :
    (v k n : ℕ)
    → HasBitLength v k
    → k ≤ 8 * n
    → (1 ≤ k → 8 * (n - 1) + 1 ≤ k)
    → (v < 2 ^ (8 * n)) × (v ≢ 0 → 2 ^ (8 * (n - 1)) ≤ v)
bytes_lem v zero n h le least =
    (omega (arith, pow-le-pow_right {n = 2} (omega arith) le), λ ne. absurd (ne (omega arith)))
bytes_lem v (suc k) n h le least = (
  omega (arith, pow-le-pow_right {n = 2} (omega arith) le),
  λ ne. omega (
    arith,
    pow-suc 2 k,
    pow-le-pow_right {n = 2} (omega arith) {i = 8 * (n - 1)} {j = k}
        (omega (arith, least (omega arith))),
  ),
)

-- `word_byte_length` of a word other than zero is the least number of bytes that holds it: the
-- word is below 256 to that length and not below 256 to one less, and the length is at most 32.
pub word_byte_length_least :
    (v : ℕ)
    → IsWord v
    → v ≢ 0
    → (v < 2 ^ (8 * word_byte_length v))
      × (2 ^ (8 * (word_byte_length v - 1)) ≤ v)
      × (word_byte_length v ≤ 32)
word_byte_length_least v h ne =
    let k : ℕ = word_bit_length v in
    let b =
      bytes_lem v k (word_byte_length v) (word_bit_length-HasBitLength v h)
        (unfold word_byte_length in ground arith) (unfold word_byte_length in ground arith) in
    (b.0, b.1 ne, unfold word_byte_length in ground (arith, word_bit_length-le v h))
