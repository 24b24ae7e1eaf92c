-- ===== src/Word/Bits.antt =====
-- The bitwise operations, single bits, and the length of a word in bits and bytes.
use evm_sail.Base.{ℕ, ◌+◌, ◌-◌, ◌/◌, ◌^◌, not, ◌==◌, if◌then◌else◌}
use evm_sail.Runtime.{
  bits, bits_and, bits_or, bits_xor, bits_not, bits_access, count_leading_zeros, sail_tdiv_int,
}

unfoldable pub word_and : ℕ → ℕ → ℕ
word_and left right = bits_and 256 (bits 256 left) (bits 256 right)

unfoldable pub word_or : ℕ → ℕ → ℕ
word_or left right = bits_or 256 (bits 256 left) (bits 256 right)

unfoldable pub word_xor : ℕ → ℕ → ℕ
word_xor left right = bits_xor 256 (bits 256 left) (bits 256 right)

unfoldable pub word_not : ℕ → ℕ
word_not value = bits_not 256 (bits 256 value)

unfoldable pub word_bit : ℕ → ℕ → ℕ
word_bit value index = bits_access (bits 256 value) index

unfoldable pub word_low_byte : ℕ → ℕ
word_low_byte value = bits 8 value

unfoldable pub word_shift_right_one : ℕ → ℕ
word_shift_right_one value = sail_tdiv_int value 2

unfoldable pub u64_bit_length : ℕ → ℕ
unfolding count_leading_zeros
u64_bit_length value = 64 - count_leading_zeros 64 (bits 64 value)

-- The highest limb of 64 bits that is not zero gives the length.
unfoldable pub word_bit_length : ℕ → ℕ
unfolding u64_bit_length
word_bit_length value =
    let limb3 = bits 64 (value / 2 ^ 192) in
    let limb2 = bits 64 (value / 2 ^ 128) in
    let limb1 = bits 64 (value / 2 ^ 64) in
    let limb0 = bits 64 value in
    if not (limb3 == 0)
    then 192 + u64_bit_length limb3
    else if not (limb2 == 0)
    then 128 + u64_bit_length limb2
    else if not (limb1 == 0)
    then 64 + u64_bit_length limb1
    else u64_bit_length limb0

unfoldable pub word_byte_length : ℕ → ℕ
unfolding word_bit_length
word_byte_length value =
    let bit_length = word_bit_length value in
    if bit_length == 0 then 0 else sail_tdiv_int (bit_length + 7) 8

unfoldable pub alu_and : ℕ → ℕ → ℕ
unfolding word_and
alu_and a b = word_and a b

unfoldable pub alu_or : ℕ → ℕ → ℕ
unfolding word_or
alu_or a b = word_or a b

unfoldable pub alu_xor : ℕ → ℕ → ℕ
unfolding word_xor
alu_xor a b = word_xor a b

unfoldable pub alu_not : ℕ → ℕ
unfolding word_not
alu_not a = word_not a

unfoldable pub alu_clz : ℕ → ℕ
unfolding word_bit_length
alu_clz x = 256 - word_bit_length x
