-- ===== src/Runtime.antt =====
-- The fixed-width bit vectors of extractions/python/src/evm/_runtime.py (`class Bits`), as numbers
-- below 2 ^ width, and the integer division of the same file on numbers that are not negative.
pub mod Digits
use evm_sail.Base.{
  ℕ, zero, suc, ◌+◌, ◌-◌, ◌*◌, ◌/◌, ◌%◌, ◌^◌, bit_and, bit_or, bit_xor, true, false, ◌==◌,
}

-- `Bits(width, value)`: the constructor masks its value.
abbrev pub bits : ℕ → ℕ → ℕ
bits width value = value % 2 ^ width

-- The operators `&`, `|`, `^`, `~`, `<<`, `>>` of the class.
abbrev pub bits_and : ℕ → ℕ → ℕ → ℕ
bits_and width a b = bits width (bit_and a b)

abbrev pub bits_or : ℕ → ℕ → ℕ → ℕ
bits_or width a b = bits width (bit_or a b)

abbrev pub bits_xor : ℕ → ℕ → ℕ → ℕ
bits_xor width a b = bits width (bit_xor a b)

-- `~value` is `-value - 1`, which the mask takes to its residue.
abbrev pub bits_not : ℕ → ℕ → ℕ
bits_not width a = bits width (2 ^ width - 1 - a)

abbrev pub bits_shl : ℕ → ℕ → ℕ → ℕ
bits_shl width a k = bits width (a * 2 ^ k)

abbrev pub bits_shr : ℕ → ℕ → ℕ → ℕ
bits_shr width a k = bits width (a / 2 ^ k)

-- `access`: the bit at `index`, as a number.
abbrev pub bits_access : ℕ → ℕ → ℕ
bits_access a index = a / 2 ^ index % 2

-- `int.bit_length`, with the value itself as the bound on its digits.
pub bit_length_below : ℕ → ℕ → ℕ
bit_length_below zero n = 0
bit_length_below (suc bound) n = elim (n == 0) [
  | true ↦ 0
  | false ↦ suc (bit_length_below bound (n / 2))
]

unfoldable pub bit_length : ℕ → ℕ
unfolding bit_length_below
bit_length n = bit_length_below n n

unfoldable pub count_leading_zeros : ℕ → ℕ → ℕ
unfolding bit_length
count_leading_zeros width a = width - bit_length a

-- `sail_tdiv_int` and `sail_tmod_int` at a divisor above zero.
abbrev pub sail_tdiv_int : ℕ → ℕ → ℕ
sail_tdiv_int a b = a / b

abbrev pub sail_tmod_int : ℕ → ℕ → ℕ
sail_tmod_int a b = a % b

abbrev pub sail_ediv_int : ℕ → ℕ → ℕ
sail_ediv_int a b = a / b
