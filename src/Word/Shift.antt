-- ===== src/Word/Shift.antt =====
-- The shifts and the instructions that take bytes and sign bits apart.
use evm_sail.Base.{ℕ, ◌+◌, ◌-◌, ◌*◌, ltb, ◌==◌, if◌then◌else◌}
use evm_sail.Runtime.{bits, bits_shl, bits_shr}
use evm_sail.Word.Arith.{word_zero, word_one, word_all_ones, word_sub_word}
use evm_sail.Word.Bits.{word_and, word_or, word_not, word_bit, word_low_byte}

unfoldable pub word_shift_left : ℕ → ℕ → ℕ
word_shift_left value amount = bits_shl 256 (bits 256 value) amount

unfoldable pub word_shift_right : ℕ → ℕ → ℕ
word_shift_right value amount = bits_shr 256 (bits 256 value) amount

unfoldable pub word_arithmetic_shift_right : ℕ → ℕ → ℕ
unfolding word_shift_left word_shift_right word_bit word_or
word_arithmetic_shift_right value amount =
    let shifted = word_shift_right value amount in
    if word_bit value 255 == 1
    then word_or shifted (word_shift_left word_all_ones (256 - amount))
    else shifted

unfoldable pub alu_signextend : ℕ → ℕ → ℕ
alu_signextend byte_index value =
    if ltb byte_index 32
    then (let width = byte_index * 8 + 8 in
        let sign_shift = byte_index * 8 + 7 in
        let isolated_sign = word_and (word_shift_right value sign_shift) word_one in
        let low_mask = word_sub_word (word_shift_left word_one width) word_one in
        if isolated_sign == word_one
        then word_or (word_and value low_mask) (word_not low_mask)
        else word_and value low_mask)
    else value

unfoldable pub alu_byte : ℕ → ℕ → ℕ
unfolding word_shift_right word_low_byte
alu_byte i x = if ltb i 32 then word_low_byte (word_shift_right x ((31 - i) * 8)) else word_zero

unfoldable pub alu_shl : ℕ → ℕ → ℕ
unfolding word_shift_left
alu_shl shift_amt v = if ltb shift_amt 256 then word_shift_left v shift_amt else word_zero

unfoldable pub alu_shr : ℕ → ℕ → ℕ
unfolding word_shift_right
alu_shr shift_amt v = if ltb shift_amt 256 then word_shift_right v shift_amt else word_zero

unfoldable pub alu_sar : ℕ → ℕ → ℕ
unfolding word_arithmetic_shift_right word_bit
alu_sar shift_amt v =
    if ltb shift_amt 256
    then word_arithmetic_shift_right v shift_amt
    else if word_bit v 255 == 1
    then word_all_ones
    else word_zero
