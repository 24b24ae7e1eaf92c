-- ===== src/Word/Tests.antt =====
-- The word instructions at single inputs, and the theorems about them applied.
use evm_sail.Base.{ℕ, ◌+◌, ◌-◌, ◌%◌, ◌^◌, ◌≡◌, refl, arith}
use evm_sail.Runtime.{bit_length}
use evm_sail.Word.Arith.{modulus, word_all_ones, word_sub_word}
use evm_sail.Word.Bits.{word_and, word_or, word_not, word_bit_length, word_byte_length, alu_clz}
use evm_sail.Word.Shift.{alu_sar, alu_byte, alu_signextend, word_shift_left, word_shift_right}
use evm_sail.Word.Signed.{alu_sdiv, alu_smod}
use evm_sail.Word.Exp.{alu_exp}
use evm_sail.Word.BitLength.{word_bit_length-eq-bit_length}
use evm_sail.Word.Power.{alu_exp-eq-pow}
use evm_sail.Word.SignedLaws.{signed, of_int, tdiv, tmod, alu_sdiv-eq-tdiv, alu_smod-eq-tmod}
use evm_sail.Word.Extend.{shift_right_int, alu_sar-eq-shift}
use evm_sail.Word.SignExtend.{sign_extended, alu_signextend-eq-sign_extended}

-- -7, as a word.
abbrev minus_seven : ℕ
minus_seven = modulus - 7

exp_wraps : alu_exp 3 200 ≡ 3 ^ 200 % modulus
unfolding alu_exp
exp_wraps = refl

sdiv_rounds_to_zero : alu_sdiv minus_seven 2 ≡ modulus - 3
unfolding alu_sdiv
sdiv_rounds_to_zero = refl

sar_rounds_down : alu_sar 1 minus_seven ≡ modulus - 4
unfolding alu_sar
sar_rounds_down = refl

byte_counts_from_the_top : alu_byte 31 0x1234 ≡ 0x34
unfolding alu_byte
byte_counts_from_the_top = refl

signextend_low_byte : alu_signextend 0 0x12ff ≡ word_all_ones
unfolding alu_signextend word_shift_left word_shift_right word_and word_or word_not word_sub_word
signextend_low_byte = refl

byte_length_of_a_limb : word_byte_length (2 ^ 64) ≡ 9
unfolding word_byte_length
byte_length_of_a_limb = refl

alu_exp-eq-pow_example : alu_exp 7 300 ≡ 7 ^ 300 % modulus
alu_exp-eq-pow_example = alu_exp-eq-pow 7 300 (omega arith)

word_bit_length-eq-bit_length_example :
    (word_bit_length 0xf000 ≡ bit_length 0xf000) × (alu_clz 0xf000 + bit_length 0xf000 ≡ 256)
word_bit_length-eq-bit_length_example = word_bit_length-eq-bit_length 0xf000 (omega arith)

alu_sdiv-eq-tdiv_example :
    alu_sdiv (2 ^ 255) word_all_ones ≡ of_int (tdiv (signed (2 ^ 255)) (signed word_all_ones))
alu_sdiv-eq-tdiv_example = alu_sdiv-eq-tdiv (2 ^ 255) word_all_ones (omega arith) (omega arith)

alu_smod-eq-tmod_example : alu_smod minus_seven 4 ≡ of_int (tmod (signed minus_seven) (signed 4))
alu_smod-eq-tmod_example = alu_smod-eq-tmod minus_seven 4 (omega arith) (omega arith)

alu_sar-eq-shift_example :
    signed (alu_sar 300 minus_seven) ≡ shift_right_int (signed minus_seven) 300
alu_sar-eq-shift_example = alu_sar-eq-shift 300 minus_seven (omega arith)

alu_signextend-eq-sign_extended_example : signed (alu_signextend 1 0x8001) ≡ sign_extended 1 0x8001
alu_signextend-eq-sign_extended_example = alu_signextend-eq-sign_extended 1 0x8001 (omega arith)
