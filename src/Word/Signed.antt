-- ===== src/Word/Signed.antt =====
-- The instructions that read a word as a signed number, by its sign bit and its magnitude.
use evm_sail.Base.{ℕ, Bool, true, false, not, eqb, ◌==◌, if◌then◌else◌}
use evm_sail.Word.Arith.{
  word_zero, word_is_zero, word_ult, word_negate, word_div_word, word_mod_word, word_of_bool,
}
use evm_sail.Word.Bits.{word_bit}

-- The test `word_bit(value, 255) == Bits(1, 0b1)`.
unfoldable pub sign_set : ℕ → Bool
unfolding word_bit
sign_set value = word_bit value 255 == 1

unfoldable pub word_abs : ℕ → ℕ
unfolding sign_set word_negate
word_abs value = if sign_set value then word_negate value else value

unfoldable pub word_slt : ℕ → ℕ → Bool
unfolding sign_set word_ult
word_slt a b =
    if sign_set a
    then (if sign_set b then word_ult a b else true)
    else if sign_set b
    then false
    else word_ult a b

unfoldable pub alu_sdiv : ℕ → ℕ → ℕ
unfolding sign_set word_abs word_negate word_div_word word_is_zero
alu_sdiv a b =
    if word_is_zero b
    then word_zero
    else (let quotient = word_div_word (word_abs a) (word_abs b) in
        if not (eqb (sign_set a) (sign_set b)) then word_negate quotient else quotient)

unfoldable pub alu_smod : ℕ → ℕ → ℕ
unfolding sign_set word_abs word_negate word_mod_word word_is_zero
alu_smod a b =
    if word_is_zero b
    then word_zero
    else (let remainder = word_mod_word (word_abs a) (word_abs b) in
        if sign_set a then word_negate remainder else remainder)

unfoldable pub alu_slt : ℕ → ℕ → ℕ
unfolding word_slt word_of_bool
alu_slt a b = word_of_bool (word_slt a b)

unfoldable pub alu_sgt : ℕ → ℕ → ℕ
unfolding word_slt word_of_bool
alu_sgt a b = word_of_bool (word_slt b a)
