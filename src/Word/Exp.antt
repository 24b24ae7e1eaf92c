-- ===== src/Word/Exp.antt =====
-- `alu_exp`: square and multiply over the bits of the exponent.
use evm_sail.Base.{ℕ, zero, suc, ltb, ◌==◌, if◌then◌else◌}
use evm_sail.Word.Arith.{word_one, word_mul_word}
use evm_sail.Word.Bits.{word_bit, word_shift_right_one, word_bit_length}

-- The `while` loop: `remaining` falls by one in each round, and the loop ends at zero.
unfoldable pub exp_loop : ℕ → ℕ → ℕ → ℕ → ℕ
exp_loop zero result b e = result
exp_loop (suc rounds) result b e =
    exp_loop rounds (if word_bit e 0 == 1 then word_mul_word result b else result)
      (if ltb 1 (suc rounds) then word_mul_word b b else b) (word_shift_right_one e)

unfoldable pub alu_exp : ℕ → ℕ → ℕ
unfolding exp_loop word_bit word_mul_word word_shift_right_one word_bit_length
alu_exp base exponent = exp_loop (word_bit_length exponent) word_one base exponent
