-- ===== src/Word/Arith.antt =====
-- `word_add_word` to `word_mod_word`, the comparisons, and the instructions built on them.
use evm_sail.Base.{ℕ, ◌+◌, ◌-◌, ◌*◌, ◌^◌, ◌<◌, Bool, not, ltb, leb, ◌==◌, if◌then◌else◌}
use evm_sail.Runtime.{sail_tdiv_int, sail_tmod_int}

-- `1 << 256`.
abbrev pub modulus : ℕ
modulus = 2 ^ 256

-- What the constructor `U256` accepts.
abbrev pub IsWord : ℕ → Type 0
IsWord n = n < modulus

abbrev pub word_zero : ℕ
word_zero = 0

abbrev pub word_one : ℕ
word_one = 1

abbrev pub word_all_ones : ℕ
word_all_ones = 2 ^ 256 - 1

unfoldable pub word_add_word : ℕ → ℕ → ℕ
word_add_word left right = sail_tmod_int (left + right) modulus

unfoldable pub word_sub_word : ℕ → ℕ → ℕ
word_sub_word left right =
    if leb right left then left - right else (modulus - 1 - (right - left)) + 1

unfoldable pub word_of_bool : Bool → ℕ
word_of_bool b = if b then word_one else word_zero

unfoldable pub word_is_zero : ℕ → Bool
word_is_zero w = w == word_zero

unfoldable pub word_nonzero : ℕ → Bool
unfolding word_is_zero
word_nonzero w = not (word_is_zero w)

unfoldable pub word_ult : ℕ → ℕ → Bool
word_ult a b = ltb a b

unfoldable pub word_ule : ℕ → ℕ → Bool
unfolding word_ult
word_ule a b = not (word_ult b a)

unfoldable pub word_mul_word : ℕ → ℕ → ℕ
word_mul_word a b = sail_tmod_int (a * b) modulus

unfoldable pub word_div_word : ℕ → ℕ → ℕ
word_div_word dividend divisor = if divisor == 0 then word_zero else sail_tdiv_int dividend divisor

unfoldable pub word_mod_word : ℕ → ℕ → ℕ
word_mod_word dividend divisor = if divisor == 0 then word_zero else sail_tmod_int dividend divisor

unfoldable pub word_greater_than_word : ℕ → ℕ → Bool
word_greater_than_word left right = ltb right left

unfoldable pub word_negate : ℕ → ℕ
unfolding word_sub_word
word_negate value = word_sub_word word_zero value

unfoldable pub alu_add : ℕ → ℕ → ℕ
unfolding word_add_word
alu_add a b = word_add_word a b

unfoldable pub alu_sub : ℕ → ℕ → ℕ
unfolding word_sub_word
alu_sub a b = word_sub_word a b

unfoldable pub alu_mul : ℕ → ℕ → ℕ
unfolding word_mul_word
alu_mul a b = word_mul_word a b

unfoldable pub alu_div : ℕ → ℕ → ℕ
unfolding word_div_word
alu_div a b = word_div_word a b

unfoldable pub alu_mod : ℕ → ℕ → ℕ
unfolding word_mod_word
alu_mod a b = word_mod_word a b

unfoldable pub alu_addmod : ℕ → ℕ → ℕ → ℕ
alu_addmod a b n = if n == 0 then word_zero else sail_tmod_int (a + b) n

unfoldable pub alu_mulmod : ℕ → ℕ → ℕ → ℕ
alu_mulmod a b n = if n == 0 then word_zero else sail_tmod_int (a * b) n

unfoldable pub alu_lt : ℕ → ℕ → ℕ
unfolding word_ult word_of_bool
alu_lt a b = word_of_bool (word_ult a b)

unfoldable pub alu_gt : ℕ → ℕ → ℕ
unfolding word_ult word_of_bool
alu_gt a b = word_of_bool (word_ult b a)

unfoldable pub alu_eq : ℕ → ℕ → ℕ
unfolding word_of_bool
alu_eq a b = word_of_bool (a == b)

unfoldable pub alu_iszero : ℕ → ℕ
unfolding word_is_zero word_of_bool
alu_iszero a = word_of_bool (word_is_zero a)
