-- ===== src/Word/SignedLaws.antt =====
-- The signed instructions and the integers that words stand for in two's complement.
use evm_sail.Base.{ℕ, suc, ◌-◌, ◌/◌, ◌%◌, ◌^◌, ◌≡◌, arith, ltb, leb, ◌==◌, if◌then◌else◌}
use evm_sail.Base.Int.{ℤ, pos, negsuc, sub_ℕ, ltb_ℤ}
use evm_sail.Word.Arith.{modulus, IsWord}
use evm_sail.Word.Signed.{sign_set, word_slt, alu_sdiv, alu_smod}

-- The integer that a word stands for.
abbrev pub signed : ℕ → ℤ
signed w = if ltb w (2 ^ 255) then pos w else negsuc (modulus - w - 1)

-- The word that stands for an integer.
abbrev pub of_int : ℤ → ℕ
of_int (pos n) = n % modulus
of_int (negsuc n) = modulus - 1 - n % modulus

-- Division of integers rounds towards zero; a quotient by zero is zero.
abbrev pub tdiv : ℤ → ℤ → ℤ
tdiv (pos a) (pos b) = pos (a / b)
tdiv (pos a) (negsuc b) = sub_ℕ 0 (a / suc b)
tdiv (negsuc a) (pos b) = sub_ℕ 0 (suc a / b)
tdiv (negsuc a) (negsuc b) = pos (suc a / suc b)

-- The remainder has the sign of the dividend; by zero it is zero, as the machine has it.
abbrev magnitude_mod : ℕ → ℕ → ℕ
magnitude_mod a b = if b == 0 then 0 else a % b

abbrev pub tmod : ℤ → ℤ → ℤ
tmod (pos a) (pos b) = pos (magnitude_mod a b)
tmod (pos a) (negsuc b) = pos (a % suc b)
tmod (negsuc a) (pos b) = sub_ℕ 0 (magnitude_mod (suc a) b)
tmod (negsuc a) (negsuc b) = sub_ℕ 0 (suc a % suc b)

pub sign_set_lem : (v : ℕ) → IsWord v → sign_set v ≡ leb (2 ^ 255) v
unfolding sign_set
sign_set_lem v h = ground arith

-- A signed comparison of words is the comparison of their integers.
word_slt-eq-ltb_ℤ : (a b : ℕ) → IsWord a → IsWord b → word_slt a b ≡ ltb_ℤ (signed a) (signed b)
unfolding word_slt
word_slt-eq-ltb_ℤ a b ha hb = rw (sign_set_lem a ha, sign_set_lem b hb) (ground arith)

-- `alu_sdiv` of words is the word of the quotient of their integers, rounded towards zero: also
-- for the least integer by -1, which wraps, and for a divisor of zero, where it is zero.
pub alu_sdiv-eq-tdiv :
    (a b : ℕ) → IsWord a → IsWord b → alu_sdiv a b ≡ of_int (tdiv (signed a) (signed b))
unfolding alu_sdiv
alu_sdiv-eq-tdiv a b ha hb = rw (sign_set_lem a ha, sign_set_lem b hb) (ground arith)

-- `alu_smod` of words is the word of the remainder of their integers, which has the sign of the
-- dividend; by zero it is zero.
pub alu_smod-eq-tmod :
    (a b : ℕ) → IsWord a → IsWord b → alu_smod a b ≡ of_int (tmod (signed a) (signed b))
unfolding alu_smod
alu_smod-eq-tmod a b ha hb = rw (sign_set_lem a ha, sign_set_lem b hb) (ground arith)
