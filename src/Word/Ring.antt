-- ===== src/Word/Ring.antt =====
-- `alu_add`, `alu_sub`, `alu_div` and `alu_mod` together.
use native.Mathlib.Nat.{div-add-mod, mod-lt, div-le_self}
use evm_sail.Base.{ℕ, ◌+◌, ◌-◌, ◌*◌, ◌%◌, ◌<◌, ◌≡◌, ◌≢◌, arith}
use evm_sail.Word.Arith.{modulus, IsWord, word_sub_word, alu_add, alu_sub, alu_div, alu_mod}

-- `word_sub_word` is subtraction modulo 2 ^ 256.
pub word_sub_word-mod :
    (a b : ℕ) → IsWord a → IsWord b → word_sub_word a b ≡ (a + modulus - b) % modulus
unfolding word_sub_word
word_sub_word-mod a b ha hb = ground arith

-- Addition and subtraction of words undo one another in both orders, also where they wrap, and
-- the results are words.
alu_sub-alu_add :
    (a b : ℕ)
    → IsWord a
    → IsWord b
    → (alu_sub (alu_add a b) b ≡ a)
      × (alu_add (alu_sub a b) b ≡ a)
      × IsWord (alu_add a b)
      × IsWord (alu_sub a b)
unfolding alu_add alu_sub
alu_sub-alu_add a b ha hb = ground arith

-- For a divisor other than zero the quotient and the remainder of two words rebuild the dividend,
-- the remainder is below the divisor, and both are words.
alu_div-alu_mod :
    (a b : ℕ)
    → IsWord a
    → b ≢ 0
    → (alu_div a b * b + alu_mod a b ≡ a) × (alu_mod a b < b) × IsWord (alu_div a b)
unfolding alu_div alu_mod
alu_div-alu_mod a b ha hb = ground (arith, div-add-mod a b, mod-lt a {m = b}, div-le_self a b)
