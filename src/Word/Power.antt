-- ===== src/Word/Power.antt =====
-- The loop of `alu_exp`.
use native.Mathlib.Nat.{pow-zero, mul_assoc, mul_comm, pow-suc, mod-eq_of_lt}
use evm_sail.Base.{
  ℕ, zero, suc, ◌+◌, ◌*◌, ◌/◌, ◌%◌, ◌^◌, ◌<◌, ◌≡◌, arith, pow-add, mul-pow, mod-mul-mod,
  mul-mod-mod, ap, sym, ◌∙◌, ltb, lt→ltb, ◌==◌, if◌then◌else◌, ◌⊎◌, inl, inr,
}
use evm_sail.Word.Arith.{modulus, IsWord, word_mul_word}
use evm_sail.Word.Bits.{word_bit, word_shift_right_one, word_bit_length}
use evm_sail.Word.Exp.{exp_loop, alu_exp}
use evm_sail.Word.BitLength.{word_bit_length-HasBitLength}

-- A base may be reduced before the power is.
pow-mod : (b m k : ℕ) → (b % m) ^ k % m ≡ b ^ k % m
pow-mod b m zero = simp pow-zero
pow-mod b m (suc k) =
    ap (λ (t : ℕ). t % m) (pow-suc (b % m) k)
    ∙ sym (mod-mul-mod ((b % m) ^ k) (b % m) m)
    ∙ ap (λ (t : ℕ). t * (b % m) % m) (pow-mod b m k)
    ∙ mod-mul-mod (b ^ k) (b % m) m
    ∙ mul-mod-mod (b ^ k) b m
    ∙ ap (λ (t : ℕ). t % m) (sym (pow-suc b k))

-- One round: the power splits at the lowest digit of the exponent.
pow_half : (b e : ℕ) → (b * b) ^ (e / 2) * b ^ (e % 2) ≡ b ^ e
pow_half b e =
    ap (λ (t : ℕ). t * b ^ (e % 2)) (mul-pow b b (e / 2) ∙ sym (pow-add b (e / 2) (e / 2)))
    ∙ sym (pow-add b (e / 2 + e / 2) (e % 2))
    ∙ ap (λ (t : ℕ). b ^ t) (omega arith)

-- The new result of a round, before what it is multiplied with.
round_result :
    (r b e x : ℕ)
    → (if word_bit e 0 == 1 then word_mul_word r b else r) * x % modulus
      ≡ r * b ^ (e % 2) * x % modulus
unfolding word_bit word_mul_word
round_result r b e x = elim (even_or_odd e) [
  | inl even ↦
      let t : e % 2 ^ 256 / 2 ^ 0 % 2 ≡ 0 = omega arith in
      rw (t, even, pow-zero) (ap (λ (y : ℕ). y * x % modulus) (omega arith))
  | inr odd ↦
      let t : e % 2 ^ 256 / 2 ^ 0 % 2 ≡ 1 = omega arith in
      let one : b ^ 1 ≡ b = pow-suc b 0 ∙ ap (λ (y : ℕ). y * b) (pow-zero b) ∙ omega arith in
      rw (t, odd, one) (mod-mul-mod (r * b) x modulus)
]
  where
    even_or_odd : (n : ℕ) → (n % 2 ≡ 0) ⊎ (n % 2 ≡ 1)
    even_or_odd n = grind arith

-- The base is squared except in the last round, where no power of it is left to take.
round_base :
    (n b e : ℕ)
    → e < 2 ^ suc n
    → (if ltb 1 (suc n) then word_mul_word b b else b) ^ (e / 2) % modulus
      ≡ (b * b) ^ (e / 2) % modulus
unfolding word_mul_word
round_base zero b e h = let z : e / 2 ≡ 0 = omega (arith, pow-suc 2 0) in rw z (simp pow-zero)
round_base (suc n) b e h =
    rw (lt→ltb 1 (suc (suc n)) (omega arith)) (pow-mod (b * b) modulus (e / 2))

round_lem :
    (n r b e : ℕ)
    → e < 2 ^ suc n
    → (if word_bit e 0 == 1 then word_mul_word r b else r)
        * (if ltb 1 (suc n) then word_mul_word b b else b) ^ (e / 2)
        % modulus
      ≡ r * b ^ e % modulus
round_lem n r b e h =
    let x : ℕ = (if ltb 1 (suc n) then word_mul_word b b else b) ^ (e / 2) in
    round_result r b e x
    ∙ sym (mul-mod-mod (r * b ^ (e % 2)) x modulus)
    ∙ ap (λ (t : ℕ). r * b ^ (e % 2) * t % modulus) (round_base n b e h)
    ∙ mul-mod-mod (r * b ^ (e % 2)) ((b * b) ^ (e / 2)) modulus
    ∙ ap (λ (t : ℕ). t % modulus) (mul_assoc r (b ^ (e % 2)) ((b * b) ^ (e / 2)))
    ∙ ap (λ (t : ℕ). r * t % modulus) (mul_comm (b ^ (e % 2)) ((b * b) ^ (e / 2)) ∙ pow_half b e)

exp_loop_lem : (n r b e : ℕ) → e < 2 ^ n → exp_loop n r b e % modulus ≡ r * b ^ e % modulus
unfolding exp_loop word_shift_right_one
exp_loop_lem zero r b e h =
    let z : e ≡ 0 = omega arith in rw (z, pow-zero) (ap (λ (t : ℕ). t % modulus) (omega arith))
exp_loop_lem (suc n) r b e h =
    exp_loop_lem n (if word_bit e 0 == 1 then word_mul_word r b else r)
      (if ltb 1 (suc n) then word_mul_word b b else b) (e / 2) (omega (arith, pow-suc 2 n))
    ∙ round_lem n r b e h

exp_loop-IsWord : (n r b e : ℕ) → IsWord r → IsWord (exp_loop n r b e)
unfolding exp_loop
exp_loop-IsWord zero r b e h = h
exp_loop-IsWord (suc n) r b e h =
    exp_loop-IsWord n (if word_bit e 0 == 1 then word_mul_word r b else r)
      (if ltb 1 (suc n) then word_mul_word b b else b) (word_shift_right_one e)
      (round-IsWord (word_bit e 0))
  where
    round-IsWord : (d : ℕ) → IsWord (if d == 1 then word_mul_word r b else r)
    round-IsWord d = unfold word_mul_word in ground arith

-- The loop of `alu_exp`, which squares the base for each bit of the exponent, gives the power
-- of the base reduced modulo 2 ^ 256, for every base and every exponent that is a word.
pub alu_exp-eq-pow :
    (base exponent : ℕ) → IsWord exponent → alu_exp base exponent ≡ base ^ exponent % modulus
unfolding alu_exp
alu_exp-eq-pow base exponent h =
    let n : ℕ = word_bit_length exponent in
    sym (mod-eq_of_lt (exp_loop-IsWord n 1 base exponent (omega arith)))
    ∙ exp_loop_lem n 1 base exponent (word_bit_length-HasBitLength exponent h).0
    ∙ ap (λ (t : ℕ). t % modulus) (omega arith)
