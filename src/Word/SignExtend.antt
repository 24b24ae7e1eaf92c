-- ===== src/Word/SignExtend.antt =====
-- The low bytes of a word as a signed number, for `alu_signextend`.
use native.Mathlib.Nat.{
  div-add-mod', mod-lt, one-le-pow, pow-le-pow_right, div-eq_of_lt-le, mod-eq_of_lt, div-le_self,
  mod-le,
}
use evm_sail.Base.{
  ℕ, ◌+◌, ◌-◌, ◌*◌, ◌/◌, ◌%◌, ◌^◌, ◌<◌, ◌≤◌, ◌≡◌, ◌⊎◌, inl, inr, arith, ltb, ◌==◌, if◌then◌else◌,
  lt→ltb, ge→ltb, ◌∙◌, pow-add, bit_or_parts_low, bit_and_mask,
}
use evm_sail.Base.Int.{ℤ, pos, negsuc}
use evm_sail.Word.Arith.{modulus, IsWord, word_one, word_sub_word}
use evm_sail.Word.Bits.{word_or, word_and, word_not}
use evm_sail.Word.Shift.{word_shift_left, word_shift_right, alu_signextend}
use evm_sail.Word.SignedLaws.{signed}
use evm_sail.Word.Extend.{fill_lem}

-- The integer that `k` bits stand for.
abbrev pub signed_at : ℕ → ℕ → ℤ
signed_at k x = if ltb x (2 ^ (k - 1)) then pos x else negsuc (2 ^ k - x - 1)

lower_or_not : (x h : ℕ) → (x < h) ⊎ (h ≤ x)
lower_or_not x h = grind arith

-- The top bit of the `2 * h` values below, where `h` is half.
top_bit_clear : (v h : ℕ) → 0 < h → v % (2 * h) < h → v / h % 2 ≡ 0
top_bit_clear v h p low =
    let q : ℕ = v / (2 * h) in
    let split : q * (2 * h) + v % (2 * h) ≡ v = div-add-mod' v (2 * h) in
    let e : v / h ≡ 2 * q =
      div-eq_of_lt-le h {m = v} (omega (arith, split)) (omega (arith, split)) in
    rw e (omega arith)

top_bit_set : (v h : ℕ) → 0 < h → h ≤ v % (2 * h) → v / h % 2 ≡ 1
top_bit_set v h p high =
    let q : ℕ = v / (2 * h) in
    let split : q * (2 * h) + v % (2 * h) ≡ v = div-add-mod' v (2 * h) in
    let r = mod-lt v {m = 2 * h} (omega arith) in
    let e : v / h ≡ 2 * q + 1 =
      div-eq_of_lt-le h {m = v} (omega (arith, split)) (omega (arith, split, r)) in
    rw e (omega arith)

-- The mask that `alu_signextend` builds, which wraps around at the full width.
low_mask_lem : (k : ℕ) → k ≤ 256 → word_sub_word (word_shift_left word_one k) word_one ≡ 2 ^ k - 1
unfolding word_sub_word word_shift_left
low_mask_lem k h = elim (lower_or_not k 256) [
  | inl small ↦
      let b = pow-le-pow_right {n = 2} (omega arith) {i = k} {j = 255} (omega arith) in
      ground (arith, b, one-le-pow k 2 (omega arith))
  | inr full ↦ let e : k ≡ 256 = omega arith in rw e
]

isolated_sign_lem : (v s : ℕ) → IsWord v → word_and (word_shift_right v s) word_one ≡ v / 2 ^ s % 2
unfolding word_and word_shift_right
isolated_sign_lem v s h =
    let m : v % 2 ^ 256 ≡ v = omega arith in
    let q : v / 2 ^ s % 2 ^ 256 ≡ v / 2 ^ s = omega (arith, div-le_self v (2 ^ s)) in
    rw (m, q, q, bit_and_mask 1 (v / 2 ^ s)) (omega arith)

masked_lem : (v k : ℕ) → IsWord v → k ≤ 256 → word_and v (2 ^ k - 1) ≡ v % 2 ^ k
unfolding word_and
masked_lem v k h hk =
    let m : v % 2 ^ 256 ≡ v = omega arith in
    let b = pow-le-pow_right {n = 2} (omega arith) {i = k} {j = 256} hk in
    let n : (2 ^ k - 1) % 2 ^ 256 ≡ 2 ^ k - 1 = omega (arith, b, one-le-pow k 2 (omega arith)) in
    rw (m, n, bit_and_mask k v) (mod-eq_of_lt (omega (arith, mod-le v (2 ^ k))))

filled_lem :
    (v k : ℕ) → k ≤ 256 → word_or (v % 2 ^ k) (word_not (2 ^ k - 1)) + 2 ^ k ≡ modulus + v % 2 ^ k
unfolding word_or word_not
filled_lem v k hk =
    let back : 256 - (256 - k) ≡ k = omega arith in
    let fill : (2 ^ (256 - k) - 1) * 2 ^ k + 2 ^ k ≡ 2 ^ 256 =
      rw back at (fill_lem (256 - k) (omega arith)) in
    let low = mod-lt v {m = 2 ^ k} (one-le-pow k 2 (omega arith)) in
    let one = one-le-pow k 2 (omega arith) in
    let m : v % 2 ^ k % 2 ^ 256 ≡ v % 2 ^ k = mod-eq_of_lt (omega (arith, low, fill)) in
    let n : (2 ^ k - 1) % 2 ^ 256 ≡ 2 ^ k - 1 = mod-eq_of_lt (omega (arith, fill, one)) in
    let c : 2 ^ 256 - 1 - (2 ^ k - 1) ≡ (2 ^ (256 - k) - 1) * 2 ^ k = omega (arith, fill, one) in
    let f : (2 ^ (256 - k) - 1) * 2 ^ k % 2 ^ 256 ≡ (2 ^ (256 - k) - 1) * 2 ^ k =
      mod-eq_of_lt (omega (arith, fill, one)) in
    let g : ((2 ^ (256 - k) - 1) * 2 ^ k + v % 2 ^ k) % 2 ^ 256
        ≡ (2 ^ (256 - k) - 1) * 2 ^ k + v % 2 ^ k =
      mod-eq_of_lt (omega (arith, fill, low)) in
    rw (m, n, c, f, f, bit_or_parts_low k (2 ^ (256 - k) - 1) (v % 2 ^ k) low, g)
      (omega (arith, fill))

-- The instruction, with its parts as arithmetic.
signextend_as_sum :
    (i v : ℕ)
    → IsWord v
    → i < 32
    → alu_signextend i v ≡ (
        if v / 2 ^ (i * 8 + 7) % 2 == 1
        then word_or (v % 2 ^ (i * 8 + 8)) (word_not (2 ^ (i * 8 + 8) - 1))
        else v % 2 ^ (i * 8 + 8))
unfolding alu_signextend
signextend_as_sum i v hv hi = rw (
  lt→ltb i 32 hi,
  isolated_sign_lem v (i * 8 + 7) hv,
  low_mask_lem (i * 8 + 8) (omega arith),
  masked_lem v (i * 8 + 8) hv (omega arith),
)

pow_twice : (k : ℕ) → 2 ^ (k + 1) ≡ 2 * 2 ^ k
pow_twice k = pow-add 2 k 1 ∙ omega arith

-- At the width `k + 1`, by the top bit of the field.
field_lem :
    (v k : ℕ)
    → k + 1 ≤ 256
    → signed (
        if v / 2 ^ k % 2 == 1
        then word_or (v % 2 ^ (k + 1)) (word_not (2 ^ (k + 1) - 1))
        else v % 2 ^ (k + 1))
      ≡ signed_at (k + 1) (v % 2 ^ (k + 1))
field_lem v k hk =
    let p = one-le-pow k 2 (omega arith) in
    let half : k + 1 - 1 ≡ k = omega arith in
    let small = pow-le-pow_right {n = 2} (omega arith) {i = k} {j = 255} (omega arith) in
    let r = mod-lt v {m = 2 * 2 ^ k} (omega (arith, p)) in
    rw (half, pow_twice k)
      (elim (lower_or_not (v % (2 * 2 ^ k)) (2 ^ k)) [
        | inl low ↦ rw (top_bit_clear v (2 ^ k) p low) (ground (arith, small))
        | inr high ↦
            let filled : word_or (v % (2 * 2 ^ k)) (word_not (2 * 2 ^ k - 1)) + 2 * 2 ^ k
                ≡ modulus + v % (2 * 2 ^ k) =
              rw pow_twice at (filled_lem v (k + 1) hk) in
            rw (top_bit_set v (2 ^ k) p high) (ground (arith, small, filled, r))
      ])

-- The integer that the low `8 * i + 8` bits of a word stand for, where a word has that many.
abbrev pub sign_extended : ℕ → ℕ → ℤ
sign_extended i v = if ltb i 32 then signed_at (i * 8 + 8) (v % 2 ^ (i * 8 + 8)) else signed v

-- For a byte index below 32, `alu_signextend` of a word stands for the integer that its low
-- `8 * index + 8` bits stand for in two's complement; from 32 on the integer stays as it was.
pub alu_signextend-eq-sign_extended :
    (i v : ℕ) → IsWord v → signed (alu_signextend i v) ≡ sign_extended i v
alu_signextend-eq-sign_extended i v hv = elim (lower_or_not i 32) [
  | inl h ↦
      let e : i * 8 + 8 ≡ i * 8 + 7 + 1 = omega arith in
      rw (signextend_as_sum i v hv h, lt→ltb i 32 h, e) (field_lem v (i * 8 + 7) (omega arith))
  | inr h ↦ unfold alu_signextend in rw (ge→ltb i 32 h)
]
