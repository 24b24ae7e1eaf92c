-- ===== src/Rlp/Reference.antt =====
-- The encoding of a string and of a list as plain byte lists, as the RLP standard defines them.
use native.Mathlib.Nat.{pow-suc, one-le-pow, pow-le-pow_right}
use evm_sail.Base.{
  ℕ, zero, suc, ◌+◌, ◌-◌, ◌*◌, ◌/◌, ◌%◌, ◌^◌, ◌≤◌, ◌<◌, ◌≡◌, ◌≢◌, refl, sym, ap, ◌∙◌, List, [], ◌∷◌,
  ◌++◌, length, arith, Bool-cases, inl, inr, leb→le, ==-ne, pow-add, ltb, leb, if◌then◌else◌, true,
  false, ◌==◌, length-append,
}
use evm_sail.Word.{IsWord, word_byte_length}
use evm_sail.Word.BitLength.{word_byte_length_least}
use evm_sail.Rlp.Slices.{to_bytes}
use evm_sail.Rlp.Size.{rlp_minimal_word_len}
use evm_sail.Rlp.BigEndian.{IsBytes, to_bytes-suc, length-to_bytes}

-- The bytes of a number, the highest first and not zero; zero has none. The number bounds the
-- recursion.
unfoldable pub big_endian_below : ℕ → ℕ → List ℕ
big_endian_below zero n = []
big_endian_below (suc fuel) n = elim (n == 0) [
  | true ↦ []
  | false ↦ big_endian_below fuel (n / 256) ++ (n % 256 ∷ [])
]

unfoldable pub big_endian : ℕ → List ℕ
unfolding big_endian_below
big_endian n = big_endian_below n n

-- A header: the short form up to 55, from there on the length of the length.
unfoldable pub encode_header : ℕ → ℕ → List ℕ
unfolding big_endian
encode_header base n =
    if leb n 55 then (base + n) ∷ [] else (base + 55 + length (big_endian n)) ∷ big_endian n

unfoldable pub encode_string : List ℕ → List ℕ
unfolding encode_header
encode_string [] = encode_header 0x80 0
encode_string (b ∷ []) = if ltb b 128 then b ∷ [] else encode_header 0x80 1 ++ (b ∷ [])
encode_string (b ∷ c ∷ bs) = encode_header 0x80 (length (b ∷ c ∷ bs)) ++ (b ∷ c ∷ bs)

unfoldable pub encode_list : List ℕ → List ℕ
unfolding encode_header
encode_list content = encode_header 0xc0 (length content) ++ content

-- `k` is the least number of bytes that holds `n`.
abbrev pub HasByteLength : ℕ → ℕ → Type 0
HasByteLength n k = (n < 256 ^ k) × (256 ^ k ≤ 256 * n + 255)

HasByteLength-zero : (k : ℕ) → HasByteLength 0 k → k ≡ 0
HasByteLength-zero zero h = refl
HasByteLength-zero (suc k) h = absurd (omega (arith, pow-suc 256 k, one-le-pow k 256))

HasByteLength-shift : (n k : ℕ) → HasByteLength n (suc k) → HasByteLength (n / 256) k
HasByteLength-shift n k h = omega (arith, pow-suc 256 k)

big_endian_below-to_bytes :
    (fuel n k : ℕ) → n ≤ fuel → HasByteLength n k → big_endian_below fuel n ≡ to_bytes k n
unfolding big_endian_below to_bytes
big_endian_below-to_bytes zero zero k le h = rw (HasByteLength-zero k h) refl
big_endian_below-to_bytes zero (suc n) k le h = absurd (omega arith)
big_endian_below-to_bytes (suc fuel) zero k le h = rw (HasByteLength-zero k h) refl
big_endian_below-to_bytes (suc fuel) (suc n) zero le h = absurd (omega arith)
big_endian_below-to_bytes (suc fuel) (suc n) (suc k) le h =
    rw (==-ne (suc n) 0 (omega arith), big_endian_below)
      (ap (λ l. l ++ (suc n % 256 ∷ []))
          (big_endian_below-to_bytes fuel (suc n / 256) k (omega arith)
            (HasByteLength-shift (suc n) k h))
        ∙ sym (to_bytes-suc k (suc n)))

pub big_endian-to_bytes : (n k : ℕ) → HasByteLength n k → big_endian n ≡ to_bytes k n
unfolding big_endian
big_endian-to_bytes n k h = big_endian_below-to_bytes n n k (omega arith) h

pub pow_256 : (k : ℕ) → 256 ^ k ≡ 2 ^ (8 * k)
pow_256 zero = refl
pow_256 (suc k) =
    pow-suc 256 k
    ∙ ap (λ (t : ℕ). t * 256) (pow_256 k)
    ∙ sym (pow-add 2 (8 * k) 8)
    ∙ ap (λ (t : ℕ). 2 ^ t) (omega arith)

pow_predecessor : (k n : ℕ) → 1 ≤ n → 2 ^ (8 * (k - 1)) ≤ n → 2 ^ (8 * k) ≤ 256 * n
pow_predecessor zero n ge g = omega arith
pow_predecessor (suc k) n ge g =
    let e : 8 * suc k ≡ 8 * k + 8 = omega arith in
    let d : suc k - 1 ≡ k = omega arith in
    omega (arith, ap (λ (t : ℕ). 2 ^ t) e, pow-add 2 (8 * k) 8, ap (λ (t : ℕ). 2 ^ (8 * t)) d)

-- The width that the code computes for a word is that of its bytes.
word_byte_length-HasByteLength : (w : ℕ) → IsWord w → HasByteLength w (word_byte_length w)
word_byte_length-HasByteLength zero h = unfold word_byte_length in omega arith
word_byte_length-HasByteLength (suc w) h =
    let b = word_byte_length_least (suc w) h (omega arith) in
    rw (pow_256 (word_byte_length (suc w)))
      (omega (arith, b, pow_predecessor (word_byte_length (suc w)) (suc w) (omega arith) b.1))

pub big_endian-word : (w : ℕ) → IsWord w → big_endian w ≡ to_bytes (word_byte_length w) w
big_endian-word w h =
    big_endian-to_bytes w (word_byte_length w) (word_byte_length-HasByteLength w h)

pub length-big_endian : (w : ℕ) → IsWord w → length (big_endian w) ≡ word_byte_length w
length-big_endian w h =
    ap (λ l. length l) (big_endian-word w h) ∙ length-to_bytes (word_byte_length w) w

-- No more bytes than a width that holds the number.
HasByteLength-le : (n k w : ℕ) → HasByteLength n k → n < 256 ^ w → k ≤ w
HasByteLength-le n k w h lt = elim (Bool-cases (leb k w)) [
  | inl e ↦ leb→le k w e
  | inr e ↦ absurd (
      omega (
        arith,
        pow-suc 256 w,
        pow-le-pow_right {n = 256} (omega arith) {i = suc w} {j = k} (ground arith),
      ))
]

pub length-big_endian-le : (w k : ℕ) → IsWord w → w < 256 ^ k → length (big_endian w) ≤ k
length-big_endian-le w k h lt =
    rw (length-big_endian w h)
      (HasByteLength-le w (word_byte_length w) k (word_byte_length-HasByteLength w h) lt)

pub rlp_minimal_word_len-length :
    (w : ℕ) → IsWord w → rlp_minimal_word_len w ≡ length (big_endian w)
unfolding rlp_minimal_word_len
rlp_minimal_word_len-length w h = sym (length-big_endian w h)

pub to_bytes-big_endian : (w : ℕ) → IsWord w → to_bytes (rlp_minimal_word_len w) w ≡ big_endian w
unfolding rlp_minimal_word_len
to_bytes-big_endian w h = sym (big_endian-word w h)

IsBytes-append : (xs ys : List ℕ) → IsBytes xs → IsBytes ys → IsBytes (xs ++ ys)
IsBytes-append [] ys h g = g
IsBytes-append (x ∷ xs) ys h g = (h.0, IsBytes-append xs ys h.1 g)

big_endian_below-IsBytes : (fuel n : ℕ) → IsBytes (big_endian_below fuel n)
unfolding big_endian_below
big_endian_below-IsBytes zero n = tt
big_endian_below-IsBytes (suc fuel) n = elim (Bool-cases (n == 0)) [
  | inl e ↦ rw (e, big_endian_below) tt
  | inr e ↦
      rw (e, big_endian_below)
        (IsBytes-append (big_endian_below fuel (n / 256)) (n % 256 ∷ [])
          (big_endian_below-IsBytes fuel (n / 256)) (omega arith, tt))
]

pub IsBytes-big_endian : (n : ℕ) → IsBytes (big_endian n)
unfolding big_endian
IsBytes-big_endian n = big_endian_below-IsBytes n n

HasByteLength-suc : (n k : ℕ) → n ≢ 0 → HasByteLength (n / 256) k → HasByteLength n (k + 1)
HasByteLength-suc n zero ne h = omega arith
HasByteLength-suc n (suc k) ne h =
    let e : suc k + 1 ≡ suc (suc k) = omega arith in
    rw e (omega (arith, pow-suc 256 (suc k), pow-suc 256 k))

big_endian_below-HasByteLength :
    (fuel n : ℕ) → n ≤ fuel → HasByteLength n (length (big_endian_below fuel n))
unfolding big_endian_below
big_endian_below-HasByteLength zero zero le = omega arith
big_endian_below-HasByteLength zero (suc n) le = absurd (omega arith)
big_endian_below-HasByteLength (suc fuel) n le = elim (Bool-cases (n == 0)) [
  | inl e ↦ rw (e, big_endian_below) (ground arith)
  | inr e ↦
      rw (e, big_endian_below, length-append (big_endian_below fuel (n / 256)) (n % 256 ∷ []))
        (HasByteLength-suc n (length (big_endian_below fuel (n / 256))) (ground arith)
          (big_endian_below-HasByteLength fuel (n / 256) (ground arith)))
]

pub big_endian-HasByteLength : (n : ℕ) → HasByteLength n (length (big_endian n))
unfolding big_endian
big_endian-HasByteLength n = big_endian_below-HasByteLength n n (omega arith)
