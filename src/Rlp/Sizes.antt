-- ===== src/Rlp/Sizes.antt =====
-- The sizes of lib/rlp/encoding.py against the lengths of the encodings.
use evm_sail.Base.{
  ℕ, zero, suc, ◌+◌, ◌/◌, ◌%◌, ◌^◌, ◌≤◌, ◌<◌, ◌≡◌, ◌≢◌, refl, sym, ap, ◌∙◌, List, [], ◌∷◌, length,
  arith, ltb, leb, if◌then◌else◌, Bool, false, ◌==◌, ◌&&◌, Bool-cases, inl, inr, ok, get_or, ◌>>=◌,
  length-append, ==-ne, ltb→lt,
}
use evm_sail.Word.{IsWord, modulus, word_low_byte}
use evm_sail.Rlp.Size.{
  rlp_length_word, rlp_minimal_word_len, single_byte, rlp_length_prefix_len, rlp_string_size,
  rlp_list_size, rlp_uint_word_size, rlp_uint_nat_size, rlp_uint_u64_size, rlp_minimal_uint_len,
  minimal_uint_len_below,
}
use evm_sail.Rlp.Reference.{
  big_endian, big_endian_below, encode_header, encode_string, encode_list,
  rlp_minimal_word_len-length, IsBytes-big_endian, length-big_endian-le, HasByteLength,
  big_endian-HasByteLength,
}
use evm_sail.Rlp.Refines.{short_header, encode_string-prefix}
use evm_sail.Rlp.Writers.{single_low_byte}
use evm_sail.Rlp.BigEndian.{IsBytes}

rlp_length_word-word : (n : ℕ) → IsWord n → rlp_length_word n ≡ ok n
unfolding rlp_length_word
rlp_length_word-word n h = ground arith

rlp_length_prefix_len-length :
    (base n : ℕ) → IsWord n → rlp_length_prefix_len n ≡ ok (length (encode_header base n))
unfolding rlp_length_prefix_len encode_header
rlp_length_prefix_len-length base n h = elim (Bool-cases (leb n 55)) [
  | inl e ↦ rw e refl
  | inr e ↦ rw (e, rlp_length_word-word n h, rlp_minimal_word_len-length n h) (ap ok (omega arith))
]

-- The length of the encoding of a string, by the length of the string and its first byte.
length-encode_string :
    (bs : List ℕ)
    → IsBytes bs
    → length (encode_string bs) ≡ (
        if single_byte (length bs) (get_or bs 0 0)
        then 1
        else length (encode_header 0x80 (length bs)) + length bs)
length-encode_string bs h =
    ap (λ l. length l) (encode_string-prefix bs h)
    ∙ elim (Bool-cases (single_byte (length bs) (get_or bs 0 0))) [
      | inl e ↦ rw e (ground arith)
      | inr e ↦ rw e (length-append (encode_header 0x80 (length bs)) bs)
    ]

rlp_string_size-bind :
    (n first : ℕ)
    → rlp_string_size n first
      ≡ (if single_byte n first then ok 1 else rlp_length_prefix_len n >>= λ p. ok (p + n))
unfolding rlp_string_size
rlp_string_size-bind n first = refl

rlp_list_size-bind : (n : ℕ) → rlp_list_size n ≡ (rlp_length_prefix_len n >>= λ p. ok (p + n))
unfolding rlp_list_size
rlp_list_size-bind n = refl

-- The computed size of a string of bytes or of a list is the length of its encoding, where the
-- length is a word.
rlp_string_size-length :
    (bs : List ℕ)
    → IsBytes bs
    → IsWord (length bs)
    → (rlp_string_size (length bs) (get_or bs 0 0) ≡ ok (length (encode_string bs)))
      × (rlp_list_size (length bs) ≡ ok (length (encode_list bs)))
rlp_string_size-length bs h word = (
  elim (Bool-cases (single_byte (length bs) (get_or bs 0 0))) [
    | inl e ↦
        rw (rlp_string_size-bind (length bs) (get_or bs 0 0), length-encode_string bs h, e) refl
    | inr e ↦
        rw
          (
            rlp_string_size-bind (length bs) (get_or bs 0 0),
            length-encode_string bs h,
            e,
            rlp_length_prefix_len-length 0x80 (length bs) word,
          )
          refl
  ],
  rw (rlp_list_size-bind (length bs), rlp_length_prefix_len-length 0xc0 (length bs) word)
      (ap ok (unfold encode_list in sym (length-append (encode_header 0xc0 (length bs)) bs))),
)

rlp_minimal_uint_len-length : (n : ℕ) → rlp_minimal_uint_len n ≡ length (big_endian n)
unfolding rlp_minimal_uint_len big_endian
rlp_minimal_uint_len-length n = below n n
  where
    below : (fuel m : ℕ) → minimal_uint_len_below fuel m ≡ length (big_endian_below fuel m)
    below zero m = unfold minimal_uint_len_below big_endian_below in refl
    below (suc fuel) m = elim (Bool-cases (m == 0)) [
      | inl e ↦
          unfold minimal_uint_len_below big_endian_below in
          rw (e, minimal_uint_len_below, big_endian_below) refl
      | inr e ↦
          unfold minimal_uint_len_below big_endian_below in
          rw (e, minimal_uint_len_below, big_endian_below)
            (omega (
              arith,
              below fuel (m / 256),
              length-append (big_endian_below fuel (m / 256)) (m % 256 ∷ []),
            ))
    ]

rlp_uint_word_size-bind :
    (w : ℕ)
    → rlp_uint_word_size w ≡ (
        if single_byte
          (rlp_minimal_word_len w)
          (if rlp_minimal_word_len w == 1 then word_low_byte w else 0)
        then 1
        else 1 + rlp_minimal_word_len w)
unfolding rlp_uint_word_size
rlp_uint_word_size-bind w = refl

single_byte_only : (n a b : ℕ) → (n ≡ 1 → a ≡ b) → single_byte n a ≡ single_byte n b
single_byte_only n a b h = elim (Bool-cases (n == 1)) [
  | inl e ↦ ap (λ (x : ℕ). single_byte n x) (h (ground arith))
  | inr e ↦ rw e refl
]

-- The computed size of a word as a number is the length of its encoding.
pub rlp_uint_word_size-length :
    (w : ℕ) → IsWord w → rlp_uint_word_size w ≡ length (encode_string (big_endian w))
rlp_uint_word_size-length w h =
    rw
      (
        rlp_uint_word_size-bind w,
        length-encode_string (big_endian w) (IsBytes-big_endian w),
        single_byte_only (rlp_minimal_word_len w)
            (if rlp_minimal_word_len w == 1 then word_low_byte w else 0) (get_or (big_endian w) 0 0)
            (single_low_byte w h),
        rlp_minimal_word_len-length w h,
        short_header (length (big_endian w))
            (omega (arith, length-big_endian-le w 32 h (omega (arith, h)))),
      )
      refl

rlp_uint_nat_size-bind :
    (n : ℕ)
    → rlp_uint_nat_size n ≡ (
        if ltb n modulus
        then rlp_uint_word_size n
        else if leb (rlp_minimal_uint_len n) 55
        then 1 + rlp_minimal_uint_len n
        else (1 + rlp_minimal_uint_len (rlp_minimal_uint_len n)) + rlp_minimal_uint_len n)
unfolding rlp_uint_nat_size
rlp_uint_nat_size-bind n = refl

long_header_size :
    (k : ℕ)
    → (if leb k 55 then 1 + k else (1 + length (big_endian k)) + k)
      ≡ length (encode_header 0x80 k) + k
unfolding encode_header
long_header_size k = ground arith

many_bytes : (n k : ℕ) → ltb n modulus ≡ false → HasByteLength n k → k ≢ 1
many_bytes n zero e h one = omega arith
many_bytes n (suc zero) e h one = ground arith
many_bytes n (suc (suc k)) e h one = omega arith

-- The computed size of any number, also one above every word, is the length of the standard
-- encoding of its big-endian bytes.
pub rlp_uint_nat_size-length : (n : ℕ) → rlp_uint_nat_size n ≡ length (encode_string (big_endian n))
rlp_uint_nat_size-length n = elim (Bool-cases (ltb n modulus)) [
  | inl e ↦ rw (rlp_uint_nat_size-bind n, e) (rlp_uint_word_size-length n (ltb→lt n modulus e))
  | inr e ↦
      rw
        (
          rlp_uint_nat_size-bind n,
          e,
          length-encode_string (big_endian n) (IsBytes-big_endian n),
          rlp_minimal_uint_len-length n,
          rlp_minimal_uint_len-length (length (big_endian n)),
          ==-ne (length (big_endian n)) 1
              (many_bytes n (length (big_endian n)) e (big_endian-HasByteLength n)),
        )
        (long_header_size (length (big_endian n)))
]

u64_size_of_length :
    (n k : ℕ)
    → n < 2 ^ 64
    → HasByteLength n k
    → k ≤ 8
    → rlp_uint_u64_size n ≡ (if (k == 1) && ltb n 128 then 1 else 1 + k)
unfolding rlp_uint_u64_size
u64_size_of_length n zero h b le = ground arith
u64_size_of_length n (suc zero) h b le = ground arith
u64_size_of_length n (suc (suc zero)) h b le = ground arith
u64_size_of_length n (suc (suc (suc zero))) h b le = ground arith
u64_size_of_length n (suc (suc (suc (suc zero)))) h b le = ground arith
u64_size_of_length n (suc (suc (suc (suc (suc zero))))) h b le = ground arith
u64_size_of_length n (suc (suc (suc (suc (suc (suc zero)))))) h b le = ground arith
u64_size_of_length n (suc (suc (suc (suc (suc (suc (suc zero))))))) h b le = ground arith
u64_size_of_length n (suc (suc (suc (suc (suc (suc (suc (suc zero)))))))) h b le = ground arith
u64_size_of_length n (suc (suc (suc (suc (suc (suc (suc (suc (suc k))))))))) h b le =
    absurd (omega arith)

low_byte_flag :
    (n k : ℕ)
    → HasByteLength n k
    → single_byte k (if k == 1 then word_low_byte n else 0) ≡ ((k == 1) && ltb n 128)
unfolding word_low_byte
low_byte_flag n zero b = refl
low_byte_flag n (suc zero) b = ground arith
low_byte_flag n (suc (suc k)) b = ground arith

-- For numbers below 2 ^ 64 the comparisons with powers of two give the size of the encoding too.
pub rlp_uint_u64_size-length :
    (n : ℕ) → n < 2 ^ 64 → rlp_uint_u64_size n ≡ length (encode_string (big_endian n))
rlp_uint_u64_size-length n h =
    let k = length (big_endian n) in
    u64_size_of_length n k h (big_endian-HasByteLength n) (length-big_endian-le n 8 (omega arith) h)
    ∙ ap (λ (b : Bool). if b then 1 else 1 + k)
        (sym (low_byte_flag n k (big_endian-HasByteLength n)))
    ∙ ap (λ (l : ℕ). if single_byte l (if l == 1 then word_low_byte n else 0) then 1 else 1 + l)
        (sym (rlp_minimal_word_len-length n (omega arith)))
    ∙ sym (rlp_uint_word_size-bind n)
    ∙ rlp_uint_word_size-length n (omega arith)
