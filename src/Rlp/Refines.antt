-- ===== src/Rlp/Refines.antt =====
-- The writers of lib/rlp/encoding.py against the encodings of Rlp/Reference.
use evm_sail.Base.{
  ℕ, suc, ◌+◌, ◌≤◌, ◌≡◌, refl, sym, ap, ◌∙◌, List, [], ◌∷◌, ◌++◌, length, arith, ltb, leb,
  if◌then◌else◌, true, false, ◌==◌, Bool-cases, inl, inr, Outcome, ok, get_or, ◌>>=◌, length-append,
  ==-ne,
}
use evm_sail.Runtime.{bits, bits_access}
use evm_sail.Word.{IsWord}
use evm_sail.Rlp.Slices.{Slice, region_limit, slice_bytes}
use evm_sail.Rlp.Scratch.{Scratch, scratch_push_byte, scratch_push_word_be}
use evm_sail.Rlp.Size.{rlp_length_word, rlp_minimal_word_len, single_byte, first_byte}
use evm_sail.Rlp.Write.{write_long_length, rlp_write_string_prefix, rlp_write_list_prefix}
use evm_sail.Rlp.Reference.{
  big_endian, encode_header, encode_string, length-big_endian-le, rlp_minimal_word_len-length,
  to_bytes-big_endian,
}
use evm_sail.Rlp.Appends.{
  IsScratch, Appends, HasRoom, Appends-then, Appends-nothing, scratch_push_byte-Appends,
  scratch_push_word_be-Appends, slice_bytes-empty,
}
use evm_sail.Rlp.BigEndian.{IsBytes}
use evm_sail.Rlp.Sublists.{slice_byte-get_or}

pub rlp_length_word-ok : (n : ℕ) → n ≤ region_limit → rlp_length_word n ≡ ok n
unfolding rlp_length_word
rlp_length_word-ok n le = ground arith

-- The bytes of a word that are pushed are its big-endian bytes.
pub scratch_push_minimal-Appends :
    (w : ℕ) (s : Scratch)
    → IsScratch s
    → IsWord w
    → HasRoom s (big_endian w)
    → Appends s (scratch_push_word_be w (rlp_minimal_word_len w) s) (big_endian w)
scratch_push_minimal-Appends w s h word room = rw (sym (to_bytes-big_endian w word)) (
    scratch_push_word_be-Appends w (rlp_minimal_word_len w) s h word
      (rw (rlp_minimal_word_len-length w word)
        (length-big_endian-le w 32 word (omega (arith, word))))
      (rw (to_bytes-big_endian w word) room))

write_long_length-bind :
    (base n : ℕ) (s : Scratch)
    → write_long_length base n s ≡ (
        rlp_length_word n >>= λ w.
        scratch_push_byte (bits 8 (base + bits 8 (rlp_minimal_word_len w))) s
        >>= scratch_push_word_be w (rlp_minimal_word_len w))
unfolding write_long_length
write_long_length-bind base n s = refl

-- The byte that starts a long form.
pub long_byte :
    (base n : ℕ)
    → base ≤ 0xf7
    → n ≤ region_limit
    → bits 8 (base + bits 8 (length (big_endian n))) ≡ base + length (big_endian n)
long_byte base n b le = omega (arith, length-big_endian-le n 4 (omega arith) (omega arith))

write_long_length-pushes :
    (base n : ℕ) (s : Scratch)
    → base ≤ 0xf7
    → n ≤ region_limit
    → write_long_length base n s ≡ (
        scratch_push_byte (base + length (big_endian n)) s
        >>= scratch_push_word_be n (rlp_minimal_word_len n))
write_long_length-pushes base n s b le =
    write_long_length-bind base n s
    ∙ rw
        (
          rlp_length_word-ok n le,
          rlp_minimal_word_len-length n (omega arith),
          long_byte base n b le,
        )
        refl

write_long_length-Appends :
    (base n : ℕ) (s : Scratch)
    → IsScratch s
    → base ≤ 0xf7
    → n ≤ region_limit
    → HasRoom s ((base + length (big_endian n)) ∷ big_endian n)
    → Appends s (write_long_length base n s) ((base + length (big_endian n)) ∷ big_endian n)
write_long_length-Appends base n s h b le room = rw (write_long_length-pushes base n s b le) (
    Appends-then s (scratch_push_byte (base + length (big_endian n)) s)
      (scratch_push_word_be n (rlp_minimal_word_len n)) ((base + length (big_endian n)) ∷ [])
      (big_endian n) (scratch_push_byte-Appends (base + length (big_endian n)) s h (omega arith))
      (λ next valid stop bytes.
        scratch_push_minimal-Appends n next valid (omega arith) (omega (arith, stop))))

pub short_byte : (base n : ℕ) → base ≤ 0xc0 → n ≤ 55 → bits 8 (base + bits 8 n) ≡ base + n
short_byte base n b le = omega arith

-- A header of either kind, in the short or the long form.
header-Appends :
    (base n : ℕ) (s : Scratch)
    → IsScratch s
    → base ≤ 0xc0
    → n ≤ region_limit
    → HasRoom s (encode_header base n)
    → Appends s
        (if leb n 55
          then scratch_push_byte (bits 8 (base + bits 8 n)) s
          else write_long_length (base + 55) n s)
        (encode_header base n)
unfolding encode_header
header-Appends base n s h b le room = elim (Bool-cases (leb n 55)) [
  | inl e ↦
      rw (e, short_byte base n b (ground arith))
        (scratch_push_byte-Appends (base + n) s h
          (let d : HasRoom s ((base + n) ∷ []) = ground arith in d))
  | inr e ↦ rw e (write_long_length-Appends (base + 55) n s h (omega arith) le (ground arith))
]

-- The prefix of a string: none for a single byte that stands for itself.
abbrev pub string_prefix : ℕ → ℕ → List ℕ
string_prefix n first = if single_byte n first then [] else encode_header 0x80 n

pub rlp_write_string_prefix-Appends :
    (n first : ℕ) (s : Scratch)
    → IsScratch s
    → n ≤ region_limit
    → HasRoom s (string_prefix n first)
    → Appends s (rlp_write_string_prefix n first s) (string_prefix n first)
unfolding rlp_write_string_prefix
rlp_write_string_prefix-Appends n first s h le room = elim (Bool-cases (single_byte n first)) [
  | inl e ↦ rw e (Appends-nothing s h)
  | inr e ↦ rw e (header-Appends 0x80 n s h (omega arith) le (ground arith))
]

pub rlp_write_list_prefix-Appends :
    (n : ℕ) (s : Scratch)
    → IsScratch s
    → n ≤ region_limit
    → HasRoom s (encode_header 0xc0 n)
    → Appends s (rlp_write_list_prefix n s) (encode_header 0xc0 n)
unfolding rlp_write_list_prefix
rlp_write_list_prefix-Appends n s h le room = header-Appends 0xc0 n s h (omega arith) le room

pub encode_string-prefix :
    (bs : List ℕ) → IsBytes bs → encode_string bs ≡ string_prefix (length bs) (get_or bs 0 0) ++ bs
unfolding encode_string
encode_string-prefix [] h = refl
encode_string-prefix (b ∷ []) h = elim (Bool-cases (ltb b 128)) [
  | inl e ↦ let d : (bits_access b 7 == 0) ≡ true = ground arith in rw (e, d) refl
  | inr e ↦ let d : (bits_access b 7 == 0) ≡ false = ground arith in rw (e, d) refl
]
encode_string-prefix (b ∷ c ∷ bs) h = rw (==-ne (suc (suc (length bs))) 1 (omega arith)) refl

pub first_byte-get_or :
    (region : List ℕ) (d : Slice) → first_byte region d ≡ get_or (slice_bytes region d) 0 0
first_byte-get_or region d = elim (Bool-cases (d.len == 0)) [
  | inl e ↦ rw (e, slice_bytes-empty region d (ground arith)) refl
  | inr e ↦ rw e (slice_byte-get_or region d 0)
]

-- A prefix and its bytes make the encoding.
pub prefixed-Appends :
    (bs : List ℕ) (n first : ℕ) (s : Scratch) (push : Scratch → Outcome Scratch)
    → IsBytes bs
    → length bs ≡ n
    → get_or bs 0 0 ≡ first
    → IsScratch s
    → HasRoom s (encode_string bs)
    → ((next : Scratch) → IsScratch next → HasRoom next bs → Appends next (push next) bs)
    → Appends s (rlp_write_string_prefix n first s >>= push) (encode_string bs)
prefixed-Appends bs n first s push valid e f h room step =
    let d : length (encode_string bs) ≡ length (string_prefix n first) + n =
      ap (λ l. length l) (encode_string-prefix bs valid)
      ∙ rw (e, f) (omega (arith, length-append (string_prefix n first) bs, e)) in
    rw (encode_string-prefix bs valid, e, f)
      (Appends-then s (rlp_write_string_prefix n first s) push (string_prefix n first) bs
        (rlp_write_string_prefix-Appends n first s h (omega (arith, d)) (omega (arith, d)))
        (λ next ok_next stop bytes. step next ok_next (omega (arith, d, e, stop))))

pub short_header : (n : ℕ) → n ≤ 55 → length (encode_header 0x80 n) ≡ 1
unfolding encode_header
short_header n h = ground arith
