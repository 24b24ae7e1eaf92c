-- ===== src/Rlp/Size.antt =====
-- Sizes of encodings: lib/rlp/encoding.py, up to the writers. A byte is a number below 256.
use evm_sail.Base.{
  ◌>>=◌, ℕ, zero, suc, ◌+◌, ◌^◌, Bool, true, false, ltb, leb, ◌==◌, ◌&&◌, if◌then◌else◌, List,
  Outcome, ok, fatal, raised, FatalError,
}
use evm_sail.Runtime.{bits, bits_access, sail_ediv_int}
use evm_sail.Word.{modulus, word_byte_length, word_low_byte}
use evm_sail.Rlp.Slices.{Slice, region_limit, slice_byte}

abbrev pub rlp_short_length_limit : ℕ
rlp_short_length_limit = 55

abbrev pub rlp_encoded_word_length : ℕ
rlp_encoded_word_length = 33

abbrev pub rlp_encoded_address_length : ℕ
rlp_encoded_address_length = 21

-- `right <= limit - left` on integers.
unfoldable pub rlp_scratch_length_add : ℕ → ℕ → Outcome ℕ
rlp_scratch_length_add left right =
    if leb (left + right) region_limit then ok (left + right) else fatal FatalError.rlp_decode

abbrev pub rlp_nat_length_byte : ℕ → ℕ
rlp_nat_length_byte value = bits 8 value

-- `word_of_nat_byte_count`.
unfoldable pub rlp_length_word : ℕ → Outcome ℕ
rlp_length_word value = if ltb value modulus then ok value else raised

unfoldable pub rlp_minimal_word_len : ℕ → ℕ
unfolding word_byte_length
rlp_minimal_word_len w = word_byte_length w

-- The recursion ends at zero; the number itself bounds its steps.
unfoldable pub minimal_uint_len_below : ℕ → ℕ → ℕ
minimal_uint_len_below zero n = 0
minimal_uint_len_below (suc fuel) n = elim (n == 0) [
  | true ↦ 0
  | false ↦ minimal_uint_len_below fuel (sail_ediv_int n 256) + 1
]

unfoldable pub rlp_minimal_uint_len : ℕ → ℕ
unfolding minimal_uint_len_below
rlp_minimal_uint_len n = minimal_uint_len_below n n

-- `sail_len == 1` and the highest bit of the byte is clear: the byte stands for itself.
abbrev pub single_byte : ℕ → ℕ → Bool
single_byte sail_len first = (sail_len == 1) && (bits_access first 7 == 0)

unfoldable pub rlp_length_prefix_len : ℕ → Outcome ℕ
unfolding rlp_length_word rlp_minimal_word_len
rlp_length_prefix_len sail_len =
    if leb sail_len rlp_short_length_limit
    then ok 1
    else (do length_word ← rlp_length_word sail_len; ok (1 + rlp_minimal_word_len length_word))

unfoldable pub rlp_string_size : ℕ → ℕ → Outcome ℕ
unfolding rlp_length_prefix_len
rlp_string_size sail_len first =
    if single_byte sail_len first
    then ok 1
    else (do prefix_len ← rlp_length_prefix_len sail_len; ok (prefix_len + sail_len))

-- The byte that a slice starts with, zero if it is empty.
abbrev pub first_byte : List ℕ → Slice → ℕ
first_byte region value = if value.len == 0 then 0 else slice_byte region value 0

unfoldable pub rlp_input_slice_size : List ℕ → Slice → Outcome ℕ
unfolding rlp_string_size slice_byte
rlp_input_slice_size region value = rlp_string_size value.len (first_byte region value)

unfoldable pub rlp_materialized_slice_size : ℕ → ℕ → Outcome ℕ
unfolding rlp_length_prefix_len rlp_scratch_length_add
rlp_materialized_slice_size sail_len first = if single_byte sail_len first then ok 1 else (do
  prefix_size ← rlp_length_prefix_len sail_len
  rlp_scratch_length_add sail_len prefix_size)

unfoldable pub rlp_scratch_region_size : List ℕ → Slice → Outcome ℕ
unfolding rlp_materialized_slice_size slice_byte
rlp_scratch_region_size region value =
    rlp_materialized_slice_size value.len (first_byte region value)

unfoldable pub rlp_uint_word_size : ℕ → ℕ
unfolding rlp_minimal_word_len word_low_byte
rlp_uint_word_size w =
    let sail_len = rlp_minimal_word_len w in
    let first = if sail_len == 1 then word_low_byte w else 0 in
    if single_byte sail_len first then 1 else 1 + sail_len

unfoldable pub rlp_uint_nat_size : ℕ → ℕ
unfolding rlp_uint_word_size rlp_minimal_uint_len
rlp_uint_nat_size n =
    let sail_len = rlp_minimal_uint_len n in
    if ltb n modulus
    then rlp_uint_word_size n
    else if leb sail_len rlp_short_length_limit
    then 1 + sail_len
    else (1 + rlp_minimal_uint_len sail_len) + sail_len

unfoldable pub rlp_uint_u64_size : ℕ → ℕ
rlp_uint_u64_size n =
    if ltb n (2 ^ 7)
    then 1
    else if ltb n (2 ^ 8)
    then 2
    else if ltb n (2 ^ 16)
    then 3
    else if ltb n (2 ^ 24)
    then 4
    else if ltb n (2 ^ 32)
    then 5
    else if ltb n (2 ^ 40)
    then 6
    else if ltb n (2 ^ 48)
    then 7
    else if ltb n (2 ^ 56)
    then 8
    else 9

unfoldable pub rlp_list_size : ℕ → Outcome ℕ
unfolding rlp_length_prefix_len
rlp_list_size content_len = do
  prefix_len ← rlp_length_prefix_len content_len
  ok (prefix_len + content_len)

unfoldable pub rlp_scratch_list_size : ℕ → Outcome ℕ
unfolding rlp_length_prefix_len rlp_scratch_length_add
rlp_scratch_list_size content_len = do
  prefix_size ← rlp_length_prefix_len content_len
  rlp_scratch_length_add content_len prefix_size
