-- ===== src/Rlp/Write.antt =====
-- The writers and the encoder of lib/rlp/encoding.py. A writer takes the scratch state to the
-- next one.
use evm_sail.Base.{
  ◌>>=◌, ℕ, ◌+◌, ltb, leb, ◌==◌, if◌then◌else◌, List, Outcome, ok, fatal, raised, FatalError,
}
use evm_sail.Runtime.{bits}
use evm_sail.Word.{modulus, word_low_byte}
use evm_sail.Rlp.Slices.{Slice, slice_byte}
use evm_sail.Rlp.Scratch.{
  Scratch, scratch_reserve, scratch_push_byte, scratch_push_slice, scratch_scratch_push_slice,
  scratch_push_address, scratch_push_word_be, scratch_finish, scratch_rewind,
}
use evm_sail.Rlp.Size.{
  rlp_short_length_limit, rlp_nat_length_byte, rlp_length_word, rlp_minimal_word_len, single_byte,
  first_byte,
}

-- A length of more than 55, after the byte `base` plus the width of the length.
unfoldable pub write_long_length : ℕ → ℕ → Scratch → Outcome Scratch
unfolding rlp_length_word rlp_minimal_word_len scratch_push_byte scratch_push_word_be
write_long_length base sail_len s = do
  length_word ← rlp_length_word sail_len
  pushed ←
      scratch_push_byte (bits 8 (base + rlp_nat_length_byte (rlp_minimal_word_len length_word))) s
  scratch_push_word_be length_word (rlp_minimal_word_len length_word) pushed

unfoldable pub rlp_write_string_prefix : ℕ → ℕ → Scratch → Outcome Scratch
unfolding write_long_length scratch_push_byte
rlp_write_string_prefix sail_len first s =
    if single_byte sail_len first
    then ok s
    else if leb sail_len rlp_short_length_limit
    then scratch_push_byte (bits 8 (0x80 + rlp_nat_length_byte sail_len)) s
    else write_long_length 0xb7 sail_len s

unfoldable pub rlp_write_list_prefix : ℕ → Scratch → Outcome Scratch
unfolding write_long_length scratch_push_byte
rlp_write_list_prefix content_len s =
    if leb content_len rlp_short_length_limit
    then scratch_push_byte (bits 8 (0xc0 + rlp_nat_length_byte content_len)) s
    else write_long_length 0xf7 content_len s

-- `rlp_write_input_slice` and `rlp_write_log_data_slice`: a slice of another region.
unfoldable pub rlp_write_slice : List ℕ → Slice → Scratch → Outcome Scratch
unfolding rlp_write_string_prefix scratch_push_slice slice_byte
rlp_write_slice region value s = do
  prefixed ← rlp_write_string_prefix value.len (first_byte region value) s
  scratch_push_slice region value prefixed

unfoldable pub rlp_write_scratch_slice : Slice → Scratch → Outcome Scratch
unfolding rlp_write_string_prefix scratch_scratch_push_slice slice_byte
rlp_write_scratch_slice value s = do
  prefixed ← rlp_write_string_prefix value.len (first_byte s.bytes value) s
  scratch_scratch_push_slice value prefixed

unfoldable pub rlp_write_uint_word : ℕ → Scratch → Outcome Scratch
unfolding rlp_minimal_word_len rlp_write_string_prefix scratch_push_word_be word_low_byte
rlp_write_uint_word w s =
    let sail_len = rlp_minimal_word_len w in
    let first = if sail_len == 1 then word_low_byte w else 0 in
    (do
      prefixed ← rlp_write_string_prefix sail_len first s
      scratch_push_word_be w sail_len prefixed)

unfoldable pub rlp_write_uint_nat : ℕ → Scratch → Outcome Scratch
unfolding rlp_write_uint_word
rlp_write_uint_nat n s =
    if ltb n modulus then rlp_write_uint_word n s else fatal FatalError.invalid_config

unfoldable pub rlp_write_word : ℕ → Scratch → Outcome Scratch
unfolding rlp_write_string_prefix scratch_push_word_be
rlp_write_word w s = do
  prefixed ← rlp_write_string_prefix 32 0 s
  scratch_push_word_be w 32 prefixed

-- The byte at index 0 of an address is its lowest.
unfoldable pub rlp_write_addr : ℕ → Scratch → Outcome Scratch
unfolding rlp_write_string_prefix scratch_push_address
rlp_write_addr a s = do
  prefixed ← rlp_write_string_prefix 20 (bits 8 a) s
  scratch_push_address a prefixed

pub record RlpEncoder : Type 0 where
  pub start : ℕ
  pub expected_len : ℕ

unfoldable pub rlp_encoder_begin : ℕ → Scratch → Scratch × RlpEncoder
unfolding scratch_reserve
rlp_encoder_begin expected_len s =
    let reserved = scratch_reserve expected_len s in
    (reserved.0, record { start = reserved.1; expected_len = expected_len })

unfoldable pub rlp_encoder_finish : RlpEncoder → Scratch → Outcome Slice
unfolding scratch_finish
rlp_encoder_finish encoder s = do
  encoded ← scratch_finish encoder.start s
  if encoded.len == encoder.expected_len then ok encoded else raised

unfoldable pub rlp_encoder_rewind : RlpEncoder → Scratch → Outcome Scratch
unfolding scratch_rewind
rlp_encoder_rewind encoder s = scratch_rewind encoder.start s
