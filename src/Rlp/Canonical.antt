-- ===== src/Rlp/Canonical.antt =====
-- The values of an item and the tests that its encoding is the shortest: the rest of
-- lib/rlp/decoding.py.
use evm_sail.Base.{
  ℕ, ◌+◌, ◌-◌, Bool, true, false, not, ltb, leb, ◌==◌, ◌&&◌, ◌||◌, if◌then◌else◌, List, Outcome, ok,
  fatal, FatalError, ◌>>=◌,
}
use evm_sail.Runtime.{bits, bits_access, sail_tmod_int}
use evm_sail.Rlp.Slices.{slice_byte, slice_load_n}
use evm_sail.Rlp.Size.{
  rlp_short_length_limit, rlp_nat_length_byte, rlp_length_word, rlp_minimal_word_len,
}
use evm_sail.Rlp.Decode.{RlpFieldRef, rlp_item_content, rlp_uint64_width}

abbrev pub rlp_word_length_limit : ℕ
rlp_word_length_limit = 32

abbrev pub rlp_uint64_length_limit : ℕ
rlp_uint64_length_limit = 8

-- The short form is one byte, `base` plus the length.
unfoldable pub short_framing : List ℕ → RlpFieldRef → ℕ → Bool
unfolding slice_byte
short_framing region f base =
    (f.source.len == f.content_len + 1)
    && (slice_byte region f.source 0 == bits 8 (base + rlp_nat_length_byte f.content_len))

-- The long form is `base` plus the width of the length, and the length.
unfoldable pub long_framing : List ℕ → RlpFieldRef → ℕ → Outcome Bool
unfolding slice_byte slice_load_n rlp_length_word rlp_minimal_word_len
long_framing region f base = do
  length_word ← rlp_length_word f.content_len
  ok (
      (f.source.len == (1 + rlp_minimal_word_len length_word) + f.content_len)
      && ((slice_byte region f.source 0
            == bits 8 (base + rlp_nat_length_byte (rlp_minimal_word_len length_word)))
          && (if ltb 0 f.source.len
              then slice_load_n region f.source 1 (rlp_minimal_word_len length_word) == length_word
              else false)))

unfoldable pub list_framing : List ℕ → RlpFieldRef → Outcome Bool
unfolding short_framing long_framing
list_framing region f =
    if leb f.content_len rlp_short_length_limit
    then ok (short_framing region f 0xc0)
    else long_framing region f 0xf7

-- A string that is not empty, by the first byte of its content.
unfoldable pub string_framing : List ℕ → RlpFieldRef → ℕ → Outcome Bool
unfolding short_framing long_framing slice_byte
string_framing region f first =
    if (f.content_len == 1) && (bits_access first 7 == 0)
    then ok ((f.source.len == 1) && (slice_byte region f.source 0 == first))
    else if leb f.content_len rlp_short_length_limit
    then ok (short_framing region f 0x80)
    else long_framing region f 0xb7

unfoldable pub rlp_ref_framing_canonical : List ℕ → RlpFieldRef → Outcome Bool
unfolding list_framing string_framing slice_byte
rlp_ref_framing_canonical region f =
    if f.source.len == 0
    then ok false
    else if f.is_list
    then list_framing region f
    else if f.content_len == 0
    then ok ((f.source.len == 1) && (slice_byte region f.source 0 == 0x80))
    else string_framing region f (slice_byte region f.source (f.source.len - f.content_len))

unfoldable pub rlp_ref_bytes_canonical : List ℕ → RlpFieldRef → Outcome Bool
unfolding rlp_ref_framing_canonical
rlp_ref_bytes_canonical region f = do
  framing ← rlp_ref_framing_canonical region f
  ok (not f.is_list && framing)

unfoldable pub rlp_item_uint_canonical : List ℕ → RlpFieldRef → Outcome Bool
unfolding rlp_ref_bytes_canonical slice_byte
rlp_item_uint_canonical region f = do
  bytes_canonical ← rlp_ref_bytes_canonical region f
  if not bytes_canonical
      then ok false
      else ok (
          (f.content_len == 0)
          || not (slice_byte region f.source (f.source.len - f.content_len) == 0))

unfoldable pub rlp_word_valid : RlpFieldRef → Bool
rlp_word_valid f = not f.is_list && leb f.content_len rlp_word_length_limit

unfoldable pub rlp_u256_valid : List ℕ → RlpFieldRef → Outcome Bool
unfolding rlp_item_uint_canonical
rlp_u256_valid region f = do
  canonical ← rlp_item_uint_canonical region f
  ok (canonical && leb f.content_len rlp_word_length_limit)

unfoldable pub rlp_uint64_valid : List ℕ → RlpFieldRef → Outcome Bool
unfolding rlp_item_uint_canonical
rlp_uint64_valid region f = do
  canonical ← rlp_item_uint_canonical region f
  ok (canonical && leb f.content_len rlp_uint64_length_limit)

unfoldable pub rlp_decode_word : List ℕ → RlpFieldRef → Outcome ℕ
unfolding slice_load_n
rlp_decode_word region f =
    if f.is_list || ltb rlp_word_length_limit f.content_len
    then fatal FatalError.rlp_decode
    else ok (slice_load_n region f.source (f.source.len - f.content_len) f.content_len)

unfoldable pub rlp_decode_u256 : List ℕ → RlpFieldRef → Outcome ℕ
unfolding rlp_item_uint_canonical rlp_decode_word
rlp_decode_u256 region f = do
  canonical ← rlp_item_uint_canonical region f
  if canonical then rlp_decode_word region f else fatal FatalError.rlp_decode

unfoldable pub rlp_decode_uint64 : List ℕ → RlpFieldRef → Outcome ℕ
unfolding rlp_item_uint_canonical rlp_item_content rlp_uint64_width
rlp_decode_uint64 region f = do
  canonical ← rlp_item_uint_canonical region f
  if not canonical || ltb rlp_uint64_length_limit f.content_len
      then fatal FatalError.rlp_decode
      else (do
        content ← rlp_item_content f
        ok (rlp_uint64_width region content (sail_tmod_int f.content_len 9)))

pub data RlpResult : Type 0 where
  rlp_ok : Bool → RlpResult
  rlp_invalid_value : RlpResult

-- The cases 0, 1 and any other value.
unfoldable pub bool_of : ℕ → RlpResult
bool_of value =
    if value == 0 then rlp_ok false else if value == 1 then rlp_ok true else rlp_invalid_value

unfoldable pub rlp_decode_bool : List ℕ → RlpFieldRef → Outcome RlpResult
unfolding rlp_decode_uint64 bool_of
rlp_decode_bool region f = do value ← rlp_decode_uint64 region f; ok (bool_of value)
