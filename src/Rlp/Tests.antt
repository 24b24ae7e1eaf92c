-- ===== src/Rlp/Tests.antt =====
-- Encodings at single inputs, and the theorems about them applied.
use evm_sail.Base.{
  ℕ, ◌^◌, ◌≡◌, ◌↔◌, refl, List, [], ◌∷◌, length, arith, true, false, ok, fatal, raised, rlp_decode,
  if◌then◌else◌, ◌==◌, ◌>>=◌, ltb,
}
use evm_sail.Rlp.Slices.{Slice, slice_bytes}
use evm_sail.Rlp.Scratch.{Scratch, scratch_push_slice}
use evm_sail.Rlp.Size.{rlp_uint_word_size, rlp_uint_nat_size, rlp_uint_u64_size}
use evm_sail.Rlp.Write.{
  rlp_write_slice, rlp_write_scratch_slice, rlp_write_uint_word, rlp_encoder_begin,
  rlp_encoder_finish, rlp_encoder_rewind, rlp_write_list_prefix,
}
use evm_sail.Rlp.Decode.{RlpFieldRef, rlp_decode_item}
use evm_sail.Rlp.Canonical.{rlp_ref_framing_canonical, rlp_decode_u256, rlp_decode_uint64}
use evm_sail.Rlp.Reference.{big_endian, encode_header, encode_string, encode_list}
use evm_sail.Rlp.Appends.{IsScratch, Appends, written, scratch_push_slice-Appends}
use evm_sail.Rlp.Within.{IsSlice}
use evm_sail.Rlp.ItemParts.{IsItem}
use evm_sail.Rlp.Shortest.{IsField}
use evm_sail.Rlp.Canonicity.{encode_field, rlp_ref_framing_canonical_iff}
use evm_sail.Rlp.RoundTrip.{rlp_decode_item-encode_string, rlp_decode_item-encode_list}
use evm_sail.Rlp.ReadBack.{rlp_decode_u256-rlp_write_uint_word}
use evm_sail.Rlp.Writers.{
  rlp_write_slice-encode_string, rlp_write_scratch_slice-encode_string,
  rlp_write_uint_word-encode_string,
}
use evm_sail.Rlp.FixedWidth.{rlp_write_list_prefix-encode_list}
use evm_sail.Rlp.Encoder.{rlp_encoder-round}
use evm_sail.Rlp.Total.{Decided, IsFieldOf, rlp_decode_item-total}
use evm_sail.Rlp.Sizes.{rlp_uint_nat_size-length, rlp_uint_u64_size-length}

abbrev text : List ℕ
text = 1 ∷ 2 ∷ 3 ∷ []

-- A string of three bytes with one byte behind it.
abbrev input : List ℕ
input = 0x83 ∷ 1 ∷ 2 ∷ 3 ∷ 9 ∷ []

-- The list of the same three bytes as three items.
abbrev list_input : List ℕ
list_input = 0xc3 ∷ 1 ∷ 2 ∷ 3 ∷ 9 ∷ []

abbrev whole : Slice
whole = record { off = 0; len = 5 }

-- The field of the string.
abbrev field : RlpFieldRef
field = record { source = record { off = 0; len = 4 }; is_list = false; content_len = 3 }

abbrev empty : Scratch
empty = record { bytes = []; arena = record { off = 0; len = 0 } }

-- Three bytes written.
abbrev started : Scratch
started = record { bytes = text; arena = record { off = 0; len = 3 } }

empty_valid : IsScratch empty
empty_valid = record { arena_off = refl; arena_end = omega arith; arena_limit = omega arith }

started_valid : IsScratch started
started_valid = record { arena_off = refl; arena_end = omega arith; arena_limit = omega arith }

input_within : IsSlice input whole
input_within = record { within = omega arith; limited = omega arith }

list_within : IsSlice list_input whole
list_within = record { within = omega arith; limited = omega arith }

long_prefix : encode_header 0x80 1024 ≡ 0xb9 ∷ 4 ∷ 0 ∷ []
unfolding encode_header
long_prefix = refl

number_bytes : encode_string (big_endian 1024) ≡ 0x82 ∷ 4 ∷ 0 ∷ []
unfolding encode_string big_endian
number_bytes = refl

decoded_field : rlp_decode_item input whole ≡ ok field
unfolding rlp_decode_item
decoded_field = refl

truncated_item : rlp_decode_item (0x83 ∷ 1 ∷ []) (record { off = 0; len = 2 }) ≡ fatal rlp_decode
unfolding rlp_decode_item
truncated_item = refl

not_shortest :
    rlp_ref_framing_canonical
      (0x81 ∷ 5 ∷ [])
      (record { source = record { off = 0; len = 2 }; is_list = false; content_len = 1 })
    ≡ ok false
unfolding rlp_ref_framing_canonical
not_shortest = refl

field_parts : IsField input field (0x83 ∷ []) text
unfolding slice_bytes
field_parts = record {
  slice = record { within = omega arith; limited = omega arith };
  size = refl;
  parts = refl;
}

rlp_ref_framing_canonical_iff_example :
    (rlp_ref_framing_canonical input field ≡ ok true)
    ↔ (slice_bytes input field.source ≡ encode_field false text)
rlp_ref_framing_canonical_iff_example =
    rlp_ref_framing_canonical_iff input field (0x83 ∷ []) text field_parts (omega arith, tt)
      (omega arith, (omega arith, (omega arith, tt)))

rlp_decode_u256-rlp_write_uint_word_example :
    (next : Scratch) × (rlp_write_uint_word 1024 started ≡ ok next)
    × ((f : RlpFieldRef) × (rlp_decode_item next.bytes
            (record { off = 3; len = rlp_uint_word_size 1024 })
          ≡ ok f)
        × (rlp_decode_u256 next.bytes f ≡ ok 1024)
        × (rlp_decode_uint64 next.bytes f
            ≡ (if ltb 1024 (2 ^ 64) then ok 1024 else fatal rlp_decode))
        × (f.source.len ≡ rlp_uint_word_size 1024))
rlp_decode_u256-rlp_write_uint_word_example =
    rlp_decode_u256-rlp_write_uint_word 1024 started (omega arith) started_valid
      (unfold encode_string big_endian in omega arith)

rlp_decode_item-encode_string_example :
    (f : RlpFieldRef) × (rlp_decode_item input whole ≡ ok f)
    × IsItem input whole false (encode_string text) text (9 ∷ []) f
rlp_decode_item-encode_string_example =
    rlp_decode_item-encode_string input whole text (9 ∷ []) input_within
      (omega arith, (omega arith, (omega arith, tt))) (unfold slice_bytes encode_string in refl)

rlp_decode_item-encode_list_example :
    (f : RlpFieldRef) × (rlp_decode_item list_input whole ≡ ok f)
    × IsItem list_input whole true (encode_list text) text (9 ∷ []) f
rlp_decode_item-encode_list_example =
    rlp_decode_item-encode_list list_input whole text (9 ∷ []) list_within
      (unfold slice_bytes encode_list in refl)

rlp_decode_item-total_example : Decided (rlp_decode_item input whole) (IsFieldOf input whole)
rlp_decode_item-total_example = rlp_decode_item-total input whole input_within

rlp_write_slice-encode_string_example :
    Appends started (rlp_write_slice input whole started) (encode_string (slice_bytes input whole))
rlp_write_slice-encode_string_example =
    rlp_write_slice-encode_string input whole started input_within
      (unfold slice_bytes in
        (omega arith, (omega arith, (omega arith, (omega arith, (omega arith, tt))))))
      started_valid (unfold slice_bytes encode_string in omega arith)

rlp_write_scratch_slice-encode_string_example :
    Appends started
      (rlp_write_scratch_slice (record { off = 1; len = 2 }) started)
      (encode_string (slice_bytes text (record { off = 1; len = 2 })))
rlp_write_scratch_slice-encode_string_example =
    rlp_write_scratch_slice-encode_string (record { off = 1; len = 2 }) started started_valid
      (omega arith) (unfold slice_bytes in (omega arith, (omega arith, tt)))
      (unfold slice_bytes encode_string in omega arith)

rlp_write_uint_word-encode_string_example :
    Appends started (rlp_write_uint_word 1024 started) (encode_string (big_endian 1024))
rlp_write_uint_word-encode_string_example =
    rlp_write_uint_word-encode_string 1024 started (omega arith) started_valid
      (unfold encode_string big_endian in omega arith)

rlp_write_list_prefix-encode_list_example :
    Appends started
      (rlp_write_list_prefix 5 started >>= scratch_push_slice input whole)
      (encode_list input)
rlp_write_list_prefix-encode_list_example =
    rlp_write_list_prefix-encode_list input started (scratch_push_slice input whole) started_valid
      (unfold encode_list in omega arith)
      (λ next valid room.
        unfold slice_bytes in scratch_push_slice-Appends input whole next valid room)

rlp_encoder-round_example :
    (next : Scratch) × (rlp_write_uint_word 1024 ((rlp_encoder_begin 3 started).0) ≡ ok next)
    × (rlp_encoder_finish ((rlp_encoder_begin 3 started).1) next ≡ (
        if length (encode_string (big_endian 1024)) == 3
        then ok (record { off = 3; len = length (encode_string (big_endian 1024)) })
        else raised))
    × (slice_bytes next.bytes (record { off = 3; len = length (encode_string (big_endian 1024)) })
        ≡ encode_string (big_endian 1024))
    × ((undone : Scratch) × (rlp_encoder_rewind ((rlp_encoder_begin 3 started).1) next ≡ ok undone)
        × IsScratch undone
        × (written undone ≡ written started))
rlp_encoder-round_example =
    rlp_encoder-round 3 (encode_string (big_endian 1024)) started (rlp_write_uint_word 1024)
      started_valid (unfold encode_string big_endian in omega arith)
      (λ begun valid room. rlp_write_uint_word-encode_string 1024 begun (omega arith) valid room)

rlp_uint_nat_size-length_example :
    rlp_uint_nat_size (2 ^ 300) ≡ length (encode_string (big_endian (2 ^ 300)))
rlp_uint_nat_size-length_example = rlp_uint_nat_size-length (2 ^ 300)

rlp_uint_u64_size-length_example :
    rlp_uint_u64_size 70000 ≡ length (encode_string (big_endian 70000))
rlp_uint_u64_size-length_example = rlp_uint_u64_size-length 70000 (omega arith)
