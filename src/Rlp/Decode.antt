-- ===== src/Rlp/Decode.antt =====
-- lib/rlp/decoding.py, with `RlpFieldRef` of primitives/rlp.py. The functions on the input region
-- and their `scratch_rlp_` copies read a region that is an argument.
use evm_sail.Base.{
  ◌>>=◌, ℕ, zero, suc, ◌+◌, ◌-◌, ◌*◌, Bool, true, false, ltb, leb, ◌==◌, ◌&&◌, if◌then◌else◌, List,
  Outcome, ok, fatal, raised, FatalError,
}
use evm_sail.Rlp.Slices.{Slice, region_limit, sub_slice, slice_suffix, slice_byte}

pub record RlpFieldRef : Type 0 where
  pub source : Slice
  pub is_list : Bool
  pub content_len : ℕ

-- The constructor validates the offsets.
unfoldable pub rlp_field_ref : Slice → Bool → ℕ → Outcome RlpFieldRef
rlp_field_ref source is_list content_len =
    if leb (source.off + source.len) region_limit && leb content_len source.len
    then ok (record { source = source; is_list = is_list; content_len = content_len })
    else raised

-- `tuple[bool, code_length, U64]`.
pub record RlpHeader : Type 0 where
  pub is_list : Bool
  pub content_off : ℕ
  pub content_len : ℕ

unfoldable pub rlp_uint64_width : List ℕ → Slice → ℕ → ℕ
unfolding slice_byte
rlp_uint64_width region content zero = 0
rlp_uint64_width region content (suc width) =
    rlp_uint64_width region content width * 256 + slice_byte region content width

-- The length of a long form, of `width` bytes after the first.
unfoldable pub long_header : List ℕ → Slice → Bool → ℕ → Outcome RlpHeader
unfolding sub_slice rlp_uint64_width
long_header region b is_list width =
    if leb width (b.len - 1)
    then (do
      length_bytes ← sub_slice b 1 width
      ok (record {
        is_list = is_list;
        content_off = 1 + width;
        content_len = rlp_uint64_width region length_bytes width;
      }))
    else fatal FatalError.rlp_decode

-- By the first byte of an item.
unfoldable pub header_of : List ℕ → Slice → ℕ → Outcome RlpHeader
unfolding long_header
header_of region b h =
    if ltb h 128
    then ok (record { is_list = false; content_off = 0; content_len = 1 })
    else if ltb h 184
    then ok (record { is_list = false; content_off = 1; content_len = h - 128 })
    else if ltb h 192
    then long_header region b false (h - 183)
    else if ltb h 248
    then ok (record { is_list = true; content_off = 1; content_len = h - 192 })
    else long_header region b true (h - 247)

unfoldable pub rlp_ref_hdr : List ℕ → Slice → Outcome RlpHeader
unfolding header_of slice_byte
rlp_ref_hdr region b =
    if b.len == 0 then fatal FatalError.rlp_decode else header_of region b (slice_byte region b 0)

unfoldable pub rlp_item_content : RlpFieldRef → Outcome Slice
unfolding sub_slice
rlp_item_content f = sub_slice f.source (f.source.len - f.content_len) f.content_len

unfoldable pub rlp_decode_list : RlpFieldRef → Outcome Slice
unfolding sub_slice
rlp_decode_list f =
    if f.is_list
    then sub_slice f.source (f.source.len - f.content_len) f.content_len
    else fatal FatalError.rlp_decode

-- The checks of `rlp_decode_item` on a header, and the field.
unfoldable pub item_of : Slice → RlpHeader → Outcome RlpFieldRef
unfolding sub_slice rlp_field_ref
item_of cursor header =
    let full_len = header.content_off + header.content_len in
    if ltb cursor.len header.content_off
    then fatal FatalError.rlp_decode
    else if ltb (cursor.len - header.content_off) header.content_len
    then fatal FatalError.rlp_decode
    else if ltb 0 full_len && leb full_len cursor.len
    then (do
      field_source ← sub_slice cursor 0 full_len
      rlp_field_ref field_source header.is_list header.content_len)
    else fatal FatalError.rlp_decode

unfoldable pub rlp_decode_item : List ℕ → Slice → Outcome RlpFieldRef
unfolding rlp_ref_hdr item_of
rlp_decode_item region cursor =
    if cursor.len == 0
    then fatal FatalError.rlp_decode
    else (do header ← rlp_ref_hdr region cursor; item_of cursor header)

unfoldable pub rlp_cursor_advance : Slice → ℕ → Outcome Slice
unfolding slice_suffix
rlp_cursor_advance cursor consumed = slice_suffix cursor consumed

unfoldable pub rlp_cursor_expect_end : Slice → Outcome (Unit {0})
rlp_cursor_expect_end cursor = if cursor.len == 0 then ok tt else fatal FatalError.rlp_decode

-- `rlp_single_ref` on the header of the item, which must fill it.
unfoldable pub single_of : Slice → RlpHeader → Outcome RlpFieldRef
unfolding rlp_field_ref
single_of item header =
    if leb header.content_off item.len && (header.content_len == item.len - header.content_off)
    then rlp_field_ref item header.is_list header.content_len
    else fatal FatalError.rlp_decode

unfoldable pub rlp_single_ref : List ℕ → Slice → Outcome RlpFieldRef
unfolding rlp_ref_hdr single_of
rlp_single_ref region item =
    if item.len == 0
    then fatal FatalError.rlp_decode
    else (do header ← rlp_ref_hdr region item; single_of item header)

unfoldable pub rlp_node_cursor : List ℕ → Slice → Outcome Slice
unfolding rlp_single_ref rlp_decode_list
rlp_node_cursor region node =
    if node.len == 0
    then fatal FatalError.rlp_decode
    else (do item ← rlp_single_ref region node; rlp_decode_list item)
