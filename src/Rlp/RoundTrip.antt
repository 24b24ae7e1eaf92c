-- ===== src/Rlp/RoundTrip.antt =====
-- `rlp_decode_item` on the encodings of Rlp/Reference.
use mathlib.Core.List.{append_assoc}
use evm_sail.Base.{
  ℕ, suc, ◌≤◌, ◌<◌, ◌≡◌, ap, ◌∙◌, List, [], ◌∷◌, ◌++◌, length, arith, true, false, Bool-cases, inl,
  inr, ok, get_or, length-append, ==-ne,
}
use evm_sail.Rlp.Slices.{Slice, region_limit, slice_bytes}
use evm_sail.Rlp.Decode.{RlpFieldRef, rlp_ref_hdr, rlp_decode_item}
use evm_sail.Rlp.Reference.{encode_header, encode_string, encode_list}
use evm_sail.Rlp.Within.{IsSlice, length-slice_bytes}
use evm_sail.Rlp.BigEndian.{IsBytes}
use evm_sail.Rlp.Header.{header_of-single}
use evm_sail.Rlp.Items.{rlp_ref_hdr-head, rlp_ref_hdr-encode_header}
use evm_sail.Rlp.ItemParts.{IsItem, decoded_parts}
use evm_sail.Rlp.Refines.{string_prefix, encode_string-prefix}
use evm_sail.Rlp.Size.{single_byte}

pub header_nonempty : (base n : ℕ) → 0 < length (encode_header base n)
unfolding encode_header
header_nonempty base n = ground arith

-- The content of what a slice starts with is no longer than the slice may be.
content_limit :
    (region : List ℕ) (c : Slice) (hdr content rest : List ℕ)
    → IsSlice region c
    → slice_bytes region c ≡ hdr ++ content ++ rest
    → length content ≤ region_limit
content_limit region c hdr content rest within e = omega (
  arith,
  within.limited,
  length-slice_bytes region c within,
  ap (λ xs. length xs) e,
  length-append (hdr ++ content) rest,
  length-append hdr content,
)

-- A byte that stands for itself.
rlp_ref_hdr-single :
    (region : List ℕ) (c : Slice) (bs rest : List ℕ)
    → IsSlice region c
    → IsBytes bs
    → single_byte (length bs) (get_or bs 0 0) ≡ true
    → slice_bytes region c ≡ bs ++ rest
    → (rlp_ref_hdr region c
        ≡ ok (record { is_list = false; content_off = 0; content_len = length bs }))
      × (0 < length bs)
rlp_ref_hdr-single region c [] rest within valid flag e = absurd (ground arith)
rlp_ref_hdr-single region c (b ∷ []) rest within valid flag e = (
  rlp_ref_hdr-head region c b rest within e ∙ header_of-single region c b (ground (arith, valid)),
  omega arith,
)
rlp_ref_hdr-single region c (b ∷ d ∷ bs) rest within valid flag e =
    absurd (ground (arith, ==-ne (suc (suc (length bs))) 1 (omega arith)))

prefixed-IsItem :
    (region : List ℕ) (c : Slice) (bs rest : List ℕ)
    → IsSlice region c
    → IsBytes bs
    → slice_bytes region c ≡ string_prefix (length bs) (get_or bs 0 0) ++ bs ++ rest
    → (f : RlpFieldRef) × (rlp_decode_item region c ≡ ok f)
      × IsItem region c false (string_prefix (length bs) (get_or bs 0 0) ++ bs) bs rest f
prefixed-IsItem region c bs rest within valid =
    elim (Bool-cases (single_byte (length bs) (get_or bs 0 0))) [
      | inl flag ↦ rw flag (λ e.
          let h = rlp_ref_hdr-single region c bs rest within valid flag e in
          decoded_parts region c false [] bs rest within e (omega (arith, h.1)) h.0)
      | inr flag ↦ rw flag (λ e.
          let hdr = encode_header 0x80 (length bs) in
          decoded_parts region c false hdr bs rest within e
            (omega (arith, header_nonempty 0x80 (length bs)))
            (rlp_ref_hdr-encode_header region c false (length bs) (bs ++ rest) within
              (content_limit region c hdr bs rest within e) (e ∙ append_assoc hdr bs rest)))
    ]

-- Decoding the standard encoding of a string, with anything behind it, gives its field: the
-- source is the encoding, the content is the string, and the advanced cursor has what stands
-- behind.
pub rlp_decode_item-encode_string :
    (region : List ℕ) (c : Slice) (bs rest : List ℕ)
    → IsSlice region c
    → IsBytes bs
    → slice_bytes region c ≡ encode_string bs ++ rest
    → (f : RlpFieldRef) × (rlp_decode_item region c ≡ ok f)
      × IsItem region c false (encode_string bs) bs rest f
rlp_decode_item-encode_string region c bs rest within valid e = rw (encode_string-prefix bs valid) (
    prefixed-IsItem region c bs rest within valid
      (e ∙ ap (λ xs. xs ++ rest) (encode_string-prefix bs valid)))

-- Decoding the standard encoding of a list, with anything behind it, gives its field: the source
-- is the encoding, the content is that of the list, and the advanced cursor has what stands behind.
pub rlp_decode_item-encode_list :
    (region : List ℕ) (c : Slice) (content rest : List ℕ)
    → IsSlice region c
    → slice_bytes region c ≡ encode_list content ++ rest
    → (f : RlpFieldRef) × (rlp_decode_item region c ≡ ok f)
      × IsItem region c true (encode_list content) content rest f
unfolding encode_list
rlp_decode_item-encode_list region c content rest within e =
    let hdr = encode_header 0xc0 (length content) in
    decoded_parts region c true hdr content rest within e
      (omega (arith, header_nonempty 0xc0 (length content)))
      (rlp_ref_hdr-encode_header region c true (length content) (content ++ rest) within
        (content_limit region c hdr content rest within e) (e ∙ append_assoc hdr content rest))
