-- ===== src/Rlp/Items.antt =====
-- `rlp_ref_hdr` on the headers of Rlp/Reference, of both kinds and forms.
use evm_sail.Base.{
  ℕ, zero, suc, ◌+◌, ◌≤◌, ◌≡◌, ◌≢◌, refl, sym, ap, ◌∙◌, List, ◌∷◌, ◌++◌, length, arith, leb,
  if◌then◌else◌, Bool, true, false, Bool-cases, inl, inr, ok, get_or, ==-ne, leb→le,
}
use evm_sail.Rlp.Slices.{Slice, region_limit, slice_bytes}
use evm_sail.Rlp.Decode.{header_of, long_header, rlp_ref_hdr}
use evm_sail.Rlp.Reference.{
  big_endian, encode_header, HasByteLength, big_endian-HasByteLength, length-big_endian-le,
}
use evm_sail.Rlp.Sublists.{slice_byte-get_or}
use evm_sail.Rlp.Within.{IsSlice, length-slice_bytes}
use evm_sail.Rlp.Header.{
  long_header-read, header_of-short_string, header_of-short_list, header_of-long_string,
  header_of-long_list,
}

-- The base of the headers of strings and of lists.
abbrev pub header_base : Bool → ℕ
header_base l = if l then 0xc0 else 0x80

pub rlp_ref_hdr-head :
    (region : List ℕ) (c : Slice) (h : ℕ) (t : List ℕ)
    → IsSlice region c
    → slice_bytes region c ≡ h ∷ t
    → rlp_ref_hdr region c ≡ header_of region c h
unfolding rlp_ref_hdr
rlp_ref_hdr-head region c h t within e =
    let size : c.len ≡ suc (length t) =
      sym (length-slice_bytes region c within) ∙ ap (λ xs. length xs) e in
    rw
      (
        ==-ne c.len 0 (omega (arith, size)),
        slice_byte-get_or region c 0 ∙ ap (λ xs. get_or xs 0 0) e,
      )
      refl

header_of-short :
    (region : List ℕ) (c : Slice) (l : Bool) (n : ℕ)
    → n ≤ 55
    → header_of region c (header_base l + n)
      ≡ ok (record { is_list = l; content_off = 1; content_len = n })
header_of-short region c true n le = header_of-short_list region c n le
header_of-short region c false n le = header_of-short_string region c n le

header_of-long :
    (region : List ℕ) (c : Slice) (l : Bool) (k : ℕ)
    → 1 ≤ k
    → k ≤ 8
    → header_of region c (header_base l + 55 + k) ≡ long_header region c l k
header_of-long region c true k ge le = header_of-long_list region c k ge le
header_of-long region c false k ge le = header_of-long_string region c k ge le

some_bytes : (n k : ℕ) → HasByteLength n k → n ≢ 0 → 1 ≤ k
some_bytes n zero h ne = absurd (omega arith)
some_bytes n (suc k) h ne = omega arith

one_more : (k : ℕ) → 1 + k ≡ suc k
one_more k = omega arith

-- A header is read back with its own length and the length it announces.
pub rlp_ref_hdr-encode_header :
    (region : List ℕ) (c : Slice) (l : Bool) (n : ℕ) (rest : List ℕ)
    → IsSlice region c
    → n ≤ region_limit
    → slice_bytes region c ≡ encode_header (header_base l) n ++ rest
    → rlp_ref_hdr region c
      ≡ ok (record {
        is_list = l;
        content_off = length (encode_header (header_base l) n);
        content_len = n;
      })
unfolding encode_header
rlp_ref_hdr-encode_header region c l n rest within le = elim (Bool-cases (leb n 55)) [
  | inl e ↦ rw e (λ f.
      rlp_ref_hdr-head region c (header_base l + n) rest within f
      ∙ header_of-short region c l n (leb→le n 55 e))
  | inr e ↦ rw e (λ f.
      let k = length (big_endian n) in
      rlp_ref_hdr-head region c (header_base l + 55 + k) (big_endian n ++ rest) within f
      ∙ header_of-long region c l k (some_bytes n k (big_endian-HasByteLength n) (ground arith))
          (omega (arith, length-big_endian-le n 4 (omega arith) (omega arith)))
      ∙ long_header-read region c l n (header_base l + 55 + k) rest within f
      ∙ ap (λ (v : ℕ). ok (record { is_list = l; content_off = v; content_len = n })) (one_more k))
]
