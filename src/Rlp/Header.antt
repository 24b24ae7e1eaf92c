-- ===== src/Rlp/Header.antt =====
-- `rlp_ref_hdr` on the headers of Rlp/Reference.
use native.Mathlib.Nat.{mod-eq_of_lt}
use evm_sail.Base.{
  ℕ, zero, suc, ◌+◌, ◌-◌, ◌≤◌, ◌<◌, ◌≡◌, refl, sym, ap, ◌∙◌, List, ◌∷◌, ◌++◌, length, take, drop,
  arith, Bool, true, false, ok, get_or, length-append, ge→ltb, lt→ltb, le→leb, take_append_length,
}
use evm_sail.Rlp.Slices.{Slice, slice_bytes, from_bytes}
use evm_sail.Rlp.Decode.{rlp_uint64_width, long_header, header_of}
use evm_sail.Rlp.Reference.{big_endian, big_endian-HasByteLength, big_endian-to_bytes}
use evm_sail.Rlp.Sublists.{slice_byte-get_or, slice_bytes_sub, take-suc, take_beyond}
use evm_sail.Rlp.BigEndian.{from_bytes-to_bytes, from_bytes_snoc}
use evm_sail.Rlp.Within.{IsSlice, length-slice_bytes, sub_slice-ok}

pub from_bytes-big_endian : (n : ℕ) → from_bytes (big_endian n) ≡ n
from_bytes-big_endian n =
    let k = length (big_endian n) in
    ap from_bytes (big_endian-to_bytes n k (big_endian-HasByteLength n))
    ∙ from_bytes-to_bytes k n
    ∙ mod-eq_of_lt ((big_endian-HasByteLength n).0)

-- The recursion over the width is the big-endian number of the bytes.
pub rlp_uint64_width-from_bytes :
    (region : List ℕ) (c : Slice) (w : ℕ)
    → w ≤ length (slice_bytes region c)
    → rlp_uint64_width region c w ≡ from_bytes (take w (slice_bytes region c))
unfolding rlp_uint64_width
rlp_uint64_width-from_bytes region c zero h = unfold from_bytes in refl
rlp_uint64_width-from_bytes region c (suc w) h =
    rw
      (
        take-suc w (slice_bytes region c) 0 h,
        from_bytes_snoc (take w (slice_bytes region c)) (get_or (slice_bytes region c) w 0),
        rlp_uint64_width-from_bytes region c w (omega arith),
        slice_byte-get_or region c w,
      )
      refl

pub long_header-read :
    (region : List ℕ) (c : Slice) (l : Bool) (n h : ℕ) (rest : List ℕ)
    → IsSlice region c
    → slice_bytes region c ≡ (h ∷ big_endian n) ++ rest
    → long_header region c l (length (big_endian n))
      ≡ ok (record { is_list = l; content_off = 1 + length (big_endian n); content_len = n })
unfolding long_header
long_header-read region c l n h rest within e =
    let w = length (big_endian n) in
    let size : c.len ≡ 1 + w + length rest =
      sym (length-slice_bytes region c within)
      ∙ ap (λ xs. length xs) e
      ∙ omega (arith, length-append (big_endian n) rest) in
    let d = slice_bytes_sub region c 1 w (omega (arith, size)) in
    let f : slice_bytes region (record { off = c.off + 1; len = w }) ≡ big_endian n =
      d ∙ ap (λ xs. take w (drop 1 xs)) e ∙ take_append_length (big_endian n) rest in
    rw
      (
        le→leb w (c.len - 1) (omega (arith, size)),
        (sub_slice-ok region c 1 w within (omega (arith, size))).0,
      )
      (ap (λ (v : ℕ). ok (record { is_list = l; content_off = 1 + w; content_len = v }))
        (rlp_uint64_width-from_bytes region (record { off = c.off + 1; len = w }) w
            (omega (arith, ap (λ xs. length xs) f))
          ∙ ap (λ xs. from_bytes (take w xs)) f
          ∙ ap from_bytes (take_beyond w (big_endian n) (omega arith))
          ∙ from_bytes-big_endian n))

-- The first byte of each form.
pub header_of-single :
    (region : List ℕ) (c : Slice) (h : ℕ)
    → h < 128
    → header_of region c h ≡ ok (record { is_list = false; content_off = 0; content_len = 1 })
unfolding header_of
header_of-single region c h lt = rw (lt→ltb h 128 lt) refl

pub header_of-short_string :
    (region : List ℕ) (c : Slice) (n : ℕ)
    → n ≤ 55
    → header_of region c (0x80 + n)
      ≡ ok (record { is_list = false; content_off = 1; content_len = n })
unfolding header_of
header_of-short_string region c n le =
    let d : 0x80 + n - 128 ≡ n = omega arith in
    rw (ge→ltb (0x80 + n) 128 (omega arith), lt→ltb (0x80 + n) 184 (omega arith), d) refl

pub header_of-short_list :
    (region : List ℕ) (c : Slice) (n : ℕ)
    → n ≤ 55
    → header_of region c (0xc0 + n)
      ≡ ok (record { is_list = true; content_off = 1; content_len = n })
unfolding header_of
header_of-short_list region c n le =
    let d : 0xc0 + n - 192 ≡ n = omega arith in
    rw
      (
        ge→ltb (0xc0 + n) 128 (omega arith),
        ge→ltb (0xc0 + n) 184 (omega arith),
        ge→ltb (0xc0 + n) 192 (omega arith),
        lt→ltb (0xc0 + n) 248 (omega arith),
        d,
      )
      refl

pub header_of-long_string :
    (region : List ℕ) (c : Slice) (k : ℕ)
    → 1 ≤ k
    → k ≤ 8
    → header_of region c (0x80 + 55 + k) ≡ long_header region c false k
unfolding header_of
header_of-long_string region c k ge le =
    let d : 0x80 + 55 + k - 183 ≡ k = omega arith in
    let h : ℕ = 0x80 + 55 + k in
    rw (ge→ltb h 128 (omega arith), ge→ltb h 184 (omega arith), lt→ltb h 192 (omega arith))
      (ap (long_header region c false) d)

pub header_of-long_list :
    (region : List ℕ) (c : Slice) (k : ℕ)
    → 1 ≤ k
    → k ≤ 8
    → header_of region c (0xc0 + 55 + k) ≡ long_header region c true k
unfolding header_of
header_of-long_list region c k ge le =
    let d : 0xc0 + 55 + k - 247 ≡ k = omega arith in
    let h : ℕ = 0xc0 + 55 + k in
    rw
      (
        ge→ltb h 128 (omega arith),
        ge→ltb h 184 (omega arith),
        ge→ltb h 192 (omega arith),
        ge→ltb h 248 (omega arith),
      )
      (ap (long_header region c true) d)
