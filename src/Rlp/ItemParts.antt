-- ===== src/Rlp/ItemParts.antt =====
-- A decoded item: the field, its content and the cursor behind it.
use mathlib.Core.List.{append_assoc}
use evm_sail.Base.{
  ℕ, ◌+◌, ◌-◌, ◌≤◌, ◌<◌, ◌≡◌, ◌≢◌, refl, sym, ap, ◌∙◌, List, ◌++◌, length, take, drop, arith, Bool,
  ok, ◌>>=◌, length-append, ==-ne, ge→ltb, lt→ltb, le→leb, take_append_length,
}
use evm_sail.Rlp.Slices.{Slice, region_limit, slice_bytes, slice_suffix}
use evm_sail.Rlp.Decode.{
  RlpFieldRef, rlp_field_ref, rlp_ref_hdr, item_of, rlp_decode_item, rlp_item_content,
  rlp_cursor_advance,
}
use evm_sail.Rlp.Sublists.{slice_bytes_sub, take_beyond, drop_append_length}
use evm_sail.Rlp.Appends.{slice-ok}
use evm_sail.Rlp.Within.{IsSlice, length-slice_bytes, sub_slice-ok}

pub item_of-header :
    (region : List ℕ) (c : Slice) (l : Bool) (k n : ℕ)
    → IsSlice region c
    → 0 < k + n
    → k + n ≤ c.len
    → item_of c (record { is_list = l; content_off = k; content_len = n })
      ≡ ok (record { source = record { off = c.off; len = k + n }; is_list = l; content_len = n })
unfolding item_of rlp_field_ref
item_of-header region c l k n within ne le =
    let z : c.off + 0 ≡ c.off = omega arith in
    rw
      (
        ge→ltb c.len k (omega arith),
        ge→ltb (c.len - k) n (omega arith),
        lt→ltb 0 (k + n) ne,
        le→leb (k + n) c.len le,
        (sub_slice-ok region c 0 (k + n) within (omega arith)).0,
        z,
        le→leb (c.off + (k + n)) region_limit (omega (arith, within.limited)),
        le→leb n (k + n) (omega arith),
      )
      refl

pub rlp_decode_item-bind :
    (region : List ℕ) (c : Slice)
    → c.len ≢ 0
    → rlp_decode_item region c ≡ (rlp_ref_hdr region c >>= item_of c)
unfolding rlp_decode_item
rlp_decode_item-bind region c ne = rw (==-ne c.len 0 ne) refl

-- The item that a header announces, where the cursor has all of it.
rlp_decode_item-header :
    (region : List ℕ) (c : Slice) (l : Bool) (k n : ℕ)
    → IsSlice region c
    → 0 < k + n
    → k + n ≤ c.len
    → rlp_ref_hdr region c ≡ ok (record { is_list = l; content_off = k; content_len = n })
    → rlp_decode_item region c
      ≡ ok (record { source = record { off = c.off; len = k + n }; is_list = l; content_len = n })
rlp_decode_item-header region c l k n within ne le e =
    rw (rlp_decode_item-bind region c (omega arith), e) (item_of-header region c l k n within ne le)

-- The parts of a cursor that starts with a header and its content.
item_parts :
    (region : List ℕ) (c : Slice) (hdr content rest : List ℕ)
    → IsSlice region c
    → slice_bytes region c ≡ hdr ++ content ++ rest
    → (c.len ≡ length hdr + length content + length rest)
      × (slice_bytes region (record { off = c.off + length hdr; len = length content }) ≡ content)
      × (slice_bytes region
            (record { off = c.off + (length hdr + length content); len = length rest })
          ≡ rest)
item_parts region c hdr content rest within e =
    let flat = e ∙ append_assoc hdr content rest in
    let size : c.len ≡ length hdr + length content + length rest =
      sym (length-slice_bytes region c within)
      ∙ ap (λ xs. length xs) e
      ∙ omega (arith, length-append (hdr ++ content) rest, length-append hdr content) in
    (
      size,
      slice_bytes_sub region c (length hdr) (length content) (omega (arith, size))
          ∙ ap (λ xs. take (length content) (drop (length hdr) xs)) flat
          ∙ ap (take (length content)) (drop_append_length hdr (content ++ rest))
          ∙ take_append_length content rest,
      slice_bytes_sub region c (length hdr + length content) (length rest) (omega (arith, size))
          ∙ ap (λ (k : ℕ). take (length rest) (drop k (slice_bytes region c)))
              (sym (length-append hdr content))
          ∙ ap (λ xs. take (length rest) (drop (length (hdr ++ content)) xs)) e
          ∙ ap (take (length rest)) (drop_append_length (hdr ++ content) rest)
          ∙ take_beyond (length rest) rest (omega arith),
    )

-- Advancing a cursor over what it starts with.
rlp_cursor_advance-ok :
    (region : List ℕ) (c : Slice) (k r : ℕ)
    → IsSlice region c
    → c.len ≡ k + r
    → rlp_cursor_advance c k ≡ ok (record { off = c.off + k; len = r })
unfolding rlp_cursor_advance slice_suffix
rlp_cursor_advance-ok region c k r within e =
    let d : c.len - k ≡ r = omega (arith, e) in
    rw (le→leb k c.len (omega (arith, e)), d)
      (slice-ok (c.off + k) r (omega (arith, e, within.limited)))

-- What a decoded item is: a field of the kind, whose content is `content`, and a cursor behind it
-- that has the rest.
pub record IsItem (region : List ℕ) (c : Slice) (l : Bool) (encoded content rest : List ℕ)
    (f : RlpFieldRef) : Type 0 where
  pub kind : f.is_list ≡ l
  pub slice : IsSlice region f.source
  pub source : slice_bytes region f.source ≡ encoded
  pub size : f.source.len ≡ length encoded
  pub content_size : f.content_len ≡ length content
  pub item_content :
      (d : Slice) × (rlp_item_content f ≡ ok d)
      × IsSlice region d
      × (slice_bytes region d ≡ content)
  pub advance :
      (d : Slice) × (rlp_cursor_advance c f.source.len ≡ ok d)
      × IsSlice region d
      × (slice_bytes region d ≡ rest)

pub decoded_parts :
    (region : List ℕ) (c : Slice) (l : Bool) (hdr content rest : List ℕ)
    → IsSlice region c
    → slice_bytes region c ≡ hdr ++ content ++ rest
    → 0 < length hdr + length content
    → rlp_ref_hdr region c
      ≡ ok (record { is_list = l; content_off = length hdr; content_len = length content })
    → (f : RlpFieldRef) × (rlp_decode_item region c ≡ ok f)
      × IsItem region c l (hdr ++ content) content rest f
unfolding rlp_item_content
decoded_parts region c l hdr content rest within e ne h =
    let k = length hdr in
    let n = length content in
    let (size, bytes, after) = item_parts region c hdr content rest within e in
    let z : c.off + 0 ≡ c.off = omega arith in
    let y : k + n - n ≡ k = omega arith in
    let whole = sub_slice-ok region c 0 (k + n) within (omega (arith, size)) in
    let inner = sub_slice-ok region c k n within (omega (arith, size)) in
    (
      record { source = record { off = c.off; len = k + n }; is_list = l; content_len = n },
      rlp_decode_item-header region c l k n within ne (omega (arith, size)) h,
      record {
        kind = refl;
        slice = record {
          within = omega (arith, size, within.within);
          limited = omega (arith, size, within.limited);
        };
        source =
            ap (λ (o : ℕ). slice_bytes region (record { off = o; len = k + n })) (sym z)
            ∙ slice_bytes_sub region c 0 (k + n) (omega (arith, size))
            ∙ ap (take (k + n)) e
            ∙ ap (λ (m : ℕ). take m (hdr ++ content ++ rest)) (sym (length-append hdr content))
            ∙ take_append_length (hdr ++ content) rest;
        size = sym (length-append hdr content);
        content_size = refl;
        item_content = (
          record { off = c.off + k; len = n },
          rw y (
              (sub_slice-ok region (record { off = c.off; len = k + n }) k n
                (record {
                  within = omega (arith, size, within.within);
                  limited = omega (arith, size, within.limited);
                })
                (omega arith)).0),
          inner.1,
          bytes,
        );
        advance = (
          record { off = c.off + (k + n); len = length rest },
          rlp_cursor_advance-ok region c (k + n) (length rest) within size,
          (sub_slice-ok region c (k + n) (length rest) within (omega (arith, size))).1,
          after,
        );
      },
    )
