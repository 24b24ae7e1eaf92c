-- ===== src/Rlp/Canonicity.antt =====
-- `rlp_ref_framing_canonical` of lib/rlp/decoding.py against the encodings of Rlp/Reference.
use evm_sail.Base.{
  ℕ, ◌≤◌, ◌≡◌, ◌↔◌, refl, sym, ap, ◌∙◌, List, ◌++◌, length, arith, if◌then◌else◌, Bool, true, false,
  ◌==◌, Bool-cases, inl, inr, ok, ==-ne, if_true, if_false, ==_iff, get_or,
}
use evm_sail.Rlp.Slices.{region_limit, slice_bytes}
use evm_sail.Rlp.Size.{single_byte}
use evm_sail.Rlp.Decode.{RlpFieldRef}
use evm_sail.Rlp.Canonical.{rlp_ref_framing_canonical}
use evm_sail.Rlp.Reference.{encode_header, encode_string, encode_list}
use evm_sail.Rlp.Refines.{string_prefix, encode_string-prefix}
use evm_sail.Rlp.BigEndian.{IsBytes}
use evm_sail.Rlp.Shortest.{IsField, field_size}
use evm_sail.Rlp.LongForm.{header_framing_iff}
use evm_sail.Rlp.Framing.{
  rlp_ref_framing_canonical-bind, append_cancel, no_bytes, sized_string, list_canonical_iff,
  single_iff, empty_iff,
}

string_nonempty_iff :
    (region : List ℕ) (f : RlpFieldRef) (p b : List ℕ)
    → IsField region f p b
    → IsBytes p
    → length b ≤ region_limit
    → f.is_list ≡ false
    → (length b == 0) ≡ false
    → (rlp_ref_framing_canonical region f ≡ ok true) ↔ (p ≡ string_prefix (length b) (get_or b 0 0))
string_nonempty_iff region f p b h valid small l z =
    let v =
      sized_string region f p b h (==-ne f.source.len 0 (ground (arith, field_size region f p b h)))
        l z in
    elim (Bool-cases (single_byte (length b) (get_or b 0 0))) [
      | inl e ↦
          let i = single_iff region f p b h (ground arith) in
          let w = v ∙ if_true (single_byte (length b) (get_or b 0 0)) _ _ e in
          rw e (λ g. i.0 (sym w ∙ g), λ g. w ∙ i.1 g)
      | inr e ↦
          let i = header_framing_iff region f p b 0x80 h valid (omega arith) small in
          let w = v ∙ if_false (single_byte (length b) (get_or b 0 0)) _ _ e in
          rw e (λ g. i.0 (sym w ∙ g), λ g. w ∙ i.1 g)
    ]

string_empty_iff :
    (region : List ℕ) (f : RlpFieldRef) (p b : List ℕ)
    → IsField region f p b
    → f.is_list ≡ false
    → (length b == 0) ≡ true
    → (rlp_ref_framing_canonical region f ≡ ok true) ↔ (p ≡ string_prefix (length b) (get_or b 0 0))
string_empty_iff region f p b h l z =
    let none_left : length b ≡ 0 = (==_iff (length b) 0).0 z in
    rw none_left (elim (Bool-cases (f.source.len == 0)) [
      | inl e ↦ no_bytes region f p b 0x80 0 h e
      | inr e ↦
          let i = empty_iff region f p b h none_left in
          let w =
            rlp_ref_framing_canonical-bind region f
            ∙ if_false (f.source.len == 0) _ _ e
            ∙ if_false f.is_list _ _ l
            ∙ if_true (f.content_len == 0) _ _ (ap (λ (n : ℕ). n == 0) h.size ∙ z) in
          (λ g. i.0 (sym w ∙ g), λ g. w ∙ i.1 g)
    ])

-- The standard encoding of a field's content, by the kind of the field.
abbrev pub encode_field : Bool → List ℕ → List ℕ
encode_field l b = if l then encode_list b else encode_string b

framed :
    (l : Bool) (p b : List ℕ)
    → IsBytes b
    → (p ≡ (if l then encode_header 0xc0 (length b) else string_prefix (length b) (get_or b 0 0)))
      ↔ (p ++ b ≡ encode_field l b)
framed true p b valid =
    unfold encode_list in
    (λ e. ap (λ q. q ++ b) e, append_cancel p (encode_header 0xc0 (length b)) b)
framed false p b valid = (
  λ e. ap (λ q. q ++ b) e ∙ sym (encode_string-prefix b valid),
  λ e.
      append_cancel p (string_prefix (length b) (get_or b 0 0)) b
        (e ∙ encode_string-prefix b valid),
)

kind_iff :
    (region : List ℕ) (f : RlpFieldRef) (l : Bool) (p b : List ℕ)
    → IsField region f p b
    → IsBytes p
    → length b ≤ region_limit
    → f.is_list ≡ l
    → (rlp_ref_framing_canonical region f ≡ ok true)
      ↔ (p ≡ (if l then encode_header 0xc0 (length b) else string_prefix (length b) (get_or b 0 0)))
kind_iff region f true p b h valid small l = list_canonical_iff region f p b h valid small l
kind_iff region f false p b h valid small l = elim (Bool-cases (length b == 0)) [
  | inl z ↦ string_empty_iff region f p b h l z
  | inr z ↦ string_nonempty_iff region f p b h valid small l z
]

-- A field of bytes within a region is found canonically framed exactly when its bytes are the
-- standard encoding of its content, as a string or as a list. The test answers with no error on
-- the standard encodings.
pub rlp_ref_framing_canonical_iff :
    (region : List ℕ) (f : RlpFieldRef) (framing content : List ℕ)
    → IsField region f framing content
    → IsBytes framing
    → IsBytes content
    → (rlp_ref_framing_canonical region f ≡ ok true)
      ↔ (slice_bytes region f.source ≡ encode_field f.is_list content)
rlp_ref_framing_canonical_iff region f p b h valid_p valid_b =
    let i =
      kind_iff region f f.is_list p b h valid_p
        (omega (arith, field_size region f p b h, h.slice.limited)) refl in
    let j = framed f.is_list p b valid_b in
    (λ e. h.parts ∙ j.0 (i.0 e), λ e. i.1 (j.1 (sym h.parts ∙ e)))
