-- ===== src/Rlp/Framing.antt =====
-- The tests of `rlp_ref_framing_canonical`, for each kind and length of content.
use evm_sail.Base.{
  ℕ, ◌+◌, ◌-◌, ◌≤◌, ◌≡◌, ◌↔◌, refl, sym, ap, ◌∙◌, List, [], ◌∷◌, ◌++◌, length, take, arith, leb,
  if◌then◌else◌, true, false, ◌==◌, ◌&&◌, Bool-cases, inl, inr, ok, if_true, if_false, ==_iff,
  ==-refl, get_or, length-append, take_append_length,
}
use evm_sail.Rlp.Slices.{region_limit, slice_byte}
use evm_sail.Rlp.Size.{single_byte}
use evm_sail.Rlp.Decode.{RlpFieldRef}
use evm_sail.Rlp.Canonical.{
  short_framing, long_framing, list_framing, string_framing, rlp_ref_framing_canonical,
}
use evm_sail.Rlp.Reference.{encode_header}
use evm_sail.Rlp.RoundTrip.{header_nonempty}
use evm_sail.Rlp.BigEndian.{IsBytes}
use evm_sail.Rlp.Sublists.{slice_byte-get_or}
use evm_sail.Rlp.Shortest.{IsField, field_size, short_framing_iff, short_framing-bind}
use evm_sail.Rlp.LongForm.{header_framing_iff, ok_inj}

pub rlp_ref_framing_canonical-bind :
    (region : List ℕ) (f : RlpFieldRef)
    → rlp_ref_framing_canonical region f ≡ (
        if f.source.len == 0
        then ok false
        else if f.is_list
        then list_framing region f
        else if f.content_len == 0
        then ok ((f.source.len == 1) && (slice_byte region f.source 0 == 0x80))
        else string_framing region f (slice_byte region f.source (f.source.len - f.content_len)))
unfolding rlp_ref_framing_canonical
rlp_ref_framing_canonical-bind region f = refl

list_framing-bind :
    (region : List ℕ) (f : RlpFieldRef)
    → list_framing region f ≡ (
        if leb f.content_len 55
        then ok (short_framing region f 0xc0)
        else long_framing region f 0xf7)
unfolding list_framing
list_framing-bind region f = refl

string_framing-bind :
    (region : List ℕ) (f : RlpFieldRef) (first : ℕ)
    → string_framing region f first ≡ (
        if single_byte f.content_len first
        then ok ((f.source.len == 1) && (slice_byte region f.source 0 == first))
        else if leb f.content_len 55
        then ok (short_framing region f 0x80)
        else long_framing region f 0xb7)
unfolding string_framing
string_framing-bind region f first = refl

pub append_cancel : (p q b : List ℕ) → p ++ b ≡ q ++ b → p ≡ q
append_cancel p q b e =
    let same : length p ≡ length q =
      omega (arith, ap (λ l. length l) e, length-append p b, length-append q b) in
    sym (take_append_length p b)
    ∙ ap (take (length p)) e
    ∙ ap (λ (k : ℕ). take k (q ++ b)) same
    ∙ take_append_length q b

-- The byte where the content starts.
pub content_first :
    (region : List ℕ) (f : RlpFieldRef) (p b : List ℕ)
    → IsField region f p b
    → slice_byte region f.source (f.source.len - f.content_len) ≡ get_or b 0 0
content_first region f p b h =
    let e : f.source.len - f.content_len ≡ length p =
      omega (arith, field_size region f p b h, h.size) in
    ap (slice_byte region f.source) e
    ∙ slice_byte-get_or region f.source (length p)
    ∙ ap (λ l. get_or l (length p) 0) h.parts
    ∙ behind p b
  where
    behind : (xs ys : List ℕ) → get_or (xs ++ ys) (length xs) 0 ≡ get_or ys 0 0
    behind [] ys = refl
    behind (x ∷ xs) ys = behind xs ys

pub no_bytes :
    (region : List ℕ) (f : RlpFieldRef) (p b : List ℕ) (base n : ℕ)
    → IsField region f p b
    → (f.source.len == 0) ≡ true
    → (rlp_ref_framing_canonical region f ≡ ok true) ↔ (p ≡ encode_header base n)
no_bytes region f p b base n h z = (
  λ g. absurd (
      ground
        (arith, ok_inj false true (sym (rlp_ref_framing_canonical-bind region f ∙ rw z refl) ∙ g))),
  λ g.
      absurd
        (ground (arith, field_size region f p b h, header_nonempty base n, ap (λ l. length l) g)),
)

-- The value for a list, and for a string that is not empty.
sized_list :
    (region : List ℕ) (f : RlpFieldRef) (p b : List ℕ)
    → IsField region f p b
    → (f.source.len == 0) ≡ false
    → f.is_list ≡ true
    → rlp_ref_framing_canonical region f
      ≡ (if leb (length b) 55 then ok (short_framing region f 0xc0) else long_framing region f 0xf7)
sized_list region f p b h z l =
    rlp_ref_framing_canonical-bind region f
    ∙ if_false (f.source.len == 0) _ _ z
    ∙ if_true f.is_list _ _ l
    ∙ list_framing-bind region f
    ∙ ap
        (λ (n : ℕ).
          if leb n 55 then ok (short_framing region f 0xc0) else long_framing region f 0xf7)
        h.size

pub sized_string :
    (region : List ℕ) (f : RlpFieldRef) (p b : List ℕ)
    → IsField region f p b
    → (f.source.len == 0) ≡ false
    → f.is_list ≡ false
    → (length b == 0) ≡ false
    → rlp_ref_framing_canonical region f ≡ (
        if single_byte (length b) (get_or b 0 0)
        then ok ((f.source.len == 1) && (slice_byte region f.source 0 == get_or b 0 0))
        else if leb (length b) 55
        then ok (short_framing region f 0x80)
        else long_framing region f 0xb7)
sized_string region f p b h z l some_left =
    rlp_ref_framing_canonical-bind region f
    ∙ if_false (f.source.len == 0) _ _ z
    ∙ if_false f.is_list _ _ l
    ∙ if_false (f.content_len == 0) _ _ (ap (λ (n : ℕ). n == 0) h.size ∙ some_left)
    ∙ ap (string_framing region f) (content_first region f p b h)
    ∙ string_framing-bind region f (get_or b 0 0)
    ∙ ap
        (λ (n : ℕ).
          if single_byte n (get_or b 0 0)
          then ok ((f.source.len == 1) && (slice_byte region f.source 0 == get_or b 0 0))
          else if leb n 55
          then ok (short_framing region f 0x80)
          else long_framing region f 0xb7)
        h.size

pub list_canonical_iff :
    (region : List ℕ) (f : RlpFieldRef) (p b : List ℕ)
    → IsField region f p b
    → IsBytes p
    → length b ≤ region_limit
    → f.is_list ≡ true
    → (rlp_ref_framing_canonical region f ≡ ok true) ↔ (p ≡ encode_header 0xc0 (length b))
list_canonical_iff region f p b h valid small l = elim (Bool-cases (f.source.len == 0)) [
  | inl z ↦ no_bytes region f p b 0xc0 (length b) h z
  | inr z ↦
      let v = sized_list region f p b h z l in
      let i = header_framing_iff region f p b 0xc0 h valid (omega arith) small in
      (λ g. i.0 (sym v ∙ g), λ g. v ∙ i.1 g)
]

pub single_iff :
    (region : List ℕ) (f : RlpFieldRef) (p b : List ℕ)
    → IsField region f p b
    → length b ≡ 1
    → (ok ((f.source.len == 1) && (slice_byte region f.source 0 == get_or b 0 0)) ≡ ok true)
      ↔ (p ≡ [])
single_iff region f [] b h one =
    let e : slice_byte region f.source 0 ≡ get_or b 0 0 =
      slice_byte-get_or region f.source 0 ∙ ap (λ l. get_or l 0 0) h.parts in
    (
      λ g. refl,
      λ g.
          rw
            (
              e,
              ==-refl (get_or b 0 0),
              (==_iff f.source.len 1).1 (omega (arith, field_size region f [] b h, one)),
            )
            refl,
    )
single_iff region f (x ∷ p) b h one = (
  λ g. absurd (
      ground (
        arith,
        ok_inj ((f.source.len == 1) && (slice_byte region f.source 0 == get_or b 0 0)) true g,
        field_size region f (x ∷ p) b h,
        one,
      )),
  λ g. absurd (omega (arith, ap (λ l. length l) g)),
)

pub empty_iff :
    (region : List ℕ) (f : RlpFieldRef) (p b : List ℕ)
    → IsField region f p b
    → length b ≡ 0
    → (ok ((f.source.len == 1) && (slice_byte region f.source 0 == 0x80)) ≡ ok true)
      ↔ (p ≡ encode_header 0x80 0)
unfolding encode_header
empty_iff region f p b h z =
    let i = short_framing_iff region f p b 0x80 h (omega arith) (omega (arith, z)) in
    let v : short_framing region f 0x80
        ≡ ((f.source.len == 1) && (slice_byte region f.source 0 == 0x80)) =
      short_framing-bind region f 0x80 ∙ rw (h.size, z) refl in
    let w : ((0x80 + length b) ∷ []) ≡ (0x80 ∷ []) = rw z refl in
    (
      λ g.
          i.0 (v ∙ ok_inj ((f.source.len == 1) && (slice_byte region f.source 0 == 0x80)) true g)
          ∙ w,
      λ g. ap ok (sym v ∙ i.1 (g ∙ sym w)),
    )
