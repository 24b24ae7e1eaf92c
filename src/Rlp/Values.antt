-- ===== src/Rlp/Values.antt =====
-- Numbers: `rlp_item_uint_canonical` and `rlp_decode_word` on the encoding of a number.
use native.Mathlib.Nat.{pow-suc}
use evm_sail.Base.{
  ℕ, ◌+◌, ◌-◌, ◌*◌, ◌^◌, ◌≤◌, ◌≡◌, ◌≢◌, ◌⊎◌, refl, sym, ap, ◌∙◌, List, [], ◌∷◌, length, take, drop,
  arith, ltb, leb, if◌then◌else◌, Bool, true, false, not, ◌==◌, ◌&&◌, ◌||◌, Bool-cases, inl, inr,
  Outcome, ok, fatal, FatalError, ◌>>=◌, get_or, bind_assoc, if_false, ge→ltb,
}
use evm_sail.Word.{IsWord}
use evm_sail.Rlp.Slices.{Slice, region_limit, slice_byte, slice_bytes, slice_load_n, from_bytes}
use evm_sail.Rlp.Size.{single_byte}
use evm_sail.Rlp.Decode.{RlpFieldRef}
use evm_sail.Rlp.Canonical.{rlp_ref_framing_canonical, rlp_item_uint_canonical, rlp_decode_word}
use evm_sail.Rlp.Reference.{
  big_endian, encode_string, encode_header, HasByteLength, big_endian-HasByteLength,
  length-big_endian-le, IsBytes-big_endian,
}
use evm_sail.Rlp.BigEndian.{IsBytes, from_bytes-lt}
use evm_sail.Rlp.Header.{from_bytes-big_endian}
use evm_sail.Rlp.Sublists.{take_beyond, drop_append_length}
use evm_sail.Rlp.Refines.{string_prefix, encode_string-prefix}
use evm_sail.Rlp.Shortest.{IsField, field_size}
use evm_sail.Rlp.LongForm.{slice_load_n-from_bytes}
use evm_sail.Rlp.Framing.{content_first}
use evm_sail.Rlp.Canonicity.{rlp_ref_framing_canonical_iff}
use evm_sail.Rlp.ItemParts.{IsItem}

from_bytes_cons : (x : ℕ) (bs : List ℕ) → from_bytes (x ∷ bs) ≡ x * 256 ^ length bs + from_bytes bs
unfolding from_bytes
from_bytes_cons x bs = refl

-- A number's bytes do not start with zero.
nonzero_first :
    (w : ℕ) (bs : List ℕ)
    → HasByteLength w (length bs)
    → IsBytes bs
    → from_bytes bs ≡ w
    → (bs ≡ []) ⊎ (get_or bs 0 0 ≢ 0)
nonzero_first w [] h valid e = inl refl
nonzero_first w (x ∷ bs) h valid e = inr (λ z. absurd (
    omega (
      arith,
      ap (λ (t : ℕ). t * 256 ^ length bs) z,
      sym (from_bytes_cons x bs) ∙ e,
      from_bytes-lt bs valid.1,
      h,
      pow-suc 256 (length bs),
    )))

item-IsField :
    (region : List ℕ) (c : Slice) (bs rest : List ℕ) (f : RlpFieldRef)
    → IsBytes bs
    → IsItem region c false (encode_string bs) bs rest f
    → IsField region f (string_prefix (length bs) (get_or bs 0 0)) bs
item-IsField region c bs rest f valid i = record {
  slice = i.slice;
  size = i.content_size;
  parts = i.source ∙ encode_string-prefix bs valid;
}

prefix-IsBytes : (n first : ℕ) → n ≤ region_limit → IsBytes (string_prefix n first)
prefix-IsBytes n first le = elim (Bool-cases (single_byte n first)) [
  | inl e ↦ rw e tt
  | inr e ↦ rw e (elim (Bool-cases (leb n 55)) [
    | inl d ↦ unfold encode_header in rw d (ground arith, tt)
    | inr d ↦
        unfold encode_header in
        rw d (
          omega (arith, length-big_endian-le n 4 (omega arith) (omega arith)),
          IsBytes-big_endian n,
        )
  ])
]

item_canonical :
    (region : List ℕ) (c : Slice) (bs rest : List ℕ) (f : RlpFieldRef)
    → IsBytes bs
    → IsItem region c false (encode_string bs) bs rest f
    → rlp_ref_framing_canonical region f ≡ ok true
item_canonical region c bs rest f valid i =
    (rlp_ref_framing_canonical_iff region f (string_prefix (length bs) (get_or bs 0 0)) bs
        (item-IsField region c bs rest f valid i)
        (prefix-IsBytes (length bs) (get_or bs 0 0) (
          omega (
            arith,
            field_size region f (string_prefix (length bs) (get_or bs 0 0)) bs
                (item-IsField region c bs rest f valid i),
            i.slice.limited,
          )))
        valid).1
      (i.source ∙ rw i.kind refl)

-- The test of a number, by what its framing, kind, length and first byte are.
abbrev uint_value : Bool → Bool → ℕ → ℕ → Outcome Bool
uint_value framing l n first =
    if not (not l && framing) then ok false else ok ((n == 0) || not (first == 0))

rlp_item_uint_canonical-value :
    (region : List ℕ) (f : RlpFieldRef)
    → rlp_item_uint_canonical region f ≡ (
        rlp_ref_framing_canonical region f >>= λ framing.
        uint_value framing f.is_list f.content_len
          (slice_byte region f.source (f.source.len - f.content_len)))
rlp_item_uint_canonical-value region f =
    unfold rlp_item_uint_canonical in bind_assoc (rlp_ref_framing_canonical region f) _ _

uint_value-true : (n first : ℕ) → (n ≡ 0) ⊎ (first ≢ 0) → uint_value true false n first ≡ ok true
uint_value-true n first h = ground arith

pub uint_canonical :
    (region : List ℕ) (c : Slice) (w : ℕ) (rest : List ℕ) (f : RlpFieldRef)
    → IsItem region c false (encode_string (big_endian w)) (big_endian w) rest f
    → rlp_item_uint_canonical region f ≡ ok true
uint_canonical region c w rest f i =
    let bs = big_endian w in
    let valid = IsBytes-big_endian w in
    let first = slice_byte region f.source (f.source.len - f.content_len) in
    rlp_item_uint_canonical-value region f
    ∙ ap (λ r. r >>= λ framing. uint_value framing f.is_list f.content_len first)
        (item_canonical region c bs rest f valid i)
    ∙ ap (λ (l : Bool). uint_value true l f.content_len first) i.kind
    ∙ ap (λ (x : ℕ). uint_value true false f.content_len x)
        (content_first region f (string_prefix (length bs) (get_or bs 0 0)) bs
          (item-IsField region c bs rest f valid i))
    ∙ uint_value-true f.content_len (get_or bs 0 0)
        (elim (nonzero_first w bs (big_endian-HasByteLength w) valid (from_bytes-big_endian w)) [
          | inl e ↦ inl (i.content_size ∙ ap (λ l. length l) e)
          | inr ne ↦ inr ne
        ])

-- The content of the item as a number.
content_value :
    (region : List ℕ) (c : Slice) (w : ℕ) (rest : List ℕ) (f : RlpFieldRef)
    → IsItem region c false (encode_string (big_endian w)) (big_endian w) rest f
    → slice_load_n region f.source (f.source.len - f.content_len) f.content_len ≡ w
content_value region c w rest f i =
    let bs = big_endian w in
    let p = string_prefix (length bs) (get_or bs 0 0) in
    let field = item-IsField region c bs rest f (IsBytes-big_endian w) i in
    let size = field_size region f p bs field in
    let o : f.source.len - f.content_len ≡ length p = omega (arith, size, i.content_size) in
    slice_load_n-from_bytes region f.source (f.source.len - f.content_len) f.content_len i.slice
      (omega (arith, size, i.content_size))
    ∙ ap (λ (k : ℕ). from_bytes (take f.content_len (drop k (slice_bytes region f.source)))) o
    ∙ ap (λ l. from_bytes (take f.content_len (drop (length p) l))) field.parts
    ∙ ap (λ l. from_bytes (take f.content_len l)) (drop_append_length p bs)
    ∙ ap from_bytes (take_beyond f.content_len bs (omega (arith, i.content_size)))
    ∙ from_bytes-big_endian w

rlp_decode_word-bind :
    (region : List ℕ) (f : RlpFieldRef)
    → rlp_decode_word region f ≡ (
        if f.is_list || ltb 32 f.content_len
        then fatal FatalError.rlp_decode
        else ok (slice_load_n region f.source (f.source.len - f.content_len) f.content_len))
unfolding rlp_decode_word
rlp_decode_word-bind region f = refl

pub word_value :
    (region : List ℕ) (c : Slice) (w : ℕ) (rest : List ℕ) (f : RlpFieldRef)
    → IsWord w
    → IsItem region c false (encode_string (big_endian w)) (big_endian w) rest f
    → rlp_decode_word region f ≡ ok w
word_value region c w rest f word i =
    rlp_decode_word-bind region f
    ∙ if_false (f.is_list || ltb 32 f.content_len) _ _ (
        ap (λ (l : Bool). l || ltb 32 f.content_len) i.kind
        ∙ ge→ltb 32 f.content_len
            (omega (arith, i.content_size, length-big_endian-le w 32 word (omega (arith, word)))))
    ∙ ap ok (content_value region c w rest f i)
