-- ===== src/Rlp/LongForm.antt =====
-- The long form in `rlp_ref_framing_canonical`, and the framings of both kinds.
use mathlib.Core.List.{append-nil}
use evm_sail.Base.{
  ℕ, ◌+◌, ◌-◌, ◌≤◌, ◌<◌, ◌≡◌, ◌↔◌, refl, sym, ap, ◌∙◌, List, [], ◌∷◌, ◌++◌, length, take, drop,
  arith, ltb, leb, if◌then◌else◌, Bool, true, false, ◌==◌, ◌&&◌, Bool-cases, inl, inr, ok, ◌>>=◌,
  lt→ltb, ==_iff, ==-refl, take_append_length, leb→le, get_or, replicate,
}
use evm_sail.Runtime.{bits}
use evm_sail.Rlp.Slices.{Slice, region_limit, slice_byte, slice_bytes, slice_load_n, from_bytes}
use evm_sail.Rlp.Size.{rlp_length_word, rlp_minimal_word_len}
use evm_sail.Rlp.Refines.{long_byte, rlp_length_word-ok}
use evm_sail.Rlp.Decode.{RlpFieldRef}
use evm_sail.Rlp.Canonical.{short_framing, long_framing}
use evm_sail.Rlp.Sublists.{length-take, length-drop}
use evm_sail.Rlp.Within.{IsSlice, length-slice_bytes}
use evm_sail.Rlp.Reference.{
  big_endian-to_bytes, big_endian-HasByteLength, rlp_minimal_word_len-length, big_endian,
  encode_header,
}
use evm_sail.Rlp.BigEndian.{IsBytes, cons_eq, to_bytes-from_bytes}
use evm_sail.Rlp.Header.{from_bytes-big_endian}
use evm_sail.Rlp.Shortest.{IsField, field_size, first_of, and_true, short_framing_iff}

slice_load_n-bind :
    (region : List ℕ) (s : Slice) (o n : ℕ)
    → slice_load_n region s o n ≡ (
        if ltb o s.len
        then from_bytes (
            take n (drop o (slice_bytes region s))
            ++ replicate (n - length (take n (drop o (slice_bytes region s)))) 0)
        else 0)
unfolding slice_load_n
slice_load_n-bind region s o n = refl

pub slice_load_n-from_bytes :
    (region : List ℕ) (s : Slice) (o n : ℕ)
    → IsSlice region s
    → o + n ≤ s.len
    → slice_load_n region s o n ≡ from_bytes (take n (drop o (slice_bytes region s)))
slice_load_n-from_bytes region s o n h le = elim (Bool-cases (ltb o s.len)) [
  | inl e ↦
      let d : length (take n (drop o (slice_bytes region s))) ≡ n =
        length-take n (drop o (slice_bytes region s))
          (omega (arith, length-drop o (slice_bytes region s), length-slice_bytes region s h)) in
      let z : n - n ≡ 0 = omega arith in
      slice_load_n-bind region s o n
      ∙ rw (e, d, z) (ap from_bytes (append-nil (take n (drop o (slice_bytes region s)))))
  | inr e ↦
      let z : n ≡ 0 = ground arith in
      slice_load_n-bind region s o n ∙ rw (e, z) (unfold from_bytes in refl)
]

long_framing-bind :
    (region : List ℕ) (f : RlpFieldRef) (base : ℕ)
    → long_framing region f base ≡ (
        rlp_length_word f.content_len >>= λ w. ok (
          (f.source.len == (1 + rlp_minimal_word_len w) + f.content_len)
          && ((slice_byte region f.source 0 == bits 8 (base + bits 8 (rlp_minimal_word_len w)))
              && (if ltb 0 f.source.len
                  then slice_load_n region f.source 1 (rlp_minimal_word_len w) == w
                  else false))))
unfolding long_framing
long_framing-bind region f base = refl

long_value :
    (region : List ℕ) (f : RlpFieldRef) (p b : List ℕ) (base : ℕ)
    → IsField region f p b
    → base ≤ 0xf7
    → 0 < length b
    → length b ≤ region_limit
    → let n = length b in
      let w = length (big_endian n) in
      long_framing region f base
      ≡ ok (
          (f.source.len == (1 + w) + n)
          && ((slice_byte region f.source 0 == base + w)
              && (slice_load_n region f.source 1 w == n)))
long_value region f p b base h le ne small =
    long_framing-bind region f base
    ∙ rw
        (
          h.size,
          rlp_length_word-ok (length b) small,
          rlp_minimal_word_len-length (length b) (omega arith),
          long_byte base (length b) le small,
          lt→ltb 0 f.source.len (omega (arith, field_size region f p b h)),
        )
        refl

-- The length that is read behind the first byte.
load_value :
    (region : List ℕ) (f : RlpFieldRef) (x : ℕ) (q b : List ℕ)
    → IsField region f (x ∷ q) b
    → slice_load_n region f.source 1 (length q) ≡ from_bytes q
load_value region f x q b h =
    slice_load_n-from_bytes region f.source 1 (length q) h.slice
      (omega (arith, field_size region f (x ∷ q) b h))
    ∙ ap (λ l. from_bytes (take (length q) (drop 1 l))) h.parts
    ∙ ap from_bytes (take_append_length q b)

pub ok_inj : (a b : Bool) → ok a ≡ ok b → a ≡ b
ok_inj a b e = cc

big_endian_unique :
    (q : List ℕ) (n : ℕ)
    → IsBytes q
    → length q ≡ length (big_endian n)
    → from_bytes q ≡ n
    → q ≡ big_endian n
big_endian_unique q n valid e f =
    sym (to_bytes-from_bytes q valid)
    ∙ rw (e, f) (sym (big_endian-to_bytes n (length (big_endian n)) (big_endian-HasByteLength n)))

long_framing_iff :
    (region : List ℕ) (f : RlpFieldRef) (p b : List ℕ) (base : ℕ)
    → IsField region f p b
    → IsBytes p
    → base ≤ 0xf7
    → 0 < length b
    → length b ≤ region_limit
    → (long_framing region f base ≡ ok true)
      ↔ (p ≡ (base + length (big_endian (length b))) ∷ big_endian (length b))
long_framing_iff region f [] b base h valid le ne small = (
  λ e.
      let d = ok_inj _ _ (sym (long_value region f [] b base h le ne small) ∙ e) in
      absurd (ground (arith, d, field_size region f [] b h)),
  λ e. absurd (omega (arith, ap (λ l. length l) e)),
)
long_framing_iff region f (x ∷ q) b base h valid le ne small =
    let n = length b in
    let w = length (big_endian n) in
    let size = field_size region f (x ∷ q) b h in
    let byte = first_of region f x q b h in
    let value = long_value region f (x ∷ q) b base h le ne small in
    (
      λ e.
          let d = ok_inj _ _ (sym value ∙ e) in
          let (d1, rest) =
            and_true (f.source.len == (1 + w) + n)
              ((slice_byte region f.source 0 == base + w)
                && (slice_load_n region f.source 1 w == n))
              d in
          let (d2, d3) =
            and_true (slice_byte region f.source 0 == base + w)
              (slice_load_n region f.source 1 w == n) rest in
          let same : length q ≡ w = ground (arith, d1, size) in
          cons_eq (sym byte ∙ (==_iff (slice_byte region f.source 0) (base + w)).0 d2) (
            big_endian_unique q n valid.1 same (
              sym (load_value region f x q b h)
              ∙ ap (λ (k : ℕ). slice_load_n region f.source 1 k) same
              ∙ (==_iff (slice_load_n region f.source 1 w) n).0 d3)),
      λ e.
          let head : x ≡ base + w = ap (λ l. get_or l 0 0) e in
          let tail : q ≡ big_endian n = ap (drop 1) e in
          let load : slice_load_n region f.source 1 w ≡ n =
            ap (λ l. slice_load_n region f.source 1 (length l)) (sym tail)
            ∙ load_value region f x q b h
            ∙ ap from_bytes tail
            ∙ from_bytes-big_endian n in
          value
          ∙ rw
              (
                load,
                byte ∙ head,
                (==_iff f.source.len ((1 + w) + n)).1
                    (omega (arith, size, ap (λ l. length l) tail)),
                ==-refl n,
                ==-refl (base + w),
              )
              refl,
    )

-- The framings of both kinds.
pub header_framing_iff :
    (region : List ℕ) (f : RlpFieldRef) (p b : List ℕ) (base : ℕ)
    → IsField region f p b
    → IsBytes p
    → base ≤ 0xc0
    → length b ≤ region_limit
    → ((if leb (length b) 55
          then ok (short_framing region f base)
          else long_framing region f (base + 55))
        ≡ ok true)
      ↔ (p ≡ encode_header base (length b))
header_framing_iff region f p b base h valid le small = elim (Bool-cases (leb (length b) 55)) [
  | inl e ↦
      let i = short_framing_iff region f p b base h le (leb→le (length b) 55 e) in
      unfold encode_header in
      rw e (λ g. i.0 (ok_inj (short_framing region f base) true g), λ g. ap ok (i.1 g))
  | inr e ↦
      let i =
        long_framing_iff region f p b (base + 55) h valid (omega arith) (ground arith) small in
      unfold encode_header in rw e (i.0, i.1)
]
