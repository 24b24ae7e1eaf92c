-- ===== src/Rlp/ReadBack.antt =====
-- `rlp_decode_u256` and `rlp_decode_uint64` on what `rlp_write_uint_word` writes.
use mathlib.Core.List.{append-nil}
use native.Mathlib.Nat.{pow-le-pow_right}
use evm_sail.Base.{
  ℕ, ◌^◌, ◌%◌, ◌<◌, ◌≡◌, refl, sym, ap, ◌∙◌, List, [], length, take, arith, ltb, if◌then◌else◌,
  true, false, not, ◌||◌, ok, fatal, FatalError, ◌>>=◌, ge→ltb, lt→ltb, ltb→lt, Bool-cases, inl,
  inr, ◌≤◌,
}
use evm_sail.Word.{IsWord}
use evm_sail.Rlp.Slices.{Slice, from_bytes}
use evm_sail.Rlp.Scratch.{Scratch}
use evm_sail.Rlp.Size.{rlp_uint_word_size}
use evm_sail.Rlp.Write.{rlp_write_uint_word}
use evm_sail.Rlp.Writers.{rlp_write_uint_word-encode_string}
use evm_sail.Rlp.Sizes.{rlp_uint_word_size-length}
use evm_sail.Rlp.Appends.{IsScratch, HasRoom, written}
use evm_sail.Rlp.Encoder.{slice_after}
use evm_sail.Rlp.Decode.{RlpFieldRef, rlp_decode_item, rlp_item_content, rlp_uint64_width}
use evm_sail.Rlp.Canonical.{
  rlp_item_uint_canonical, rlp_decode_word, rlp_decode_u256, rlp_decode_uint64,
}
use evm_sail.Rlp.Reference.{big_endian, encode_string, length-big_endian-le, IsBytes-big_endian}
use evm_sail.Rlp.Header.{from_bytes-big_endian, rlp_uint64_width-from_bytes}
use evm_sail.Rlp.BigEndian.{from_bytes-lt}
use evm_sail.Rlp.Sublists.{take_beyond, length-take}
use evm_sail.Rlp.Within.{IsSlice}
use evm_sail.Rlp.ItemParts.{IsItem}
use evm_sail.Rlp.RoundTrip.{rlp_decode_item-encode_string}
use evm_sail.Rlp.Values.{uint_canonical, word_value}

rlp_decode_uint64-bind :
    (region : List ℕ) (f : RlpFieldRef)
    → rlp_decode_uint64 region f ≡ (
        rlp_item_uint_canonical region f >>= λ canonical.
        if not canonical || ltb 8 f.content_len
        then fatal FatalError.rlp_decode
        else rlp_item_content f >>= λ content.
            ok (rlp_uint64_width region content (f.content_len % 9)))
unfolding rlp_decode_uint64
rlp_decode_uint64-bind region f = refl

uint64_value :
    (region : List ℕ) (c : Slice) (w : ℕ) (rest : List ℕ) (f : RlpFieldRef)
    → w < 2 ^ 64
    → IsItem region c false (encode_string (big_endian w)) (big_endian w) rest f
    → rlp_decode_uint64 region f ≡ ok w
uint64_value region c w rest f lt i =
    let bs = big_endian w in
    let (d, e, slice, bytes) = i.item_content in
    let small = length-big_endian-le w 8 (omega (arith, lt)) lt in
    let n : f.content_len % 9 ≡ length bs = omega (arith, i.content_size, small) in
    rlp_decode_uint64-bind region f
    ∙ rw
        (
          uint_canonical region c w rest f i,
          e,
          ge→ltb 8 f.content_len (omega (arith, i.content_size, small)),
          n,
        )
        (ap ok (
          rlp_uint64_width-from_bytes region d (length bs) (omega (arith, ap (λ l. length l) bytes))
          ∙ ap (λ l. from_bytes (take (length bs) l)) bytes
          ∙ ap from_bytes (take_beyond (length bs) bs (omega arith))
          ∙ from_bytes-big_endian w))

long_bytes : (w : ℕ) → 2 ^ 64 ≤ w → 8 < length (big_endian w)
long_bytes w le = elim (Bool-cases (ltb 8 (length (big_endian w)))) [
  | inl e ↦ ground (arith, e)
  | inr e ↦ absurd (
      omega (
        arith,
        le,
        sym (from_bytes-big_endian w),
        from_bytes-lt (big_endian w) (IsBytes-big_endian w),
        pow-le-pow_right {n = 256} (omega arith) {i = length (big_endian w)} {j = 8}
            (ground (arith, e)),
      ))
]

uint64_refused :
    (region : List ℕ) (c : Slice) (w : ℕ) (rest : List ℕ) (f : RlpFieldRef)
    → 2 ^ 64 ≤ w
    → IsItem region c false (encode_string (big_endian w)) (big_endian w) rest f
    → rlp_decode_uint64 region f ≡ fatal FatalError.rlp_decode
uint64_refused region c w rest f le i =
    rlp_decode_uint64-bind region f
    ∙ rw
        (
          uint_canonical region c w rest f i,
          lt→ltb 8 f.content_len (omega (arith, i.content_size, long_bytes w le)),
        )
        refl

-- A number is read as a 64-bit number where it is one.
rlp_decode_uint64-value :
    (region : List ℕ) (c : Slice) (w : ℕ) (rest : List ℕ) (f : RlpFieldRef)
    → IsItem region c false (encode_string (big_endian w)) (big_endian w) rest f
    → rlp_decode_uint64 region f ≡ (if ltb w (2 ^ 64) then ok w else fatal FatalError.rlp_decode)
rlp_decode_uint64-value region c w rest f i = elim (Bool-cases (ltb w (2 ^ 64))) [
  | inl e ↦ rw e (uint64_value region c w rest f (ltb→lt w (2 ^ 64) e) i)
  | inr e ↦ rw e (uint64_refused region c w rest f (ground (arith, e)) i)
]

rlp_decode_u256-bind :
    (region : List ℕ) (f : RlpFieldRef)
    → rlp_decode_u256 region f ≡ (
        rlp_item_uint_canonical region f >>= λ canonical.
        if canonical then rlp_decode_word region f else fatal FatalError.rlp_decode)
unfolding rlp_decode_u256
rlp_decode_u256-bind region f = refl

-- A word that is written as a number to a scratch region with room for it is decoded where it was
-- written as the word, and as a 64-bit number exactly if it is below 2 ^ 64, with the decoding
-- error if not. The field that is decoded has the size that is computed for the word.
pub rlp_decode_u256-rlp_write_uint_word :
    (w : ℕ) (s : Scratch)
    → IsWord w
    → IsScratch s
    → HasRoom s (encode_string (big_endian w))
    → (next : Scratch) × (rlp_write_uint_word w s ≡ ok next)
      × ((f : RlpFieldRef) × (rlp_decode_item next.bytes
              (record { off = s.arena.len; len = rlp_uint_word_size w })
            ≡ ok f)
          × (rlp_decode_u256 next.bytes f ≡ ok w)
          × (rlp_decode_uint64 next.bytes f
              ≡ (if ltb w (2 ^ 64) then ok w else fatal FatalError.rlp_decode))
          × (f.source.len ≡ rlp_uint_word_size w))
rlp_decode_u256-rlp_write_uint_word w s word h room =
    let p = encode_string (big_endian w) in
    let (next, e, valid, bytes, stop) = rlp_write_uint_word-encode_string w s word h room in
    let size = rlp_uint_word_size-length w word in
    let cursor : Slice = record { off = s.arena.len; len = length p } in
    let within : IsSlice next.bytes cursor = record {
      within = omega (arith, valid.arena_end, stop);
      limited = room;
    } in
    let read =
      slice_after next.bytes (written s) p next.arena.len s.arena.len
        (length-take s.arena.len s.bytes h.arena_end) bytes stop
      ∙ sym (append-nil p) in
    let (f, d, item) =
      rlp_decode_item-encode_string next.bytes cursor (big_endian w) [] within
        (IsBytes-big_endian w) read in
    (
      next,
      e,
      rw size (
        f,
        d,
        decode_u256-value next.bytes f w (uint_canonical next.bytes cursor w [] f item)
            (word_value next.bytes cursor w [] f word item),
        rlp_decode_uint64-value next.bytes cursor w [] f item,
        item.size,
      ),
    )
  where
    decode_u256-value :
        (region : List ℕ) (g : RlpFieldRef) (v : ℕ)
        → rlp_item_uint_canonical region g ≡ ok true
        → rlp_decode_word region g ≡ ok v
        → rlp_decode_u256 region g ≡ ok v
    decode_u256-value region g v a b =
        rlp_decode_u256-bind region g
        ∙ ap
            (λ r. r >>= λ canonical.
              if canonical then rlp_decode_word region g else fatal FatalError.rlp_decode)
            a
        ∙ b
