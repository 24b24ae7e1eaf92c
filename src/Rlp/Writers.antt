-- ===== src/Rlp/Writers.antt =====
-- The writers of slices and of words as numbers.
use evm_sail.Base.{
  ℕ, ◌+◌, ◌≤◌, ◌≡◌, refl, sym, ap, ◌∙◌, List, ◌++◌, length, take, arith, if◌then◌else◌, ◌==◌,
  Bool-cases, inl, inr, get_or, ◌>>=◌, length-append, take_append_length,
}
use evm_sail.Word.{IsWord, word_low_byte}
use evm_sail.Rlp.Slices.{Slice, slice_bytes, to_bytes}
use evm_sail.Rlp.Scratch.{
  Scratch, scratch_push_slice, scratch_scratch_push_slice, scratch_push_word_be,
}
use evm_sail.Rlp.Size.{rlp_minimal_word_len, first_byte}
use evm_sail.Rlp.Write.{
  rlp_write_string_prefix, rlp_write_slice, rlp_write_scratch_slice, rlp_write_uint_word,
}
use evm_sail.Rlp.Reference.{
  big_endian, encode_string, to_bytes-big_endian, rlp_minimal_word_len-length, IsBytes-big_endian,
}
use evm_sail.Rlp.Appends.{
  IsScratch, written, Appends, HasRoom, Appends-then, scratch_push_slice-Appends,
}
use evm_sail.Rlp.Refines.{
  first_byte-get_or, encode_string-prefix, string_prefix, rlp_write_string_prefix-Appends,
  prefixed-Appends, scratch_push_minimal-Appends,
}
use evm_sail.Rlp.Within.{IsSlice, length-slice_bytes}
use evm_sail.Rlp.BigEndian.{IsBytes}
use evm_sail.Rlp.Sublists.{take-drop-take, length-take}

-- Writing a slice of the input or of the log data appends the standard encoding of its bytes to
-- what is written, for every slice within its region, as long as there is room for it.
pub rlp_write_slice-encode_string :
    (region : List ℕ) (d : Slice) (s : Scratch)
    → IsSlice region d
    → IsBytes (slice_bytes region d)
    → IsScratch s
    → HasRoom s (encode_string (slice_bytes region d))
    → Appends s (rlp_write_slice region d s) (encode_string (slice_bytes region d))
rlp_write_slice-encode_string region d s within valid h room =
    rw (rlp_write_slice-bind region d s) (
      prefixed-Appends (slice_bytes region d) d.len (first_byte region d) s
        (scratch_push_slice region d) valid (length-slice_bytes region d within)
        (sym (first_byte-get_or region d)) h room (scratch_push_slice-Appends region d))
  where
    rlp_write_slice-bind :
        (r : List ℕ) (x : Slice) (t : Scratch)
        → rlp_write_slice r x t
          ≡ (rlp_write_string_prefix x.len (first_byte r x) t >>= scratch_push_slice r x)
    rlp_write_slice-bind r x t = unfold rlp_write_slice in refl

-- A slice reads no further than its end.
slice_bytes-take :
    (region : List ℕ) (n : ℕ) (d : Slice)
    → d.off + d.len ≤ n
    → slice_bytes (take n region) d ≡ slice_bytes region d
unfolding slice_bytes
slice_bytes-take region n d h = take-drop-take d.len d.off n region h

-- What is written is not changed by what is appended.
slice_bytes-kept :
    (d : Slice) (s next : Scratch) (p : List ℕ)
    → IsScratch s
    → d.off + d.len ≤ s.arena.len
    → next.arena.len ≡ s.arena.len + length p
    → written next ≡ written s ++ p
    → slice_bytes next.bytes d ≡ slice_bytes s.bytes d
slice_bytes-kept d s next p h below stop bytes =
    sym (slice_bytes-take next.bytes next.arena.len d (omega (arith, stop)))
    ∙ ap (λ r. slice_bytes r d) bytes
    ∙ sym (
        slice_bytes-take (written s ++ p) (length (written s)) d
          (omega (arith, length-take s.arena.len s.bytes h.arena_end)))
    ∙ ap (λ r. slice_bytes r d) (take_append_length (written s) p)
    ∙ slice_bytes-take s.bytes s.arena.len d below

-- Writing a slice of the scratch region itself, which ends below what is written, appends the
-- standard encoding of the bytes it had before the write, as long as there is room for it.
pub rlp_write_scratch_slice-encode_string :
    (d : Slice) (s : Scratch)
    → IsScratch s
    → d.off + d.len ≤ s.arena.len
    → IsBytes (slice_bytes s.bytes d)
    → HasRoom s (encode_string (slice_bytes s.bytes d))
    → Appends s (rlp_write_scratch_slice d s) (encode_string (slice_bytes s.bytes d))
rlp_write_scratch_slice-encode_string d s h below valid room =
    let bs = slice_bytes s.bytes d in
    let within : IsSlice s.bytes d = record {
      within = omega (arith, h.arena_end);
      limited = omega (arith, h.arena_limit);
    } in
    let e = length-slice_bytes s.bytes d within in
    let f = encode_string-prefix bs valid in
    let g : length (encode_string bs)
        ≡ length (string_prefix d.len (first_byte s.bytes d)) + d.len =
      ap (λ l. length l) f
      ∙ rw (e, first_byte-get_or s.bytes d)
          (omega (arith, length-append (string_prefix d.len (get_or bs 0 0)) bs, e)) in
    rw (rlp_write_scratch_slice-bind d s, f, e, sym (first_byte-get_or s.bytes d))
      (Appends-then s (rlp_write_string_prefix d.len (first_byte s.bytes d) s)
        (scratch_scratch_push_slice d) (string_prefix d.len (first_byte s.bytes d)) bs
        (rlp_write_string_prefix-Appends d.len (first_byte s.bytes d) s h
          (omega (arith, h.arena_limit)) (omega (arith, g)))
        (λ next ok_next stop bytes.
          pushed next ok_next
            (slice_bytes-kept d s next (string_prefix d.len (first_byte s.bytes d)) h below stop
              bytes)
            (omega (arith, g, stop, e))))
  where
    rlp_write_scratch_slice-bind :
        (x : Slice) (t : Scratch)
        → rlp_write_scratch_slice x t ≡ (
            rlp_write_string_prefix x.len (first_byte t.bytes x) t >>= scratch_scratch_push_slice x)
    rlp_write_scratch_slice-bind x t = unfold rlp_write_scratch_slice in refl

    pushed :
        (next : Scratch)
        → IsScratch next
        → slice_bytes next.bytes d ≡ slice_bytes s.bytes d
        → HasRoom next (slice_bytes s.bytes d)
        → Appends next (scratch_scratch_push_slice d next) (slice_bytes s.bytes d)
    pushed next ok_next same r =
        unfold scratch_scratch_push_slice in
        rw (sym same) (
          scratch_push_slice-Appends next.bytes d next ok_next
            (let q : HasRoom next (slice_bytes next.bytes d) = rw same r in q))

-- The first byte matters only for a string of one byte.
one_byte_prefix :
    (n a b : ℕ) (s : Scratch)
    → (n ≡ 1 → a ≡ b)
    → rlp_write_string_prefix n a s ≡ rlp_write_string_prefix n b s
one_byte_prefix n a b s h = elim (Bool-cases (n == 1)) [
  | inl e ↦ ap (λ (x : ℕ). rlp_write_string_prefix n x s) (h (ground arith))
  | inr e ↦ unfold rlp_write_string_prefix in rw e refl
]

pub single_low_byte :
    (w : ℕ)
    → IsWord w
    → rlp_minimal_word_len w ≡ 1
    → (if rlp_minimal_word_len w == 1 then word_low_byte w else 0) ≡ get_or (big_endian w) 0 0
single_low_byte w word e =
    rw (sym (to_bytes-big_endian w word), e) (unfold to_bytes word_low_byte in omega arith)

-- Writing a word as a number appends the standard encoding of its big-endian bytes without
-- leading zeros, as long as there is room for it.
pub rlp_write_uint_word-encode_string :
    (w : ℕ) (s : Scratch)
    → IsWord w
    → IsScratch s
    → HasRoom s (encode_string (big_endian w))
    → Appends s (rlp_write_uint_word w s) (encode_string (big_endian w))
rlp_write_uint_word-encode_string w s word h room =
    rw
      (
        rlp_write_uint_word-bind w s,
        one_byte_prefix (rlp_minimal_word_len w)
            (if rlp_minimal_word_len w == 1 then word_low_byte w else 0) (get_or (big_endian w) 0 0)
            s (single_low_byte w word),
      )
      (prefixed-Appends (big_endian w) (rlp_minimal_word_len w) (get_or (big_endian w) 0 0) s
        (scratch_push_word_be w (rlp_minimal_word_len w)) (IsBytes-big_endian w)
        (sym (rlp_minimal_word_len-length w word)) refl h room
        (λ next valid. scratch_push_minimal-Appends w next valid word))
  where
    rlp_write_uint_word-bind :
        (v : ℕ) (t : Scratch)
        → rlp_write_uint_word v t ≡ (
            rlp_write_string_prefix
              (rlp_minimal_word_len v)
              (if rlp_minimal_word_len v == 1 then word_low_byte v else 0)
              t
            >>= scratch_push_word_be v (rlp_minimal_word_len v))
    rlp_write_uint_word-bind v t = unfold rlp_write_uint_word in refl
