-- ===== src/Rlp/FixedWidth.antt =====
-- `rlp_write_list_prefix`, `rlp_write_word` and `rlp_write_addr` of lib/rlp/encoding.py.
use evm_sail.Base.{
  ℕ, suc, ◌+◌, ◌≤◌, ◌≡◌, refl, ap, ◌∙◌, List, length, arith, Outcome, get_or, ◌>>=◌, length-append,
  ==-ne,
}
use evm_sail.Word.{IsWord}
use evm_sail.Rlp.Slices.{region_limit, to_bytes}
use evm_sail.Rlp.Scratch.{Scratch, scratch_push_word_be, scratch_push_address}
use evm_sail.Rlp.Size.{rlp_encoded_word_length}
use evm_sail.Rlp.Write.{
  rlp_write_string_prefix, rlp_write_list_prefix, rlp_write_word, rlp_write_addr,
}
use evm_sail.Rlp.Reference.{encode_header, encode_string, encode_list}
use evm_sail.Rlp.Appends.{
  IsScratch, Appends, HasRoom, Appends-then, scratch_push_address-Appends,
  scratch_push_word_be-Appends,
}
use evm_sail.Rlp.Refines.{
  encode_string-prefix, string_prefix, short_header, rlp_write_list_prefix-Appends,
  prefixed-Appends,
}
use evm_sail.Rlp.BigEndian.{IsBytes, IsBytes-to_bytes, length-to_bytes}

-- Writing a list prefix and then the content, by any writer that appends exactly the content where
-- there is room for it, appends the standard encoding of the list, if there is room for that.
pub rlp_write_list_prefix-encode_list :
    (content : List ℕ) (s : Scratch) (write : Scratch → Outcome Scratch)
    → IsScratch s
    → HasRoom s (encode_list content)
    → ((next : Scratch) → IsScratch next → HasRoom next content → Appends next (write next) content)
    → Appends s (rlp_write_list_prefix (length content) s >>= write) (encode_list content)
unfolding encode_list
rlp_write_list_prefix-encode_list content s write h room step =
    let hdr = encode_header 0xc0 (length content) in
    let e = length-append hdr content in
    Appends-then s (rlp_write_list_prefix (length content) s) write hdr content
      (rlp_write_list_prefix-Appends (length content) s h (omega (arith, e)) (omega (arith, e)))
      (λ next valid stop bytes. step next valid (omega (arith, e, stop)))

-- Writing a word in full and writing an address append the standard encodings of their 32 and
-- their 20 bytes, where there is room for the 33 bytes of the first.
rlp_write_word-encode_string :
    (w a : ℕ) (s : Scratch)
    → IsWord w
    → IsScratch s
    → s.arena.len + rlp_encoded_word_length ≤ region_limit
    → Appends s (rlp_write_word w s) (encode_string (to_bytes 32 w))
      × Appends s (rlp_write_addr a s) (encode_string (to_bytes 20 a))
rlp_write_word-encode_string w a s word h room = (
  rw (rlp_write_word-bind w s) (
      prefixed-Appends (to_bytes 32 w) 32 (get_or (to_bytes 32 w) 0 0) s (scratch_push_word_be w 32)
        (IsBytes-to_bytes 32 w) (length-to_bytes 32 w) refl h
        (omega (
          arith,
          length-to_bytes 32 w,
          fixed_length (to_bytes 32 w) 30 (length-to_bytes 32 w) (IsBytes-to_bytes 32 w)
              (omega arith),
        ))
        (λ next valid. scratch_push_word_be-Appends w 32 next valid word (omega arith))),
  rw (rlp_write_addr-bind a s) (
      prefixed-Appends (to_bytes 20 a) 20 (get_or (to_bytes 20 a) 0 0) s (scratch_push_address a)
        (IsBytes-to_bytes 20 a) (length-to_bytes 20 a) refl h
        (omega (
          arith,
          length-to_bytes 20 a,
          fixed_length (to_bytes 20 a) 18 (length-to_bytes 20 a) (IsBytes-to_bytes 20 a)
              (omega arith),
        ))
        (scratch_push_address-Appends a)),
)
  where
    rlp_write_word-bind :
        (v : ℕ) (t : Scratch)
        → rlp_write_word v t ≡ (
            rlp_write_string_prefix 32 (get_or (to_bytes 32 v) 0 0) t >>= scratch_push_word_be v 32)
    rlp_write_word-bind v t = unfold rlp_write_word in refl

    rlp_write_addr-bind :
        (v : ℕ) (t : Scratch)
        → rlp_write_addr v t
          ≡ (rlp_write_string_prefix 20 (get_or (to_bytes 20 v) 0 0) t >>= scratch_push_address v)
    rlp_write_addr-bind v t = unfold rlp_write_addr in refl

    fixed_length :
        (bs : List ℕ) (n : ℕ)
        → length bs ≡ suc (suc n)
        → IsBytes bs
        → suc (suc n) ≤ 55
        → length (encode_string bs) ≡ 1 + length bs
    fixed_length bs n e valid le =
        ap (λ l. length l) (encode_string-prefix bs valid)
        ∙ length-append (string_prefix (length bs) (get_or bs 0 0)) bs
        ∙ rw (e, ==-ne (suc (suc n)) 1 (omega arith))
            (ap (λ k. k + suc (suc n)) (short_header (suc (suc n)) le))
