-- ===== src/Rlp/Slices.antt =====
-- Slices of a byte region: primitives/bytes.py, the reads of host/region_access.py, and the
-- helpers of contract/HostContract.py behind them. A region is the list of its bytes. The input
-- and the scratch region have the same slices and reads under two names.
use evm_sail.Base.{
  ℕ, zero, suc, ◌+◌, ◌-◌, ◌*◌, ◌/◌, ◌%◌, ◌^◌, ltb, leb, ◌==◌, if◌then◌else◌, List, [], ◌∷◌, ◌++◌,
  length, get_or, take, drop, replicate, Outcome, ok, raised,
}
use evm_sail.Word.{modulus}

-- `off` is the field `bytes` and the equal `validity.off`.
pub record Slice : Type 0 where
  pub off : ℕ
  pub len : ℕ

-- The bound on the end of a slice.
abbrev pub region_limit : ℕ
region_limit = 2 ^ 32 - 1

-- `validate`: a slice that ends beyond the limit raises.
unfoldable pub slice : ℕ → ℕ → Outcome Slice
slice off sail_len =
    if leb (off + sail_len) region_limit then ok (record { off = off; len = sail_len }) else raised

unfoldable pub sub_slice : Slice → ℕ → ℕ → Outcome Slice
unfolding slice
sub_slice s off sail_len = slice (s.off + off) sail_len

-- A suffix from beyond the end has a negative length, which raises.
unfoldable pub slice_suffix : Slice → ℕ → Outcome Slice
unfolding slice
slice_suffix s off = if leb off s.len then slice (s.off + off) (s.len - off) else raised

-- `_slice_bytes`: what stands outside the region is missing.
unfoldable pub slice_bytes : List ℕ → Slice → List ℕ
slice_bytes region s = take s.len (drop s.off region)

-- `_region_byte`.
unfoldable pub region_byte : List ℕ → Slice → ℕ → ℕ
unfolding slice_bytes
region_byte region s off = get_or (slice_bytes region s) off 0

-- `int.from_bytes(payload, "big")` and `value.to_bytes(width, "big")`.
unfoldable pub from_bytes : List ℕ → ℕ
from_bytes [] = 0
from_bytes (b ∷ bs) = b * 256 ^ length bs + from_bytes bs

unfoldable pub to_bytes : ℕ → ℕ → List ℕ
to_bytes zero value = []
to_bytes (suc width) value = (value / 256 ^ width % 256) ∷ to_bytes width value

-- `payload.ljust(width, b"\x00")`.
unfoldable pub ljust : ℕ → List ℕ → List ℕ
ljust width payload = payload ++ replicate (width - length payload) 0

-- `_load_word`.
unfoldable pub load_word : List ℕ → Slice → ℕ → ℕ → ℕ
unfolding slice_bytes from_bytes ljust
load_word region s off width =
    from_bytes (ljust width (take width (drop off (slice_bytes region s))))

-- `_word_bytes`: the last `width` bytes of the 32; the slice `[-0:]` is all of them.
unfoldable pub word_bytes : ℕ → ℕ → List ℕ
unfolding to_bytes
word_bytes value width =
    if width == 0
    then to_bytes 32 (value % modulus)
    else drop (32 - width) (to_bytes 32 (value % modulus))

-- `stateless_input_slice_byte` and `scratch_byte`.
unfoldable pub slice_byte : List ℕ → Slice → ℕ → ℕ
unfolding region_byte
slice_byte region s off = if ltb off s.len then region_byte region s off else 0

-- `stateless_input_slice_load_n` and `scratch_slice_load_n`.
unfoldable pub slice_load_n : List ℕ → Slice → ℕ → ℕ → ℕ
unfolding load_word
slice_load_n region s off n = if ltb off s.len then load_word region s off n else 0
