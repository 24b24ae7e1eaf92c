-- ===== src/Rlp/Scratch.antt =====
-- The scratch region: kernel/scratch.py and the `host_scratch_` functions of
-- contract/HostContract.py.
use evm_sail.Base.{
  ◌>>=◌, ℕ, ◌+◌, ◌-◌, ltb, leb, ◌==◌, if◌then◌else◌, List, [], ◌∷◌, ◌++◌, length, take, drop,
  replicate, Outcome, ok, raised,
}
use evm_sail.Rlp.Slices.{Slice, slice, sub_slice, slice_bytes, word_bytes, to_bytes}

-- `scratch_bytes` of the host and the register `scratch_arena`.
pub record Scratch : Type 0 where
  pub bytes : List ℕ
  pub arena : Slice

abbrev pub empty_slice : Slice
empty_slice = record { off = 0; len = 0 }

unfoldable pub ensure_length : List ℕ → ℕ → List ℕ
ensure_length region required =
    if ltb (length region) required
    then region ++ replicate (required - length region) 0
    else region

-- `_scratch_store`: the bytes from `offset` on are replaced by the payload, and the slice that is
-- returned becomes the arena.
unfoldable pub scratch_store : ℕ → List ℕ → Scratch → Outcome Scratch
unfolding ensure_length slice
scratch_store offset payload s =
    let stop = offset + length payload in
    let region = ensure_length s.bytes stop in
    slice 0 stop >>= λ arena.
    ok (record { bytes = take offset region ++ payload ++ drop stop region; arena = arena })

unfoldable pub scratch_reserve : ℕ → Scratch → Scratch × ℕ
unfolding ensure_length
scratch_reserve sail_len s =
    (record s { bytes = ensure_length s.bytes (s.arena.len + sail_len) }, s.arena.len)

unfoldable pub scratch_push_byte : ℕ → Scratch → Outcome Scratch
unfolding scratch_store
scratch_push_byte value s = scratch_store s.arena.len (value ∷ []) s

-- A slice of another region, the input or the log data.
unfoldable pub scratch_push_slice : List ℕ → Slice → Scratch → Outcome Scratch
unfolding scratch_store slice_bytes
scratch_push_slice region value s =
    if value.len == 0 then ok s else scratch_store s.arena.len (slice_bytes region value) s

unfoldable pub scratch_scratch_push_slice : Slice → Scratch → Outcome Scratch
unfolding scratch_push_slice
scratch_scratch_push_slice value s = scratch_push_slice s.bytes value s

-- An address is the number of its 20 bytes.
unfoldable pub scratch_push_address : ℕ → Scratch → Outcome Scratch
unfolding scratch_store to_bytes
scratch_push_address value s = scratch_store s.arena.len (to_bytes 20 value) s

unfoldable pub scratch_push_word_be : ℕ → ℕ → Scratch → Outcome Scratch
unfolding scratch_store word_bytes
scratch_push_word_be value sail_len s =
    if sail_len == 0 then ok s else scratch_store s.arena.len (word_bytes value sail_len) s

unfoldable pub scratch_finish : ℕ → Scratch → Outcome Slice
unfolding sub_slice
scratch_finish start s =
    if leb start s.arena.len then sub_slice s.arena start (s.arena.len - start) else raised

unfoldable pub scratch_rewind : ℕ → Scratch → Outcome Scratch
unfolding sub_slice
scratch_rewind mark s =
    if leb mark s.arena.len
    then (sub_slice s.arena 0 mark >>= λ arena.
        ok (record { bytes = take mark s.bytes; arena = arena }))
    else raised

unfoldable pub scratch_reset : Scratch → Scratch
scratch_reset s = record { bytes = []; arena = empty_slice }
