-- ===== src/Memory/Bytes.antt =====
-- The memory operations of contract/HostContract.py. The region is the list of its bytes.
use evm_sail.Base.{
  ℕ, ◌+◌, ◌-◌, List, [], ◌∷◌, ◌++◌, length, leb, if◌then◌else◌, take, drop, replicate, Outcome, ok,
  raised,
}
use evm_sail.Rlp.Slices.{from_bytes, word_bytes, ljust}
use evm_sail.Rlp.Scratch.{ensure_length}

-- `_ensure_length`, and the assignment of a payload to the bytes from `absolute` on.
unfoldable pub mem_assign : ℕ → List ℕ → List ℕ → List ℕ
unfolding ensure_length
mem_assign absolute payload memory =
    let stop = absolute + length payload in
    let region = ensure_length memory stop in take absolute region ++ payload ++ drop stop region

unfoldable pub mem_write_byte : ℕ → ℕ → List ℕ → List ℕ
unfolding mem_assign
mem_write_byte offset value memory = mem_assign offset (value ∷ []) memory

unfoldable pub mem_expand : ℕ → ℕ → ℕ → List ℕ → Outcome (List ℕ)
unfolding mem_assign
mem_expand base established required memory =
    if leb (base + required) (base + established)
    then raised
    else ok (
        mem_assign (base + established) (replicate (base + required - (base + established)) 0)
          memory)

-- The bytes that are read, with zeros for those beyond the end.
unfoldable pub mem_read : ℕ → ℕ → List ℕ → List ℕ
unfolding ljust
mem_read absolute count memory = ljust count (take count (drop absolute memory))

unfoldable pub mem_move : ℕ → ℕ → ℕ → List ℕ → List ℕ
unfolding mem_read mem_assign
mem_move destination source count memory =
    mem_assign destination (mem_read source count memory) memory

unfoldable pub mem_load_word : ℕ → List ℕ → ℕ
unfolding mem_read from_bytes
mem_load_word offset memory = from_bytes (mem_read offset 32 memory)

unfoldable pub mem_store_word : ℕ → ℕ → List ℕ → List ℕ
unfolding mem_assign word_bytes
mem_store_word offset value memory = mem_assign offset (word_bytes value 32) memory
