-- ===== src/Memory/Tests.antt =====
-- Memory at single inputs.
use evm_sail.Base.{
  ℕ, ◌+◌, ◌-◌, ◌*◌, ◌^◌, ◌≡◌, refl, List, [], ◌∷◌, leb, ltb, ◌&&◌, if◌then◌else◌, arith, ok, inr,
}
use evm_sail.Memory.Bytes.{mem_move, mem_load_word}
use evm_sail.Memory.Frame.{expand_memory, mem_load, mem_store, mem_mcopy}
use evm_sail.Memory.Reads.{byte_at}
use evm_sail.Memory.Laws.{mem_store-mem_load, mem_mcopy-byte_at, expand_memory-byte_at}

abbrev bytes : List ℕ
bytes = 1 ∷ 2 ∷ 3 ∷ 4 ∷ 5 ∷ []

-- A copy onto itself, one byte further.
move_value : mem_move 2 1 3 bytes ≡ 1 ∷ 2 ∷ 2 ∷ 3 ∷ 4 ∷ []
unfolding mem_move
move_value = refl

load_value : mem_load_word 4 bytes ≡ 5 * 256 ^ 31
unfolding mem_load_word
load_value = refl

mem_store-mem_load_example :
    (next : List ℕ) × (mem_store 2 0 77 bytes ≡ ok next)
    × (mem_load 2 0 next ≡ ok 77)
    × (mem_load 2 32 next ≡ mem_load 2 32 bytes)
mem_store-mem_load_example =
    mem_store-mem_load 2 0 32 77 bytes (omega arith) (omega arith) (omega arith) (inr (omega arith))

mem_mcopy-byte_at_example :
    (next : List ℕ) × (mem_mcopy 1 1 0 3 bytes ≡ ok next)
    × ((i : ℕ)
        → byte_at next i ≡ (
            if leb (1 + 1) i && ltb i (1 + 1 + 3)
            then byte_at bytes (1 + 0 + (i - (1 + 1)))
            else byte_at bytes i))
mem_mcopy-byte_at_example =
    mem_mcopy-byte_at 1 1 0 3 bytes (omega arith) (omega arith) (omega arith)

expand_memory-byte_at_example :
    (next : List ℕ) × (expand_memory 2 1 64 bytes ≡ ok (if ltb 1 64 then 64 else 1, next))
    × ((i : ℕ) → byte_at next i ≡ (if leb (2 + 1) i && ltb i (2 + 64) then 0 else byte_at bytes i))
expand_memory-byte_at_example = expand_memory-byte_at 2 1 64 bytes (omega arith)
