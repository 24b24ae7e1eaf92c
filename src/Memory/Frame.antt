-- ===== src/Memory/Frame.antt =====
-- The memory of a frame: `expand_memory` and `mem_set_byte` to `mem_mcopy` of evm/machine.py.
use evm_sail.Base.{
  ◌>>=◌, ℕ, ◌-◌, List, leb, ltb, ◌==◌, if◌then◌else◌, Outcome, ok, fatal, execution_invalid,
}
use evm_sail.Gas.{memory_limit, memory_absolute}
use evm_sail.Word.{word_low_byte}
use evm_sail.Memory.Bytes.{mem_expand, mem_write_byte, mem_load_word, mem_store_word, mem_move}

-- The new height, and the bytes.
unfoldable pub expand_memory : ℕ → ℕ → ℕ → List ℕ → Outcome (ℕ × List ℕ)
unfolding mem_expand
expand_memory base height requested_height memory =
    if leb requested_height (memory_limit - base)
    then (if ltb height requested_height
        then (mem_expand base height requested_height memory >>= λ grown.
            ok (requested_height, grown))
        else ok (height, memory))
    else fatal execution_invalid

unfoldable pub mem_set_byte : ℕ → ℕ → ℕ → List ℕ → Outcome (List ℕ)
unfolding memory_absolute mem_write_byte
mem_set_byte base off v memory = do
  absolute_offset ← memory_absolute base off
  ok (mem_write_byte absolute_offset v memory)

unfoldable pub mem_load : ℕ → ℕ → List ℕ → Outcome ℕ
unfolding memory_absolute mem_load_word
mem_load base off memory = do
  absolute_offset ← memory_absolute base off
  ok (mem_load_word absolute_offset memory)

unfoldable pub mem_store : ℕ → ℕ → ℕ → List ℕ → Outcome (List ℕ)
unfolding memory_absolute mem_store_word
mem_store base off w memory = do
  absolute_offset ← memory_absolute base off
  ok (mem_store_word absolute_offset w memory)

unfoldable pub mem_store_byte : ℕ → ℕ → ℕ → List ℕ → Outcome (List ℕ)
unfolding mem_set_byte word_low_byte
mem_store_byte base off w memory = mem_set_byte base off (word_low_byte w) memory

unfoldable pub mem_mcopy : ℕ → ℕ → ℕ → ℕ → List ℕ → Outcome (List ℕ)
unfolding memory_absolute mem_move
mem_mcopy base dst src sail_len memory = if sail_len == 0 then ok memory else (do
  absolute_dst ← memory_absolute base dst
  absolute_src ← memory_absolute base src
  ok (mem_move absolute_dst absolute_src sail_len memory))
