-- ===== src/Gas/Memory.antt =====
-- The size of memory in words, its cost, and the charge for growing it; the memory addresses of
-- extractions/python/src/evm/evm/machine.py.
use evm_sail.Base.{
  ℕ, ◌+◌, ◌-◌, ◌*◌, ◌^◌, Bool, true, false, leb, ◌==◌, if◌then◌else◌, Outcome, ok, fatal,
  execution_invalid,
}
use evm_sail.Runtime.{sail_tdiv_int, sail_tmod_int, sail_ediv_int}
use evm_sail.Word.{word_div_word, word_mod_word, word_add_word}
use evm_sail.Gas.Schedule.{g_memory}

-- `GasCharge` of primitives/gas.py.
pub record GasCharge : Type 0 where
  pub affordable : Bool
  pub cost : ℕ

abbrev pub gas_charge : ℕ → GasCharge
gas_charge cost = record { affordable = true; cost = cost }

abbrev pub gas_charge_unaffordable : GasCharge
gas_charge_unaffordable = record { affordable = false; cost = 0 }

-- The largest offset, `(1 << 32) - 1`.
abbrev pub memory_limit : ℕ
memory_limit = 2 ^ 32 - 1

unfoldable pub memory_word_count : ℕ → ℕ
memory_word_count byte_len =
    let quotient = sail_tdiv_int byte_len 32 in
    if sail_tmod_int byte_len 32 == 0 then quotient else quotient + 1

unfoldable pub memory_word_count_word : ℕ → ℕ
unfolding word_div_word word_mod_word word_add_word
memory_word_count_word byte_len =
    let quotient = word_div_word byte_len 32 in
    if word_mod_word byte_len 32 == 0 then quotient else word_add_word quotient 1

unfoldable pub mem_cost : ℕ → ℕ
mem_cost words = g_memory * words + sail_ediv_int (words * words) 512

unfoldable pub memory_requested_height : ℕ → ℕ → ℕ
memory_requested_height start size =
    if size == 0
    then 0
    else if leb start memory_limit
    then (if leb size (memory_limit - start) then start + size else memory_limit + 1)
    else memory_limit + 1

-- `MemoryRangeFields` and `MemoryAccessFields` of primitives/quantities.py.
pub record MemoryRange : Type 0 where
  pub off : ℕ
  pub len : ℕ

pub record MemoryAccess : Type 0 where
  pub range : MemoryRange
  pub requested_height : ℕ

unfoldable pub memory_range : ℕ → ℕ → MemoryRange
memory_range off len = record { off = off; len = len }

abbrev pub empty_memory_access : MemoryAccess
empty_memory_access = record { range = record { off = 0; len = 0 }; requested_height = 0 }

unfoldable pub memory_access : ℕ → ℕ → Outcome MemoryAccess
unfolding memory_range
memory_access start size =
    if size == 0
    then ok empty_memory_access
    else if leb start memory_limit
    then (if leb size (memory_limit - start)
        then ok (record { range = memory_range start size; requested_height = start + size })
        else fatal execution_invalid)
    else fatal execution_invalid

unfoldable pub memory_high_water : ℕ → ℕ
memory_high_water height = height

unfoldable pub memory_expansion_gas_cost : ℕ → ℕ → ℕ → GasCharge
unfolding memory_high_water
memory_expansion_gas_cost mem requested_height available =
    if leb requested_height memory_limit
    then (let new_words = memory_word_count requested_height in
        let old_words = memory_word_count (memory_high_water mem) in
        if leb new_words old_words
        then gas_charge 0
        else (let old_cost = mem_cost old_words in
            let new_cost = mem_cost new_words in
            if leb old_cost new_cost
            then (let exact_cost = new_cost - old_cost in
                if leb exact_cost available then gas_charge exact_cost else gas_charge_unaffordable)
            else gas_charge 0))
    else gas_charge_unaffordable

unfoldable pub memory_absolute : ℕ → ℕ → Outcome ℕ
memory_absolute base relative =
    if leb relative (memory_limit - base) then ok (base + relative) else fatal execution_invalid

unfoldable pub memory_parent_base : ℕ → ℕ → Outcome ℕ
memory_parent_base child_base parent_height =
    if leb parent_height child_base
    then ok (child_base - parent_height)
    else fatal execution_invalid
