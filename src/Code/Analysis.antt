-- ===== src/Code/Analysis.antt =====
-- `analyze_code` of host/code.py, the deep-stack operations of primitives/code.py, and the tables
-- of jump destinations of contract/HostContract.py.
use evm_sail.Base.{
  ◌>>=◌, ℕ, zero, suc, ◌+◌, ◌-◌, Bool, true, false, ltb, leb, ◌==◌, ◌&&◌, ◌||◌, not, if◌then◌else◌,
  List, Option, none, some, Outcome, ok, raised,
}
use evm_sail.Profile.{amsterdam}
use evm_sail.Rlp.Slices.{Slice, slice_byte}

pub data DeepStackOperation : Type 0 where
  deep_stack_duplicate deep_stack_swap deep_stack_exchange : DeepStackOperation
  not_deep_stack_operation : DeepStackOperation

abbrev pub deep_stack_operation : ℕ → DeepStackOperation
deep_stack_operation opcode =
    if opcode == 230
    then deep_stack_duplicate
    else if opcode == 231
    then deep_stack_swap
    else if opcode == 232
    then deep_stack_exchange
    else not_deep_stack_operation

abbrev pub deep_stack_immediate_valid : ℕ → Bool
deep_stack_immediate_valid value = leb value 90 || leb 128 value

abbrev pub exchange_immediate_valid : ℕ → Bool
exchange_immediate_valid value = leb value 81 || leb 128 value

abbrev pub deep_stack_operation_immediate_valid : DeepStackOperation → ℕ → Bool
deep_stack_operation_immediate_valid deep_stack_duplicate immediate =
    deep_stack_immediate_valid immediate
deep_stack_operation_immediate_valid deep_stack_swap immediate =
    deep_stack_immediate_valid immediate
deep_stack_operation_immediate_valid deep_stack_exchange immediate =
    exchange_immediate_valid immediate
deep_stack_operation_immediate_valid not_deep_stack_operation immediate = false

-- The set of positions by its membership test.
pub record JumpdestTable : Type 0 where
  pub code_length : ℕ
  pub positions : ℕ → Bool

pub record Tables : Type 0 where
  pub jumpdest_tables : ℕ → Option JumpdestTable
  pub next_jumpdest_table : ℕ

-- A dictionary with one entry assigned.
abbrev pub assigned : ℕ → JumpdestTable → (ℕ → Option JumpdestTable) → ℕ → Option JumpdestTable
assigned index entry tables i = if i == index then some entry else tables i

unfoldable pub jumpdest_table_alloc : Slice → Tables → Tables × ℕ
jumpdest_table_alloc code state =
    let entry : JumpdestTable = record { code_length = code.len; positions = λ i. false } in
    (
      record {
        jumpdest_tables = assigned state.next_jumpdest_table entry state.jumpdest_tables;
        next_jumpdest_table = state.next_jumpdest_table + 1;
      },
      state.next_jumpdest_table,
    )

unfoldable pub marked : ℕ → ℕ → ℕ → Option JumpdestTable → Tables → Bool × Tables
marked table code_length position none state = (false, state)
marked table code_length position (some entry) state =
    if not (entry.code_length == code_length) || leb entry.code_length position
    then (false, state)
    else (
      true,
      record state {
        jumpdest_tables =
            assigned table (record entry { positions = λ i. (i == position) || entry.positions i })
              state.jumpdest_tables;
      },
    )

unfoldable pub jumpdest_table_mark : ℕ → ℕ → ℕ → Tables → Bool × Tables
unfolding marked
jumpdest_table_mark table code_length position state =
    marked table code_length position (state.jumpdest_tables table) state

unfoldable pub contained : ℕ → ℕ → Option JumpdestTable → Bool
contained code_length destination none = false
contained code_length destination (some entry) =
    if not (entry.code_length == code_length) || leb entry.code_length destination
    then false
    else entry.positions destination

unfoldable pub jumpdest_ref_contains : ℕ → ℕ → ℕ → Tables → Bool
unfolding contained
jumpdest_ref_contains table code_length destination state =
    contained code_length destination (state.jumpdest_tables table)

-- The length of an opcode with its immediate bytes.
unfoldable pub step_of : List ℕ → Slice → ℕ → ℕ → ℕ
unfolding slice_byte
step_of region code fork current =
    let opcode = slice_byte region code current in
    if leb 96 opcode && leb opcode 127
    then opcode - 94
    else if leb amsterdam fork
    then (if deep_stack_operation_immediate_valid (deep_stack_operation opcode)
          (slice_byte region code (current + 1))
        then 2
        else 1)
    else 1

-- The mark of a JUMPDEST.
unfoldable pub mark_at : List ℕ → Slice → ℕ → ℕ → Tables → Outcome Tables
unfolding slice_byte jumpdest_table_mark
mark_at region code table current state =
    if slice_byte region code current == 0x5b
    then (let result = jumpdest_table_mark table code.len current state in
        if result.0 then ok (result.1) else raised)
    else ok state

-- The loop. Each round moves the position by at least one, so that the length of the code is fuel
-- enough.
unfoldable pub scan : ℕ → List ℕ → Slice → ℕ → ℕ → ℕ → Tables → Outcome Tables
unfolding step_of mark_at
scan zero region code fork table position state = if ltb position code.len then raised else ok state
scan (suc fuel) region code fork table position state =
    if ltb position code.len
    then (mark_at region code table position state >>= λ next.
        let step = step_of region code fork position in
        elim (ltb step (code.len - position)) [
          | true ↦ scan fuel region code fork table (position + step) next
          | false ↦ ok next
        ])
    else ok state

unfoldable pub analyze_code_from : List ℕ → Slice → ℕ → ℕ → ℕ → Tables → Outcome Tables
unfolding scan
analyze_code_from region code fork table pc state = scan code.len region code fork table pc state

unfoldable pub analyze_code : List ℕ → Slice → ℕ → Tables → Outcome (ℕ × Tables)
unfolding jumpdest_table_alloc analyze_code_from
analyze_code region code fork state =
    if code.len == 0
    then ok (0, state)
    else (let allocated = jumpdest_table_alloc code state in
        if allocated.1 == 0
        then raised
        else (analyze_code_from region code fork (allocated.1) 0 (allocated.0) >>= λ next.
            ok (allocated.1, next)))
