-- ===== src/Stack/Pointer.antt =====
-- `StackPointer` with host/stack.py, and `validate_stack` to `stack_set` of evm/machine.py.
use evm_sail.Base.{ℕ, ◌+◌, ◌-◌, leb, ltb, if◌then◌else◌, Outcome, ok, raised}
use evm_sail.Stack.Slots.{
  Stack, stack_reset_host, operand_stack_push_empty_frame_host, stack_slot_read_host,
  stack_slot_write_host, stack_slot_write_next_host, stack_top_advance_host, stack_top_retreat_host,
}

-- `STACK_LIMIT`, and the bound of `operand_stack_height`.
abbrev pub stack_limit : ℕ
stack_limit = 1024

-- The cursor of the host, and its height.
pub record StackPointer : Type 0 where
  pub storage : ℕ
  pub height : ℕ

unfoldable pub stack_reset : Stack → Stack × StackPointer
unfolding stack_reset_host
stack_reset state =
    let cleared = stack_reset_host state in (cleared.0, record { storage = cleared.1; height = 0 })

unfoldable pub operand_stack_push_empty_frame : Stack → Stack × StackPointer
unfolding operand_stack_push_empty_frame_host
operand_stack_push_empty_frame state =
    let pushed = operand_stack_push_empty_frame_host state in
    (pushed.0, record { storage = pushed.1; height = 0 })

abbrev pub stack_top_height : StackPointer → ℕ
stack_top_height top = top.height

unfoldable pub stack_slot_read : StackPointer → ℕ → Stack → Outcome ℕ
unfolding stack_slot_read_host
stack_slot_read top index state = stack_slot_read_host top.storage index state

unfoldable pub stack_slot_write : StackPointer → ℕ → ℕ → Stack → Outcome Stack
unfolding stack_slot_write_host
stack_slot_write top index value state = stack_slot_write_host top.storage index value state

unfoldable pub stack_slot_write_next : StackPointer → ℕ → Stack → Stack
unfolding stack_slot_write_next_host
stack_slot_write_next top value state = stack_slot_write_next_host top.storage value state

-- `operand_stack_height` raises above its limit.
unfoldable pub pointer_at : ℕ → Outcome StackPointer
pointer_at storage =
    if leb storage stack_limit then ok (record { storage = storage; height = storage }) else raised

unfoldable pub stack_top_advance : StackPointer → ℕ → Outcome StackPointer
unfolding stack_top_advance_host pointer_at
stack_top_advance top count = pointer_at (stack_top_advance_host top.storage count)

unfoldable pub stack_top_retreat : StackPointer → ℕ → Outcome StackPointer
unfolding stack_top_retreat_host pointer_at
stack_top_retreat top count = pointer_at (stack_top_retreat_host top.storage count)

pub data StackValidation : Type 0 where
  stack_valid stack_underflow_failure stack_overflow_failure : StackValidation

unfoldable pub validate_stack : StackPointer → ℕ → ℕ → StackValidation
validate_stack top inputs outputs =
    let height = stack_top_height top in
    if ltb height inputs
    then stack_underflow_failure
    else if ltb stack_limit (height - inputs + outputs)
    then stack_overflow_failure
    else stack_valid

unfoldable pub read_stack_word : StackPointer → Stack → Outcome ℕ
unfolding stack_slot_read
read_stack_word sp state = stack_slot_read sp 0 state

unfoldable pub write_stack_word : StackPointer → ℕ → Stack → Outcome Stack
unfolding stack_slot_write
write_stack_word sp value state = stack_slot_write sp 0 value state

unfoldable pub stack_set : StackPointer → ℕ → ℕ → Stack → Outcome Stack
unfolding stack_slot_write
stack_set top n w state = stack_slot_write top n w state
