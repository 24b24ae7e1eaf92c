-- ===== src/Stack/Slots.antt =====
-- The operand-stack functions of contract/HostContract.py. The list has the deepest word first,
-- as the code's does; the list of frame bases has the newest first.
use evm_sail.Base.{
  ℕ, ◌+◌, ◌-◌, ◌^◌, Bool, leb, if◌then◌else◌, List, [], ◌∷◌, ◌++◌, length, get_or, set, take,
  replicate, Outcome, ok, raised, ◌%◌, ◌||◌,
}

pub record Stack : Type 0 where
  pub operand_stack : List ℕ
  pub operand_stack_frames : List ℕ

-- A cursor is the height of the frame as a 64-bit vector.
abbrev pub stack_top : ℕ → ℕ
stack_top value = value % 2 ^ 64

unfoldable pub stack_reset_host : Stack → Stack × ℕ
stack_reset_host state = (record { operand_stack = []; operand_stack_frames = [] }, stack_top 0)

unfoldable pub operand_stack_push_empty_frame_host : Stack → Stack × ℕ
operand_stack_push_empty_frame_host state = (
  record state { operand_stack_frames = length state.operand_stack ∷ state.operand_stack_frames },
  stack_top 0,
)

unfoldable pub pop_base : List ℕ → List ℕ → Outcome Stack
pop_base words [] = raised
pop_base words (base ∷ frames) =
    ok (record { operand_stack = take base words; operand_stack_frames = frames })

unfoldable pub operand_stack_pop_frame : Stack → Outcome Stack
unfolding pop_base
operand_stack_pop_frame state = pop_base state.operand_stack state.operand_stack_frames

unfoldable pub newest : List ℕ → ℕ
newest [] = 0
newest (base ∷ frames) = base

unfoldable pub stack_base : Stack → ℕ
unfolding newest
stack_base state = newest state.operand_stack_frames

-- A slot at or above the cursor has a position below the base.
abbrev pub below_base : ℕ → ℕ → Bool
below_base top index = leb top index

abbrev pub slot_position : Stack → ℕ → ℕ → ℕ
slot_position state top index = stack_base state + top - 1 - index

unfoldable pub stack_slot_read_host : ℕ → ℕ → Stack → Outcome ℕ
unfolding stack_base
stack_slot_read_host top index state =
    let position = slot_position state top index in
    if below_base top index || leb (length state.operand_stack) position
    then raised
    else ok (get_or state.operand_stack position 0)

-- `while len(state.operand_stack) <= position: append(0)`, then the write.
unfoldable pub write_at : ℕ → ℕ → List ℕ → List ℕ
write_at position value words =
    set (words ++ replicate (position + 1 - length words) 0) position value

unfoldable pub stack_slot_write_host : ℕ → ℕ → ℕ → Stack → Outcome Stack
unfolding stack_base write_at
stack_slot_write_host top index value state =
    if below_base top index
    then raised
    else ok (record state {
      operand_stack = write_at (slot_position state top index) value state.operand_stack;
    })

unfoldable pub stack_slot_write_next_host : ℕ → ℕ → Stack → Stack
unfolding stack_base write_at
stack_slot_write_next_host top value state = record state {
  operand_stack = write_at (stack_base state + top) value state.operand_stack;
}

unfoldable pub stack_top_advance_host : ℕ → ℕ → ℕ
stack_top_advance_host top count = stack_top (top + count)

-- The difference of two numbers below 2 ^ 64, in 64 bits.
unfoldable pub stack_top_retreat_host : ℕ → ℕ → ℕ
stack_top_retreat_host top count = stack_top (top + 2 ^ 64 - count % 2 ^ 64)
