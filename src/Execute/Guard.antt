-- ===== src/Execute/Guard.antt =====
-- What the instructions of evm/execute.py share: `guard_stack`, the test of the gas, and the
-- reads and writes of operands.
use evm_sail.Base.{ℕ, ◌-◌, ltb, if◌then◌else◌, Outcome, ok, ◌>>=◌}
use evm_sail.Stack.Slots.{Stack}
use evm_sail.Stack.Pointer.{
  StackPointer, StackValidation, stack_valid, stack_underflow_failure, stack_overflow_failure,
  validate_stack, read_stack_word, write_stack_word, stack_set, stack_slot_read, stack_top_advance,
  stack_top_retreat,
}

pub data ExceptionKind : Type 0 where
  stack_underflow stack_overflow out_of_gas invalid_opcode invalid_jump : ExceptionKind
  static_violation call_depth_exceeded insufficient_balance write_protection : ExceptionKind
  init_code_too_large nonce_overflow address_collision : ExceptionKind

pub data OpcodeOutcome : Type 0 where
  continue : OpcodeOutcome
  failed : ExceptionKind → OpcodeOutcome

-- The values an instruction returns, and the store.
pub record Step : Type 0 where
  pub gas : ℕ
  pub sp : StackPointer
  pub outcome : OpcodeOutcome
  pub store : Stack

abbrev pub validation_outcome : StackValidation → OpcodeOutcome
validation_outcome stack_valid = continue
validation_outcome stack_underflow_failure = failed stack_underflow
validation_outcome stack_overflow_failure = failed stack_overflow

unfoldable pub guard_stack : StackPointer → ℕ → ℕ → OpcodeOutcome
unfolding validate_stack
guard_stack carried_sp inputs outputs =
    validation_outcome (validate_stack carried_sp inputs outputs)

-- A failure takes all the gas.
abbrev pub failing : StackPointer → ExceptionKind → Stack → Outcome Step
failing sp kind store = ok (record { gas = 0; sp = sp; outcome = failed kind; store = store })

-- What an instruction does with the operands.
abbrev pub Body : Type 0
Body = StackPointer → Stack → Outcome (StackPointer × Stack)

-- The gas is taken, and the body runs.
unfoldable pub charged : ℕ → Body → ℕ → StackPointer → Stack → Outcome Step
charged cost body carried_gas sp store =
    if ltb carried_gas cost then failing sp out_of_gas store else (do
      done ← body sp store
      ok (record { gas = carried_gas - cost; sp = done.0; outcome = continue; store = done.1 }))

-- The stack is checked for `inputs` words and for the room of `outputs`, then the gas.
unfoldable pub guarded : ℕ → ℕ → ℕ → Body → ℕ → StackPointer → Stack → Outcome Step
unfolding guard_stack charged
guarded inputs outputs cost body carried_gas carried_sp store =
    elim (guard_stack carried_sp inputs outputs) [
      | failed kind ↦ failing carried_sp kind store
      | continue ↦ charged cost body carried_gas carried_sp store
    ]

unfoldable pub unary : (ℕ → ℕ) → Body
unfolding read_stack_word write_stack_word
unary f sp store = do
  a ← read_stack_word sp store
  next ← write_stack_word sp (f a) store
  ok (sp, next)

unfoldable pub binary : (ℕ → ℕ → ℕ) → Body
unfolding read_stack_word write_stack_word stack_top_retreat
binary f carried_sp store = do
  a ← read_stack_word carried_sp store
  sp ← stack_top_retreat carried_sp 1
  b ← read_stack_word sp store
  next ← write_stack_word sp (f a b) store
  ok (sp, next)

unfoldable pub ternary : (ℕ → ℕ → ℕ → ℕ) → Body
unfolding read_stack_word write_stack_word stack_top_retreat
ternary f carried_sp store = do
  a ← read_stack_word carried_sp store
  sp1 ← stack_top_retreat carried_sp 1
  b ← read_stack_word sp1 store
  sp ← stack_top_retreat sp1 1
  n ← read_stack_word sp store
  next ← write_stack_word sp (f a b n) store
  ok (sp, next)

unfoldable pub popped : Body
unfolding read_stack_word stack_top_retreat
popped sp store = do
  a ← read_stack_word sp store
  next_sp ← stack_top_retreat sp 1
  ok (next_sp, store)

unfoldable pub pushed : ℕ → Body
unfolding write_stack_word stack_top_advance
pushed value carried_sp store = do
  sp ← stack_top_advance carried_sp 1
  next ← write_stack_word sp value store
  ok (sp, next)

unfoldable pub duplicated : ℕ → Body
unfolding stack_slot_read write_stack_word stack_top_advance
duplicated n carried_sp store = do
  value ← stack_slot_read carried_sp (n - 1) store
  sp ← stack_top_advance carried_sp 1
  next ← write_stack_word sp value store
  ok (sp, next)

unfoldable pub swapped : ℕ → Body
unfolding read_stack_word stack_slot_read stack_set
swapped n sp store = do
  top_value ← read_stack_word sp store
  other ← stack_slot_read sp n store
  first ← stack_set sp 0 other store
  second ← stack_set sp n top_value first
  ok (sp, second)
