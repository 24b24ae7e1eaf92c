-- ===== src/Execute/Program.antt =====
-- The dispatch of evm/interpreter.py on the instructions of Execute/Instructions, by the classes of
-- evm/instructions.py, and a sequence of them.
use evm_sail.Base.{ℕ, ◌≤◌, List, [], ◌∷◌, Outcome, ok, ◌>>=◌}
use evm_sail.Stack.Slots.{Stack}
use evm_sail.Stack.Pointer.{StackPointer}
use evm_sail.Execute.Guard.{Step, OpcodeOutcome, continue, failed}
use evm_sail.Execute.Instructions.{
  execute_add, execute_mul, execute_sub, execute_div, execute_sdiv, execute_mod, execute_smod,
  execute_addmod, execute_mulmod, execute_signextend, execute_lt, execute_gt, execute_slt,
  execute_sgt, execute_eq, execute_iszero, execute_and, execute_or, execute_xor, execute_not,
  execute_byte, execute_shl, execute_shr, execute_sar, execute_clz, execute_exp, execute_pop,
  execute_push, execute_dup, execute_swap,
}

pub data Instruction : Type 0 where
  op_add op_mul op_sub op_div op_sdiv op_mod op_smod : Instruction
  op_addmod op_mulmod op_signextend op_lt op_gt op_slt op_sgt : Instruction
  op_eq op_iszero op_and op_or op_xor op_not op_byte : Instruction
  op_shl op_shr op_sar op_clz : Instruction
  op_exp op_pop : Instruction
  op_push : ℕ → ℕ → Instruction
  op_dup op_swap : ℕ → Instruction

unfoldable pub execute : Instruction → ℕ → StackPointer → Stack → Outcome Step
unfolding execute_add execute_mul execute_sub execute_div execute_sdiv execute_mod execute_smod
    execute_addmod execute_mulmod execute_signextend execute_lt execute_gt execute_slt execute_sgt
    execute_eq execute_iszero execute_and execute_or execute_xor execute_not execute_byte
    execute_shl execute_shr execute_sar execute_clz execute_exp execute_pop execute_push execute_dup
    execute_swap
execute op_add carried_gas sp store = execute_add carried_gas sp store
execute op_mul carried_gas sp store = execute_mul carried_gas sp store
execute op_sub carried_gas sp store = execute_sub carried_gas sp store
execute op_div carried_gas sp store = execute_div carried_gas sp store
execute op_sdiv carried_gas sp store = execute_sdiv carried_gas sp store
execute op_mod carried_gas sp store = execute_mod carried_gas sp store
execute op_smod carried_gas sp store = execute_smod carried_gas sp store
execute op_addmod carried_gas sp store = execute_addmod carried_gas sp store
execute op_mulmod carried_gas sp store = execute_mulmod carried_gas sp store
execute op_signextend carried_gas sp store = execute_signextend carried_gas sp store
execute op_lt carried_gas sp store = execute_lt carried_gas sp store
execute op_gt carried_gas sp store = execute_gt carried_gas sp store
execute op_slt carried_gas sp store = execute_slt carried_gas sp store
execute op_sgt carried_gas sp store = execute_sgt carried_gas sp store
execute op_eq carried_gas sp store = execute_eq carried_gas sp store
execute op_iszero carried_gas sp store = execute_iszero carried_gas sp store
execute op_and carried_gas sp store = execute_and carried_gas sp store
execute op_or carried_gas sp store = execute_or carried_gas sp store
execute op_xor carried_gas sp store = execute_xor carried_gas sp store
execute op_not carried_gas sp store = execute_not carried_gas sp store
execute op_byte carried_gas sp store = execute_byte carried_gas sp store
execute op_shl carried_gas sp store = execute_shl carried_gas sp store
execute op_shr carried_gas sp store = execute_shr carried_gas sp store
execute op_sar carried_gas sp store = execute_sar carried_gas sp store
execute op_clz carried_gas sp store = execute_clz carried_gas sp store
execute op_exp carried_gas sp store = execute_exp carried_gas sp store
execute op_pop carried_gas sp store = execute_pop carried_gas sp store
execute (op_push n v) carried_gas sp store = execute_push n v carried_gas sp store
execute (op_dup n) carried_gas sp store = execute_dup n carried_gas sp store
execute (op_swap n) carried_gas sp store = execute_swap n carried_gas sp store

-- The operand of DUP and SWAP is a `stack_operation_index`, from 1 to 16.
abbrev pub IsDecoded : Instruction → Type 0
IsDecoded (op_dup n) = (1 ≤ n) × (n ≤ 16)
IsDecoded (op_swap n) = (1 ≤ n) × (n ≤ 16)
IsDecoded _ = Unit

abbrev pub AllDecoded : List Instruction → Type 0
AllDecoded [] = Unit
AllDecoded (i ∷ is) = IsDecoded i × AllDecoded is

-- One instruction after another, up to the first that fails.
abbrev pub then_run : OpcodeOutcome → Outcome Step → Step → Outcome Step
then_run continue rest step = rest
then_run (failed kind) rest step = ok step

unfoldable pub run : List Instruction → ℕ → StackPointer → Stack → Outcome Step
unfolding execute
run [] carried_gas sp store =
    ok (record { gas = carried_gas; sp = sp; outcome = continue; store = store })
run (i ∷ is) carried_gas sp store = execute i carried_gas sp store >>= λ step.
    then_run step.outcome (run is step.gas step.sp step.store) step
