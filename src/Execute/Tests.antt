-- ===== src/Execute/Tests.antt =====
-- Runs of the instructions on concrete stores.
use evm_sail.Base.{ℕ, zero, suc, ◌+◌, ◌-◌, ◌<◌, ◌≡◌, refl, List, [], ◌∷◌, get_or, arith, ok}
use evm_sail.Word.{word_byte_length, alu_exp, alu_add}
use evm_sail.Stack.Slots.{Stack, stack_base, newest, operand_stack_pop_frame}
use evm_sail.Stack.Pointer.{StackPointer, operand_stack_push_empty_frame}
use evm_sail.Stack.Holds.{Holds}
use evm_sail.Execute.Guard.{Step, failed, stack_underflow}
use evm_sail.Execute.Program.{Instruction, op_push, op_add, op_swap, op_dup, op_pop, op_exp, run}
use evm_sail.Execute.Spec.{result_of_all}
use evm_sail.Execute.Refines.{Refines}
use evm_sail.Execute.Steps.{run-Refines}
use evm_sail.Execute.Frames.{child_frame-Refines}

abbrev words : List ℕ
words = 5 ∷ 7 ∷ []

-- Two words of a frame above one word of another.
abbrev store : Stack
store = record { operand_stack = 9 ∷ 7 ∷ 5 ∷ []; operand_stack_frames = 1 ∷ [] }

abbrev pointer : StackPointer
pointer = record { storage = 2; height = 2 }

abbrev program : List Instruction
program = op_push 1 4 ∷ op_add ∷ op_swap 1 ∷ op_dup 2 ∷ op_exp ∷ []

store_word : (i : ℕ) → i < 2 → get_or store.operand_stack (1 + 2 - 1 - i) 0 ≡ get_or words i 0
store_word zero h = refl
store_word (suc zero) h = refl
store_word (suc (suc i)) h = absurd (omega arith)

store-Holds : Holds store pointer words
unfolding stack_base newest
store-Holds = record {
  storage = refl;
  height = refl;
  bound = omega arith;
  room = omega arith;
  word = store_word;
}

run_value : (result_of_all program 1000 words).words ≡ 4782969 ∷ 9 ∷ []
unfolding result_of_all word_byte_length alu_exp alu_add
run_value = refl

run_underflow :
    (result_of_all (op_pop ∷ op_pop ∷ op_pop ∷ []) 1000 words).outcome ≡ failed stack_underflow
unfolding result_of_all
run_underflow = refl

run-Refines_example :
    Refines (run program 1000 pointer store) (result_of_all program 1000 words) store
run-Refines_example =
    run-Refines program 1000 words store pointer
      (tt, (tt, ((omega arith, omega arith), ((omega arith, omega arith), (tt, tt))))) store-Holds

child_frame-Refines_example :
    (step : Step) × (run program 1000
        ((operand_stack_push_empty_frame store).1)
        ((operand_stack_push_empty_frame store).0)
      ≡ ok step)
    × (step.gas ≡ (result_of_all program 1000 []).gas)
    × (step.outcome ≡ (result_of_all program 1000 []).outcome)
    × Holds step.store step.sp ((result_of_all program 1000 []).words)
    × ((parent : Stack) × (operand_stack_pop_frame step.store ≡ ok parent)
        × Holds parent pointer words
        × (parent.operand_stack_frames ≡ store.operand_stack_frames))
child_frame-Refines_example =
    child_frame-Refines program 1000 words store pointer
      (tt, (tt, ((omega arith, omega arith), ((omega arith, omega arith), (tt, tt))))) store-Holds
