-- ===== src/Execute/Instructions.antt =====
-- The instructions, by the names of evm/execute.py. Each takes the gas, the stack pointer and the
-- store.
use evm_sail.Base.{ℕ, ◌+◌, ◌-◌, ◌==◌, if◌then◌else◌, ltb, Outcome, ok, raised, ◌>>=◌}
use evm_sail.Word.{
  alu_add, alu_addmod, alu_and, alu_byte, alu_clz, alu_div, alu_eq, alu_exp, alu_gt, alu_iszero,
  alu_lt, alu_mod, alu_mul, alu_mulmod, alu_not, alu_or, alu_sar, alu_sdiv, alu_sgt, alu_shl,
  alu_shr, alu_signextend, alu_slt, alu_smod, alu_sub, alu_xor, modulus,
}
use evm_sail.Gas.{g_base, g_verylow, g_low, g_mid, exp_gas}
use evm_sail.Stack.Slots.{Stack}
use evm_sail.Stack.Pointer.{StackPointer, read_stack_word, write_stack_word, stack_top_retreat}
use evm_sail.Execute.Guard.{
  Step, continue, failed, out_of_gas, guard_stack, failing, guarded, unary, binary, ternary, popped,
  pushed, duplicated, swapped,
}

unfoldable pub execute_add : ℕ → StackPointer → Stack → Outcome Step
unfolding guarded binary alu_add
execute_add carried_gas carried_sp store =
    guarded 2 1 g_verylow (binary alu_add) carried_gas carried_sp store

unfoldable pub execute_mul : ℕ → StackPointer → Stack → Outcome Step
unfolding guarded binary alu_mul
execute_mul carried_gas carried_sp store =
    guarded 2 1 g_low (binary alu_mul) carried_gas carried_sp store

unfoldable pub execute_sub : ℕ → StackPointer → Stack → Outcome Step
unfolding guarded binary alu_sub
execute_sub carried_gas carried_sp store =
    guarded 2 1 g_verylow (binary alu_sub) carried_gas carried_sp store

unfoldable pub execute_div : ℕ → StackPointer → Stack → Outcome Step
unfolding guarded binary alu_div
execute_div carried_gas carried_sp store =
    guarded 2 1 g_low (binary alu_div) carried_gas carried_sp store

unfoldable pub execute_sdiv : ℕ → StackPointer → Stack → Outcome Step
unfolding guarded binary alu_sdiv
execute_sdiv carried_gas carried_sp store =
    guarded 2 1 g_low (binary alu_sdiv) carried_gas carried_sp store

unfoldable pub execute_mod : ℕ → StackPointer → Stack → Outcome Step
unfolding guarded binary alu_mod
execute_mod carried_gas carried_sp store =
    guarded 2 1 g_low (binary alu_mod) carried_gas carried_sp store

unfoldable pub execute_smod : ℕ → StackPointer → Stack → Outcome Step
unfolding guarded binary alu_smod
execute_smod carried_gas carried_sp store =
    guarded 2 1 g_low (binary alu_smod) carried_gas carried_sp store

unfoldable pub execute_addmod : ℕ → StackPointer → Stack → Outcome Step
unfolding guarded ternary alu_addmod
execute_addmod carried_gas carried_sp store =
    guarded 3 1 g_mid (ternary alu_addmod) carried_gas carried_sp store

unfoldable pub execute_mulmod : ℕ → StackPointer → Stack → Outcome Step
unfolding guarded ternary alu_mulmod
execute_mulmod carried_gas carried_sp store =
    guarded 3 1 g_mid (ternary alu_mulmod) carried_gas carried_sp store

unfoldable pub execute_signextend : ℕ → StackPointer → Stack → Outcome Step
unfolding guarded binary alu_signextend
execute_signextend carried_gas carried_sp store =
    guarded 2 1 g_low (binary alu_signextend) carried_gas carried_sp store

unfoldable pub execute_lt : ℕ → StackPointer → Stack → Outcome Step
unfolding guarded binary alu_lt
execute_lt carried_gas carried_sp store =
    guarded 2 1 g_verylow (binary alu_lt) carried_gas carried_sp store

unfoldable pub execute_gt : ℕ → StackPointer → Stack → Outcome Step
unfolding guarded binary alu_gt
execute_gt carried_gas carried_sp store =
    guarded 2 1 g_verylow (binary alu_gt) carried_gas carried_sp store

unfoldable pub execute_slt : ℕ → StackPointer → Stack → Outcome Step
unfolding guarded binary alu_slt
execute_slt carried_gas carried_sp store =
    guarded 2 1 g_verylow (binary alu_slt) carried_gas carried_sp store

unfoldable pub execute_sgt : ℕ → StackPointer → Stack → Outcome Step
unfolding guarded binary alu_sgt
execute_sgt carried_gas carried_sp store =
    guarded 2 1 g_verylow (binary alu_sgt) carried_gas carried_sp store

unfoldable pub execute_eq : ℕ → StackPointer → Stack → Outcome Step
unfolding guarded binary alu_eq
execute_eq carried_gas carried_sp store =
    guarded 2 1 g_verylow (binary alu_eq) carried_gas carried_sp store

unfoldable pub execute_iszero : ℕ → StackPointer → Stack → Outcome Step
unfolding guarded unary alu_iszero
execute_iszero carried_gas carried_sp store =
    guarded 1 1 g_verylow (unary alu_iszero) carried_gas carried_sp store

unfoldable pub execute_and : ℕ → StackPointer → Stack → Outcome Step
unfolding guarded binary alu_and
execute_and carried_gas carried_sp store =
    guarded 2 1 g_verylow (binary alu_and) carried_gas carried_sp store

unfoldable pub execute_or : ℕ → StackPointer → Stack → Outcome Step
unfolding guarded binary alu_or
execute_or carried_gas carried_sp store =
    guarded 2 1 g_verylow (binary alu_or) carried_gas carried_sp store

unfoldable pub execute_xor : ℕ → StackPointer → Stack → Outcome Step
unfolding guarded binary alu_xor
execute_xor carried_gas carried_sp store =
    guarded 2 1 g_verylow (binary alu_xor) carried_gas carried_sp store

unfoldable pub execute_not : ℕ → StackPointer → Stack → Outcome Step
unfolding guarded unary alu_not
execute_not carried_gas carried_sp store =
    guarded 1 1 g_verylow (unary alu_not) carried_gas carried_sp store

unfoldable pub execute_byte : ℕ → StackPointer → Stack → Outcome Step
unfolding guarded binary alu_byte
execute_byte carried_gas carried_sp store =
    guarded 2 1 g_verylow (binary alu_byte) carried_gas carried_sp store

unfoldable pub execute_shl : ℕ → StackPointer → Stack → Outcome Step
unfolding guarded binary alu_shl
execute_shl carried_gas carried_sp store =
    guarded 2 1 g_verylow (binary alu_shl) carried_gas carried_sp store

unfoldable pub execute_shr : ℕ → StackPointer → Stack → Outcome Step
unfolding guarded binary alu_shr
execute_shr carried_gas carried_sp store =
    guarded 2 1 g_verylow (binary alu_shr) carried_gas carried_sp store

unfoldable pub execute_sar : ℕ → StackPointer → Stack → Outcome Step
unfolding guarded binary alu_sar
execute_sar carried_gas carried_sp store =
    guarded 2 1 g_verylow (binary alu_sar) carried_gas carried_sp store

unfoldable pub execute_clz : ℕ → StackPointer → Stack → Outcome Step
unfolding guarded unary alu_clz
execute_clz carried_gas carried_sp store =
    guarded 1 1 g_low (unary alu_clz) carried_gas carried_sp store

-- The price depends on the exponent, so the operands are read first.
unfoldable pub exp_body : ℕ → StackPointer → Stack → Outcome Step
unfolding read_stack_word stack_top_retreat write_stack_word exp_gas alu_exp
exp_body carried_gas carried_sp store = do
  a ← read_stack_word carried_sp store
  sp ← stack_top_retreat carried_sp 1
  e ← read_stack_word sp store
  if ltb carried_gas (exp_gas e) then failing sp out_of_gas store else (do
    next ← write_stack_word sp (alu_exp a e) store
    ok (record { gas = carried_gas - exp_gas e; sp = sp; outcome = continue; store = next }))

unfoldable pub execute_exp : ℕ → StackPointer → Stack → Outcome Step
unfolding guard_stack exp_body
execute_exp carried_gas carried_sp store = elim (guard_stack carried_sp 2 1) [
  | failed kind ↦ failing carried_sp kind store
  | continue ↦ exp_body carried_gas carried_sp store
]

unfoldable pub execute_pop : ℕ → StackPointer → Stack → Outcome Step
unfolding guarded popped
execute_pop carried_gas carried_sp store = guarded 1 0 g_base popped carried_gas carried_sp store

unfoldable pub execute_push : ℕ → ℕ → ℕ → StackPointer → Stack → Outcome Step
unfolding guarded pushed
execute_push n v carried_gas carried_sp store =
    guarded 0 1 (if n == 0 then g_base else g_verylow) (pushed v) carried_gas carried_sp store

unfoldable pub execute_dup : ℕ → ℕ → StackPointer → Stack → Outcome Step
unfolding guarded duplicated
execute_dup n carried_gas carried_sp store =
    guarded n (n + 1) g_verylow (duplicated n) carried_gas carried_sp store

unfoldable pub execute_swap : ℕ → ℕ → StackPointer → Stack → Outcome Step
unfolding guarded swapped
execute_swap n carried_gas carried_sp store =
    guarded (n + 1) (n + 1) g_verylow (swapped n) carried_gas carried_sp store

unfoldable pub execute_callvalue : ℕ → ℕ → StackPointer → Stack → Outcome Step
unfolding guarded pushed
execute_callvalue carried_value carried_gas carried_sp store =
    guarded 0 1 g_base (pushed carried_value) carried_gas carried_sp store

unfoldable pub execute_blobbasefee : ℕ → ℕ → StackPointer → Stack → Outcome Step
unfolding guarded pushed
execute_blobbasefee blob_fee carried_gas carried_sp store =
    guarded 0 1 g_base (pushed blob_fee) carried_gas carried_sp store

-- The gas that is left, as a word.
unfoldable pub execute_gas : ℕ → StackPointer → Stack → Outcome Step
unfolding guarded pushed
execute_gas carried_gas carried_sp store =
    guarded 0 1 g_base
      (λ sp held.
        if ltb (carried_gas - g_base) modulus
        then pushed (carried_gas - g_base) sp held
        else raised)
      carried_gas carried_sp store
