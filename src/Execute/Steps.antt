-- ===== src/Execute/Steps.antt =====
-- Every instruction, and every sequence of them, against the lists of Execute/Spec.
use evm_sail.Base.{
  ℕ, suc, ◌+◌, ◌-◌, ◌≡◌, ◌⊎◌, refl, ap, ◌∙◌, List, [], ◌∷◌, length, get_or, drop, arith, Outcome,
  ok, Bool-cases, inl, inr, ltb, if◌then◌else◌, ◌>>=◌, if_false, ◌==◌,
}
use evm_sail.Word.{
  alu_add, alu_addmod, alu_and, alu_byte, alu_clz, alu_div, alu_eq, alu_exp, alu_gt, alu_iszero,
  alu_lt, alu_mod, alu_mul, alu_mulmod, alu_not, alu_or, alu_sar, alu_sdiv, alu_sgt, alu_shl,
  alu_shr, alu_signextend, alu_slt, alu_smod, alu_sub, alu_xor,
}
use evm_sail.Gas.{g_base, g_verylow, g_low, g_mid, exp_gas}
use evm_sail.Stack.Slots.{Stack}
use evm_sail.Stack.Pointer.{StackPointer, stack_limit, read_stack_word, write_stack_word}
use evm_sail.Stack.Holds.{
  Holds, KeepsBelow-refl, KeepsBelow-trans, stack_slot_read-Holds, stack_slot_write-Holds,
  stack_top_retreat-Holds,
}
use evm_sail.Execute.Guard.{
  Step, ExceptionKind, OpcodeOutcome, continue, failed, failing, stack_underflow, guard_stack,
  unary, binary, ternary, popped, pushed, duplicated, swapped, guarded,
}
use evm_sail.Execute.Instructions.{exp_body, execute_exp}
use evm_sail.Execute.Program.{
  Instruction, op_add, op_mul, op_sub, op_div, op_sdiv, op_mod, op_smod, op_addmod, op_mulmod,
  op_signextend, op_lt, op_gt, op_slt, op_sgt, op_eq, op_iszero, op_and, op_or, op_xor, op_not,
  op_byte, op_shl, op_shr, op_sar, op_clz, op_exp, op_pop, op_push, op_dup, op_swap, execute, run,
  then_run, IsDecoded, AllDecoded,
}
use evm_sail.Execute.Spec.{
  guarded_words, exp_words, result_of, result_of_all, then_result, unary_words, binary_words,
  ternary_words, swapped_words,
}
use evm_sail.Execute.Refines.{
  Refines, guarded-Refines, guard_stack-value, unary-Computes, binary-Computes, ternary-Computes,
  popped-Computes, pushed-Computes, duplicated-Computes, swapped-Computes,
}

unary_case :
    (cost : ℕ) (f : ℕ → ℕ) (gas : ℕ) (ws : List ℕ) (store : Stack) (sp : StackPointer)
    → Holds store sp ws
    → Refines
        (guarded 1 1 cost (unary f) gas sp store)
        (guarded_words 1 1 cost (unary_words f) gas ws)
        store
unary_case cost f gas ws store sp h =
    guarded-Refines 1 1 cost (unary f) (unary_words f) gas ws (λ le room. unary-Computes f ws le)
      store sp h

binary_case :
    (cost : ℕ) (f : ℕ → ℕ → ℕ) (gas : ℕ) (ws : List ℕ) (store : Stack) (sp : StackPointer)
    → Holds store sp ws
    → Refines
        (guarded 2 1 cost (binary f) gas sp store)
        (guarded_words 2 1 cost (binary_words f) gas ws)
        store
binary_case cost f gas ws store sp h =
    guarded-Refines 2 1 cost (binary f) (binary_words f) gas ws (λ le room. binary-Computes f ws le)
      store sp h

ternary_case :
    (cost : ℕ) (f : ℕ → ℕ → ℕ → ℕ) (gas : ℕ) (ws : List ℕ) (store : Stack) (sp : StackPointer)
    → Holds store sp ws
    → Refines
        (guarded 3 1 cost (ternary f) gas sp store)
        (guarded_words 3 1 cost (ternary_words f) gas ws)
        store
ternary_case cost f gas ws store sp h =
    guarded-Refines 3 1 cost (ternary f) (ternary_words f) gas ws
      (λ le room. ternary-Computes f ws le) store sp h

execute_exp-failed :
    (gas : ℕ) (sp : StackPointer) (store : Stack) (kind : ExceptionKind)
    → guard_stack sp 2 1 ≡ failed kind
    → execute_exp gas sp store ≡ failing sp kind store
unfolding execute_exp
execute_exp-failed gas sp store kind e = rw (e, execute_exp) refl

execute_exp-runs :
    (gas : ℕ) (sp : StackPointer) (store : Stack)
    → guard_stack sp 2 1 ≡ continue
    → execute_exp gas sp store ≡ exp_body gas sp store
unfolding execute_exp
execute_exp-runs gas sp store e = rw (e, execute_exp) refl

exp_body-Refines :
    (gas a e : ℕ) (ws : List ℕ) (store : Stack) (sp : StackPointer)
    → Holds store sp (a ∷ e ∷ ws)
    → Refines (exp_body gas sp store) (exp_words gas (a ∷ e ∷ ws)) store
unfolding exp_body exp_words read_stack_word write_stack_word
exp_body-Refines gas a e ws store sp h =
    let (top, r, h1) = stack_top_retreat-Holds store sp a (e ∷ ws) h in
    let r1 = stack_slot_read-Holds store sp (a ∷ e ∷ ws) 0 h (omega arith) in
    let r2 = stack_slot_read-Holds store top (e ∷ ws) 0 h1 (omega arith) in
    let (next, w, held, kept) =
      stack_slot_write-Holds store top (e ∷ ws) 0 (alu_exp a e) h1 (omega arith) in
    elim (Bool-cases (ltb gas (exp_gas e))) [
      | inl c ↦ rw (r1, r, r2, c) (_, refl, refl, refl, h1, KeepsBelow-refl store)
      | inr c ↦ rw (r1, r, r2, c, w) (_, refl, refl, refl, held, kept)
    ]

exp_case :
    (gas : ℕ) (ws : List ℕ) (store : Stack) (sp : StackPointer)
    → Holds store sp ws
    → Refines (execute_exp gas sp store) (exp_words gas ws) store
exp_case gas [] store sp h =
    let v = execute_exp-failed gas sp store stack_underflow (guard_stack-value sp 0 2 1 h.height) in
    (
      _,
      v,
      unfold exp_words in refl,
      unfold exp_words in refl,
      unfold exp_words in h,
      KeepsBelow-refl store,
    )
exp_case gas (a ∷ []) store sp h =
    let v = execute_exp-failed gas sp store stack_underflow (guard_stack-value sp 1 2 1 h.height) in
    (
      _,
      v,
      unfold exp_words in refl,
      unfold exp_words in refl,
      unfold exp_words in h,
      KeepsBelow-refl store,
    )
exp_case gas (a ∷ e ∷ ws) store sp h =
    let n : ℕ = suc (suc (length ws)) in
    let g =
      guard_stack-value sp n 2 1 h.height
      ∙ if_false (ltb n 2) _ _ (ground arith)
      ∙ if_false (ltb stack_limit (n - 2 + 1)) _ _ (ground (arith, h.bound)) in
    rw (execute_exp-runs gas sp store g) (exp_body-Refines gas a e ws store sp h)

-- A decoded instruction on a valid stack gives the gas, the outcome and the words that it gives on
-- the list of the frame's words, and leaves the frames below as they are; it never raises.
execute-Refines :
    (i : Instruction) (gas : ℕ) (ws : List ℕ) (store : Stack) (sp : StackPointer)
    → IsDecoded i
    → Holds store sp ws
    → Refines (execute i gas sp store) (result_of i gas ws) store
unfolding execute result_of
execute-Refines op_add gas ws store sp d h = binary_case g_verylow alu_add gas ws store sp h
execute-Refines op_mul gas ws store sp d h = binary_case g_low alu_mul gas ws store sp h
execute-Refines op_sub gas ws store sp d h = binary_case g_verylow alu_sub gas ws store sp h
execute-Refines op_div gas ws store sp d h = binary_case g_low alu_div gas ws store sp h
execute-Refines op_sdiv gas ws store sp d h = binary_case g_low alu_sdiv gas ws store sp h
execute-Refines op_mod gas ws store sp d h = binary_case g_low alu_mod gas ws store sp h
execute-Refines op_smod gas ws store sp d h = binary_case g_low alu_smod gas ws store sp h
execute-Refines op_addmod gas ws store sp d h = ternary_case g_mid alu_addmod gas ws store sp h
execute-Refines op_mulmod gas ws store sp d h = ternary_case g_mid alu_mulmod gas ws store sp h
execute-Refines op_signextend gas ws store sp d h =
    binary_case g_low alu_signextend gas ws store sp h
execute-Refines op_lt gas ws store sp d h = binary_case g_verylow alu_lt gas ws store sp h
execute-Refines op_gt gas ws store sp d h = binary_case g_verylow alu_gt gas ws store sp h
execute-Refines op_slt gas ws store sp d h = binary_case g_verylow alu_slt gas ws store sp h
execute-Refines op_sgt gas ws store sp d h = binary_case g_verylow alu_sgt gas ws store sp h
execute-Refines op_eq gas ws store sp d h = binary_case g_verylow alu_eq gas ws store sp h
execute-Refines op_iszero gas ws store sp d h = unary_case g_verylow alu_iszero gas ws store sp h
execute-Refines op_and gas ws store sp d h = binary_case g_verylow alu_and gas ws store sp h
execute-Refines op_or gas ws store sp d h = binary_case g_verylow alu_or gas ws store sp h
execute-Refines op_xor gas ws store sp d h = binary_case g_verylow alu_xor gas ws store sp h
execute-Refines op_not gas ws store sp d h = unary_case g_verylow alu_not gas ws store sp h
execute-Refines op_byte gas ws store sp d h = binary_case g_verylow alu_byte gas ws store sp h
execute-Refines op_shl gas ws store sp d h = binary_case g_verylow alu_shl gas ws store sp h
execute-Refines op_shr gas ws store sp d h = binary_case g_verylow alu_shr gas ws store sp h
execute-Refines op_sar gas ws store sp d h = binary_case g_verylow alu_sar gas ws store sp h
execute-Refines op_clz gas ws store sp d h = unary_case g_low alu_clz gas ws store sp h
execute-Refines op_exp gas ws store sp d h = exp_case gas ws store sp h
execute-Refines op_pop gas ws store sp d h =
    guarded-Refines 1 0 g_base popped (drop 1) gas ws (λ le room. popped-Computes ws le) store sp h
execute-Refines (op_push n v) gas ws store sp d h =
    guarded-Refines 0 1 (if n == 0 then g_base else g_verylow) (pushed v) (λ l. v ∷ l) gas ws
      (λ le room. pushed-Computes v ws (omega arith)) store sp h
execute-Refines (op_dup n) gas ws store sp d h =
    guarded-Refines n (n + 1) g_verylow (duplicated n) (λ l. get_or l (n - 1) 0 ∷ l) gas ws
      (λ le room. duplicated-Computes n ws d.0 le (omega arith)) store sp h
execute-Refines (op_swap n) gas ws store sp d h =
    guarded-Refines (n + 1) (n + 1) g_verylow (swapped n) (swapped_words n) gas ws
      (λ le room. swapped-Computes n ws (omega arith)) store sp h

OpcodeOutcome-cases :
    (o : OpcodeOutcome) → (o ≡ continue) ⊎ ((kind : ExceptionKind) × (o ≡ failed kind))
OpcodeOutcome-cases continue = inl refl
OpcodeOutcome-cases (failed kind) = inr (kind, refl)

run_step :
    (i : Instruction) (is : List Instruction) (gas : ℕ) (store : Stack) (sp : StackPointer)
    (step : Step)
    → execute i gas sp store ≡ ok step
    → run (i ∷ is) gas sp store ≡ then_run step.outcome (run is step.gas step.sp step.store) step
run_step i is gas store sp step e =
    unfold run in
    ap
      (λ (r : Outcome Step).
        r >>= λ next. then_run next.outcome (run is next.gas next.sp next.store) next)
      e

result_step :
    (i : Instruction) (is : List Instruction) (gas : ℕ) (ws : List ℕ)
    → let result = result_of i gas ws in
      result_of_all (i ∷ is) gas ws
      ≡ then_result result.outcome (result_of_all is result.gas result.words) result
result_step i is gas ws = unfold result_of_all in refl

-- A sequence of decoded instructions, run on a valid stack up to the first that fails, gives the
-- gas, the outcome and the words that it gives on the list of the frame's words, leaves the frames
-- below as they are, and never raises.
pub run-Refines :
    (is : List Instruction) (gas : ℕ) (ws : List ℕ) (store : Stack) (sp : StackPointer)
    → AllDecoded is
    → Holds store sp ws
    → Refines (run is gas sp store) (result_of_all is gas ws) store
run-Refines [] gas ws store sp d h =
    unfold run result_of_all in (_, refl, refl, refl, h, KeepsBelow-refl store)
run-Refines (i ∷ is) gas ws store sp d h =
    let result = result_of i gas ws in
    let (step, e, g, o, held, kept) = execute-Refines i gas ws store sp d.0 h in
    let v = run_step i is gas store sp step e in
    elim (OpcodeOutcome-cases result.outcome) [
      | inl c ↦
          let w =
            v
            ∙ ap (λ x. then_run x (run is step.gas step.sp step.store) step) (o ∙ c)
            ∙ ap (λ (x : ℕ). run is x step.sp step.store) g in
          let u =
            result_step i is gas ws
            ∙ ap (λ x. then_result x (result_of_all is result.gas result.words) result) c in
          let (last, e2, g2, o2, held2, kept2) =
            run-Refines is result.gas result.words step.store step.sp d.1 held in
          rw u
            (last, w ∙ e2, g2, o2, held2, KeepsBelow-trans store step.store last.store kept kept2)
      | inr (kind, c) ↦
          let w = v ∙ ap (λ x. then_run x (run is step.gas step.sp step.store) step) (o ∙ c) in
          let u =
            result_step i is gas ws
            ∙ ap (λ x. then_result x (result_of_all is result.gas result.words) result) c in
          rw u (step, w, g, o, held, kept)
    ]
