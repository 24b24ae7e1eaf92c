-- ===== src/Execute/Spec.antt =====
-- The instructions on a plain list of words, the topmost first.
use evm_sail.Base.{ℕ, ◌+◌, ◌-◌, List, [], ◌∷◌, length, ◌==◌, get_or, set, drop, ltb, if◌then◌else◌}
use evm_sail.Word.{
  alu_add, alu_addmod, alu_and, alu_byte, alu_clz, alu_div, alu_eq, alu_exp, alu_gt, alu_iszero,
  alu_lt, alu_mod, alu_mul, alu_mulmod, alu_not, alu_or, alu_sar, alu_sdiv, alu_sgt, alu_shl,
  alu_shr, alu_signextend, alu_slt, alu_smod, alu_sub, alu_xor,
}
use evm_sail.Gas.{g_base, g_verylow, g_low, g_mid, exp_gas}
use evm_sail.Execute.Program.{
  Instruction, op_add, op_mul, op_sub, op_div, op_sdiv, op_mod, op_smod, op_addmod, op_mulmod,
  op_signextend, op_lt, op_gt, op_slt, op_sgt, op_eq, op_iszero, op_and, op_or, op_xor, op_not,
  op_byte, op_shl, op_shr, op_sar, op_clz, op_exp, op_pop, op_push, op_dup, op_swap,
}
use evm_sail.Stack.Pointer.{stack_limit}
use evm_sail.Execute.Guard.{
  OpcodeOutcome, continue, failed, stack_underflow, stack_overflow, out_of_gas,
}

-- The gas and the words that are left, and the outcome.
pub record Result : Type 0 where
  pub gas : ℕ
  pub words : List ℕ
  pub outcome : OpcodeOutcome

-- Too few words, too many, too little gas, or the new words.
unfoldable pub guarded_words : ℕ → ℕ → ℕ → (List ℕ → List ℕ) → ℕ → List ℕ → Result
guarded_words inputs outputs cost f gas words =
    if ltb (length words) inputs
    then record { gas = 0; words = words; outcome = failed stack_underflow }
    else if ltb stack_limit (length words - inputs + outputs)
    then record { gas = 0; words = words; outcome = failed stack_overflow }
    else if ltb gas cost
    then record { gas = 0; words = words; outcome = failed out_of_gas }
    else record { gas = gas - cost; words = f words; outcome = continue }

unfoldable pub unary_words : (ℕ → ℕ) → List ℕ → List ℕ
unary_words f [] = []
unary_words f (a ∷ ws) = f a ∷ ws

unfoldable pub binary_words : (ℕ → ℕ → ℕ) → List ℕ → List ℕ
binary_words f [] = []
binary_words f (a ∷ []) = a ∷ []
binary_words f (a ∷ b ∷ ws) = f a b ∷ ws

unfoldable pub ternary_words : (ℕ → ℕ → ℕ → ℕ) → List ℕ → List ℕ
ternary_words f [] = []
ternary_words f (a ∷ []) = a ∷ []
ternary_words f (a ∷ b ∷ []) = a ∷ b ∷ []
ternary_words f (a ∷ b ∷ n ∷ ws) = f a b n ∷ ws

unfoldable pub swapped_words : ℕ → List ℕ → List ℕ
swapped_words n words = set (set words 0 (get_or words n 0)) n (get_or words 0 0)

-- The exponent is read before the gas is tested, and a failure then leaves it on top.
unfoldable pub exp_words : ℕ → List ℕ → Result
unfolding exp_gas
exp_words gas [] = record { gas = 0; words = []; outcome = failed stack_underflow }
exp_words gas (a ∷ []) = record { gas = 0; words = a ∷ []; outcome = failed stack_underflow }
exp_words gas (a ∷ e ∷ ws) =
    if ltb gas (exp_gas e)
    then record { gas = 0; words = e ∷ ws; outcome = failed out_of_gas }
    else record { gas = gas - exp_gas e; words = alu_exp a e ∷ ws; outcome = continue }

unfoldable pub result_of : Instruction → ℕ → List ℕ → Result
unfolding guarded_words unary_words binary_words ternary_words swapped_words exp_words
result_of op_add gas words = guarded_words 2 1 g_verylow (binary_words alu_add) gas words
result_of op_mul gas words = guarded_words 2 1 g_low (binary_words alu_mul) gas words
result_of op_sub gas words = guarded_words 2 1 g_verylow (binary_words alu_sub) gas words
result_of op_div gas words = guarded_words 2 1 g_low (binary_words alu_div) gas words
result_of op_sdiv gas words = guarded_words 2 1 g_low (binary_words alu_sdiv) gas words
result_of op_mod gas words = guarded_words 2 1 g_low (binary_words alu_mod) gas words
result_of op_smod gas words = guarded_words 2 1 g_low (binary_words alu_smod) gas words
result_of op_addmod gas words = guarded_words 3 1 g_mid (ternary_words alu_addmod) gas words
result_of op_mulmod gas words = guarded_words 3 1 g_mid (ternary_words alu_mulmod) gas words
result_of op_signextend gas words = guarded_words 2 1 g_low (binary_words alu_signextend) gas words
result_of op_lt gas words = guarded_words 2 1 g_verylow (binary_words alu_lt) gas words
result_of op_gt gas words = guarded_words 2 1 g_verylow (binary_words alu_gt) gas words
result_of op_slt gas words = guarded_words 2 1 g_verylow (binary_words alu_slt) gas words
result_of op_sgt gas words = guarded_words 2 1 g_verylow (binary_words alu_sgt) gas words
result_of op_eq gas words = guarded_words 2 1 g_verylow (binary_words alu_eq) gas words
result_of op_iszero gas words = guarded_words 1 1 g_verylow (unary_words alu_iszero) gas words
result_of op_and gas words = guarded_words 2 1 g_verylow (binary_words alu_and) gas words
result_of op_or gas words = guarded_words 2 1 g_verylow (binary_words alu_or) gas words
result_of op_xor gas words = guarded_words 2 1 g_verylow (binary_words alu_xor) gas words
result_of op_not gas words = guarded_words 1 1 g_verylow (unary_words alu_not) gas words
result_of op_byte gas words = guarded_words 2 1 g_verylow (binary_words alu_byte) gas words
result_of op_shl gas words = guarded_words 2 1 g_verylow (binary_words alu_shl) gas words
result_of op_shr gas words = guarded_words 2 1 g_verylow (binary_words alu_shr) gas words
result_of op_sar gas words = guarded_words 2 1 g_verylow (binary_words alu_sar) gas words
result_of op_clz gas words = guarded_words 1 1 g_low (unary_words alu_clz) gas words
result_of op_exp gas words = exp_words gas words
result_of op_pop gas words = guarded_words 1 0 g_base (drop 1) gas words
result_of (op_push n v) gas words =
    guarded_words 0 1 (if n == 0 then g_base else g_verylow) (λ l. v ∷ l) gas words
result_of (op_dup n) gas words =
    guarded_words n (n + 1) g_verylow (λ l. get_or l (n - 1) 0 ∷ l) gas words
result_of (op_swap n) gas words =
    guarded_words (n + 1) (n + 1) g_verylow (swapped_words n) gas words

abbrev pub then_result : OpcodeOutcome → Result → Result → Result
then_result continue rest result = rest
then_result (failed kind) rest result = result

unfoldable pub result_of_all : List Instruction → ℕ → List ℕ → Result
unfolding result_of
result_of_all [] gas words = record { gas = gas; words = words; outcome = continue }
result_of_all (i ∷ is) gas words =
    let result = result_of i gas words in
    then_result result.outcome (result_of_all is result.gas result.words) result
