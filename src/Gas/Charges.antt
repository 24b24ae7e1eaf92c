-- ===== src/Gas/Charges.antt =====
-- The charges that scale with a size, of the instructions and of the precompiled contracts.
use evm_sail.Base.{
  ℕ, ◌+◌, ◌-◌, ◌*◌, Bool, ◌||◌, leb, ltb, ◌==◌, if◌then◌else◌, List, get_or, Outcome, ok, fatal,
  execution_invalid,
}
use evm_sail.Runtime.{sail_ediv_int, sail_tmod_int}
use evm_sail.Word.{word_byte_length}
use evm_sail.Profile.{ProtocolProfile, amsterdam, shanghai}
use evm_sail.Gas.Schedule.{
  g_keccak, g_keccak_word, g_copy_word, g_log, g_logtopic, g_logdata, g_exp, g_expbyte,
  g_codedeposit, g_amsterdam_state_byte,
}
use evm_sail.Gas.Memory.{
  GasCharge, gas_charge, gas_charge_unaffordable, memory_word_count, memory_word_count_word,
}

unfoldable pub word_scaled_gas_cost : ℕ → ℕ → ℕ → GasCharge
word_scaled_gas_cost per_unit units available =
    if per_unit == 0 || units == 0
    then gas_charge 0
    else if leb units available
    then (let exact_cost = per_unit * units in
        if leb exact_cost available then gas_charge exact_cost else gas_charge_unaffordable)
    else gas_charge_unaffordable

unfoldable pub memory_word_gas_cost : ℕ → ℕ → ℕ → ℕ → GasCharge
memory_word_gas_cost base per_word size available =
    if ltb available base
    then gas_charge_unaffordable
    else (let after_base = available - base in
        let words = memory_word_count_word size in
        let variable_charge = word_scaled_gas_cost per_word words after_base in
        if variable_charge.affordable
        then (let exact_cost = base + variable_charge.cost in
            if leb exact_cost available then gas_charge exact_cost else gas_charge_unaffordable)
        else gas_charge_unaffordable)

unfoldable pub keccak_gas_cost : ℕ → ℕ → GasCharge
keccak_gas_cost size available = memory_word_gas_cost g_keccak g_keccak_word size available

unfoldable pub copy_gas_cost : ℕ → ℕ → GasCharge
copy_gas_cost size available = memory_word_gas_cost 0 g_copy_word size available

unfoldable pub log_gas_cost : ℕ → ℕ → ℕ → GasCharge
log_gas_cost num_topics size available =
    let topic_cost = g_logtopic * num_topics in
    let fixed_cost = g_log + topic_cost in
    if ltb available fixed_cost
    then gas_charge_unaffordable
    else (let after_fixed = available - fixed_cost in
        let variable_charge = word_scaled_gas_cost g_logdata size after_fixed in
        if variable_charge.affordable
        then (let exact_cost = fixed_cost + variable_charge.cost in
            if leb exact_cost available then gas_charge exact_cost else gas_charge_unaffordable)
        else gas_charge_unaffordable)

unfoldable pub exp_gas : ℕ → ℕ
exp_gas exponent = g_expbyte * word_byte_length exponent + g_exp

unfoldable pub transaction_initcode_gas : ProtocolProfile → ℕ → ℕ
transaction_initcode_gas profile byte_len =
    if leb shanghai profile.fork
    then (let words = memory_word_count byte_len in words + words)
    else 0

unfoldable pub deployed_code_size_allowed : ProtocolProfile → ℕ → Bool
deployed_code_size_allowed profile size = leb size profile.deployed_code_size_limit

unfoldable pub initcode_size_allowed : ProtocolProfile → ℕ → Bool
initcode_size_allowed profile size =
    let limit = profile.initcode_size_limit in limit == 0 || leb size limit

unfoldable pub code_deployment_execution_cost : ProtocolProfile → ℕ → ℕ → GasCharge
code_deployment_execution_cost profile byte_len available =
    if leb amsterdam profile.fork
    then (if leb byte_len profile.deployed_code_size_limit
        then (let words = memory_word_count byte_len in
            if leb words (sail_ediv_int available g_keccak_word)
            then gas_charge (g_keccak_word * words)
            else gas_charge_unaffordable)
        else gas_charge_unaffordable)
    else if leb byte_len (sail_ediv_int available g_codedeposit)
    then gas_charge (g_codedeposit * byte_len)
    else gas_charge_unaffordable

unfoldable pub code_deployment_state_cost : ProtocolProfile → ℕ → Outcome ℕ
code_deployment_state_cost profile byte_len =
    if leb amsterdam profile.fork
    then (if leb byte_len profile.deployed_code_size_limit
        then ok (g_amsterdam_state_byte * byte_len)
        else fatal execution_invalid)
    else ok 0

unfoldable pub linear_gas : ℕ → ℕ → ℕ → ℕ → GasCharge
linear_gas base per_unit units available =
    let variable_cost = per_unit * units in
    let exact_cost = variable_cost + base in
    if ltb available exact_cost then gas_charge_unaffordable else gas_charge exact_cost

unfoldable pub fixed_precompile_gas : ℕ → ℕ → GasCharge
fixed_precompile_gas cost available =
    if leb cost available then gas_charge cost else gas_charge_unaffordable

-- `sail_vector_access(table, index, False)` on the 128 entries counts from the last.
unfoldable pub bls_discount_at : List ℕ → ℕ → ℕ
bls_discount_at table index = get_or table (127 - index) 0

unfoldable pub bls_msm_gas : List ℕ → ℕ → ℕ → ℕ → ℕ → GasCharge
bls_msm_gas table base maxd k available =
    if k == 0
    then gas_charge 0
    else (let discount = if ltb k 128 then bls_discount_at table (128 - k) else maxd in
        let coefficient = base * discount in
        let whole = sail_ediv_int k 1000 in
        let remainder = sail_tmod_int k 1000 in
        let whole_product = coefficient * whole in
        if ltb available whole_product
        then gas_charge_unaffordable
        else (let tail = sail_ediv_int (coefficient * remainder) 1000 in
            let total = whole_product + tail in
            if leb total available then gas_charge total else gas_charge_unaffordable))
