-- ===== src/Gas/Schedule.antt =====
-- The constants of the schedule and the costs that depend on the fork alone.
use evm_sail.Base.{ℕ, Bool, leb, ltb, if◌then◌else◌}
use evm_sail.Profile.{ProtocolProfile, london, amsterdam}

abbrev pub g_zero : ℕ
g_zero = 0

abbrev pub g_warm_access : ℕ
g_warm_access = 100

abbrev pub g_cold_sload : ℕ
g_cold_sload = 2100

abbrev pub g_cold_account : ℕ
g_cold_account = 2600

abbrev pub g_keccak : ℕ
g_keccak = 30

abbrev pub g_keccak_word : ℕ
g_keccak_word = 6

abbrev pub g_copy_word : ℕ
g_copy_word = 3

abbrev pub g_memory : ℕ
g_memory = 3

abbrev pub g_log : ℕ
g_log = 375

abbrev pub g_logtopic : ℕ
g_logtopic = 375

abbrev pub g_logdata : ℕ
g_logdata = 8

abbrev pub g_exp : ℕ
g_exp = 10

abbrev pub g_expbyte : ℕ
g_expbyte = 50

abbrev pub g_sset : ℕ
g_sset = 20000

abbrev pub g_sreset : ℕ
g_sreset = 2900

abbrev pub r_sclear_pre_london : ℕ
r_sclear_pre_london = 15000

abbrev pub r_sclear_london : ℕ
r_sclear_london = 4800

abbrev pub g_create : ℕ
g_create = 32000

abbrev pub g_codedeposit : ℕ
g_codedeposit = 200

abbrev pub g_callvalue : ℕ
g_callvalue = 9000

abbrev pub g_amsterdam_cold_account_access : ℕ
g_amsterdam_cold_account_access = 3000

abbrev pub g_amsterdam_cold_storage_access : ℕ
g_amsterdam_cold_storage_access = 3000

abbrev pub g_amsterdam_storage_write : ℕ
g_amsterdam_storage_write = 10000

abbrev pub g_amsterdam_call_value : ℕ
g_amsterdam_call_value = 10300

abbrev pub g_amsterdam_create_access : ℕ
g_amsterdam_create_access = 11000

abbrev pub g_amsterdam_state_byte : ℕ
g_amsterdam_state_byte = 1530

abbrev pub g_amsterdam_state_storage_set : ℕ
g_amsterdam_state_storage_set = 97920

abbrev pub r_amsterdam_storage_clear : ℕ
r_amsterdam_storage_clear = 12480

abbrev pub g_sstore_sentry : ℕ
g_sstore_sentry = 2301

unfoldable pub sstore_clear_refund : ProtocolProfile → ℕ
sstore_clear_refund profile =
    if leb london profile.fork then r_sclear_london else r_sclear_pre_london

unfoldable pub account_cost : ProtocolProfile → Bool → ℕ
account_cost profile warm =
    if warm
    then g_warm_access
    else if leb amsterdam profile.fork
    then g_amsterdam_cold_account_access
    else g_cold_account

unfoldable pub external_code_read_cost : ProtocolProfile → ℕ
external_code_read_cost profile = if leb amsterdam profile.fork then g_warm_access else g_zero

unfoldable pub sload_cost : ProtocolProfile → Bool → ℕ
sload_cost profile warm =
    if warm
    then g_warm_access
    else if leb amsterdam profile.fork
    then g_amsterdam_cold_storage_access
    else g_cold_sload

unfoldable pub call_value_cost : ProtocolProfile → ℕ
call_value_cost profile = if leb amsterdam profile.fork then g_amsterdam_call_value else g_callvalue

unfoldable pub create_access_cost : ProtocolProfile → ℕ
create_access_cost profile =
    if leb amsterdam profile.fork then g_amsterdam_create_access else g_create

unfoldable pub amsterdam_storage_access_cost : Bool → ℕ
amsterdam_storage_access_cost cold = if cold then g_amsterdam_cold_storage_access else g_warm_access

unfoldable pub sstore_sentry_cost : Bool → ℕ
unfolding amsterdam_storage_access_cost
sstore_sentry_cost cold =
    let access_cost = amsterdam_storage_access_cost cold in
    if ltb access_cost g_sstore_sentry then g_sstore_sentry else access_cost

-- The base prices of the instructions.
abbrev pub g_jumpdest : ℕ
g_jumpdest = 1

abbrev pub g_base : ℕ
g_base = 2

abbrev pub g_verylow : ℕ
g_verylow = 3

abbrev pub g_low : ℕ
g_low = 5

abbrev pub g_mid : ℕ
g_mid = 8
