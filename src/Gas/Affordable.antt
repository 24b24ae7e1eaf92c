-- ===== src/Gas/Affordable.antt =====
-- The charges that scale with a size, and the code deployment charge, against their exact costs.
use native.Mathlib.Nat.{mul-le-mul_right, div-add-mod, mul-zero}
use evm_sail.Base.{
  ℕ, suc, zero, ◌+◌, ◌-◌, ◌*◌, ◌/◌, ◌%◌, ◌≡◌, arith, leb, ltb, if◌then◌else◌, ap, ◌∙◌, List, ◌&&◌,
}
use evm_sail.Word.{IsWord}
use evm_sail.Profile.{ProtocolProfile, amsterdam}
use evm_sail.Gas.Memory.{gas_charge_unaffordable, memory_word_count, memory_word_count_word}
use evm_sail.Gas.Charges.{
  word_scaled_gas_cost, memory_word_gas_cost, keccak_gas_cost, copy_gas_cost, log_gas_cost,
  code_deployment_execution_cost, bls_msm_gas, bls_discount_at,
}
use evm_sail.Gas.Expansion.{charge_within}

memory_word_count_word_lem : (n : ℕ) → IsWord n → memory_word_count_word n ≡ memory_word_count n
unfolding memory_word_count_word memory_word_count
memory_word_count_word_lem n h = ground arith

word_scaled_lem :
    (per_unit units available : ℕ)
    → word_scaled_gas_cost per_unit units available ≡ charge_within (per_unit * units) available
unfolding word_scaled_gas_cost
word_scaled_lem zero units available = ground arith
word_scaled_lem (suc p) units available =
    ground (arith, mul-le-mul_right {m = 1} {n = suc p} units (omega arith))

memory_word_gas_cost_lem :
    (base per_word size available : ℕ)
    → IsWord size
    → memory_word_gas_cost base per_word size available
      ≡ charge_within (base + per_word * memory_word_count size) available
unfolding memory_word_gas_cost
memory_word_gas_cost_lem base per_word size available h =
    rw (memory_word_count_word_lem size h, word_scaled_lem) (ground arith)

-- The charges for hashing and for copying a word-sized length, and for a log of any number of
-- topics, are the exact costs, and affordable exactly when they are available.
sized_charges_exact :
    (size num_topics available : ℕ)
    → IsWord size
    → (keccak_gas_cost size available ≡ charge_within (30 + 6 * memory_word_count size) available)
      × (copy_gas_cost size available ≡ charge_within (3 * memory_word_count size) available)
      × (log_gas_cost num_topics size available
          ≡ charge_within (375 + 375 * num_topics + 8 * size) available)
unfolding keccak_gas_cost copy_gas_cost log_gas_cost
sized_charges_exact size num_topics available h = (
  memory_word_gas_cost_lem 30 6 size available h,
  memory_word_gas_cost_lem 0 3 size available h
      ∙ ap (λ (t : ℕ). charge_within t available) (omega arith),
  rw word_scaled_lem (ground arith),
)

-- The discount that a multiplication of `k` pairs gets.
abbrev pub msm_discount : List ℕ → ℕ → ℕ → ℕ
msm_discount table maxd k = if ltb k 128 then bls_discount_at table (128 - k) else maxd

split_product : (c n : ℕ) → c * n / 1000 ≡ c * (n / 1000) + c * (n % 1000) / 1000
split_product c n = omega (arith, ap (λ (t : ℕ). c * t) (div-add-mod n 1000))

-- The charge of a multi-scalar multiplication, computed in two parts, is
-- `base * discount * k / 1000` rounded down, and affordable exactly when that is available.
bls_msm_gas_exact :
    (table : List ℕ) (base maxd k available : ℕ)
    → bls_msm_gas table base maxd k available
      ≡ charge_within (base * msm_discount table maxd k * k / 1000) available
unfolding bls_msm_gas
bls_msm_gas_exact table base maxd zero available = rw mul-zero (ground arith)
bls_msm_gas_exact table base maxd (suc k) available =
    let c : ℕ = base * msm_discount table maxd (suc k) in
    rw (split_product c (suc k)) (ground arith)

-- The cost of deploying code: 200 for each byte before Amsterdam; from Amsterdam on 6 for each
-- word, where the size is within the profile's limit.
abbrev pub deployment_cost : ProtocolProfile → ℕ → ℕ
deployment_cost profile byte_len =
    if leb amsterdam profile.fork then 6 * memory_word_count byte_len else 200 * byte_len

-- A code deployment is affordable exactly when its cost is available and, from Amsterdam on, the
-- size is within the profile's limit; it is then charged its exact cost.
code_deployment_execution_cost_exact :
    (profile : ProtocolProfile) (byte_len available : ℕ)
    → code_deployment_execution_cost profile byte_len available ≡ (
        if leb amsterdam profile.fork && ltb profile.deployed_code_size_limit byte_len
        then gas_charge_unaffordable
        else charge_within (deployment_cost profile byte_len) available)
unfolding code_deployment_execution_cost
code_deployment_execution_cost_exact profile byte_len available = ground arith
