-- ===== src/Gas/Blob.antt =====
-- The price of blob gas and the excess that sets it.
use evm_sail.Base.{
  ℕ, zero, suc, ◌+◌, ◌-◌, ◌*◌, ◌^◌, true, false, ◌&&◌, leb, ltb, ◌==◌, if◌then◌else◌, Option, none,
  some, Outcome, ok, fatal, raised, ◌>>=◌, invalid_config, numeric_overflow,
  blob_gas_limit_exceeded,
}
use evm_sail.Runtime.{sail_ediv_int}
use evm_sail.Profile.{ProtocolProfile, BlobSchedule, cancun, osaka}

-- The `while` loop of `fake_exponential_word` on fuel; `none` means that the fuel ran out.
unfoldable pub fake_exponential_loop : ℕ → ℕ → ℕ → ℕ → ℕ → ℕ → ℕ → Option (Outcome ℕ)
fake_exponential_loop zero denominator numerator scaled_limit term_index output accum = none
fake_exponential_loop (suc fuel) denominator numerator scaled_limit term_index output accum =
    elim (ltb 0 accum) [
      | false ↦ some (ok output)
      | true ↦ elim (leb scaled_limit accum) [
        | true ↦ some (fatal numeric_overflow)
        | false ↦ elim (leb scaled_limit (output + accum)) [
          | true ↦ some (fatal numeric_overflow)
          | false ↦ elim (ltb term_index scaled_limit) [
            | false ↦ some (fatal numeric_overflow)
            | true ↦
                fake_exponential_loop fuel denominator numerator scaled_limit (term_index + 1)
                  (output + accum) (sail_ediv_int (accum * numerator) (denominator * term_index))
          ]
        ]
      ]
    ]

-- The division after the loop, which raises at a denominator of zero.
unfoldable pub scaled_price : ℕ → ℕ → Outcome ℕ
scaled_price denominator output =
    if denominator == 0
    then raised
    else (let price = sail_ediv_int output denominator in
        if ltb price (2 ^ 256) then ok price else fatal numeric_overflow)

-- The fuel is one more than the limit on the output, which each round raises.
unfoldable pub fake_exponential_word : BlobSchedule → ℕ → Outcome ℕ
fake_exponential_word schedule numerator =
    let denominator = schedule.base_fee_update_fraction in
    let scaled_limit = denominator * 2 ^ 256 in
    elim (fake_exponential_loop (suc scaled_limit) denominator numerator scaled_limit 1 0
      denominator) [ none ↦ raised | some outcome ↦ outcome >>= scaled_price denominator ]

unfoldable pub blob_base_fee : ℕ → BlobSchedule → ℕ → ℕ → Outcome ℕ
blob_base_fee fork schedule limit excess_blob_gas =
    if leb cancun fork && leb excess_blob_gas limit
    then fake_exponential_word schedule excess_blob_gas
    else fatal invalid_config

unfoldable pub block_blob_gas_add : ℕ → ℕ → ℕ → Outcome ℕ
block_blob_gas_add maximum_count accumulated transaction =
    let maximum = 2 ^ 17 * maximum_count in
    if leb accumulated maximum && leb transaction (maximum - accumulated)
    then ok (accumulated + transaction)
    else fatal blob_gas_limit_exceeded

-- `excess_blob_gas(next)`, where it is within the profile's limit.
unfoldable pub excess_within : ProtocolProfile → ℕ → Outcome ℕ
excess_within profile next =
    if leb next profile.excess_blob_gas_limit then ok next else fatal invalid_config

unfoldable pub next_excess_blob_gas : ProtocolProfile → ℕ → ℕ → ℕ → Outcome ℕ
next_excess_blob_gas profile parent_excess parent_used parent_base_fee_per_gas =
    let parent_blob_gas = parent_excess + parent_used in
    let target_blob_gas = 2 ^ 17 * profile.blob_schedule.target in
    if ltb parent_blob_gas target_blob_gas then ok 0 else (do
      fee ←
          blob_base_fee profile.fork profile.blob_schedule profile.excess_blob_gas_limit
            parent_excess
      (if leb osaka profile.fork && ltb (16 * fee) parent_base_fee_per_gas
          then (let maximum = profile.blob_schedule.max in
              if maximum == 0
              then fatal invalid_config
              else excess_within profile (
                  parent_excess
                  + sail_ediv_int (parent_used * (maximum - profile.blob_schedule.target)) maximum))
          else excess_within profile (parent_blob_gas - target_blob_gas)))
