-- ===== src/Profile.antt =====
-- The forks and the protocol profile of extractions/python/src/evm/primitives/fork.py and
-- chain_config.py, which the gas schedule reads from `environment.k_execution_profile`.
use evm_sail.Base.{ℕ, ◌+◌, ◌-◌, ◌*◌, ◌^◌, ltb, if◌then◌else◌}

abbrev pub berlin : ℕ
berlin = 5

abbrev pub london : ℕ
london = 6

abbrev pub shanghai : ℕ
shanghai = 10

abbrev pub cancun : ℕ
cancun = 11

abbrev pub prague : ℕ
prague = 12

abbrev pub osaka : ℕ
osaka = 13

abbrev pub amsterdam : ℕ
amsterdam = 16

-- `BlobScheduleFields`.
pub record BlobSchedule : Type 0 where
  pub target : ℕ
  pub max : ℕ
  pub base_fee_update_fraction : ℕ

-- The fields of `ProtocolProfileFields` that the modelled code reads.
pub record ProtocolProfile : Type 0 where
  pub fork : ℕ
  pub blob_schedule : BlobSchedule
  pub excess_blob_gas_limit : ℕ
  pub deployed_code_size_limit : ℕ
  pub initcode_size_limit : ℕ
  pub transaction_total_gas_limit : ℕ
  pub transaction_regular_gas_limit : ℕ

unfoldable pub compute_profile_excess_blob_gas_limit : ℕ → ℕ → ℕ → ℕ → ℕ
compute_profile_excess_blob_gas_limit fork target maximum denominator =
    if ltb fork cancun then 0 else 256 * denominator + (maximum - target) * 2 ^ 17

-- `GasLimitsFields`, less the two fixed system limits.
pub record GasLimits : Type 0 where
  pub block_limit : ℕ
  pub transaction_total_limit : ℕ
  pub transaction_regular_limit : ℕ

unfoldable pub gas_limits_for : ProtocolProfile → ℕ → GasLimits
gas_limits_for profile block_limit =
    let total =
      if ltb block_limit profile.transaction_total_gas_limit
      then block_limit
      else profile.transaction_total_gas_limit in
    let regular =
      if ltb total profile.transaction_regular_gas_limit
      then total
      else profile.transaction_regular_gas_limit in
    record {
      block_limit = block_limit;
      transaction_total_limit = total;
      transaction_regular_limit = regular;
    }
