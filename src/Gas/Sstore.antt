-- ===== src/Gas/Sstore.antt =====
-- The costs and refunds of a storage write, before Amsterdam and from Amsterdam on.
use evm_sail.Base.{ℕ, ◌+◌, Bool, not, ◌&&◌, leb, ◌==◌, if◌then◌else◌}
use evm_sail.Base.Int.{ℤ, pos, ◌+ℤ◌, ◌-ℤ◌}
use evm_sail.Word.{word_is_zero}
use evm_sail.Profile.{ProtocolProfile, amsterdam}
use evm_sail.Gas.Schedule.{
  g_cold_sload, g_sset, g_sreset, g_warm_access, sstore_clear_refund, amsterdam_storage_access_cost,
  g_amsterdam_storage_write, g_amsterdam_state_storage_set, r_amsterdam_storage_clear,
}

pub record SstoreCosts : Type 0 where
  pub execution : ℕ
  pub refund : ℤ
  pub state_charge : ℕ
  pub state_credit : ℕ

-- The refund that `legacy_sstore_costs` computes from the three values.
unfoldable pub legacy_refund : ℕ → ℕ → ℕ → ℕ → ℤ
unfolding word_is_zero ◌+ℤ◌ ◌-ℤ◌
legacy_refund clear_refund original current new_value =
    let original_is_zero = word_is_zero original in
    let current_is_zero = word_is_zero current in
    let new_value_is_zero = word_is_zero new_value in
    let original_is_nonzero = not original_is_zero in
    if current == new_value
    then pos 0
    else if original == current
    then (if original_is_nonzero && new_value_is_zero then pos clear_refund else pos 0)
    else (let withdrawn = if current_is_zero then pos 0 -ℤ pos clear_refund else pos 0 in
        let awarded = if new_value_is_zero then pos clear_refund else pos 0 in
        let clear_delta = if original_is_zero then pos 0 else withdrawn +ℤ awarded in
        let reset_delta =
          if original == new_value
          then (if original_is_zero
              then pos g_sset -ℤ pos g_warm_access
              else pos g_sreset -ℤ pos g_warm_access)
          else pos 0 in
        clear_delta +ℤ reset_delta)

unfoldable pub legacy_sstore_costs : ProtocolProfile → ℕ → ℕ → ℕ → Bool → SstoreCosts
unfolding legacy_refund
legacy_sstore_costs profile original current new_value cold =
    let cold_cost = if cold then g_cold_sload else 0 in
    let clean_change = not (current == new_value) && original == current in
    let base =
      if clean_change
      then (if word_is_zero original then g_sset else g_sreset)
      else g_warm_access in
    record {
      execution = base + cold_cost;
      refund = legacy_refund (sstore_clear_refund profile) original current new_value;
      state_charge = 0;
      state_credit = 0;
    }

-- The refund that `amsterdam_sstore_costs` computes.
unfoldable pub amsterdam_refund : ℕ → ℕ → ℕ → ℤ
unfolding word_is_zero ◌+ℤ◌ ◌-ℤ◌
amsterdam_refund original current new_value =
    let changed = not (current == new_value) in
    let original_is_nonzero = not (word_is_zero original) in
    let current_is_zero = word_is_zero current in
    let current_is_nonzero = not current_is_zero in
    let clear_delta =
      if changed && (original_is_nonzero && (current_is_nonzero && word_is_zero new_value))
      then pos r_amsterdam_storage_clear
      else if changed && (original_is_nonzero && current_is_zero)
      then pos 0 -ℤ pos r_amsterdam_storage_clear
      else pos 0 in
    let restore_delta =
      if changed && original == new_value then pos g_amsterdam_storage_write else pos 0 in
    clear_delta +ℤ restore_delta

unfoldable pub amsterdam_sstore_costs : ℕ → ℕ → ℕ → Bool → SstoreCosts
unfolding amsterdam_refund
amsterdam_sstore_costs original current new_value cold =
    let changed = not (current == new_value) in
    let clean_change = original == current && changed in
    let access = amsterdam_storage_access_cost cold in
    let original_is_zero = word_is_zero original in
    record {
      execution = if clean_change then access + g_amsterdam_storage_write else access;
      refund = amsterdam_refund original current new_value;
      state_charge = if clean_change && original_is_zero then g_amsterdam_state_storage_set else 0;
      state_credit =
          if changed && (original == new_value && original_is_zero)
          then g_amsterdam_state_storage_set
          else 0;
    }

unfoldable pub sstore_costs : ProtocolProfile → ℕ → ℕ → ℕ → Bool → SstoreCosts
unfolding amsterdam_sstore_costs legacy_sstore_costs
sstore_costs profile original current new_value cold =
    if leb amsterdam profile.fork
    then amsterdam_sstore_costs original current new_value cold
    else legacy_sstore_costs profile original current new_value cold
