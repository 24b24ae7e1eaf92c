-- ===== src/Gas/Tests.antt =====
-- The gas schedule at single inputs, and the theorems about it applied.
use evm_sail.Base.{
  ℕ, ◌+◌, ◌-◌, ◌*◌, ◌/◌, ◌^◌, ◌≤◌, ◌<◌, ◌≡◌, ◌⊎◌, refl, arith, true, false, ok, fatal,
  numeric_overflow, min, max, leb, if◌then◌else◌, List, [], ◌∷◌,
}
use evm_sail.Base.Int.{pos, ◌+ℤ◌}
use evm_sail.Profile.{ProtocolProfile, BlobSchedule, london, cancun, osaka, amsterdam}
use evm_sail.Gas.StateGas.{
  gas_limit, conserved_gas_add, frame_state_gas_used, state_gas_spill_room, state_gas_spill_add,
  charge_state_gas, credit_state_gas_refund, gas_sub,
}
use evm_sail.Gas.Memory.{
  gas_charge, memory_word_count, mem_cost, memory_high_water, memory_expansion_gas_cost,
  memory_absolute,
}
use evm_sail.Gas.Blob.{
  fake_exponential_loop, scaled_price, fake_exponential_word, blob_base_fee, excess_within,
  next_excess_blob_gas,
}
use evm_sail.Gas.Conservation.{
  charge_state_gas_lem, charge_state_gas_conserves, credit_state_gas_refund_conserves,
}
use evm_sail.Gas.Expansion.{memory_expansion_composes}
use evm_sail.Gas.Refunds.{
  clear_standing, clear_amount, Write, last_value, total_refund, total_restored, total_state_charge,
  total_state_credit, state_standing, total_refund-eq, total_state_charge-eq,
}
use evm_sail.Gas.FakeExponential.{term, sum_of_terms, fake_exponential_word_ends}
use evm_sail.Gas.ExcessBlobGas.{next_excess_blob_gas_reserve}

-- The blob schedule of Cancun.
abbrev three_of_six : BlobSchedule
three_of_six = record { target = 3; max = 6; base_fee_update_fraction = 3338477 }

abbrev profile_of : ℕ → ProtocolProfile
profile_of fork = record {
  fork = fork;
  blob_schedule = three_of_six;
  excess_blob_gas_limit = 256 * 3338477 + 3 * 2 ^ 17;
  deployed_code_size_limit = 24576;
  initcode_size_limit = 49152;
  transaction_total_gas_limit = 2 ^ 24;
  transaction_regular_gas_limit = 2 ^ 24;
}

spills_thirty : charge_state_gas 1000 50 0 80 ≡ ok (false, 970, 0, 30)
unfolding charge_state_gas state_gas_spill_add state_gas_spill_room gas_sub
spills_thirty = refl

repays_the_spill : credit_state_gas_refund 970 0 30 80 ≡ ok (1000, 50, 0)
unfolding credit_state_gas_refund conserved_gas_add
repays_the_spill = refl

first_page : memory_expansion_gas_cost 0 1024 5000 ≡ gas_charge 98
unfolding memory_expansion_gas_cost mem_cost memory_word_count memory_high_water
first_page = refl

second_page : memory_expansion_gas_cost 1024 2048 4902 ≡ gas_charge 102
unfolding memory_expansion_gas_cost mem_cost memory_word_count memory_high_water
second_page = refl

child_base : memory_absolute 64 96 ≡ ok 160
unfolding memory_absolute
child_base = refl

cancun_free_fee : blob_base_fee cancun three_of_six (256 * 3338477 + 3 * 2 ^ 17) 0 ≡ ok 1
unfolding blob_base_fee fake_exponential_word scaled_price fake_exponential_loop
cancun_free_fee = refl

osaka_free_fee : blob_base_fee osaka three_of_six (256 * 3338477 + 3 * 2 ^ 17) 0 ≡ ok 1
unfolding blob_base_fee fake_exponential_word scaled_price fake_exponential_loop
osaka_free_fee = refl

full_block : next_excess_blob_gas (profile_of cancun) 0 786432 7 ≡ ok 393216
unfolding next_excess_blob_gas excess_within
full_block = rw cancun_free_fee refl

dear_block : next_excess_blob_gas (profile_of osaka) 0 786432 17 ≡ ok 393216
unfolding next_excess_blob_gas excess_within
dear_block = rw osaka_free_fee refl

charge_state_gas_lem_example : charge_state_gas 1000 50 0 80 ≡ (
    if leb 80 (1000 + 50)
    then ok (false, 1000 - (80 - 50), 50 - 80, 0 + (80 - 50))
    else ok (true, 1000, 50, 0))
charge_state_gas_lem_example = charge_state_gas_lem 1000 50 0 80 (omega arith)

charge_state_gas_conserves_example :
    (970 + 0 + 80 ≡ 1000 + 50)
    × (30 + 970 ≡ 0 + 1000)
    × (frame_state_gas_used 50 0 30 ≡ frame_state_gas_used 50 50 0 +ℤ pos 80)
charge_state_gas_conserves_example = charge_state_gas_conserves 1000 50 0 80 50 spills_thirty

credit_state_gas_refund_conserves_example :
    (1000 + 50 ≡ 970 + 0 + 80)
    × (0 ≡ 30 - 80)
    × (1000 ≡ 970 + min 80 30)
    × (frame_state_gas_used 50 50 0 +ℤ pos 80 ≡ frame_state_gas_used 50 0 30)
    × (1000 ≤ max 970 gas_limit)
    × (50 ≤ max 0 gas_limit)
credit_state_gas_refund_conserves_example =
    credit_state_gas_refund_conserves 970 0 30 80 50 repays_the_spill

memory_expansion_composes_example : memory_expansion_gas_cost 0 2048 5000 ≡ gas_charge (98 + 102)
memory_expansion_composes_example =
    memory_expansion_composes 0 1024 2048 5000 (omega arith) (omega arith) (omega arith) first_page
      second_page

fake_exponential_word_ends_example :
    ((n : ℕ) × (term 3338477 10000000 n ≡ 0)
      × (sum_of_terms 3338477 10000000 n < 3338477 * 2 ^ 256)
      × (fake_exponential_word three_of_six 10000000
          ≡ ok (sum_of_terms 3338477 10000000 n / 3338477)))
    ⊎ ((n : ℕ) × (3338477 * 2 ^ 256 ≤ sum_of_terms 3338477 10000000 n)
        × (fake_exponential_word three_of_six 10000000 ≡ fatal numeric_overflow))
fake_exponential_word_ends_example = fake_exponential_word_ends three_of_six 10000000 (omega arith)

-- The slot holds 5; it is cleared, set to 9 and set back to 5.
abbrev three_writes : List Write
three_writes = (0, true) ∷ (9, false) ∷ (5, false) ∷ []

total_refund-eq_example :
    total_refund (profile_of london) 5 5 three_writes
    ≡ pos (
        clear_standing (clear_amount (profile_of london)) 5 (last_value 5 three_writes)
        + total_restored (profile_of london) 5 5 three_writes)
total_refund-eq_example = total_refund-eq (profile_of london) 5 three_writes

total_state_charge-eq_example :
    total_state_charge (profile_of amsterdam) 0 0 three_writes
    ≡ total_state_credit (profile_of amsterdam) 0 0 three_writes
      + state_standing (profile_of amsterdam) 0 (last_value 0 three_writes)
total_state_charge-eq_example = total_state_charge-eq (profile_of amsterdam) 0 three_writes

next_excess_blob_gas_reserve_example :
    (0 ≤ 393216) × (0 + 786432 - 2 ^ 17 * 3 ≤ 393216) × (393216 ≤ 0 + 786432)
next_excess_blob_gas_reserve_example =
    next_excess_blob_gas_reserve (profile_of osaka) 0 786432 17 osaka_free_fee (omega arith)
      (omega arith) (omega arith) (omega arith) (omega arith) dear_block
