-- ===== src/Gas/Conservation.antt =====
-- The pools of state gas under a charge and a refund, and the gas that a call takes.
use evm_sail.Base.{
  ℕ, ◌+◌, ◌-◌, ◌*◌, ◌/◌, ◌≤◌, ◌≡◌, arith, true, false, ok, leb, min, max, if◌then◌else◌,
}
use evm_sail.Base.Int.{pos, ◌+ℤ◌, int_laws}
use evm_sail.Gas.StateGas.{
  gas_limit, state_gas_spill_limit, frame_state_gas_used, charge_state_gas, credit_state_gas_refund,
  call_gas_cap_word,
}

-- Where the spill leaves room for the execution gas, a state-gas charge takes its amount from the
-- state gas first and the rest from the execution gas, which it records as spill; it runs out,
-- changing nothing, exactly when the amount exceeds both pools together. It never raises.
pub charge_state_gas_lem :
    (g remaining spilled amount : ℕ)
    → spilled + g ≤ state_gas_spill_limit
    → charge_state_gas g remaining spilled amount ≡ (
        if leb amount (g + remaining)
        then ok
            (false, g - (amount - remaining), remaining - amount, spilled + (amount - remaining))
        else ok (true, g, remaining, spilled))
unfolding charge_state_gas
charge_state_gas_lem g remaining spilled amount h = ground arith

charge_sums :
    (g remaining spilled amount : ℕ) {g' remaining' spilled' : ℕ}
    → charge_state_gas g remaining spilled amount ≡ ok (false, g', remaining', spilled')
    → (g' + remaining' + amount ≡ g + remaining) × (spilled' + g' ≡ spilled + g)
unfolding charge_state_gas
charge_sums g remaining spilled amount h = ground arith

-- A state-gas charge that does not run out takes exactly its amount from the execution gas and
-- the state gas together, moves what it takes from the execution gas to the spill, and raises
-- the frame's state gas used by the amount.
pub charge_state_gas_conserves :
    (g remaining spilled amount reservoir : ℕ) {g' remaining' spilled' : ℕ}
    → charge_state_gas g remaining spilled amount ≡ ok (false, g', remaining', spilled')
    → (g' + remaining' + amount ≡ g + remaining)
      × (spilled' + g' ≡ spilled + g)
      × (frame_state_gas_used reservoir remaining' spilled'
          ≡ frame_state_gas_used reservoir remaining spilled +ℤ pos amount)
unfolding frame_state_gas_used
charge_state_gas_conserves g remaining spilled amount reservoir h =
    let s = charge_sums g remaining spilled amount h in (s.0, s.1, omega (int_laws, s))

credit_sums :
    (g remaining spilled amount : ℕ) {g' remaining' spilled' : ℕ}
    → credit_state_gas_refund g remaining spilled amount ≡ ok (g', remaining', spilled')
    → (g' + remaining' ≡ g + remaining + amount)
      × (spilled' + g' ≡ spilled + g)
      × (g' ≤ max g gas_limit)
      × (remaining' ≤ max remaining gas_limit)
unfolding credit_state_gas_refund
credit_sums g remaining spilled amount h = ground arith

credit_order :
    (g remaining spilled amount : ℕ) {g' remaining' spilled' : ℕ}
    → credit_state_gas_refund g remaining spilled amount ≡ ok (g', remaining', spilled')
    → (spilled' ≡ spilled - amount) × (g' ≡ g + min amount spilled)
unfolding credit_state_gas_refund
credit_order g remaining spilled amount h = ground arith

-- A state-gas refund returns exactly its amount to the two pools, repays the spill before
-- anything goes to the state gas, and lowers the frame's state gas used by the amount; neither
-- pool grows past the gas limit.
pub credit_state_gas_refund_conserves :
    (g remaining spilled amount reservoir : ℕ) {g' remaining' spilled' : ℕ}
    → credit_state_gas_refund g remaining spilled amount ≡ ok (g', remaining', spilled')
    → (g' + remaining' ≡ g + remaining + amount)
      × (spilled' ≡ spilled - amount)
      × (g' ≡ g + min amount spilled)
      × (frame_state_gas_used reservoir remaining' spilled' +ℤ pos amount
          ≡ frame_state_gas_used reservoir remaining spilled)
      × (g' ≤ max g gas_limit)
      × (remaining' ≤ max remaining gas_limit)
unfolding frame_state_gas_used
credit_state_gas_refund_conserves g remaining spilled amount reservoir h =
    let s = credit_sums g remaining spilled amount h in
    let p = credit_order g remaining spilled amount h in
    (s.0, p.0, p.1, omega (int_laws, s), s.2, s.3)

-- The gas that a call may take: what it asks for, and at most all but the 64th part, rounded up,
-- of what is available.
call_gas_cap_word_bounds :
    (available requested : ℕ)
    → (call_gas_cap_word available requested ≡ min requested (available - available / 64))
      × (available ≤ 64 * (available - call_gas_cap_word available requested) + 63)
unfolding call_gas_cap_word
call_gas_cap_word_bounds available requested = ground arith
