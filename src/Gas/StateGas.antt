-- ===== src/Gas/StateGas.antt =====
-- State gas: the reservoir, its spill into the execution gas, and the refunds of either.
use evm_sail.Base.{
  ℕ, ◌+◌, ◌-◌, ◌*◌, ◌/◌, ◌^◌, Bool, true, false, not, ◌&&◌, leb, ltb, ◌==◌, if◌then◌else◌,
  execution_invalid, Outcome, ok, fatal, ◌>>=◌,
}
use evm_sail.Base.Int.{ℤ, pos, negsuc, ◌+ℤ◌, ◌-ℤ◌, leb_ℤ}

-- The largest amount of gas, `(1 << 64) - 1`.
abbrev pub gas_limit : ℕ
gas_limit = 2 ^ 64 - 1

-- `STATE_GAS_SPILL_LIMIT`.
abbrev pub state_gas_spill_limit : ℕ
state_gas_spill_limit = 2 ^ 24

unfoldable pub conserved_gas_add : ℕ → ℕ → Outcome ℕ
conserved_gas_add available credit =
    if leb credit (gas_limit - available) then ok (available + credit) else fatal execution_invalid

-- `199 * ((1 << 64) - 1)`, the bound on a refund counter in either direction.
abbrev pub refund_bound : ℕ
refund_bound = 199 * (2 ^ 64 - 1)

unfoldable pub validated_refund_add : ℤ → ℤ → Outcome ℤ
validated_refund_add left right =
    let total = left +ℤ right in
    if leb_ℤ (negsuc (refund_bound - 1)) total && leb_ℤ total (pos refund_bound)
    then ok total
    else fatal execution_invalid

unfoldable pub record_refund : ℤ → ℤ → Outcome ℤ
unfolding validated_refund_add
record_refund refund delta = validated_refund_add refund delta

unfoldable pub frame_state_gas_used : ℕ → ℕ → ℕ → ℤ
frame_state_gas_used reservoir remaining spilled = (pos reservoir -ℤ pos remaining) +ℤ pos spilled

unfoldable pub state_gas_spill_room : ℕ → ℕ
state_gas_spill_room left = 2 ^ 24 - left

unfoldable pub state_gas_spill_add : ℕ → ℕ → Outcome ℕ
unfolding state_gas_spill_room
state_gas_spill_add left right =
    if leb right (state_gas_spill_room left) then ok (left + right) else fatal execution_invalid

-- What `charge_state_gas` returns: whether the gas ran out, the execution gas, the state gas and
-- the spill.
abbrev pub StateGasCharge : Type 0
StateGasCharge = Bool × ℕ × ℕ × ℕ

unfoldable pub charge_state_gas : ℕ → ℕ → ℕ → ℕ → Outcome StateGasCharge
unfolding state_gas_spill_add
charge_state_gas g remaining spilled amount =
    if amount == 0
    then ok (false, g, remaining, spilled)
    else if leb amount remaining
    then ok (false, g, remaining - amount, spilled)
    else (let remainder = amount - remaining in
        if leb remainder g
        then (do total ← state_gas_spill_add spilled remainder; ok (false, g - remainder, 0, total))
        else ok (true, g, remaining, spilled))

unfoldable pub credit_state_gas_refund : ℕ → ℕ → ℕ → ℕ → Outcome (ℕ × ℕ × ℕ)
unfolding conserved_gas_add
credit_state_gas_refund g remaining spilled amount =
    if leb amount spilled
    then (if not (amount == 0)
        then (do credited ← conserved_gas_add g amount; ok (credited, remaining, spilled - amount))
        else ok (g, remaining, spilled))
    else (do
      credited ← (if not (spilled == 0) then conserved_gas_add g spilled else ok g)
      state ← conserved_gas_add remaining (amount - spilled)
      ok (credited, state, 0))

unfoldable pub return_child_state_gas : ℕ → ℕ → ℕ → ℕ → Outcome (ℕ × ℕ)
unfolding state_gas_spill_add
return_child_state_gas parent_remaining parent_spilled child_remaining child_spilled =
    let state_room = gas_limit - parent_remaining in
    if leb child_remaining state_room
    then (do
      spilled ← state_gas_spill_add parent_spilled child_spilled
      ok (parent_remaining + child_remaining, spilled))
    else fatal execution_invalid

unfoldable pub refund_gas : ℕ → ℕ → Outcome ℕ
unfolding conserved_gas_add
refund_gas g amount = conserved_gas_add g amount

unfoldable pub gas_sub : ℕ → ℕ → ℕ
gas_sub left right = if leb right left then left - right else 0

unfoldable pub call_gas_cap_word : ℕ → ℕ → ℕ
unfolding gas_sub
call_gas_cap_word available requested =
    let retained = available / 64 in
    let all_but_64th = gas_sub available retained in
    if ltb requested all_but_64th then requested else all_but_64th
