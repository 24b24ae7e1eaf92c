-- ===== src/Gas/Refunds.antt =====
-- The refunds and the state gas of a sequence of writes to one slot.
use evm_sail.Base.{
  ℕ, ◌+◌, ◌≡◌, arith, Bool, not, ◌&&◌, leb, ◌==◌, if◌then◌else◌, List, [], ◌∷◌, Bool-cases, inl,
  inr,
}
use evm_sail.Base.Int.{ℤ, pos, ◌+ℤ◌, int_laws, parts_of_eq}
use evm_sail.Word.{word_is_zero}
use evm_sail.Profile.{ProtocolProfile, amsterdam}
use evm_sail.Gas.Schedule.{
  sstore_clear_refund, g_amsterdam_storage_write, g_amsterdam_state_storage_set,
  r_amsterdam_storage_clear,
}
use evm_sail.Gas.Sstore.{legacy_refund, amsterdam_refund, sstore_costs}

-- The clearing refund that stands while a slot that held a value holds zero.
unfoldable pub clear_standing : ℕ → ℕ → ℕ → ℕ
clear_standing clear original current = if not (original == 0) && current == 0 then clear else 0

-- The refund for a write that brings a changed slot back to its original value.
unfoldable pub restored : ℕ → ℕ → ℕ → ℕ → ℕ
restored amount original current new_value =
    if not (current == new_value) && original == new_value then amount else 0

legacy_refund_lem :
    (clear original current new_value : ℕ)
    → legacy_refund clear original current new_value +ℤ pos (clear_standing clear original current)
      ≡ pos (
          clear_standing clear original new_value
          + restored (if original == 0 then 19900 else 2800) original current new_value)
unfolding legacy_refund clear_standing restored
legacy_refund_lem clear original current new_value = ground arith

amsterdam_refund_lem :
    (original current new_value : ℕ)
    → amsterdam_refund original current new_value
        +ℤ pos (clear_standing r_amsterdam_storage_clear original current)
      ≡ pos (
          clear_standing r_amsterdam_storage_clear original new_value
          + restored g_amsterdam_storage_write original current new_value)
unfolding amsterdam_refund clear_standing restored
amsterdam_refund_lem original current new_value = ground arith

abbrev pub clear_amount : ProtocolProfile → ℕ
clear_amount profile =
    if leb amsterdam profile.fork then r_amsterdam_storage_clear else sstore_clear_refund profile

abbrev pub restore_amount : ProtocolProfile → ℕ → ℕ
restore_amount profile original =
    if leb amsterdam profile.fork
    then g_amsterdam_storage_write
    else if original == 0
    then 19900
    else 2800

sstore_refund_lem :
    (profile : ProtocolProfile) (original current new_value : ℕ) (cold : Bool)
    → (sstore_costs profile original current new_value cold).refund
        +ℤ pos (clear_standing (clear_amount profile) original current)
      ≡ pos (
          clear_standing (clear_amount profile) original new_value
          + restored (restore_amount profile original) original current new_value)
unfolding sstore_costs
sstore_refund_lem profile original current new_value cold =
    elim (Bool-cases (leb amsterdam profile.fork)) [
      | inl new ↦ rw new (amsterdam_refund_lem original current new_value)
      | inr old ↦
          rw old (legacy_refund_lem (sstore_clear_refund profile) original current new_value)
    ]

-- A write to the slot: the new value, and whether the slot was cold.
abbrev pub Write : Type 0
Write = ℕ × Bool

-- What a sequence of writes to one slot leaves there.
pub last_value : ℕ → List Write → ℕ
last_value current [] = current
last_value current ((new_value, _) ∷ writes) = last_value new_value writes

module _ (profile : ProtocolProfile) (original : ℕ) where
  -- The refunds of the writes in turn, added up.
  unfoldable pub total_refund : ℕ → List Write → ℤ
  total_refund current [] = pos 0
  total_refund current ((new_value, cold) ∷ writes) =
      (sstore_costs profile original current new_value cold).refund +ℤ total_refund new_value writes

  unfoldable pub total_restored : ℕ → List Write → ℕ
  total_restored current [] = 0
  total_restored current ((new_value, cold) ∷ writes) =
      restored (restore_amount profile original) original current new_value
      + total_restored new_value writes

  -- The state gas of the writes, charged and credited.
  unfoldable pub total_state_charge : ℕ → List Write → ℕ
  total_state_charge current [] = 0
  total_state_charge current ((new_value, cold) ∷ writes) =
      (sstore_costs profile original current new_value cold).state_charge
      + total_state_charge new_value writes

  unfoldable pub total_state_credit : ℕ → List Write → ℕ
  total_state_credit current [] = 0
  total_state_credit current ((new_value, cold) ∷ writes) =
      (sstore_costs profile original current new_value cold).state_credit
      + total_state_credit new_value writes

total_refund_lem :
    (profile : ProtocolProfile) (original current : ℕ) (writes : List Write)
    → total_refund profile original current writes
        +ℤ pos (clear_standing (clear_amount profile) original current)
      ≡ pos (
          clear_standing (clear_amount profile) original (last_value current writes)
          + total_restored profile original current writes)
unfolding total_refund total_restored last_value
total_refund_lem profile original current [] = omega int_laws
total_refund_lem profile original current ((new_value, cold) ∷ writes) = omega (
  int_laws,
  parts_of_eq _ _ (sstore_refund_lem profile original current new_value cold),
  parts_of_eq _ _ (total_refund_lem profile original new_value writes),
)

clear_standing_self : (clear original : ℕ) → clear_standing clear original original ≡ 0
unfolding clear_standing
clear_standing_self clear original = ground arith

-- Over any sequence of writes to a slot that starts at its original value, on every fork, the
-- refunds add up to the clearing refund, if the slot ends up cleared, and one restoring refund for
-- each write that brings the changed slot back: the sum is never negative.
pub total_refund-eq :
    (profile : ProtocolProfile) (original : ℕ) (writes : List Write)
    → total_refund profile original original writes
      ≡ pos (
          clear_standing (clear_amount profile) original (last_value original writes)
          + total_restored profile original original writes)
total_refund-eq profile original writes = omega (
  int_laws,
  parts_of_eq _ _ (total_refund_lem profile original original writes),
  clear_standing_self (clear_amount profile) original,
)

-- The state gas that a slot holds: from Amsterdam on, while a slot that was zero holds a value.
abbrev pub state_standing : ProtocolProfile → ℕ → ℕ → ℕ
state_standing profile original current =
    if leb amsterdam profile.fork && (original == 0 && not (current == 0))
    then g_amsterdam_state_storage_set
    else 0

sstore_state_lem :
    (profile : ProtocolProfile) (original current new_value : ℕ) (cold : Bool)
    → (sstore_costs profile original current new_value cold).state_charge
        + state_standing profile original current
      ≡ (sstore_costs profile original current new_value cold).state_credit
        + state_standing profile original new_value
unfolding sstore_costs word_is_zero
sstore_state_lem profile original current new_value cold = ground arith

total_state_lem :
    (profile : ProtocolProfile) (original current : ℕ) (writes : List Write)
    → total_state_charge profile original current writes + state_standing profile original current
      ≡ total_state_credit profile original current writes
        + state_standing profile original (last_value current writes)
unfolding total_state_charge total_state_credit last_value
total_state_lem profile original current [] = omega arith
total_state_lem profile original current ((new_value, cold) ∷ writes) = omega (
  arith,
  sstore_state_lem profile original current new_value cold,
  total_state_lem profile original new_value writes,
)

-- Over any sequence of writes to a slot that starts at its original value, the state gas charged
-- is the state gas credited and, from Amsterdam on, the price of one new slot if the slot was
-- zero and ends with a value.
pub total_state_charge-eq :
    (profile : ProtocolProfile) (original : ℕ) (writes : List Write)
    → total_state_charge profile original original writes
      ≡ total_state_credit profile original original writes
        + state_standing profile original (last_value original writes)
total_state_charge-eq profile original writes =
    ground (arith, total_state_lem profile original original writes)
