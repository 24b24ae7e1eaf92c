-- ===== src/Gas/ExcessBlobGas.antt =====
-- The excess of blob gas that a block passes on.
use native.Mathlib.Nat.{
  eq-zero-or-pos, mul-add, add-mul, mul_left_comm, mul_assoc, div-le_of_le-mul, le-div_iff_mul-le,
  mul_comm, mul-le-mul_left,
}
use evm_sail.Base.{ℕ, ◌+◌, ◌-◌, ◌*◌, ◌/◌, ◌^◌, ◌≤◌, ◌<◌, ◌≡◌, ◌⊎◌, inl, inr, sym, arith, ok}
use evm_sail.Profile.{ProtocolProfile, osaka}
use evm_sail.Gas.Blob.{blob_base_fee, excess_within, next_excess_blob_gas}

-- Before Osaka, and from Osaka on while the execution base fee is at most 16 times the blob
-- fee, the excess grows by the parent's blob gas less the target and stops at zero.
next_excess_blob_gas_rule :
    (profile : ProtocolProfile) (parent_excess parent_used base_fee : ℕ) {fee : ℕ}
    → blob_base_fee profile.fork profile.blob_schedule profile.excess_blob_gas_limit parent_excess
      ≡ ok fee
    → (profile.fork < osaka) ⊎ (base_fee ≤ 16 * fee)
    → next_excess_blob_gas profile parent_excess parent_used base_fee
      ≡ excess_within profile (parent_excess + parent_used - 2 ^ 17 * profile.blob_schedule.target)
unfolding next_excess_blob_gas excess_within
next_excess_blob_gas_rule profile parent_excess parent_used base_fee h c = ground arith

share_le : (used max target : ℕ) → used * (max - target) / max ≤ used
share_le used max target =
    div-le_of_le-mul max
      (rw (mul_comm max used) (mul-le-mul_left {m = max - target} {n = max} used (omega arith)))

product_moves : (t d : ℕ) → t * (2 ^ 17 * d) ≡ 2 ^ 17 * t * d
product_moves t d = rw (mul_left_comm t (2 ^ 17) d) (sym (mul_assoc (2 ^ 17) t d))

share_product : (t d e : ℕ) → e ≤ 2 ^ 17 * d → e * (t + d) ≤ (2 ^ 17 * t + e) * d
share_product t d e h = omega (
  arith,
  mul-add e t d,
  add-mul (2 ^ 17 * t) e d,
  mul_comm e t,
  mul-le-mul_left {m = e} {n = 2 ^ 17 * d} t h,
  mul_comm t (2 ^ 17 * d),
  mul_comm (2 ^ 17 * t) d,
  product_moves t d,
)

share_parts :
    (used max t d e : ℕ) → t + d ≡ max → 2 ^ 17 * t + e ≡ used → e ≤ 2 ^ 17 * d → e * max ≤ used * d
share_parts used max t d e sum parts h = rw (sym sum) (rw (sym parts) (share_product t d e h))

share_ge :
    (used max target : ℕ)
    → 0 < max
    → target ≤ max
    → used ≤ 2 ^ 17 * max
    → used ≤ used * (max - target) / max + 2 ^ 17 * target
share_ge used max target h t u = elim (eq-zero-or-pos (used - 2 ^ 17 * target)) [
  | inl below ↦ omega (arith, below)
  | inr above ↦
      let d = max - target in
      let e = used - 2 ^ 17 * target in
      let product : e * max ≤ used * d =
        share_parts used max target d e (omega arith) (omega (arith, above)) (omega (arith, u)) in
      omega (arith, (le-div_iff_mul-le {k = max} {x = e} {y = used * d} h).1 product, above)
]

-- While the execution base fee is above 16 times the blob fee, from Osaka on, and the target is
-- reached, an excess that is passed on is not below the parent's, is not below what the plain rule
-- gives, which takes the whole target off, and is above the parent's by no more than the parent's
-- blob gas. The target is at most the maximum, and the parent's blob gas at most the maximum's.
pub next_excess_blob_gas_reserve :
    (profile : ProtocolProfile) (parent_excess parent_used base_fee : ℕ) {fee excess : ℕ}
    → blob_base_fee profile.fork profile.blob_schedule profile.excess_blob_gas_limit parent_excess
      ≡ ok fee
    → osaka ≤ profile.fork
    → 16 * fee < base_fee
    → profile.blob_schedule.target ≤ profile.blob_schedule.max
    → parent_used ≤ 2 ^ 17 * profile.blob_schedule.max
    → 2 ^ 17 * profile.blob_schedule.target ≤ parent_excess + parent_used
    → next_excess_blob_gas profile parent_excess parent_used base_fee ≡ ok excess
    → (parent_excess ≤ excess)
      × (parent_excess + parent_used - 2 ^ 17 * profile.blob_schedule.target ≤ excess)
      × (excess ≤ parent_excess + parent_used)
unfolding next_excess_blob_gas excess_within
next_excess_blob_gas_reserve profile parent_excess parent_used base_fee h f c m u t e = ground (
  arith,
  share_le parent_used profile.blob_schedule.max profile.blob_schedule.target,
  share_ge parent_used profile.blob_schedule.max profile.blob_schedule.target,
)
