-- ===== src/Base/Raises.antt =====
-- What a call returns: a value, the fatal exit of `fatal_error`, or another raised error.
use mathlib.Core.Path.{◌≡◌, refl}

pub data FatalError : Type 0 where
  invalid_config header_chain_broken rlp_decode invalid_signature invalid_gas_limit : FatalError
  gas_used_exceeds_limit blob_gas_limit_exceeded execution_invalid invalid_gas_used : FatalError
  invalid_blob_gas_used invalid_excess_blob_gas invalid_state_root : FatalError
  invalid_receipts_root invalid_logs_bloom invalid_block_hash invalid_parent_hash : FatalError
  block_access_list_too_large invalid_block_access_list invalid_execution_requests : FatalError
  witness_deficient numeric_overflow : FatalError

-- `fatal r` is the `SailExit` that `fatal_error(r)` raises; `raised` is a `RuntimeError`, a
-- `SailError` or a `ValueError`.
pub data Outcome {ℓ} (A : Type ℓ) : Type ℓ where
  ok : A → Outcome A
  fatal : FatalError → Outcome A
  raised : Outcome A

infixl 5 ◌>>=◌ ◌>>◌
abbrev pub ◌>>=◌ {ℓ κ} : {A : Type ℓ} {B : Type κ} → Outcome A → (A → Outcome B) → Outcome B
ok a >>= f = f a
fatal r >>= f = fatal r
raised >>= f = raised

abbrev pub ◌>>◌ {ℓ} : {B : Type ℓ} → Outcome (Unit {0}) → Outcome B → Outcome B
m >> k = m >>= λ _. k

pub bind_assoc {ℓ κ μ} :
    {A : Type ℓ} {B : Type κ} {C : Type μ} (m : Outcome A) (f : A → Outcome B) (g : B → Outcome C)
    → (m >>= f >>= g) ≡ (m >>= λ a. f a >>= g)
bind_assoc (ok a) f g = refl
bind_assoc (fatal r) f g = refl
bind_assoc raised f g = refl
