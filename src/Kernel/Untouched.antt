-- ===== src/Kernel/Untouched.antt =====
-- The operations of Host/Frames and the clearing marks: none changes the mark of a listed account.
use evm_sail.Base.{
  Option, ℕ, ◌≡◌, refl, sym, ◌∙◌, arith, ltb, none, some, ok, ◌==◌ as nat_beq, Bool-cases,
  Option-cases, inl, inr,
}
use mathlib.Core.Path.{subst}
use evm_sail.Host.Dict.{StorageKey, lookup, slot_key, number_key}
use evm_sail.Host.Rows.{StorageValue, StorageTxRow}
use evm_sail.Host.Rows.{Account}
use evm_sail.Host.State.{HostState}
use evm_sail.Host.Slots.{
  transient_store, account_mark_warm, storage_mark_warm, storage_tx_update, storage_value_write,
  storage_generation_write, storage_tx_reset,
}
use evm_sail.Host.Accounts.{acct_tx_reset}
use evm_sail.Host.Undo.Logs.{k_log-with_log}
use evm_sail.Host.Frames.{
  Operation, perform, store_transient, warm_account, warm_storage, update_storage, set_balance,
  set_nonce, set_code_hash, emit_log,
}
use evm_sail.Kernel.Marked.{IsMarked, IsMarked-same}
use evm_sail.Kernel.Steps.{
  ok_inj, acct_tx_set_balance-IsStep, acct_tx_set_nonce-IsStep, acct_tx_set_code_hash-IsStep,
}

module _ (accounts : ℕ → Option Account) where
  account_mark_warm-IsMarked :
      (address : ℕ) (s : HostState)
      → IsMarked accounts s
      → IsMarked accounts (account_mark_warm address s)
  unfolding account_mark_warm
  account_mark_warm-IsMarked address s h =
      elim (Bool-cases (ltb (s.world.warm_addresses address) s.current_warm_epoch)) [
        | inl e ↦
            rw (e, account_mark_warm) (IsMarked-same accounts s _ h refl refl refl (omega arith))
        | inr e ↦ rw (e, account_mark_warm) h
      ]

  storage_mark_warm-IsMarked :
      (key : StorageKey) (s : HostState)
      → IsMarked accounts s
      → IsMarked accounts (storage_mark_warm key s)
  unfolding storage_mark_warm
  storage_mark_warm-IsMarked key s h =
      elim (Bool-cases (ltb (s.world.warm_slots key) s.current_warm_epoch)) [
        | inl e ↦
            rw (e, storage_mark_warm) (IsMarked-same accounts s _ h refl refl refl (omega arith))
        | inr e ↦ rw (e, storage_mark_warm) h
      ]

  storage_value_write-IsMarked :
      (key : StorageKey) (row : StorageTxRow) (curr : ℕ) (s : HostState)
      → IsMarked accounts s
      → IsMarked accounts (storage_value_write key row curr s)
  unfolding storage_value_write
  storage_value_write-IsMarked key row curr s h = elim (Bool-cases (nat_beq row.value.curr curr)) [
    | inl e ↦ rw (e, storage_value_write) h
    | inr e ↦
        rw (e, storage_value_write) (IsMarked-same accounts s _ h refl refl refl (omega arith))
  ]

  storage_generation_write-IsMarked :
      (key : StorageKey) (row : StorageTxRow) (generation : ℕ) (s : HostState)
      → IsMarked accounts s
      → IsMarked accounts (storage_generation_write key row generation s)
  unfolding storage_generation_write
  storage_generation_write-IsMarked key row generation s h =
      elim (Bool-cases (nat_beq row.generation generation)) [
        | inl e ↦ rw (e, storage_generation_write) h
        | inr e ↦
            rw (e, storage_generation_write)
              (IsMarked-same accounts s _ h refl refl refl (omega arith))
      ]

  storage_tx_update-IsMarked :
      (key : StorageKey) (value : StorageValue) (s : HostState)
      → IsMarked accounts s
      → IsMarked accounts (storage_tx_update key value s)
  unfolding storage_tx_update
  storage_tx_update-IsMarked key value s h = elim (Option-cases (lookup key s.world.storage_tx)) [
    | inl missing ↦
        rw (missing, storage_tx_update) (IsMarked-same accounts s _ h refl refl refl (omega arith))
    | inr (row, listed) ↦
        rw (listed, storage_tx_update)
          (storage_generation_write-IsMarked key _ _ _
            (storage_value_write-IsMarked key row value.curr s h))
  ]

  pub perform-IsMarked :
      (op : Operation) (s t : HostState)
      → IsMarked accounts s
      → perform op s ≡ ok t
      → IsMarked accounts t
  unfolding perform transient_store
  perform-IsMarked (store_transient address slot value) s t h e =
      subst (λ u. IsMarked accounts u) (ok_inj e)
        (IsMarked-same accounts s _ h refl refl refl (omega arith))
  perform-IsMarked (warm_account address) s t h e =
      subst (λ u. IsMarked accounts u) (ok_inj e) (account_mark_warm-IsMarked address s h)
  perform-IsMarked (warm_storage key) s t h e =
      subst (λ u. IsMarked accounts u) (ok_inj e) (storage_mark_warm-IsMarked key s h)
  perform-IsMarked (update_storage key value) s t h e =
      subst (λ u. IsMarked accounts u) (ok_inj e) (storage_tx_update-IsMarked key value s h)
  perform-IsMarked (set_balance address value) s t h e =
      (acct_tx_set_balance-IsStep accounts address value s t h e).1
  perform-IsMarked (set_nonce address value) s t h e =
      (acct_tx_set_nonce-IsStep accounts address value s t h e).1
  perform-IsMarked (set_code_hash address value) s t h e =
      (acct_tx_set_code_hash-IsStep accounts address value s t h e).1
  perform-IsMarked (emit_log address topics payload) s t h e =
      subst (λ u. IsMarked accounts u) (ok_inj (sym (k_log-with_log address topics payload s) ∙ e))
        (IsMarked-same accounts s _ h refl refl refl (omega arith))

-- The start of a transaction.
pub reset-IsMarked : (s : HostState) → IsMarked s.account_block (acct_tx_reset (storage_tx_reset s))
unfolding acct_tx_reset storage_tx_reset
reset-IsMarked s = record {
  block = refl;
  initial = omega arith;
  listed = λ address row e. absurd (none_ne e);
  unlisted = λ address e block cached. ground arith;
}
  where
    none_ne : {A : Type 0} {a : A} → none ≡ some a → ⊥
    none_ne q = cc
