-- ===== src/Host/Frames.antt =====
-- Frames: any sequence of operations on the state, with nested frames that are committed or
-- reverted, as `k_journal_checkpoint`, `k_journal_commit` and `k_journal_revert` of
-- extractions/python/src/evm/kernel/lifecycle.py make them.
use mathlib.Core.Path.{subst}
use evm_sail.Base.{ℕ, ◌≡◌, sym, ◌∙◌, List, ◌∷◌, Option, Outcome, ok}
use evm_sail.Host.Dict.{StorageKey}
use evm_sail.Host.Rows.{StorageValue}
use evm_sail.Host.Journal.{frame_committed}
use evm_sail.Host.State.{HostState}
use evm_sail.Host.Restore.{
  log_after, state_journal_checkpoint, state_journal_revert, state_journal_commit,
}
use evm_sail.Host.Slots.{transient_store, account_mark_warm, storage_mark_warm, storage_tx_update}
use evm_sail.Host.Accounts.{acct_tx_set_balance, acct_tx_set_nonce, acct_tx_set_code_hash}
use evm_sail.Host.Logs.{LogTopics, k_log}
use evm_sail.Host.Undo.{Undo, Undo-refl, Undo-trans, revert_undoes, commit_found, commit_undoes}
use evm_sail.Host.Undo.Slots.{
  transient_store-Undo, account_mark_warm-Undo, storage_mark_warm-Undo, storage_tx_update-Undo,
}
use evm_sail.Host.Undo.Accounts.{
  acct_tx_set_balance-Undo, acct_tx_set_nonce-Undo, acct_tx_set_code_hash-Undo,
}
use evm_sail.Host.Undo.Logs.{k_log-Undo}

-- The operations that a frame runs.
pub data Operation : Type 0 where
  store_transient : (address slot value : ℕ) → Operation
  warm_account : (address : ℕ) → Operation
  warm_storage : (key : StorageKey) → Operation
  update_storage : (key : StorageKey) (value : StorageValue) → Operation
  set_balance : (address value : ℕ) → Operation
  set_nonce : (address value : ℕ) → Operation
  set_code_hash : (address value : ℕ) → Operation
  emit_log : (address : ℕ) (topics : LogTopics) (payload : List ℕ) → Operation

unfoldable pub perform : Operation → HostState → Outcome HostState
perform (store_transient address slot value) s = ok (transient_store address slot value s)
perform (warm_account address) s = ok (account_mark_warm address s)
perform (warm_storage key) s = ok (storage_mark_warm key s)
perform (update_storage key value) s = ok (storage_tx_update key value s)
perform (set_balance address value) s = acct_tx_set_balance address value s
perform (set_nonce address value) s = acct_tx_set_nonce address value s
perform (set_code_hash address value) s = acct_tx_set_code_hash address value s
perform (emit_log address topics payload) s = k_log address topics payload s

-- A run of a frame from one state to another.
pub data Run : HostState → HostState → Type 0 where
  done : (s : HostState) → Run s s
  operation : (op : Operation) (s t u : HostState) → perform op s ≡ ok t → Run t u → Run s u
  committed :
      (s t u v : HostState)
      → Run (state_journal_checkpoint s) t
      → state_journal_commit t ≡ ok u
      → Run u v
      → Run s v
  reverted :
      (s t u v : HostState)
      → Run (state_journal_checkpoint s) t
      → state_journal_revert t ≡ ok u
      → Run u v
      → Run s v

ok_inj : {a b : HostState} → ok a ≡ ok b → a ≡ b
ok_inj h = cc

pub perform-Undo : (op : Operation) (s t : HostState) → perform op s ≡ ok t → Undo s t
unfolding perform
perform-Undo (store_transient address slot value) s t h =
    subst (λ u. Undo s u) (ok_inj h) (transient_store-Undo address slot value s)
perform-Undo (warm_account address) s t h =
    subst (λ u. Undo s u) (ok_inj h) (account_mark_warm-Undo address s)
perform-Undo (warm_storage key) s t h =
    subst (λ u. Undo s u) (ok_inj h) (storage_mark_warm-Undo key s)
perform-Undo (update_storage key value) s t h =
    subst (λ u. Undo s u) (ok_inj h) (storage_tx_update-Undo key value s)
perform-Undo (set_balance address value) s t h = acct_tx_set_balance-Undo address value s t h
perform-Undo (set_nonce address value) s t h = acct_tx_set_nonce-Undo address value s t h
perform-Undo (set_code_hash address value) s t h = acct_tx_set_code_hash-Undo address value s t h
perform-Undo (emit_log address topics payload) s t h = k_log-Undo address topics payload s t h

pub committed-Undo :
    (s t u : HostState)
    → Undo (state_journal_checkpoint s) t
    → state_journal_commit t ≡ ok u
    → Undo s u
committed-Undo s t u h e =
    subst (λ x. Undo s x) (ok_inj (sym (commit_found s t h) ∙ e)) (commit_undoes s t h)

-- A reverted frame leaves nothing to undo.
pub reverted-Undo :
    (s t u : HostState)
    → Undo (state_journal_checkpoint s) t
    → state_journal_revert t ≡ ok u
    → Undo s u
reverted-Undo s t u h e =
    subst (λ x. Undo s x) (ok_inj (sym (revert_undoes s t h) ∙ e))
      (let same = Undo-refl s in
        record {
          entries = same.entries;
          journal_eq = same.journal_eq;
          balanced = same.balanced;
          restores = same.restores;
        })

Run-Undo : (s t : HostState) → Run s t → Undo s t
Run-Undo _ _ (done s) = Undo-refl s
Run-Undo _ _ (operation op s t u step rest) =
    Undo-trans s t u (perform-Undo op s t step) (Run-Undo t u rest)
Run-Undo _ _ (committed s t u v frame step rest) =
    Undo-trans s u v (committed-Undo s t u (Run-Undo (state_journal_checkpoint s) t frame) step)
      (Run-Undo u v rest)
Run-Undo _ _ (reverted s t u v frame step rest) =
    Undo-trans s u v (reverted-Undo s t u (Run-Undo (state_journal_checkpoint s) t frame) step)
      (Run-Undo u v rest)

-- Committing a frame that runs the operations of this file, nested in another such frame, succeeds
-- and changes nothing but the journal; and reverting the outer frame then still succeeds and gives
-- back the world and the journal exactly as they were when the outer checkpoint was made.
pub state_journal_commit_keeps :
    (outer s t : HostState)
    → Run (state_journal_checkpoint outer) s
    → Run (state_journal_checkpoint s) t
    → (state_journal_commit t ≡ ok (record t { journal = frame_committed ∷ t.journal }))
      × ((log : Option ℕ) × (state_journal_revert
              (record t { journal = frame_committed ∷ t.journal })
            ≡ ok (record t { world = outer.world; journal = outer.journal; current_log = log })))
state_journal_commit_keeps outer s t before inside =
    let checkpointed = state_journal_checkpoint outer in
    let after : HostState = record t { journal = frame_committed ∷ t.journal } in
    let undo = Run-Undo (state_journal_checkpoint s) t inside in
    let whole =
      Undo-trans checkpointed s after (Run-Undo checkpointed s before) (commit_undoes s t undo) in
    (
      commit_found s t undo,
      (log_after whole.entries t.current_log, revert_undoes outer after whole),
    )
