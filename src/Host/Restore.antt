-- ===== src/Host/Restore.antt =====
-- Undoing journal entries, and the checkpoints: `_journal_restore` and the `state_journal_`
-- operations of extractions/python/contract/HostContract.py.
use evm_sail.Base.{
  ℕ, List, [], ◌∷◌, Option, none, some, Outcome, ok, raised, ◌>>=◌, Bool, true, false, ◌||◌, not,
  ◌==◌ as nat_beq, take, if◌then◌else◌,
}
use evm_sail.Host.Dict.{StorageKey, Dict, update, lookup, assign, number_key, slot_key}
use evm_sail.Host.Rows.{Account, AccountTxRow, StorageTxRow, LogRecord}
use evm_sail.Host.Journal.{
  StateJournalEntry, transient_changed, warm_account_changed, warm_storage_changed,
  account_balance_changed, account_nonce_changed, account_code_hash_changed, account_exists_changed,
  account_created_changed, account_selfdestructed_changed, transaction_account_listed,
  transaction_storage_listed, log_appended, storage_value_changed, storage_row_generation_changed,
  account_storage_generation_changed, frame_checkpointed, frame_committed, open_checkpoint,
}
use evm_sail.Host.State.{World, HostState, storage_initial_generation}

-- The row of `_journal_account_row`, changed in place; `raised` where it is missing.
abbrev pub restore_account : ℕ → (Account → Account) → World → Outcome World
restore_account address undo world = elim (lookup address world.account_tx) [
  | none ↦ raised
  | some row ↦ ok (record world {
    account_tx = assign address (record row { current = undo row.current }) world.account_tx;
  })
]

abbrev pub restore_storage : StorageKey → (StorageTxRow → StorageTxRow) → World → Outcome World
restore_storage key undo world = elim (lookup key world.storage_tx) [
  | none ↦ raised
  | some row ↦ ok (record world { storage_tx = assign key (undo row) world.storage_tx })
]

-- `dict.popitem()`.
abbrev pub pop_account : Dict ℕ AccountTxRow → Outcome (Dict ℕ AccountTxRow)
pop_account [] = raised
pop_account (row ∷ rows) = ok rows

-- Deletes the newest row of an address.
abbrev pub pop_storage : ℕ → Dict StorageKey StorageTxRow → Outcome (Dict StorageKey StorageTxRow)
pop_storage address [] = raised
pop_storage address ((key, row) ∷ rows) =
    let rest = pop_storage address rows in
    if nat_beq key.addr address then ok rows else (rest >>= λ deleted. ok ((key, row) ∷ deleted))

abbrev pub pop_log : World → List LogRecord → Outcome World
pop_log world [] = raised
pop_log world (last ∷ logs) =
    ok (record world { logs = logs; log_data = take last.data_offset world.log_data })

-- `row.current.storage_cleared` for the generation that an undone clearing leaves.
abbrev pub cleared_at : ℕ → AccountTxRow → AccountTxRow
cleared_at prior row = record row {
  current = record row.current {
    storage_cleared =
        row.original.storage_cleared || not (nat_beq prior storage_initial_generation);
  };
}

abbrev pub recleared : ℕ → ℕ → Dict ℕ AccountTxRow → Dict ℕ AccountTxRow
recleared address prior rows = elim (lookup address rows) [
  | none ↦ rows
  | some row ↦ assign address (cleared_at prior row) rows
]

unfoldable pub journal_restore : StateJournalEntry → World → Outcome World
journal_restore (transient_changed address slot prior) world = ok (record world {
  transient = update world.transient (record { addr = address; slot = slot }) prior;
})
journal_restore (warm_account_changed address prior_epoch) world =
    ok (record world { warm_addresses = update world.warm_addresses address prior_epoch })
journal_restore (warm_storage_changed key prior_epoch) world =
    ok (record world { warm_slots = update world.warm_slots key prior_epoch })
journal_restore (account_balance_changed address prior) world =
    restore_account address
      (λ account. record account { info = record account.info { balance = prior } }) world
journal_restore (account_nonce_changed address prior) world =
    restore_account address
      (λ account. record account { info = record account.info { nonce = prior } }) world
journal_restore (account_code_hash_changed address prior) world =
    restore_account address
      (λ account. record account { info = record account.info { code_hash = prior } }) world
journal_restore (account_exists_changed address prior) world =
    restore_account address (λ account. record account { present = prior }) world
journal_restore (account_created_changed address prior) world =
    restore_account address (λ account. record account { created = prior }) world
journal_restore (account_selfdestructed_changed address prior) world =
    restore_account address (λ account. record account { selfdestructed = prior }) world
journal_restore transaction_account_listed world =
    pop_account world.account_tx >>= λ rows. ok (record world { account_tx = rows })
journal_restore (transaction_storage_listed address) world =
    pop_storage address world.storage_tx >>= λ rows. ok (record world { storage_tx = rows })
journal_restore log_appended world = pop_log world world.logs
journal_restore (storage_value_changed key prior) world =
    restore_storage key (λ row. record row { value = record row.value { curr = prior } }) world
journal_restore (storage_row_generation_changed key prior) world =
    restore_storage key (λ row. record row { generation = prior }) world
journal_restore (account_storage_generation_changed address prior) world = ok (record world {
  storage_generations = update world.storage_generations address prior;
  account_tx = recleared address prior world.account_tx;
})
journal_restore frame_checkpointed world = ok world
journal_restore frame_committed world = ok world

-- The entries undone in turn, the newest first.
unfoldable pub restore_all : List StateJournalEntry → World → Outcome World
restore_all [] world = ok world
restore_all (entry ∷ entries) world = journal_restore entry world >>= restore_all entries

-- Undoing an appended log also ends the log that is being written.
abbrev pub ends_log : StateJournalEntry → Bool
ends_log log_appended = true
ends_log _ = false

abbrev pub log_after : List StateJournalEntry → Option ℕ → Option ℕ
log_after [] current_log = current_log
log_after (entry ∷ entries) current_log =
    log_after entries (if ends_log entry then none else current_log)

unfoldable pub state_journal_reset : HostState → HostState
state_journal_reset state = record state { journal = [] }

unfoldable pub state_journal_checkpoint : HostState → HostState
state_journal_checkpoint state = record state { journal = frame_checkpointed ∷ state.journal }

unfoldable pub state_journal_revert : HostState → Outcome HostState
state_journal_revert state = open_checkpoint 0 state.journal >>= λ split.
    restore_all split.0 state.world >>= λ world. ok (record state {
      world = world;
      journal = split.1;
      current_log = log_after split.0 state.current_log;
    })

unfoldable pub state_journal_commit : HostState → Outcome HostState
state_journal_commit state = open_checkpoint 0 state.journal >>= λ split.
    ok (record state { journal = frame_committed ∷ state.journal })
