-- ===== src/Host/Journal.antt =====
-- The journal entries of extractions/python/src/evm/host/journal.py, and the search for the open
-- checkpoint in HostContract.py. A journal is a list, the newest entry first.
use evm_sail.Base.{ℕ, zero, suc, Bool, List, [], ◌∷◌, Outcome, ok, raised}
use evm_sail.Host.Dict.{StorageKey}

pub data StateJournalEntry : Type 0 where
  transient_changed : (address slot prior : ℕ) → StateJournalEntry
  warm_account_changed : (address prior_epoch : ℕ) → StateJournalEntry
  warm_storage_changed : (key : StorageKey) (prior_epoch : ℕ) → StateJournalEntry
  account_balance_changed : (address prior : ℕ) → StateJournalEntry
  account_nonce_changed : (address prior : ℕ) → StateJournalEntry
  account_code_hash_changed : (address prior : ℕ) → StateJournalEntry
  account_exists_changed : (address : ℕ) (prior : Bool) → StateJournalEntry
  account_created_changed : (address : ℕ) (prior : Bool) → StateJournalEntry
  account_selfdestructed_changed : (address : ℕ) (prior : Bool) → StateJournalEntry
  transaction_account_listed : StateJournalEntry
  transaction_storage_listed : (address : ℕ) → StateJournalEntry
  log_appended : StateJournalEntry
  storage_value_changed : (key : StorageKey) (prior : ℕ) → StateJournalEntry
  storage_row_generation_changed : (key : StorageKey) (prior : ℕ) → StateJournalEntry
  account_storage_generation_changed : (address prior : ℕ) → StateJournalEntry
  frame_checkpointed : StateJournalEntry
  frame_committed : StateJournalEntry

-- What the search for the open checkpoint asks of an entry.
pub data EntryKind : Type 0 where
  checkpoint : EntryKind
  commit : EntryKind
  change : EntryKind

unfoldable pub entry_kind : StateJournalEntry → EntryKind
entry_kind frame_checkpointed = checkpoint
entry_kind frame_committed = commit
entry_kind _ = change

abbrev pub Split : Type 0
Split = Outcome (List StateJournalEntry × List StateJournalEntry)

abbrev pub newer : StateJournalEntry → Split → Split
newer entry (ok (undone, kept)) = ok (entry ∷ undone, kept)
newer entry other = other

-- `_open_checkpoint_index`: the journal split at its open checkpoint, into the entries that are
-- newer than it and those that are older.
unfoldable pub open_checkpoint : ℕ → List StateJournalEntry → Split
open_checkpoint closed [] = raised
open_checkpoint closed (entry ∷ journal) = elim (entry_kind entry) [
  | commit ↦ newer entry (open_checkpoint (suc closed) journal)
  | checkpoint ↦ elim closed [
    | zero ↦ ok ([], journal)
    | suc outer ↦ newer entry (open_checkpoint outer journal)
  ]
  | change ↦ newer entry (open_checkpoint closed journal)
]
