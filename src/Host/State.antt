-- ===== src/Host/State.antt =====
-- `HostState` of extractions/python/contract/HostContract.py, less the byte regions, the operand
-- stack and the databases. A dictionary that is only read by `get(key, default)` is a function;
-- the two transaction tables, which are popped in their insertion order, list the newest row first.
use evm_sail.Base.{ℕ, List, ◌∷◌, Option}
use evm_sail.Host.Dict.{StorageKey, Dict}
use evm_sail.Host.Rows.{Account, StorageValue, AccountTxRow, StorageTxRow, LogRecord}
use evm_sail.Host.Journal.{StateJournalEntry}

abbrev pub storage_initial_generation : ℕ
storage_initial_generation = 1

-- The part of the state that the journal restores. `logs` has the newest record first.
pub record World : Type 0 where
  pub transient : StorageKey → ℕ
  pub warm_addresses : ℕ → ℕ
  pub warm_slots : StorageKey → ℕ
  pub storage_generations : ℕ → ℕ
  pub storage_tx : Dict StorageKey StorageTxRow
  pub account_tx : Dict ℕ AccountTxRow
  pub logs : List LogRecord
  pub log_data : List ℕ

pub record HostState : Type 0 where
  pub world : World
  pub journal : List StateJournalEntry
  pub storage_next_generation : ℕ
  pub storage_block : Dict StorageKey StorageValue
  -- The current value of each row, `row.value.curr`.
  pub account_block : ℕ → Option Account
  pub current_warm_epoch : ℕ
  pub transaction_log_start : ℕ
  pub current_log : Option ℕ

-- A change of the world that is journalled, as the operations make it: the entry first.
abbrev pub journalled : StateJournalEntry → World → HostState → HostState
journalled entry world state = record state { world = world; journal = entry ∷ state.journal }
