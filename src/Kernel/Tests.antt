-- ===== src/Kernel/Tests.antt =====
-- A frame that creates, clears and empties an account.
use evm_sail.Base.{ℕ, ◌≡◌, refl, [], Option, none, some, ok, true, false}
use evm_sail.Host.Rows.{Account, AccountTxRow}
use evm_sail.Host.State.{HostState}
use evm_sail.Host.Restore.{state_journal_checkpoint, state_journal_revert}
use evm_sail.Host.Slots.{storage_tx_clear, storage_tx_reset}
use evm_sail.Host.Accounts.{acct_tx_reset, acct_tx_update, acct_tx_get, list_account, field_changes}
use evm_sail.Kernel.Accounts.{
  keccak_empty, cached_account, emptied, account_clear_storage, store_account_info, k_clear_storage,
  k_mark_created,
}
use evm_sail.Kernel.Undo.{updated}
use evm_sail.Kernel.Marked.{IsMarked}
use evm_sail.Kernel.Untouched.{reset-IsMarked}
use evm_sail.Kernel.Frames.{
  FrameRun, finished, stepped, stored, cleared, created, frame_revert_restores,
}

abbrev holder : Account
holder = record {
  info = record { nonce = 0; balance = 100; code_hash = keccak_empty; storage_root = 12 };
  present = true;
  storage_cleared = false;
  created = false;
  selfdestructed = false;
}

-- The block has one account at every address, and the transaction has none yet.
abbrev start : HostState
start = record {
  world = record {
    transient = λ key. 0;
    warm_addresses = λ address. 0;
    warm_slots = λ key. 0;
    storage_generations = λ address. 1;
    storage_tx = [];
    account_tx = [];
    logs = [];
    log_data = [];
  };
  journal = [];
  storage_next_generation = 1;
  storage_block = [];
  account_block = λ address. some holder;
  current_warm_epoch = 1;
  transaction_log_start = 0;
  current_log = none;
}

abbrev fresh : Account
fresh = record holder { created = true }

abbrev row : Account → AccountTxRow
row account = record { current = account; original = holder }

abbrev after_create : HostState
after_create = list_account 5 (row fresh) (state_journal_checkpoint start)

abbrev after_clear : HostState
after_clear = updated 5 (account_clear_storage fresh) (row fresh) (storage_tx_clear 5 after_create)

abbrev after_empty : HostState
after_empty =
    updated 5 (emptied (account_clear_storage fresh)) (row (account_clear_storage fresh))
      (storage_tx_clear 5 after_clear)

frame : FrameRun (state_journal_checkpoint start) after_empty
unfolding cached_account acct_tx_get acct_tx_update store_account_info k_clear_storage
    k_mark_created storage_tx_clear state_journal_checkpoint field_changes
frame =
    stepped (state_journal_checkpoint start) after_create after_empty
      (created 5 holder (state_journal_checkpoint start) after_create refl refl)
      (stepped after_create after_clear after_empty
        (cleared 5 fresh after_create after_clear refl refl)
        (stepped after_clear after_empty after_empty
          (stored 5 0 0 keccak_empty (account_clear_storage fresh) after_clear after_empty refl
            refl)
          (finished after_empty)))

start_marks : IsMarked start.account_block start
unfolding acct_tx_reset storage_tx_reset
start_marks = reset-IsMarked start

frame_revert_restores_example :
    (log : Option ℕ) × (state_journal_revert after_empty
      ≡ ok (record after_empty { world = start.world; journal = start.journal; current_log = log }))
    × IsMarked start.account_block
        (record after_empty { world = start.world; journal = start.journal; current_log = log })
frame_revert_restores_example = frame_revert_restores start after_empty start_marks frame
