-- ===== src/Host/Tests.antt =====
-- The host at single states, and the theorems about it applied.
use evm_sail.Base.{
  ℕ, ◌≡◌, refl, arith, [], ◌∷◌, ◌++◌, length, Option, none, ok, true, some, ◌>>=◌, ◌+◌, ◌||◌, not,
  ◌==◌ as nat_beq, false,
}
use evm_sail.Host.Dict.{StorageKey, lookup, number_key}
use evm_sail.Host.Rows.{StorageValue, storage_tx_hit, storage_tx_cleared, Account, AccountTxRow}
use evm_sail.Host.Journal.{frame_committed}
use evm_sail.Host.State.{HostState, storage_initial_generation}
use evm_sail.Host.Restore.{state_journal_checkpoint, state_journal_revert, state_journal_commit}
use evm_sail.Host.Slots.{
  transient_store, storage_tx_update, storage_tx_get, storage_tx_clear, storage_tx_reset,
  storage_generation,
}
use evm_sail.Host.Logs.{log_topics2, k_log}
use evm_sail.Host.Undo.Logs.{with_log, k_log-with_log}
use evm_sail.Host.Frames.{
  store_transient, update_storage, perform, Run, done, operation, state_journal_commit_keeps,
}
use evm_sail.Host.Accounts.{acct_tx_update}
use evm_sail.Host.AccountUpdate.{acct_tx_update-state_journal_revert}
use evm_sail.Host.Clearing.{storage_tx_clear-state_journal_revert}
use evm_sail.Host.Freshness.{storage_tx_reset-IsFresh}
use mathlib.Core.Path.{subst}
use evm_sail.Host.Generations.{
  RowsWithin, IsFresh, original_value, storage_tx_clear-storage_tx_get,
  storage_tx_update-storage_tx_get,
}

abbrev slot_seven : StorageKey
slot_seven = record { addr = 5; slot = 7 }

abbrev other_slot : StorageKey
other_slot = record { addr = 6; slot = 7 }

abbrev nine_of_four : StorageValue
nine_of_four = record { curr = 9; orig = 4 }

-- A transaction with one written slot.
abbrev one_write : HostState
one_write = record {
  world = record {
    transient = λ key. 0;
    warm_addresses = λ address. 0;
    warm_slots = λ key. 0;
    storage_generations = λ address. 1;
    storage_tx = (slot_seven, record { value = nine_of_four; generation = 1 }) ∷ [];
    account_tx = [];
    logs = [];
    log_data = [];
  };
  journal = [];
  storage_next_generation = 1;
  storage_block = [];
  account_block = λ address. none;
  current_warm_epoch = 1;
  transaction_log_start = 0;
  current_log = none;
}

abbrev stored : HostState → HostState
stored s = transient_store 5 7 1 s

abbrev written : HostState → HostState
written s = storage_tx_update other_slot nine_of_four s

abbrev logged : HostState → HostState
logged s =
    with_log s
      (record {
        address = 5;
        topics = 1 ∷ 2 ∷ [];
        data_offset = length s.world.log_data;
        data_length = 2;
      })
      (s.world.log_data ++ (7 ∷ 8 ∷ []))

store_run : (s : HostState) → Run s (stored s)
unfolding perform
store_run s = operation (store_transient 5 7 1) s (stored s) (stored s) refl (done (stored s))

write_run : (s : HostState) → Run s (written s)
unfolding perform
write_run s =
    operation (update_storage other_slot nine_of_four) s (written s) (written s) refl
      (done (written s))

-- A frame that writes transient storage, with a frame in it that writes a slot and commits.
abbrev started : HostState
started = stored (state_journal_checkpoint one_write)

abbrev inner : HostState
inner = written (state_journal_checkpoint started)

abbrev joined : HostState
joined = record inner { journal = frame_committed ∷ inner.journal }

one_write-IsFresh : IsFresh one_write
unfolding RowsWithin
one_write-IsFresh = record {
  initial = omega arith;
  rows = (omega arith, tt);
  current = λ address. omega arith;
}

state_journal_commit_keeps_example :
    (state_journal_commit inner ≡ ok joined)
    × ((log : Option ℕ) × (state_journal_revert joined
          ≡ ok (record inner {
            world = one_write.world;
            journal = one_write.journal;
            current_log = log;
          })))
state_journal_commit_keeps_example =
    state_journal_commit_keeps one_write started inner
      (store_run (state_journal_checkpoint one_write))
      (write_run (state_journal_checkpoint started))

k_log-with_log_example : k_log 5 (log_topics2 1 2) (7 ∷ 8 ∷ []) one_write ≡ ok (logged one_write)
k_log-with_log_example = k_log-with_log 5 (log_topics2 1 2) (7 ∷ 8 ∷ []) one_write

storage_tx_clear-storage_tx_get_example :
    (storage_tx_get slot_seven (storage_tx_clear 5 one_write) ≡ storage_tx_cleared)
    × (storage_tx_get other_slot (storage_tx_clear 5 one_write)
        ≡ storage_tx_get other_slot one_write)
storage_tx_clear-storage_tx_get_example =
    storage_tx_clear-storage_tx_get 5 7 other_slot one_write one_write-IsFresh (omega arith)

storage_tx_update-storage_tx_get_example :
    storage_tx_get slot_seven (storage_tx_update slot_seven nine_of_four one_write)
    ≡ storage_tx_hit (record { curr = 9; orig = original_value slot_seven nine_of_four one_write })
storage_tx_update-storage_tx_get_example =
    storage_tx_update-storage_tx_get slot_seven nine_of_four one_write

storage_tx_reset-IsFresh_example :
    IsFresh (storage_tx_reset one_write)
    × IsFresh (storage_tx_update slot_seven nine_of_four one_write)
    × IsFresh (storage_tx_clear 5 one_write)
storage_tx_reset-IsFresh_example =
    storage_tx_reset-IsFresh slot_seven nine_of_four 5 one_write one_write one_write-IsFresh

abbrev holder : Account
holder = record {
  info = record { nonce = 3; balance = 100; code_hash = 11; storage_root = 12 };
  present = true;
  storage_cleared = false;
  created = false;
  selfdestructed = false;
}

abbrev holder_row : AccountTxRow
holder_row = record { current = holder; original = holder }

abbrev spent : Account
spent = record holder { info = record holder.info { balance = 40 }; selfdestructed = true }

-- A transaction with one written slot and one listed account.
abbrev one_account : HostState
one_account = record one_write {
  world = record one_write.world { account_tx = (5, holder_row) ∷ [] };
}

acct_tx_update-state_journal_revert_example :
    (log : Option ℕ) × (acct_tx_update 5 spent (state_journal_checkpoint one_account)
        >>= state_journal_revert
      ≡ ok (record one_account { current_log = log }))
acct_tx_update-state_journal_revert_example =
    acct_tx_update-state_journal_revert 5 spent holder_row one_account refl refl refl

some_inj : {a b : AccountTxRow} → some a ≡ some b → a ≡ b
some_inj h = cc

holder_marked :
    (row : AccountTxRow)
    → lookup 5 one_account.world.account_tx ≡ some row
    → row.current.storage_cleared
      ≡ row.original.storage_cleared
        || not (nat_beq (storage_generation one_account 5) storage_initial_generation)
holder_marked row listed =
    subst (λ (r : AccountTxRow). r.current.storage_cleared ≡ r.original.storage_cleared || false)
      (some_inj listed) refl

storage_tx_clear-state_journal_revert_example :
    (log : Option ℕ) × (state_journal_revert
        (storage_tx_clear 5 (state_journal_checkpoint one_account))
      ≡ ok (record one_account {
        storage_next_generation = one_account.storage_next_generation + 1;
        current_log = log;
      }))
storage_tx_clear-state_journal_revert_example =
    storage_tx_clear-state_journal_revert 5 one_account holder_marked
