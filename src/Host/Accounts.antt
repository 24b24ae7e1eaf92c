-- ===== src/Host/Accounts.antt =====
-- The accounts of a transaction, of extractions/python/contract/HostContract.py. Each setter of
-- the source mutates the row in place; here it writes the changed row back under its address.
use evm_sail.Base.{
  ℕ, List, [], ◌∷◌, Option, none, some, Outcome, ok, raised, ◌>>=◌, Bool, eqb, ◌==◌ as nat_beq,
  if◌then◌else◌,
}
use evm_sail.Host.Dict.{Dict, lookup, assign, number_key}
use evm_sail.Host.Rows.{Account, AccountTxRow}
use evm_sail.Host.Journal.{
  StateJournalEntry, account_balance_changed, account_nonce_changed, account_code_hash_changed,
  account_exists_changed, account_created_changed, account_selfdestructed_changed,
  transaction_account_listed,
}
use evm_sail.Host.State.{HostState, journalled}

-- `none` is the answer with `found=False`, whose account is the empty one.
unfoldable pub acct_tx_get : ℕ → HostState → Option Account
acct_tx_get address state = elim (lookup address state.world.account_tx) [
  | none ↦ none
  | some row ↦ some row.current
]

-- A new row of the transaction, with its entry.
abbrev pub list_account : ℕ → AccountTxRow → HostState → HostState
list_account address row state =
    journalled transaction_account_listed
      (record state.world { account_tx = (address, row) ∷ state.world.account_tx }) state

-- An entry for a field that differs.
abbrev pub note : Bool → StateJournalEntry → List StateJournalEntry → List StateJournalEntry
note same entry journal = if same then journal else entry ∷ journal

-- The entries of `acct_tx_update` for a row that is listed.
unfoldable pub field_changes :
    ℕ → Account → Account → List StateJournalEntry → List StateJournalEntry
field_changes address prior value journal =
    note (eqb prior.selfdestructed value.selfdestructed)
      (account_selfdestructed_changed address prior.selfdestructed)
      (note (eqb prior.created value.created) (account_created_changed address prior.created) (
        note (eqb prior.present value.present) (account_exists_changed address prior.present) (
          note (nat_beq prior.info.code_hash value.info.code_hash)
            (account_code_hash_changed address prior.info.code_hash)
            (note (nat_beq prior.info.nonce value.info.nonce)
              (account_nonce_changed address prior.info.nonce)
              (note (nat_beq prior.info.balance value.info.balance)
                (account_balance_changed address prior.info.balance) journal)))))

unfoldable pub acct_tx_update : ℕ → Account → HostState → Outcome HostState
acct_tx_update address value state = elim (lookup address state.world.account_tx) [
  | none ↦ elim (state.account_block address) [
    | none ↦ raised
    | some block ↦ ok (list_account address (record { current = value; original = block }) state)
  ]
  | some row ↦ ok (record state {
    world = record state.world {
      account_tx = assign address (record row { current = value }) state.world.account_tx;
    };
    journal = field_changes address row.current value state.journal;
  })
]

-- `_account_tx_required`: the row of the transaction, listed first where only the block has it.
unfoldable pub account_tx_required : ℕ → HostState → Outcome (AccountTxRow × HostState)
account_tx_required address state = elim (lookup address state.world.account_tx) [
  | some row ↦ ok (row, state)
  | none ↦ elim (state.account_block address) [
    | none ↦ raised
    | some block ↦
        let row : AccountTxRow = record { current = block; original = block } in
        ok (row, list_account address row state)
  ]
]

-- The row's account changed in place, with its entry.
abbrev pub set_account : ℕ → StateJournalEntry → AccountTxRow → Account → HostState → HostState
set_account address entry row value state =
    journalled entry
      (record state.world {
        account_tx = assign address (record row { current = value }) state.world.account_tx;
      })
      state

unfoldable pub set_balance_of : ℕ → ℕ → AccountTxRow → HostState → HostState
set_balance_of address value row state =
    let account = row.current in
    if nat_beq account.info.balance value
    then state
    else set_account address (account_balance_changed address account.info.balance) row
        (record account { info = record account.info { balance = value } }) state

unfoldable pub acct_tx_set_balance : ℕ → ℕ → HostState → Outcome HostState
acct_tx_set_balance address value state = account_tx_required address state >>= λ required.
    ok (set_balance_of address value required.0 required.1)

unfoldable pub set_nonce_of : ℕ → ℕ → AccountTxRow → HostState → HostState
set_nonce_of address value row state =
    let account = row.current in
    if nat_beq account.info.nonce value
    then state
    else set_account address (account_nonce_changed address account.info.nonce) row
        (record account { info = record account.info { nonce = value } }) state

unfoldable pub acct_tx_set_nonce : ℕ → ℕ → HostState → Outcome HostState
acct_tx_set_nonce address value state = account_tx_required address state >>= λ required.
    ok (set_nonce_of address value required.0 required.1)

unfoldable pub set_code_hash_of : ℕ → ℕ → AccountTxRow → HostState → HostState
set_code_hash_of address value row state =
    let account = row.current in
    if nat_beq account.info.code_hash value
    then state
    else set_account address (account_code_hash_changed address account.info.code_hash) row
        (record account { info = record account.info { code_hash = value } }) state

unfoldable pub acct_tx_set_code_hash : ℕ → ℕ → HostState → Outcome HostState
acct_tx_set_code_hash address value state = account_tx_required address state >>= λ required.
    ok (set_code_hash_of address value required.0 required.1)

abbrev pub pop_row : Dict ℕ AccountTxRow → Option (ℕ × AccountTxRow) × Dict ℕ AccountTxRow
pop_row [] = (none, [])
pop_row (row ∷ rows) = (some row, rows)

-- `none` is `AcctTxPopExhausted`.
unfoldable pub acct_tx_pop : HostState → Option (ℕ × AccountTxRow) × HostState
acct_tx_pop state =
    let popped = pop_row state.world.account_tx in
    (popped.0, record state { world = record state.world { account_tx = popped.1 } })

unfoldable pub acct_tx_reset : HostState → HostState
acct_tx_reset state = record state { world = record state.world { account_tx = [] } }
