-- ===== src/Kernel/Accounts.antt =====
-- The changes of an account in kernel/accounts.py and kernel/selfdestruct.py. The account that
-- `k_aload` answers is an argument.
use evm_sail.Base.{
  ℕ, Bool, true, false, not, ◌&&◌, ◌||◌, eqb, ◌==◌ as nat_beq, if◌then◌else◌, Option, none, some,
  Outcome, ok, ◌>>=◌,
}
use evm_sail.Host.Dict.{number_key}
use evm_sail.Host.Rows.{Account, AccountInfo}
use evm_sail.Host.State.{HostState}
use evm_sail.Host.Slots.{storage_tx_clear}
use evm_sail.Host.Accounts.{
  acct_tx_get, acct_tx_update, acct_tx_set_balance, acct_tx_set_nonce, acct_tx_set_code_hash,
}

abbrev pub keccak_empty : ℕ
keccak_empty = 0xc5d2460186f7233c927e7db2dcc703c0e500b653ca82273b7bfad8045d85a470

-- The answer of `k_aload` for an account that the transaction or the block has.
unfoldable pub cached_account : ℕ → HostState → Option Account
unfolding acct_tx_get
cached_account address state = elim (acct_tx_get address state) [
  | some account ↦ some account
  | none ↦ state.account_block address
]

unfoldable pub account_info_empty : AccountInfo → Bool
account_info_empty info =
    nat_beq info.code_hash keccak_empty && nat_beq info.nonce 0 && nat_beq info.balance 0

-- `EMPTY_ACCOUNT_INFO` with the storage root kept.
abbrev pub emptied : Account → Account
emptied acc = record acc {
  info = record {
    nonce = 0;
    balance = 0;
    code_hash = keccak_empty;
    storage_root = acc.info.storage_root;
  };
  present = false;
  storage_cleared = true;
}

unfoldable pub account_set_info : Account → AccountInfo → Account
unfolding account_info_empty
account_set_info acc info =
    if account_info_empty info then emptied acc else record acc { info = info; present = true }

abbrev pub account_clear_storage : Account → Account
account_clear_storage acc = record acc { storage_cleared = true }

-- The setters, each for a field that differs.
unfoldable pub set_fields : ℕ → Account → Account → HostState → Outcome HostState
unfolding acct_tx_set_balance acct_tx_set_nonce acct_tx_set_code_hash
set_fields address acc next state =
    (if nat_beq next.info.balance acc.info.balance
      then ok state
      else acct_tx_set_balance address next.info.balance state)
    >>= λ s1.
        (if nat_beq next.info.nonce acc.info.nonce
          then ok s1
          else acct_tx_set_nonce address next.info.nonce s1)
        >>= λ s2.
            (if nat_beq next.info.code_hash acc.info.code_hash
              then ok s2
              else acct_tx_set_code_hash address next.info.code_hash s2)

-- Whether `store_account_info` writes the whole row.
abbrev pub rewrites : Account → Account → Bool
rewrites acc next =
    not (nat_beq next.info.storage_root acc.info.storage_root)
    || not (eqb next.present acc.present)
    || not (eqb next.storage_cleared acc.storage_cleared)

unfoldable pub store_account_info : ℕ → Account → AccountInfo → HostState → Outcome HostState
unfolding account_info_empty account_set_info storage_tx_clear acct_tx_update set_fields
store_account_info address acc info state =
    let cleared = if account_info_empty info then storage_tx_clear address state else state in
    let next = account_set_info acc info in
    if rewrites acc next
    then acct_tx_update address next cleared
    else set_fields address acc next cleared

unfoldable pub k_clear_storage : ℕ → Account → HostState → Outcome HostState
unfolding storage_tx_clear acct_tx_update
k_clear_storage address cur state =
    acct_tx_update address (account_clear_storage cur) (storage_tx_clear address state)

unfoldable pub k_mark_created : ℕ → Account → HostState → Outcome HostState
unfolding acct_tx_update
k_mark_created address cur state = acct_tx_update address (record cur { created = true }) state

unfoldable pub k_selfdestruct : ℕ → Account → HostState → Outcome HostState
unfolding acct_tx_update
k_selfdestruct address cur state =
    if not cur.selfdestructed
    then acct_tx_update address (record cur { selfdestructed = true }) state
    else ok state
