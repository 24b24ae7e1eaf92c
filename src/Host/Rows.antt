-- ===== src/Host/Rows.antt =====
-- The rows that the host keeps: extractions/python/src/evm/primitives/account.py and the row
-- classes of extractions/python/contract/HostContract.py. An address, a hash and a word are
-- numbers; a row's `key` is the key it is stored under.
use evm_sail.Base.{ℕ, Bool, List}

pub record AccountInfo : Type 0 where
  pub nonce : ℕ
  pub balance : ℕ
  pub code_hash : ℕ
  pub storage_root : ℕ

pub record Account : Type 0 where
  pub info : AccountInfo
  pub present : Bool
  pub storage_cleared : Bool
  pub created : Bool
  pub selfdestructed : Bool

pub record StorageValue : Type 0 where
  pub curr : ℕ
  pub orig : ℕ

-- What the host answers for a slot of the transaction.
pub data StorageTxLookup : Type 0 where
  storage_tx_hit : StorageValue → StorageTxLookup
  storage_tx_cleared : StorageTxLookup
  storage_tx_miss : StorageTxLookup

pub record AccountTxRow : Type 0 where
  pub current : Account
  pub original : Account

pub record StorageTxRow : Type 0 where
  pub value : StorageValue
  pub generation : ℕ

pub record LogRecord : Type 0 where
  pub address : ℕ
  pub topics : List ℕ
  pub data_offset : ℕ
  pub data_length : ℕ

pub record AuthorizationRecord : Type 0 where
  pub seen : Bool
  pub originally_delegated : Bool
  pub delegation_set : Bool
