-- ===== src/Host.antt =====
-- The host of extractions/python/contract/HostContract.py: the state of a transaction, its
-- journal with nested checkpoints, and the rows of accounts, storage, warm marks and logs.
pub mod Dict
pub mod Rows
pub mod Journal
pub mod State
pub mod Restore
pub mod Slots
pub mod Accounts
pub mod Logs
mod Authorizations
mod Tests
pub mod Undo
pub mod Frames
pub mod Generations
pub mod Freshness
pub mod AccountUpdate
pub mod Clearing
