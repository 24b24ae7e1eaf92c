-- ===== src/Kernel.antt =====
-- The accounts of the kernel: extractions/python/src/evm/kernel/accounts.py and selfdestruct.py,
-- over the host's account rows.
pub mod Accounts
pub mod Undo
pub mod Marked
pub mod Cleared
pub mod Steps
pub mod Stores
pub mod Untouched
pub mod Frames
mod Tests
