-- ===== src/Stack.antt =====
-- The operand stack: contract/HostContract.py keeps the words of all frames in one list, and
-- extractions/python/src/evm/host/stack.py threads a pointer into it.
pub mod Slots
pub mod Pointer
pub mod WriteAt
pub mod Holds
