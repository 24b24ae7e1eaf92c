-- ===== src/Memory.antt =====
-- The bytes of memory: contract/HostContract.py keeps those of all frames in one region, and
-- extractions/python/src/evm/evm/machine.py addresses them from the base of a frame.
pub mod Bytes
pub mod Frame
mod Reads
mod Laws
mod Tests
