-- ===== src/Code.antt =====
-- The jump destinations of code: the scan of extractions/python/src/evm/host/code.py, and the tables
-- of contract/HostContract.py that it marks.
pub mod Analysis
mod Destinations
pub mod Jump
mod Landing
mod Tests
