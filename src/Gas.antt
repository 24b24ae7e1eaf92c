-- ===== src/Gas.antt =====
-- The gas schedule of extractions/python/src/evm/evm/gas.py, with the gas arithmetic of
-- evm/machine.py. Gas is a number below 2 ^ 64; refunds are integers.
mod Schedule
mod StateGas
mod Memory
mod Charges
mod Sstore
mod Blob
mod Tests
pub mod ExcessBlobGas
pub mod FakeExponential
pub mod Refunds
pub mod Affordable
pub mod Expansion
pub mod Conservation
unfoldable pub use Schedule.*
unfoldable pub use StateGas.*
unfoldable pub use Memory.*
unfoldable pub use Charges.*
unfoldable pub use Sstore.*
unfoldable pub use Blob.*
