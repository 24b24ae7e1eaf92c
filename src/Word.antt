-- ===== src/Word.antt =====
-- The 256-bit words of extractions/python/src/evm/prelude.py: arithmetic, bits, shifts, signs and
-- the instructions of the arithmetic and logic unit (`alu_*`). A word is a number below 2 ^ 256.
mod Arith
mod Bits
mod Shift
mod Signed
mod Exp
mod Tests
pub mod Ring
pub mod BitLength
pub mod Power
pub mod Shifts
pub mod SignedLaws
pub mod Extend
pub mod SignExtend
unfoldable pub use Arith.*
unfoldable pub use Bits.*
unfoldable pub use Shift.*
unfoldable pub use Signed.*
unfoldable pub use Exp.*
