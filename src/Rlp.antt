-- ===== src/Rlp.antt =====
-- The RLP codec and the scratch region it writes to: extractions/python/src/evm/lib/rlp and
-- kernel/scratch.py, over the byte regions of contract/HostContract.py.
pub mod Slices
pub mod Scratch
pub mod Size
pub mod Write
pub mod Decode
pub mod Canonical
pub mod Sublists
pub mod BigEndian
mod Reference
pub mod Appends
mod Within
mod Refines
mod Writers
mod FixedWidth
mod Sizes
mod Encoder
mod Header
mod Items
mod ItemParts
mod RoundTrip
mod Total
mod Shortest
mod LongForm
mod Framing
mod Canonicity
mod Values
mod ReadBack
mod Tests
