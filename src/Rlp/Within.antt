-- ===== src/Rlp/Within.antt =====
-- Slices that stand within their region, and their parts.
use evm_sail.Base.{ℕ, ◌+◌, ◌≤◌, ◌≡◌, List, length, drop, arith, ok}
use evm_sail.Rlp.Slices.{Slice, region_limit, slice_bytes, sub_slice}
use evm_sail.Rlp.Appends.{slice-ok}
use evm_sail.Rlp.Sublists.{length-take, length-drop}

-- A slice within its region.
pub record IsSlice (region : List ℕ) (d : Slice) : Type 0 where
  pub within : d.off + d.len ≤ length region
  pub limited : d.off + d.len ≤ region_limit

pub length-slice_bytes :
    (region : List ℕ) (d : Slice) → IsSlice region d → length (slice_bytes region d) ≡ d.len
unfolding slice_bytes
length-slice_bytes region d h =
    length-take d.len (drop d.off region) (omega (arith, h.within, length-drop d.off region))

-- A part of a slice within a region.
pub sub_slice-ok :
    (region : List ℕ) (d : Slice) (o l : ℕ)
    → IsSlice region d
    → o + l ≤ d.len
    → (sub_slice d o l ≡ ok (record { off = d.off + o; len = l }))
      × IsSlice region (record { off = d.off + o; len = l })
unfolding sub_slice
sub_slice-ok region d o l h le = (
  slice-ok (d.off + o) l (omega (arith, h.limited)),
  record { within = omega (arith, h.within); limited = omega (arith, h.limited) },
)
