-- ===== src/Rlp/Total.antt =====
-- `rlp_decode_item` on arbitrary bytes.
use evm_sail.Base.{
  ℕ, ◌+◌, ◌-◌, ◌≤◌, ◌<◌, ◌≡◌, ◌⊎◌, refl, List, arith, ltb, leb, Bool, true, false, ◌==◌, Bool-cases,
  inl, inr, Outcome, ok, fatal, FatalError, ==-ne,
}
use evm_sail.Rlp.Slices.{Slice, slice_byte}
use evm_sail.Rlp.Decode.{
  RlpHeader, RlpFieldRef, header_of, long_header, rlp_ref_hdr, item_of, rlp_decode_item,
  rlp_uint64_width,
}
use evm_sail.Rlp.Within.{IsSlice, sub_slice-ok}
use evm_sail.Rlp.ItemParts.{rlp_decode_item-bind, item_of-header}

abbrev pub Decided {ℓ} : {A : Type ℓ} → Outcome A → (A → Type 0) → Type ℓ
Decided {A} r P = (r ≡ fatal FatalError.rlp_decode) ⊎ ((a : A) × (r ≡ ok a) × P a)

abbrev AnyHeader : RlpHeader → Type 0
AnyHeader h = Unit

long_header-Decided :
    (region : List ℕ) (c : Slice) (l : Bool) (w : ℕ)
    → IsSlice region c
    → 1 ≤ c.len
    → Decided (long_header region c l w) AnyHeader
unfolding long_header
long_header-Decided region c l w within ge = elim (Bool-cases (leb w (c.len - 1))) [
  | inl e ↦
      rw (e, (sub_slice-ok region c 1 w within (ground arith)).0)
        (inr (
          record {
            is_list = l;
            content_off = 1 + w;
            content_len = rlp_uint64_width region (record { off = c.off + 1; len = w }) w;
          },
          refl,
          tt,
        ))
  | inr e ↦ rw e (inl refl)
]

header_of-Decided :
    (region : List ℕ) (c : Slice) (h : ℕ)
    → IsSlice region c
    → 1 ≤ c.len
    → Decided (header_of region c h) AnyHeader
unfolding header_of
header_of-Decided region c h within ge = elim (Bool-cases (ltb h 128)) [
  | inl a ↦ rw a (inr (_, refl, tt))
  | inr a ↦ elim (Bool-cases (ltb h 184)) [
    | inl b ↦ rw (a, b) (inr (_, refl, tt))
    | inr b ↦ elim (Bool-cases (ltb h 192)) [
      | inl d ↦ rw (a, b, d) (long_header-Decided region c false (h - 183) within ge)
      | inr d ↦ elim (Bool-cases (ltb h 248)) [
        | inl e ↦ rw (a, b, d, e) (inr (_, refl, tt))
        | inr e ↦ rw (a, b, d, e) (long_header-Decided region c true (h - 247) within ge)
      ]
    ]
  ]
]

rlp_ref_hdr-Decided :
    (region : List ℕ) (c : Slice)
    → IsSlice region c
    → 1 ≤ c.len
    → Decided (rlp_ref_hdr region c) AnyHeader
unfolding rlp_ref_hdr
rlp_ref_hdr-Decided region c within ge =
    rw (==-ne c.len 0 (omega arith)) (header_of-Decided region c (slice_byte region c 0) within ge)

-- A field that starts where the cursor does, is not empty, and is within the cursor.
abbrev pub IsFieldOf : List ℕ → Slice → RlpFieldRef → Type 0
IsFieldOf region c f =
    (f.source.off ≡ c.off)
    × (0 < f.source.len)
    × (f.source.len ≤ c.len)
    × (f.content_len ≤ f.source.len)
    × IsSlice region f.source

item_of-Decided :
    (region : List ℕ) (c : Slice) (h : RlpHeader)
    → IsSlice region c
    → Decided (item_of c h) (IsFieldOf region c)
item_of-Decided region c h within = elim (Bool-cases (ltb c.len h.content_off)) [
  | inl a ↦ inl (unfold item_of in rw a refl)
  | inr a ↦ elim (Bool-cases (ltb (c.len - h.content_off) h.content_len)) [
    | inl b ↦ inl (unfold item_of in rw (a, b) refl)
    | inr b ↦ elim (Bool-cases (ltb 0 (h.content_off + h.content_len))) [
      | inr d ↦ inl (unfold item_of in rw (a, b, d) refl)
      | inl d ↦ inr (
        record {
          source = record { off = c.off; len = h.content_off + h.content_len };
          is_list = h.is_list;
          content_len = h.content_len;
        },
        item_of-header region c h.is_list h.content_off h.content_len within (ground arith)
            (ground arith),
        (
          refl,
          ground arith,
          ground arith,
          ground arith,
          record {
            within = ground (arith, within.within);
            limited = ground (arith, within.limited);
          },
        ),
      )
    ]
  ]
]

-- Decoding any bytes at all, from a cursor within its region, either fails with the decoding error
-- or gives a field that starts where the cursor does, is not empty, is no longer than the cursor
-- and has a content no longer than itself. There is no other error.
pub rlp_decode_item-total :
    (region : List ℕ) (c : Slice)
    → IsSlice region c
    → Decided (rlp_decode_item region c) (IsFieldOf region c)
rlp_decode_item-total region c within = elim (Bool-cases (c.len == 0)) [
  | inl z ↦ inl (unfold rlp_decode_item in rw z refl)
  | inr z ↦ elim (rlp_ref_hdr-Decided region c within (ground arith)) [
    | inl e ↦ inl (rw (rlp_decode_item-bind region c (ground arith), e) refl)
    | inr (h, e, _) ↦
        rw (rlp_decode_item-bind region c (ground arith), e) (item_of-Decided region c h within)
  ]
]
