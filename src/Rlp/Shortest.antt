-- ===== src/Rlp/Shortest.antt =====
-- The short form in `rlp_ref_framing_canonical`.
use evm_sail.Base.{
  ℕ, ◌+◌, ◌≤◌, ◌≡◌, ◌↔◌, refl, sym, ap, ◌∙◌, List, [], ◌∷◌, ◌++◌, length, arith, Bool, true, false,
  ◌==◌, ◌&&◌, get_or, length-append,
}
use evm_sail.Runtime.{bits}
use evm_sail.Rlp.Slices.{slice_byte, slice_bytes}
use evm_sail.Rlp.Refines.{short_byte}
use evm_sail.Rlp.Decode.{RlpFieldRef}
use evm_sail.Rlp.Canonical.{short_framing}
use evm_sail.Rlp.Sublists.{slice_byte-get_or}
use evm_sail.Rlp.Within.{IsSlice, length-slice_bytes}

-- A field whose parts were validated, with its bytes: `framing` before `content`.
pub record IsField (region : List ℕ) (f : RlpFieldRef) (framing content : List ℕ) : Type 0 where
  pub slice : IsSlice region f.source
  pub size : f.content_len ≡ length content
  pub parts : slice_bytes region f.source ≡ framing ++ content

pub field_size :
    (region : List ℕ) (f : RlpFieldRef) (p b : List ℕ)
    → IsField region f p b
    → f.source.len ≡ length p + length b
field_size region f p b h =
    sym (length-slice_bytes region f.source h.slice)
    ∙ ap (λ l. length l) h.parts
    ∙ length-append p b

-- The first byte of a field.
pub first_of :
    (region : List ℕ) (f : RlpFieldRef) (x : ℕ) (p b : List ℕ)
    → IsField region f (x ∷ p) b
    → slice_byte region f.source 0 ≡ x
first_of region f x p b h = slice_byte-get_or region f.source 0 ∙ ap (λ l. get_or l 0 0) h.parts

pub and_true : (a b : Bool) → (a && b) ≡ true → (a ≡ true) × (b ≡ true)
and_true true b h = (refl, h)
and_true false b h = absurd (ground arith)

pub short_framing-bind :
    (region : List ℕ) (f : RlpFieldRef) (base : ℕ)
    → short_framing region f base ≡ (
        (f.source.len == f.content_len + 1)
        && (slice_byte region f.source 0 == bits 8 (base + bits 8 f.content_len)))
unfolding short_framing
short_framing-bind region f base = refl

short_value :
    (region : List ℕ) (f : RlpFieldRef) (x : ℕ) (p b : List ℕ) (base : ℕ)
    → IsField region f (x ∷ p) b
    → base ≤ 0xc0
    → length b ≤ 55
    → short_framing region f base ≡ ((f.source.len == length b + 1) && (x == base + length b))
short_value region f x p b base h le small =
    short_framing-bind region f base
    ∙ rw (first_of region f x p b h, h.size, short_byte base (length b) le small) refl

-- The short form holds exactly when the framing is its one byte.
pub short_framing_iff :
    (region : List ℕ) (f : RlpFieldRef) (p b : List ℕ) (base : ℕ)
    → IsField region f p b
    → base ≤ 0xc0
    → length b ≤ 55
    → (short_framing region f base ≡ true) ↔ (p ≡ (base + length b) ∷ [])
short_framing_iff region f [] b base h le small = (
  λ e.
      absurd (ground (arith, short_framing-bind region f base, field_size region f [] b h, h.size)),
  λ e. absurd (omega (arith, ap (λ l. length l) e)),
)
short_framing_iff region f (x ∷ []) b base h le small = (
  λ e. ap (λ n. n ∷ []) (ground (arith, short_value region f x [] b base h le small, e)),
  λ e.
      let d : x ≡ base + length b = ap (λ l. get_or l 0 0) e in
      rw (short_value region f x [] b base h le small)
        (ground (arith, field_size region f (x ∷ []) b h)),
)
short_framing_iff region f (x ∷ y ∷ p) b base h le small = (
  λ e. absurd (
      ground (
        arith,
        short_value region f x (y ∷ p) b base h le small,
        field_size region f (x ∷ y ∷ p) b h,
      )),
  λ e. absurd (omega (arith, ap (λ l. length l) e)),
)
