-- ===== src/Rlp/BigEndian.antt =====
-- Big-endian bytes: `from_bytes`, `to_bytes`, `_word_bytes` and the recursion of
-- `rlp_uint64_width`.
use native.Mathlib.Nat.{
  pow-suc, mul_comm, div-div-eq-div-mul, one-le-pow, mul-add-div_right, mul-add-mod_self_right,
  div-eq_of_lt, mul-le-mul_right,
}
use evm_sail.Base.{
  ℕ, zero, suc, ◌+◌, ◌-◌, ◌*◌, ◌/◌, ◌%◌, ◌^◌, ◌≤◌, ◌<◌, ◌≡◌, refl, sym, ap, ◌∙◌, List, [], ◌∷◌,
  ◌++◌, length, drop, replicate, length-append, arith, mod-mul, ==-ne,
}
use evm_sail.Word.{IsWord, modulus}
use evm_sail.Rlp.Slices.{from_bytes, to_bytes, word_bytes}

abbrev pub IsBytes : List ℕ → Type 0
IsBytes [] = Unit
IsBytes (b ∷ bs) = (b < 256) × IsBytes bs

pub cons_eq : {a b : ℕ} {xs ys : List ℕ} → a ≡ b → xs ≡ ys → a ∷ xs ≡ b ∷ ys
cons_eq {b = b} {xs} e f = ap (λ n. n ∷ xs) e ∙ ap (λ l. b ∷ l) f

pub length-to_bytes : (k v : ℕ) → length (to_bytes k v) ≡ k
unfolding to_bytes
length-to_bytes zero v = refl
length-to_bytes (suc k) v = omega (arith, length-to_bytes k v)

pub from_bytes-to_bytes : (k v : ℕ) → from_bytes (to_bytes k v) ≡ v % 256 ^ k
unfolding from_bytes to_bytes
from_bytes-to_bytes zero v = omega arith
from_bytes-to_bytes (suc k) v =
    rw (length-to_bytes k v, from_bytes-to_bytes k v, pow-suc 256 k)
      (omega (arith, mod-mul v (256 ^ k) 256))

pub drop-to_bytes : (d k v : ℕ) → drop d (to_bytes (d + k) v) ≡ to_bytes k v
unfolding to_bytes
drop-to_bytes zero k v = ap (λ n. to_bytes n v) (omega arith)
drop-to_bytes (suc d) k v =
    let e : suc d + k ≡ suc (d + k) = omega arith in
    ap (λ n. drop (suc d) (to_bytes n v)) e ∙ drop-to_bytes d k v

pub from_bytes_snoc : (bs : List ℕ) (b : ℕ) → from_bytes (bs ++ (b ∷ [])) ≡ from_bytes bs * 256 + b
unfolding from_bytes
from_bytes_snoc [] b = omega arith
from_bytes_snoc (x ∷ bs) b = omega (
  arith,
  from_bytes_snoc bs b,
  ap (λ (t : ℕ). x * 256 ^ t) (length-append bs (b ∷ [])),
  ap (λ (t : ℕ). x * 256 ^ t) (unary (length bs)),
  ap (λ (t : ℕ). x * t) (pow-suc 256 (length bs)),
)
  where
    unary : (n : ℕ) → n + 1 ≡ suc n
    unary n = omega arith

pub to_bytes-suc : (k v : ℕ) → to_bytes (suc k) v ≡ to_bytes k (v / 256) ++ (v % 256 ∷ [])
unfolding to_bytes
to_bytes-suc zero v = ap (λ n. (n % 256) ∷ []) (omega arith)
to_bytes-suc (suc k) v =
    let e : v / 256 ^ suc k ≡ v / 256 / 256 ^ k =
      ap (λ (t : ℕ). v / t) (pow-suc 256 k ∙ mul_comm (256 ^ k) 256)
      ∙ sym (div-div-eq-div-mul v 256 (256 ^ k)) in
    ap (λ l. (v / 256 ^ suc k % 256) ∷ l) (to_bytes-suc k v)
    ∙ ap (λ n. (n % 256) ∷ (to_bytes k (v / 256) ++ (v % 256 ∷ []))) e

pub from_bytes-replicate : (n : ℕ) → from_bytes (replicate n 0) ≡ 0
unfolding from_bytes
from_bytes-replicate zero = refl
from_bytes-replicate (suc n) = omega (arith, from_bytes-replicate n)

pub from_bytes-lt : (bs : List ℕ) → IsBytes bs → from_bytes bs < 256 ^ length bs
unfolding from_bytes
from_bytes-lt [] h = omega arith
from_bytes-lt (b ∷ bs) h = omega (
  arith,
  from_bytes-lt bs h.1,
  pow-suc 256 (length bs),
  mul-le-mul_right {m = b + 1} {n = 256} (256 ^ length bs) (omega (arith, h.0)),
)

pub IsBytes-to_bytes : (k v : ℕ) → IsBytes (to_bytes k v)
unfolding to_bytes
IsBytes-to_bytes zero v = tt
IsBytes-to_bytes (suc k) v = (omega arith, IsBytes-to_bytes k v)

-- Only the low bytes are read.
pub to_bytes_mod : (k v : ℕ) (q : ℕ) → to_bytes k (q * 256 ^ k + v) ≡ to_bytes k v
unfolding to_bytes
to_bytes_mod zero v q = refl
to_bytes_mod (suc k) v q =
    cons_eq
      (rw (pow-suc 256 k) (
        ap (λ (t : ℕ). t % 256)
          (ap (λ (t : ℕ). (t + v) / 256 ^ k) (omega arith)
            ∙ mul-add-div_right {m = 256 ^ k} (one-le-pow k 256 (omega arith)) (q * 256) v)
        ∙ mul-add-mod_self_right q 256 (v / 256 ^ k)))
      (ap (to_bytes k) (omega (arith, ap (λ (t : ℕ). q * t) (pow-suc 256 k)))
        ∙ to_bytes_mod k v (q * 256))

-- Bytes are determined by their number and their length.
pub to_bytes-from_bytes : (bs : List ℕ) → IsBytes bs → to_bytes (length bs) (from_bytes bs) ≡ bs
unfolding from_bytes to_bytes
to_bytes-from_bytes [] h = refl
to_bytes-from_bytes (b ∷ bs) h =
    cons_eq
      (ap (λ (t : ℕ). t % 256)
          (mul-add-div_right {m = 256 ^ length bs} (one-le-pow (length bs) 256 (omega arith)) b
            (from_bytes bs))
        ∙ omega (arith, h.0, div-eq_of_lt (from_bytes-lt bs h.1)))
      (to_bytes_mod (length bs) (from_bytes bs) b ∙ to_bytes-from_bytes bs h.1)

pub word_bytes-to_bytes : (v k : ℕ) → IsWord v → 1 ≤ k → k ≤ 32 → word_bytes v k ≡ to_bytes k v
unfolding word_bytes
word_bytes-to_bytes v k h ge le =
    let m : v % modulus ≡ v = omega arith in
    let e : 32 ≡ 32 - k + k = omega arith in
    rw (m, ==-ne k 0 (omega arith))
      (ap (λ n. drop (32 - k) (to_bytes n v)) e ∙ drop-to_bytes (32 - k) k v)
