-- ===== src/Rlp/Sublists.antt =====
-- Prefixes, suffixes and elements of lists, and the bytes that a slice and its sub-slices stand
-- for.
use evm_sail.Base.{
  ℕ, zero, suc, ◌+◌, ◌-◌, ◌≤◌, ◌≡◌, refl, sym, ap, ◌∙◌, List, [], ◌∷◌, ◌++◌, length, get_or, take,
  drop, replicate, ltb, arith, Bool-cases, inl, inr,
}
use evm_sail.Rlp.Slices.{Slice, slice_bytes, region_byte, slice_byte}

module _ {ℓ} {A : Type ℓ} where
  drop-nil : (n : ℕ) → drop {A = A} n [] ≡ []
  drop-nil zero = refl
  drop-nil (suc n) = refl

  pub drop-drop : (a b : ℕ) (xs : List A) → drop a (drop b xs) ≡ drop (b + a) xs
  drop-drop a zero xs = ap (λ n. drop n xs) (omega arith)
  drop-drop a (suc b) [] = drop-nil a ∙ sym (drop-nil (suc b + a))
  drop-drop a (suc b) (x ∷ xs) =
      let e : suc (b + a) ≡ suc b + a = omega arith in
      drop-drop a b xs ∙ ap (λ n. drop n (x ∷ xs)) e

  pub length-take : (n : ℕ) (xs : List A) → n ≤ length xs → length (take n xs) ≡ n
  length-take zero xs h = refl
  length-take (suc n) [] h = absurd (omega arith)
  length-take (suc n) (x ∷ xs) h = omega (arith, length-take n xs (omega arith))

  pub length-take-le : (n : ℕ) (xs : List A) → length (take n xs) ≤ n
  length-take-le zero xs = omega arith
  length-take-le (suc n) [] = omega arith
  length-take-le (suc n) (x ∷ xs) = omega (arith, length-take-le n xs)

  pub length-drop : (n : ℕ) (xs : List A) → length (drop n xs) ≡ length xs - n
  length-drop zero xs = omega arith
  length-drop (suc n) [] = omega arith
  length-drop (suc n) (x ∷ xs) = omega (arith, length-drop n xs)

  pub length-replicate : (n : ℕ) (a : A) → length (replicate n a) ≡ n
  length-replicate zero a = refl
  length-replicate (suc n) a = omega (arith, length-replicate n a)

  pub take-drop-take :
      (l o n : ℕ) (xs : List A) → o + l ≤ n → take l (drop o (take n xs)) ≡ take l (drop o xs)
  take-drop-take zero o n xs h = refl
  take-drop-take (suc l) zero zero xs h = absurd (omega arith)
  take-drop-take (suc l) zero (suc n) [] h = refl
  take-drop-take (suc l) zero (suc n) (x ∷ xs) h =
      ap (λ ys. x ∷ ys) (take-drop-take l zero n xs (omega arith))
  take-drop-take (suc l) (suc o) zero xs h = absurd (omega arith)
  take-drop-take (suc l) (suc o) (suc n) [] h = refl
  take-drop-take (suc l) (suc o) (suc n) (x ∷ xs) h = take-drop-take (suc l) o n xs (omega arith)

  pub take_beyond : (n : ℕ) (xs : List A) → length xs ≤ n → take n xs ≡ xs
  take_beyond zero [] h = refl
  take_beyond zero (x ∷ xs) h = absurd (omega arith)
  take_beyond (suc n) [] h = refl
  take_beyond (suc n) (x ∷ xs) h = ap (λ ys. x ∷ ys) (take_beyond n xs (omega arith))

  pub take_append : (n : ℕ) (xs ys : List A) → n ≤ length xs → take n (xs ++ ys) ≡ take n xs
  take_append zero xs ys h = refl
  take_append (suc n) [] ys h = absurd (omega arith)
  take_append (suc n) (x ∷ xs) ys h = ap (λ l. x ∷ l) (take_append n xs ys (omega arith))

  pub drop_append_length : (xs ys : List A) → drop (length xs) (xs ++ ys) ≡ ys
  drop_append_length [] ys = refl
  drop_append_length (x ∷ xs) ys = drop_append_length xs ys

  pub take-drop : (n : ℕ) (xs : List A) → take n xs ++ drop n xs ≡ xs
  take-drop zero xs = refl
  take-drop (suc n) [] = refl
  take-drop (suc n) (x ∷ xs) = ap (λ l. x ∷ l) (take-drop n xs)

  pub get_or_beyond : (xs : List A) (i : ℕ) (d : A) → length xs ≤ i → get_or xs i d ≡ d
  get_or_beyond [] i d h = refl
  get_or_beyond (x ∷ xs) zero d h = absurd (omega arith)
  get_or_beyond (x ∷ xs) (suc i) d h = get_or_beyond xs i d (omega arith)

  pub take-suc :
      (n : ℕ) (xs : List A) (d : A)
      → suc n ≤ length xs
      → take (suc n) xs ≡ take n xs ++ (get_or xs n d ∷ [])
  take-suc zero [] d h = absurd (omega arith)
  take-suc zero (x ∷ xs) d h = refl
  take-suc (suc n) [] d h = absurd (omega arith)
  take-suc (suc n) (x ∷ xs) d h = ap (λ l. x ∷ l) (take-suc n xs d (omega arith))

-- A part of a slice that stays within it.
pub slice_bytes_sub :
    (region : List ℕ) (s : Slice) (o l : ℕ)
    → o + l ≤ s.len
    → slice_bytes region (record { off = s.off + o; len = l })
      ≡ take l (drop o (slice_bytes region s))
unfolding slice_bytes
slice_bytes_sub region s o l h =
    ap (take l) (sym (drop-drop o s.off region))
    ∙ sym (take-drop-take l o s.len (drop s.off region) h)

pub slice_byte-get_or :
    (region : List ℕ) (s : Slice) (i : ℕ)
    → slice_byte region s i ≡ get_or (slice_bytes region s) i 0
unfolding slice_bytes slice_byte region_byte
slice_byte-get_or region s i = elim (Bool-cases (ltb i s.len)) [
  | inl e ↦ rw e refl
  | inr e ↦ rw e (
      sym (
        get_or_beyond (take s.len (drop s.off region)) i 0
          (ground (arith, length-take-le s.len (drop s.off region)))))
]
