-- ===== src/Stack/WriteAt.antt =====
-- `write_at`: the write of one word, with the padding before it.
use evm_sail.Base.{
  ℕ, zero, suc, ◌+◌, ◌-◌, ◌≤◌, ◌<◌, ◌≡◌, ◌≢◌, refl, ap, ◌∙◌, List, [], ◌∷◌, ◌++◌, length, get_or,
  set, replicate, arith, length-append,
}
use evm_sail.Stack.Slots.{write_at}

pub length-set : (xs : List ℕ) (i v : ℕ) → length (set xs i v) ≡ length xs
length-set [] i v = refl
length-set (x ∷ xs) zero v = refl
length-set (x ∷ xs) (suc i) v = ap suc (length-set xs i v)

pub get_or-set : (xs : List ℕ) (i v : ℕ) → i < length xs → get_or (set xs i v) i 0 ≡ v
get_or-set [] i v h = absurd (omega arith)
get_or-set (x ∷ xs) zero v h = refl
get_or-set (x ∷ xs) (suc i) v h = get_or-set xs i v (omega arith)

pub get_or-set_other : (xs : List ℕ) (i j v : ℕ) → j ≢ i → get_or (set xs i v) j 0 ≡ get_or xs j 0
get_or-set_other [] i j v h = refl
get_or-set_other (x ∷ xs) zero zero v h = absurd (h refl)
get_or-set_other (x ∷ xs) zero (suc j) v h = refl
get_or-set_other (x ∷ xs) (suc i) zero v h = refl
get_or-set_other (x ∷ xs) (suc i) (suc j) v h = get_or-set_other xs i j v (omega arith)

pub get_or_padded : (xs : List ℕ) (n j : ℕ) → get_or (xs ++ replicate n 0) j 0 ≡ get_or xs j 0
get_or_padded [] zero j = refl
get_or_padded [] (suc n) zero = refl
get_or_padded [] (suc n) (suc j) = get_or_padded [] n j
get_or_padded (x ∷ xs) n zero = refl
get_or_padded (x ∷ xs) n (suc j) = get_or_padded xs n j

length-replicate : (n : ℕ) → length (replicate {A = ℕ} n 0) ≡ n
length-replicate zero = refl
length-replicate (suc n) = omega (arith, length-replicate n)

length_padded :
    (xs : List ℕ) (p : ℕ)
    → (p < length (xs ++ replicate (p + 1 - length xs) 0))
      × (length xs ≤ length (xs ++ replicate (p + 1 - length xs) 0))
length_padded xs p = omega (
  arith,
  length-append xs (replicate (p + 1 - length xs) 0),
  length-replicate (p + 1 - length xs),
)

-- A write reads back, leaves the other positions, and never shortens the list.
pub write_at_lem :
    (p v : ℕ) (xs : List ℕ)
    → (get_or (write_at p v xs) p 0 ≡ v)
      × ((j : ℕ) → j ≢ p → get_or (write_at p v xs) j 0 ≡ get_or xs j 0)
      × (p < length (write_at p v xs))
      × (length xs ≤ length (write_at p v xs))
unfolding write_at
write_at_lem p v xs =
    let padded = xs ++ replicate (p + 1 - length xs) 0 in
    let size = length_padded xs p in
    (
      get_or-set padded p v size.0,
      λ j ne. get_or-set_other padded p j v ne ∙ get_or_padded xs (p + 1 - length xs) j,
      omega (arith, size, length-set padded p v),
      omega (arith, size, length-set padded p v),
    )
