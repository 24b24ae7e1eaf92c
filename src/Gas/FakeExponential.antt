-- ===== src/Gas/FakeExponential.antt =====
-- The loop of `fake_exponential_word`.
use native.Mathlib.Nat.{div-lt_iff_lt-mul}
use native.Mathlib.Numerals.{add-one}
use evm_sail.Base.{
  ℕ, zero, suc, ◌+◌, ◌*◌, ◌/◌, ◌^◌, ◌≤◌, ◌<◌, ◌≡◌, ◌⊎◌, inl, inr, arith, refl, Option, some,
  Outcome, ok, fatal, numeric_overflow, ==-ne, lt→ltb,
}
use evm_sail.Profile.{BlobSchedule}
use evm_sail.Gas.Blob.{fake_exponential_loop, scaled_price, fake_exponential_word}

-- The terms of the sum, each rounded down: `denominator * (numerator / denominator) ^ i / i!`.
pub term : ℕ → ℕ → ℕ → ℕ
term denominator numerator zero = denominator
term denominator numerator (suc i) =
    term denominator numerator i * numerator / (denominator * (i + 1))

pub sum_of_terms : ℕ → ℕ → ℕ → ℕ
sum_of_terms denominator numerator zero = 0
sum_of_terms denominator numerator (suc i) =
    sum_of_terms denominator numerator i + term denominator numerator i

module _ (d num limit : ℕ) where
  -- How the loop ends: with the sum up to a term that is zero, below the limit, or by a partial
  -- sum that reaches the limit.
  abbrev pub Ends : Option (Outcome ℕ) → Type 0
  Ends result =
      ((n : ℕ) × (term d num n ≡ 0)
        × (sum_of_terms d num n < limit)
        × (result ≡ some (ok (sum_of_terms d num n))))
      ⊎ ((n : ℕ) × (limit ≤ sum_of_terms d num n) × (result ≡ some (fatal numeric_overflow)))

  zero_or_pos : (n : ℕ) → (n ≡ 0) ⊎ (0 < n)
  zero_or_pos n = grind arith

  below_or_not : (n : ℕ) → (n < limit) ⊎ (limit ≤ n)
  below_or_not n = grind arith

  fatal_round :
      (fuel i : ℕ)
      → 0 < term d num i
      → limit ≤ sum_of_terms d num i + term d num i
      → fake_exponential_loop (suc fuel) d num limit (i + 1) (sum_of_terms d num i) (term d num i)
        ≡ some (fatal numeric_overflow)
  unfolding fake_exponential_loop
  fatal_round fuel i p over = ground arith

  last_round :
      (fuel i output : ℕ)
      → fake_exponential_loop (suc fuel) d num limit (i + 1) output 0 ≡ some (ok output)
  unfolding fake_exponential_loop
  last_round fuel i output = refl

  next_round :
      (fuel i : ℕ)
      → 0 < term d num i
      → sum_of_terms d num i + term d num i < limit
      → i + 1 < limit
      → fake_exponential_loop (suc fuel) d num limit (i + 1) (sum_of_terms d num i) (term d num i)
        ≡ fake_exponential_loop fuel d num limit
            (suc i + 1)
            (sum_of_terms d num (suc i))
            (term d num (suc i))
  unfolding fake_exponential_loop term sum_of_terms
  next_round fuel i p fits index = rw (add-one i) (ground arith)

  loop-Ends :
      (fuel i : ℕ)
      → limit < fuel + sum_of_terms d num i
      → sum_of_terms d num i < limit
      → i ≤ sum_of_terms d num i
      → Ends (fake_exponential_loop fuel d num limit (i + 1) (sum_of_terms d num i) (term d num i))
  unfolding sum_of_terms
  loop-Ends zero i enough below grows = absurd (omega arith)
  loop-Ends (suc fuel) i enough below grows = elim (zero_or_pos (term d num i)) [
    | inl z ↦ inl (i, z, below, rw z (last_round fuel i (sum_of_terms d num i)))
    | inr p ↦ elim (below_or_not (sum_of_terms d num i + term d num i)) [
      | inr over ↦ inr (suc i, over, fatal_round fuel i p over)
      | inl fits ↦
          rw (next_round fuel i p fits (omega arith))
            (loop-Ends fuel (suc i) (omega arith) fits (omega arith))
    ]
  ]

-- `fake_exponential_word` always ends, at a denominator above zero: with the sum of the Taylor
-- terms up to one that is zero, divided by the denominator, where that sum stays below
-- `denominator * 2 ^ 256`; or with a numeric overflow, where a partial sum reaches that bound.
pub fake_exponential_word_ends :
    (schedule : BlobSchedule) (numerator : ℕ)
    → 0 < schedule.base_fee_update_fraction
    → let d = schedule.base_fee_update_fraction in
      ((n : ℕ) × (term d numerator n ≡ 0)
        × (sum_of_terms d numerator n < d * 2 ^ 256)
        × (fake_exponential_word schedule numerator ≡ ok (sum_of_terms d numerator n / d)))
      ⊎ ((n : ℕ) × (d * 2 ^ 256 ≤ sum_of_terms d numerator n)
          × (fake_exponential_word schedule numerator ≡ fatal numeric_overflow))
unfolding fake_exponential_word scaled_price term sum_of_terms
fake_exponential_word_ends schedule numerator p =
    let d : ℕ = schedule.base_fee_update_fraction in
    elim (loop-Ends d numerator (d * 2 ^ 256) (suc (d * 2 ^ 256)) 0 (omega arith) (omega arith)
      (omega arith)) [
        | inl (n, z, below, e) ↦ inl (
          n,
          z,
          below,
          rw (
            e,
            fake_exponential_word,
            ==-ne d 0 (omega arith),
            lt→ltb (sum_of_terms d numerator n / d) (2 ^ 256)
                ((div-lt_iff_lt-mul p).1 (omega (arith, below))),
          ),
        )
        | inr (n, over, e) ↦ inr (n, over, rw (e, fake_exponential_word))
      ]
