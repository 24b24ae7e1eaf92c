-- ===== src/Memory/Reads.antt =====
-- The bytes of memory at single addresses, a missing byte read as zero: what `mem_assign` changes
-- and what `mem_read` reads.
use mathlib.Core.List.{append_assoc}
use evm_sail.Base.{
  ℕ, zero, suc, ◌+◌, ◌-◌, ◌≤◌, ◌<◌, ◌≡◌, refl, sym, ap, ◌∙◌, List, [], ◌∷◌, ◌++◌, length, leb, ltb,
  ◌&&◌, if◌then◌else◌, take, drop, replicate, get_or, arith, Bool-cases, inl, inr, if_false,
  if_true, ge→ltb, lt→ltb, ltb→lt,
}
use evm_sail.Rlp.Slices.{ljust}
use evm_sail.Rlp.Scratch.{ensure_length}
use evm_sail.Rlp.Appends.{ensure_length-ge}
use evm_sail.Rlp.Sublists.{length-take}
use evm_sail.Rlp.BigEndian.{cons_eq}
use evm_sail.Stack.WriteAt.{get_or_padded}
use evm_sail.Memory.Bytes.{mem_assign, mem_read}

-- The byte at an address.
abbrev pub byte_at : List ℕ → ℕ → ℕ
byte_at memory i = get_or memory i 0

byte_at-append :
    (xs ys : List ℕ) (i : ℕ)
    → byte_at (xs ++ ys) i
      ≡ (if ltb i (length xs) then byte_at xs i else byte_at ys (i - length xs))
byte_at-append [] ys i =
    let e : i ≡ i - 0 = omega arith in
    ap (byte_at ys) e
    ∙ sym (if_false (ltb i 0) (byte_at [] i) (byte_at ys (i - 0)) (ge→ltb i 0 (omega arith)))
byte_at-append (x ∷ xs) ys zero = sym (
    if_true (ltb 0 (length (x ∷ xs))) x (byte_at ys (0 - length (x ∷ xs)))
      (lt→ltb 0 (length (x ∷ xs)) (omega arith)))
byte_at-append (x ∷ xs) ys (suc i) =
    let e : i - length xs ≡ suc i - length (x ∷ xs) = omega arith in
    let f : ltb i (length xs) ≡ ltb (suc i) (length (x ∷ xs)) = ground arith in
    byte_at-append xs ys i
    ∙ ap (λ (k : ℕ). if ltb i (length xs) then byte_at xs i else byte_at ys k) e
    ∙ ap (λ b. if b then byte_at xs i else byte_at ys (suc i - length (x ∷ xs))) f

byte_at-take : (n : ℕ) (xs : List ℕ) (i : ℕ) → i < n → byte_at (take n xs) i ≡ byte_at xs i
byte_at-take zero xs i h = absurd (omega arith)
byte_at-take (suc n) [] i h = refl
byte_at-take (suc n) (x ∷ xs) zero h = refl
byte_at-take (suc n) (x ∷ xs) (suc i) h = byte_at-take n xs i (omega arith)

byte_at-drop : (n : ℕ) (xs : List ℕ) (i : ℕ) → byte_at (drop n xs) i ≡ byte_at xs (n + i)
byte_at-drop zero xs i = ap (byte_at xs) (omega arith)
byte_at-drop (suc n) [] i = refl
byte_at-drop (suc n) (x ∷ xs) i =
    let e : suc n + i ≡ suc (n + i) = omega arith in
    byte_at-drop n xs i ∙ sym (ap (byte_at (x ∷ xs)) e)

byte_at-ensure_length : (xs : List ℕ) (n i : ℕ) → byte_at (ensure_length xs n) i ≡ byte_at xs i
unfolding ensure_length
byte_at-ensure_length xs n i = elim (Bool-cases (ltb (length xs) n)) [
  | inl e ↦ rw e (get_or_padded xs (n - length xs) i)
  | inr e ↦ rw e refl
]

mem_assign-parts :
    (o : ℕ) (p xs : List ℕ)
    → mem_assign o p xs
      ≡ take o (ensure_length xs (o + length p))
        ++ (p ++ drop (o + length p) (ensure_length xs (o + length p)))
unfolding mem_assign
mem_assign-parts o p xs = append_assoc _ p _

-- What an assignment leaves at each address.
pub byte_at-mem_assign :
    (o : ℕ) (p xs : List ℕ) (i : ℕ)
    → byte_at (mem_assign o p xs) i
      ≡ (if leb o i && ltb i (o + length p) then byte_at p (i - o) else byte_at xs i)
byte_at-mem_assign o p xs i =
    let stop = o + length p in
    let r = ensure_length xs stop in
    let n : length (take o r) ≡ o = length-take o r (omega (arith, ensure_length-ge xs stop)) in
    ap (λ l. byte_at l i) (mem_assign-parts o p xs)
    ∙ byte_at-append (take o r) (p ++ drop stop r) i
    ∙ ap (λ (k : ℕ). if ltb i k then byte_at (take o r) i else byte_at (p ++ drop stop r) (i - k)) n
    ∙ elim (Bool-cases (ltb i o)) [
      | inl e ↦
          let lt : i < o = ltb→lt i o e in
          if_true (ltb i o) _ _ e
          ∙ byte_at-take o r i lt
          ∙ byte_at-ensure_length xs stop i
          ∙ sym (if_false (leb o i && ltb i stop) _ _ (ground (arith, lt)))
      | inr e ↦
          if_false (ltb i o) _ _ e
          ∙ byte_at-append p (drop stop r) (i - o)
          ∙ elim (Bool-cases (ltb (i - o) (length p))) [
            | inl d ↦
                if_true (ltb (i - o) (length p)) _ _ d
                ∙ sym (if_true (leb o i && ltb i stop) _ _ (ground (arith, d, e)))
            | inr d ↦
                let k : stop + (i - o - length p) ≡ i = ground (arith, d, e) in
                if_false (ltb (i - o) (length p)) _ _ d
                ∙ byte_at-drop stop r (i - o - length p)
                ∙ ap (byte_at r) k
                ∙ byte_at-ensure_length xs stop i
                ∙ sym (if_false (leb o i && ltb i stop) _ _ (ground (arith, d, e)))
          ]
    ]

-- The bytes from an address on, one by one.
unfoldable pub bytes_from : ℕ → ℕ → List ℕ → List ℕ
bytes_from o zero xs = []
bytes_from o (suc n) xs = byte_at xs o ∷ bytes_from (suc o) n xs

bytes_from-shifted : (o n x : ℕ) (xs : List ℕ) → bytes_from (suc o) n (x ∷ xs) ≡ bytes_from o n xs
unfolding bytes_from
bytes_from-shifted o zero x xs = refl
bytes_from-shifted o (suc n) x xs = ap (λ l. byte_at xs o ∷ l) (bytes_from-shifted (suc o) n x xs)

bytes_from-nil : (o n : ℕ) → bytes_from o n [] ≡ replicate n 0
unfolding bytes_from
bytes_from-nil o zero = refl
bytes_from-nil o (suc n) = ap (λ l. 0 ∷ l) (bytes_from-nil (suc o) n)

bytes_from-padded :
    (n : ℕ) (xs : List ℕ) → take n xs ++ replicate (n - length (take n xs)) 0 ≡ bytes_from 0 n xs
unfolding bytes_from
bytes_from-padded zero xs = refl
bytes_from-padded (suc n) [] =
    let e : suc n - 0 ≡ suc n = omega arith in
    ap (λ k. replicate k 0) e ∙ sym (bytes_from-nil 0 (suc n))
bytes_from-padded (suc n) (x ∷ xs) =
    let k = length (take n xs) in
    let e : suc n - suc k ≡ n - k = omega arith in
    ap (λ l. x ∷ l)
      (ap (λ j. take n xs ++ replicate j 0) e
        ∙ bytes_from-padded n xs
        ∙ sym (bytes_from-shifted 0 n x xs))

bytes_from-drop : (o n : ℕ) (xs : List ℕ) → bytes_from 0 n (drop o xs) ≡ bytes_from o n xs
bytes_from-drop zero n xs = refl
bytes_from-drop (suc o) n [] = bytes_from-nil 0 n ∙ sym (bytes_from-nil (suc o) n)
bytes_from-drop (suc o) n (x ∷ xs) = bytes_from-drop o n xs ∙ sym (bytes_from-shifted o n x xs)

pub mem_read-bytes_from : (o n : ℕ) (xs : List ℕ) → mem_read o n xs ≡ bytes_from o n xs
unfolding mem_read ljust
mem_read-bytes_from o n xs = bytes_from-padded n (drop o xs) ∙ bytes_from-drop o n xs

-- Two memories with the same bytes in a range read the same.
pub bytes_from_agree :
    (o n : ℕ) (xs ys : List ℕ)
    → ((i : ℕ) → o ≤ i → i < o + n → byte_at xs i ≡ byte_at ys i)
    → bytes_from o n xs ≡ bytes_from o n ys
unfolding bytes_from
bytes_from_agree o zero xs ys h = refl
bytes_from_agree o (suc n) xs ys h =
    cons_eq (h o (omega arith) (omega arith))
      (bytes_from_agree (suc o) n xs ys (λ i ge lt. h i (omega (arith, ge)) (omega (arith, lt))))

-- A memory that holds a payload reads it back.
pub bytes_from_holds :
    (o : ℕ) (p xs : List ℕ)
    → ((i : ℕ) → i < length p → byte_at xs (o + i) ≡ byte_at p i)
    → bytes_from o (length p) xs ≡ p
unfolding bytes_from
bytes_from_holds o [] xs h = refl
bytes_from_holds o (x ∷ p) xs h =
    let e : o ≡ o + 0 = omega arith in
    cons_eq (ap (byte_at xs) e ∙ h 0 (omega arith)) (
      bytes_from_holds (suc o) p xs (λ i lt.
        let f : suc o + i ≡ o + suc i = omega arith in
        ap (byte_at xs) f ∙ h (suc i) (omega (arith, lt))))

length-bytes_from : (o n : ℕ) (xs : List ℕ) → length (bytes_from o n xs) ≡ n
unfolding bytes_from
length-bytes_from o zero xs = refl
length-bytes_from o (suc n) xs = omega (arith, length-bytes_from (suc o) n xs)

pub length-mem_read : (o n : ℕ) (xs : List ℕ) → length (mem_read o n xs) ≡ n
length-mem_read o n xs = ap (λ l. length l) (mem_read-bytes_from o n xs) ∙ length-bytes_from o n xs

byte_at-bytes_from :
    (o n i : ℕ) (xs : List ℕ) → i < n → byte_at (bytes_from o n xs) i ≡ byte_at xs (o + i)
unfolding bytes_from
byte_at-bytes_from o zero i xs h = absurd (omega arith)
byte_at-bytes_from o (suc n) zero xs h = let e : o ≡ o + 0 = omega arith in ap (byte_at xs) e
byte_at-bytes_from o (suc n) (suc i) xs h =
    let e : suc o + i ≡ o + suc i = omega arith in
    byte_at-bytes_from (suc o) n i xs (omega arith) ∙ ap (byte_at xs) e

pub byte_at-mem_read :
    (o n i : ℕ) (xs : List ℕ) → i < n → byte_at (mem_read o n xs) i ≡ byte_at xs (o + i)
byte_at-mem_read o n i xs lt =
    ap (λ l. byte_at l i) (mem_read-bytes_from o n xs) ∙ byte_at-bytes_from o n i xs lt
