-- ===== src/Memory/Laws.antt =====
-- The memory operations of evm/machine.py by the bytes at the addresses of a frame.
use evm_sail.Base.{
  ℕ, zero, suc, ◌+◌, ◌-◌, ◌≤◌, ◌<◌, ◌≡◌, ◌≢◌, ◌⊎◌, refl, sym, ap, ◌∙◌, List, length, leb, ltb, ◌&&◌,
  if◌then◌else◌, replicate, arith, Bool-cases, inl, inr, if_true, if_false, ==-ne, ok, ◌>>=◌,
}
use evm_sail.Word.{IsWord}
use evm_sail.Gas.{memory_limit, memory_absolute}
use evm_sail.Rlp.Slices.{from_bytes, to_bytes}
use evm_sail.Rlp.BigEndian.{word_bytes-to_bytes, length-to_bytes, from_bytes-to_bytes}
use evm_sail.Rlp.Sublists.{length-replicate}
use evm_sail.Memory.Bytes.{
  mem_assign, mem_read, mem_expand, mem_move, mem_load_word, mem_store_word,
}
use evm_sail.Memory.Frame.{expand_memory, mem_load, mem_store, mem_mcopy}
use evm_sail.Memory.Reads.{
  byte_at, byte_at-mem_assign, bytes_from, mem_read-bytes_from, bytes_from_agree, bytes_from_holds,
  length-mem_read, byte_at-mem_read,
}

memory_absolute-ok :
    (base off : ℕ) → off ≤ memory_limit - base → memory_absolute base off ≡ ok (base + off)
unfolding memory_absolute
memory_absolute-ok base off h = ground arith

-- An assignment changes no byte outside the range it is made to, and every byte in it.
outside_assign :
    (o : ℕ) (p xs : List ℕ) (i : ℕ)
    → (i < o) ⊎ (o + length p ≤ i)
    → byte_at (mem_assign o p xs) i ≡ byte_at xs i
outside_assign o p xs i h =
    byte_at-mem_assign o p xs i ∙ if_false (leb o i && ltb i (o + length p)) _ _ (ground (arith, h))

inside_assign :
    (o : ℕ) (p xs : List ℕ) (i : ℕ)
    → i < length p
    → byte_at (mem_assign o p xs) (o + i) ≡ byte_at p i
inside_assign o p xs i lt =
    let e : o + i - o ≡ i = omega arith in
    byte_at-mem_assign o p xs (o + i)
    ∙ if_true (leb o (o + i) && ltb (o + i) (o + length p)) _ _ (ground (arith, lt))
    ∙ ap (byte_at p) e

mem_store_word-assign :
    (o w : ℕ) (xs : List ℕ) → IsWord w → mem_store_word o w xs ≡ mem_assign o (to_bytes 32 w) xs
unfolding mem_store_word
mem_store_word-assign o w xs word =
    ap (λ p. mem_assign o p xs) (word_bytes-to_bytes w 32 word (omega arith) (omega arith))

mem_load_word-bytes : (o : ℕ) (xs : List ℕ) → mem_load_word o xs ≡ from_bytes (bytes_from o 32 xs)
unfolding mem_load_word
mem_load_word-bytes o xs = ap from_bytes (mem_read-bytes_from o 32 xs)

stored_word : (o w : ℕ) (xs : List ℕ) → IsWord w → mem_load_word o (mem_store_word o w xs) ≡ w
stored_word o w xs word =
    let p = to_bytes 32 w in
    let n = length-to_bytes 32 w in
    ap (mem_load_word o) (mem_store_word-assign o w xs word)
    ∙ mem_load_word-bytes o (mem_assign o p xs)
    ∙ ap (λ (k : ℕ). from_bytes (bytes_from o k (mem_assign o p xs))) (sym n)
    ∙ ap from_bytes (bytes_from_holds o p (mem_assign o p xs) (inside_assign o p xs))
    ∙ from_bytes-to_bytes 32 w
    ∙ omega (arith, word)

other_word :
    (o a w : ℕ) (xs : List ℕ)
    → IsWord w
    → (a + 32 ≤ o) ⊎ (o + 32 ≤ a)
    → mem_load_word a (mem_store_word o w xs) ≡ mem_load_word a xs
other_word o a w xs word far =
    let p = to_bytes 32 w in
    let n = length-to_bytes 32 w in
    ap (mem_load_word a) (mem_store_word-assign o w xs word)
    ∙ mem_load_word-bytes a (mem_assign o p xs)
    ∙ ap from_bytes (
        bytes_from_agree a 32 (mem_assign o p xs) xs (λ i ge lt. outside_assign o p xs i (elim far [
          | inl l ↦ inl (omega (arith, ge, lt, l))
          | inr r ↦ inr (omega (arith, ge, lt, r, n))
        ])))
    ∙ sym (mem_load_word-bytes a xs)

mem_store-ok :
    (base off w : ℕ) (memory : List ℕ)
    → off ≤ memory_limit - base
    → mem_store base off w memory ≡ ok (mem_store_word (base + off) w memory)
unfolding mem_store
mem_store-ok base off w memory h = rw (memory_absolute-ok base off h) refl

mem_load-ok :
    (base off : ℕ) (memory : List ℕ)
    → off ≤ memory_limit - base
    → mem_load base off memory ≡ ok (mem_load_word (base + off) memory)
unfolding mem_load
mem_load-ok base off memory h = rw (memory_absolute-ok base off h) refl

-- A word that is stored at an offset of a frame that can be addressed is loaded from there, and a
-- load from any other offset that can be addressed and does not overlap it is as before.
pub mem_store-mem_load :
    (base off other w : ℕ) (memory : List ℕ)
    → IsWord w
    → off ≤ memory_limit - base
    → other ≤ memory_limit - base
    → (other + 32 ≤ off) ⊎ (off + 32 ≤ other)
    → (next : List ℕ) × (mem_store base off w memory ≡ ok next)
      × (mem_load base off next ≡ ok w)
      × (mem_load base other next ≡ mem_load base other memory)
mem_store-mem_load base off other w memory word h g far =
    let next = mem_store_word (base + off) w memory in
    (
      next,
      mem_store-ok base off w memory h,
      mem_load-ok base off next h ∙ ap ok (stored_word (base + off) w memory word),
      mem_load-ok base other next g
          ∙ ap ok (
              other_word (base + off) (base + other) w memory word
                (elim far [ inl l ↦ inl (omega (arith, l)) | inr r ↦ inr (omega (arith, r)) ]))
          ∙ sym (mem_load-ok base other memory g),
    )

mem_mcopy-ok :
    (base dst src n : ℕ) (memory : List ℕ)
    → n ≢ 0
    → dst ≤ memory_limit - base
    → src ≤ memory_limit - base
    → mem_mcopy base dst src n memory
      ≡ ok (mem_assign (base + dst) (mem_read (base + src) n memory) memory)
unfolding mem_mcopy mem_move
mem_mcopy-ok base dst src n memory ne h g =
    rw (==-ne n 0 ne, memory_absolute-ok base dst h, memory_absolute-ok base src g) refl

-- A copy of at least one byte between offsets that can be addressed puts at each byte of the
-- destination the byte that the source had before the copy, also where the two overlap, and
-- changes no byte outside the destination.
pub mem_mcopy-byte_at :
    (base dst src n : ℕ) (memory : List ℕ)
    → n ≢ 0
    → dst ≤ memory_limit - base
    → src ≤ memory_limit - base
    → (next : List ℕ) × (mem_mcopy base dst src n memory ≡ ok next)
      × ((i : ℕ)
          → byte_at next i ≡ (
              if leb (base + dst) i && ltb i (base + dst + n)
              then byte_at memory (base + src + (i - (base + dst)))
              else byte_at memory i))
mem_mcopy-byte_at base dst src n memory ne h g =
    let o = base + dst in
    let p = mem_read (base + src) n memory in
    let l = length-mem_read (base + src) n memory in
    (
      mem_assign o p memory,
      mem_mcopy-ok base dst src n memory ne h g,
      λ i.
          byte_at-mem_assign o p memory i
          ∙ ap (λ (k : ℕ). if leb o i && ltb i (o + k) then byte_at p (i - o) else byte_at memory i)
              l
          ∙ elim (Bool-cases (leb o i && ltb i (o + n))) [
            | inl e ↦
                if_true (leb o i && ltb i (o + n)) _ _ e
                ∙ byte_at-mem_read (base + src) n (i - o) memory (ground (arith, e))
                ∙ sym (if_true (leb o i && ltb i (o + n)) _ _ e)
            | inr e ↦
                if_false (leb o i && ltb i (o + n)) _ _ e
                ∙ sym (if_false (leb o i && ltb i (o + n)) _ _ e)
          ],
    )

byte_at-replicate : (n i : ℕ) → byte_at (replicate n 0) i ≡ 0
byte_at-replicate zero i = refl
byte_at-replicate (suc n) zero = refl
byte_at-replicate (suc n) (suc i) = byte_at-replicate n i

mem_expand-ok :
    (base height requested : ℕ) (memory : List ℕ)
    → height < requested
    → mem_expand base height requested memory
      ≡ ok (mem_assign (base + height) (replicate (base + requested - (base + height)) 0) memory)
unfolding mem_expand
mem_expand-ok base height requested memory lt =
    if_false (leb (base + requested) (base + height)) _ _ (ground (arith, lt))

expand_memory-grown :
    (base height requested : ℕ) (memory : List ℕ)
    → requested ≤ memory_limit - base
    → height < requested
    → expand_memory base height requested memory
      ≡ ok (
        requested,
        mem_assign (base + height) (replicate (base + requested - (base + height)) 0) memory,
      )
unfolding expand_memory
expand_memory-grown base height requested memory le lt =
    if_true (leb requested (memory_limit - base)) _ _ (ground (arith, le))
    ∙ if_true (ltb height requested) _ _ (ground (arith, lt))
    ∙ ap (λ r. r >>= λ grown. ok (requested, grown)) (mem_expand-ok base height requested memory lt)

expand_memory-kept :
    (base height requested : ℕ) (memory : List ℕ)
    → requested ≤ memory_limit - base
    → requested ≤ height
    → expand_memory base height requested memory ≡ ok (height, memory)
unfolding expand_memory
expand_memory-kept base height requested memory le ge =
    if_true (leb requested (memory_limit - base)) _ _ (ground (arith, le))
    ∙ if_false (ltb height requested) _ _ (ground (arith, ge))

-- Growing the memory of a frame to a height that can be addressed gives the larger of the two
-- heights; the bytes between the heights read as zero, whatever an earlier frame left there, and
-- no other byte changes.
pub expand_memory-byte_at :
    (base height requested : ℕ) (memory : List ℕ)
    → requested ≤ memory_limit - base
    → (next : List ℕ) × (expand_memory base height requested memory
        ≡ ok (if ltb height requested then requested else height, next))
      × ((i : ℕ)
          → byte_at next i
            ≡ (if leb (base + height) i && ltb i (base + requested) then 0 else byte_at memory i))
expand_memory-byte_at base height requested memory le = elim (Bool-cases (ltb height requested)) [
  | inr e ↦ (
    memory,
    expand_memory-kept base height requested memory le (ground (arith, e))
        ∙ ap (λ (h : ℕ). ok (h, memory)) (sym (if_false (ltb height requested) _ _ e)),
    λ i. sym (if_false (leb (base + height) i && ltb i (base + requested)) _ _ (ground (arith, e))),
  )
  | inl e ↦
      let o = base + height in
      let zeros : List ℕ = replicate (base + requested - o) 0 in
      let n : o + length zeros ≡ base + requested =
        ground (arith, e, length-replicate {A = ℕ} (base + requested - o) 0) in
      (
        mem_assign o zeros memory,
        expand_memory-grown base height requested memory le (ground (arith, e))
            ∙ ap (λ (h : ℕ). ok (h, mem_assign o zeros memory))
                (sym (if_true (ltb height requested) _ _ e)),
        λ i.
            byte_at-mem_assign o zeros memory i
            ∙ ap (λ (k : ℕ). if leb o i && ltb i k then byte_at zeros (i - o) else byte_at memory i)
                n
            ∙ ap (λ (b : ℕ). if leb o i && ltb i (base + requested) then b else byte_at memory i)
                (byte_at-replicate (base + requested - o) (i - o)),
      )
]
