-- ===== src/Rlp/Appends.antt =====
-- What the pushes of kernel/scratch.py do to the bytes that are written, those below the arena's
-- end.
use mathlib.Core.List.{append_assoc, append-nil}
use evm_sail.Base.{
  ℕ, zero, suc, ◌+◌, ◌-◌, ◌≤◌, ◌≡◌, ◌≢◌, refl, sym, ap, ◌∙◌, List, [], ◌∷◌, ◌++◌, length, take,
  drop, replicate, arith, ltb, ◌==◌, Bool-cases, inl, inr, Outcome, ok, ◌>>=◌, length-append,
  le→leb, ==-ne,
}
use evm_sail.Word.{IsWord}
use evm_sail.Rlp.Slices.{Slice, region_limit, slice, slice_bytes, word_bytes, to_bytes}
use evm_sail.Rlp.Scratch.{
  Scratch, scratch_store, ensure_length, scratch_push_byte, scratch_push_slice,
  scratch_push_word_be, scratch_push_address,
}
use evm_sail.Rlp.Sublists.{length-replicate, length-take, take_append, take_beyond}
use evm_sail.Rlp.BigEndian.{word_bytes-to_bytes}

-- The arena starts at zero and ends within the region.
pub record IsScratch (s : Scratch) : Type 0 where
  pub arena_off : s.arena.off ≡ 0
  pub arena_end : s.arena.len ≤ length s.bytes
  pub arena_limit : s.arena.len ≤ region_limit

abbrev pub written : Scratch → List ℕ
written s = take s.arena.len s.bytes

-- The outcome is a state that has the payload after what `s` has.
abbrev pub Appends : Scratch → Outcome Scratch → List ℕ → Type 0
Appends s r payload =
    (next : Scratch) × (r ≡ ok next)
    × IsScratch next
    × (written next ≡ written s ++ payload)
    × (next.arena.len ≡ s.arena.len + length payload)

abbrev pub HasRoom : Scratch → List ℕ → Type 0
HasRoom s payload = s.arena.len + length payload ≤ region_limit

pub ensure_length-ge : (r : List ℕ) (n : ℕ) → n ≤ length (ensure_length r n)
unfolding ensure_length
ensure_length-ge r n = elim (Bool-cases (ltb (length r) n)) [
  | inl e ↦ rw e (
      omega (
        arith,
        length-append r (replicate (n - length r) 0),
        length-replicate {A = ℕ} (n - length r) 0,
      ))
  | inr e ↦ rw e (ground arith)
]

pub ensure_length-take :
    (r : List ℕ) (n a : ℕ) → a ≤ length r → take a (ensure_length r n) ≡ take a r
unfolding ensure_length
ensure_length-take r n a h = elim (Bool-cases (ltb (length r) n)) [
  | inl e ↦ rw e (take_append a r (replicate (n - length r) 0) h)
  | inr e ↦ rw e refl
]

-- The first `a` of a list, replaced from there on: its end, and what stands before it.
spliced :
    (r p t : List ℕ) (a : ℕ)
    → a ≤ length r
    → (a + length p ≤ length (take a r ++ p ++ t))
      × (take (a + length p) (take a r ++ p ++ t) ≡ take a r ++ p)
spliced r p t a h =
    let d : length (take a r ++ p) ≡ a + length p =
      omega (arith, length-append (take a r) p, length-take a r h) in
    (
      omega (arith, d, length-append (take a r ++ p) t),
      take_append (a + length p) (take a r ++ p) t (omega (arith, d))
          ∙ take_beyond (a + length p) (take a r ++ p) (omega (arith, d)),
    )

pub slice-ok :
    (off l : ℕ) → off + l ≤ region_limit → slice off l ≡ ok (record { off = off; len = l })
unfolding slice
slice-ok off l h = rw (le→leb (off + l) region_limit h) refl

pub scratch_store-Appends :
    (payload : List ℕ) (s : Scratch)
    → IsScratch s
    → HasRoom s payload
    → Appends s (scratch_store s.arena.len payload s) payload
unfolding scratch_store
scratch_store-Appends payload s h room =
    let stop = s.arena.len + length payload in
    let region = ensure_length s.bytes stop in
    let parts =
      spliced region payload (drop stop region) s.arena.len
        (omega (arith, ensure_length-ge s.bytes stop)) in
    (
      record {
        bytes = take s.arena.len region ++ payload ++ drop stop region;
        arena = record { off = 0; len = stop };
      },
      rw (slice-ok 0 stop (omega arith)) refl,
      record { arena_off = refl; arena_end = parts.0; arena_limit = room },
      parts.1 ∙ ap (λ l. l ++ payload) (ensure_length-take s.bytes stop s.arena.len h.arena_end),
      refl,
    )

pub Appends-then :
    (s : Scratch) (r : Outcome Scratch) (f : Scratch → Outcome Scratch) (p q : List ℕ)
    → Appends s r p
    → ((next : Scratch)
        → IsScratch next
        → next.arena.len ≡ s.arena.len + length p
        → written next ≡ written s ++ p
        → Appends next (f next) q)
    → Appends s (r >>= f) (p ++ q)
Appends-then s r f p q (next, e, valid, bytes, stop) step =
    let (last, e2, valid2, bytes2, stop2) = step next valid stop bytes in
    (
      last,
      rw e e2,
      valid2,
      bytes2 ∙ ap (λ l. l ++ q) bytes ∙ append_assoc (written s) p q,
      omega (arith, stop, stop2, length-append p q),
    )

pub Appends-nothing : (s : Scratch) → IsScratch s → Appends s (ok s) []
Appends-nothing s h = (s, refl, h, sym (append-nil (written s)), omega arith)

pub scratch_push_byte-Appends :
    (b : ℕ) (s : Scratch)
    → IsScratch s
    → HasRoom s (b ∷ [])
    → Appends s (scratch_push_byte b s) (b ∷ [])
unfolding scratch_push_byte
scratch_push_byte-Appends b s h room = scratch_store-Appends (b ∷ []) s h room

scratch_push_word_be-zero : (w : ℕ) (s : Scratch) → scratch_push_word_be w 0 s ≡ ok s
unfolding scratch_push_word_be
scratch_push_word_be-zero w s = refl

scratch_push_word_be-store :
    (w k : ℕ) (s : Scratch)
    → k ≢ 0
    → scratch_push_word_be w k s ≡ scratch_store s.arena.len (word_bytes w k) s
unfolding scratch_push_word_be
scratch_push_word_be-store w k s ne = rw (==-ne k 0 ne) refl

pub scratch_push_word_be-Appends :
    (w k : ℕ) (s : Scratch)
    → IsScratch s
    → IsWord w
    → k ≤ 32
    → HasRoom s (to_bytes k w)
    → Appends s (scratch_push_word_be w k s) (to_bytes k w)
scratch_push_word_be-Appends w zero s h word le room =
    rw (scratch_push_word_be-zero w s) (unfold to_bytes in Appends-nothing s h)
scratch_push_word_be-Appends w (suc k) s h word le room =
    rw
      (
        scratch_push_word_be-store w (suc k) s (omega arith),
        word_bytes-to_bytes w (suc k) word (omega arith) le,
      )
      (scratch_store-Appends (to_bytes (suc k) w) s h room)

pub slice_bytes-empty : (region : List ℕ) (d : Slice) → d.len ≡ 0 → slice_bytes region d ≡ []
unfolding slice_bytes
slice_bytes-empty region d e = rw e refl

pub scratch_push_slice-Appends :
    (region : List ℕ) (d : Slice) (s : Scratch)
    → IsScratch s
    → HasRoom s (slice_bytes region d)
    → Appends s (scratch_push_slice region d s) (slice_bytes region d)
unfolding scratch_push_slice
scratch_push_slice-Appends region d s h room = elim (Bool-cases (d.len == 0)) [
  | inl e ↦ rw (e, slice_bytes-empty region d (ground arith)) (Appends-nothing s h)
  | inr e ↦ rw e (scratch_store-Appends (slice_bytes region d) s h room)
]

pub scratch_push_address-Appends :
    (a : ℕ) (s : Scratch)
    → IsScratch s
    → HasRoom s (to_bytes 20 a)
    → Appends s (scratch_push_address a s) (to_bytes 20 a)
unfolding scratch_push_address
scratch_push_address-Appends a s h room = scratch_store-Appends (to_bytes 20 a) s h room

pub ensure_length-keeps : (r : List ℕ) (n : ℕ) → length r ≤ length (ensure_length r n)
unfolding ensure_length
ensure_length-keeps r n = elim (Bool-cases (ltb (length r) n)) [
  | inl e ↦ rw e (omega (arith, length-append r (replicate (n - length r) 0)))
  | inr e ↦ rw e (omega arith)
]
