-- ===== src/Stack/Holds.antt =====
-- The words of the running frame, the topmost first, against the store and the pointer.
use evm_sail.Base.{
  ℕ, zero, suc, ◌+◌, ◌-◌, ◌≤◌, ◌<◌, ◌≡◌, ◌≢◌, inl, inr, refl, sym, ap, ◌∙◌, List, ◌∷◌, length,
  get_or, set, arith, ok, Bool-cases, ◌==◌, ==_iff, ◌^◌, ◌%◌, lt→leb, le→leb,
}
use evm_sail.Stack.Slots.{
  Stack, stack_base, write_at, stack_slot_read_host, stack_slot_write_host, stack_top_advance_host,
  stack_top_retreat_host,
}
use evm_sail.Stack.Pointer.{
  StackPointer, stack_limit, stack_slot_read, stack_slot_write, stack_top_advance,
  stack_top_retreat, pointer_at,
}
use evm_sail.Stack.WriteAt.{write_at_lem, get_or-set, get_or-set_other, length-set}

pub record Holds (store : Stack) (sp : StackPointer) (ws : List ℕ) : Type 0 where
  pub storage : sp.storage ≡ length ws
  pub height : sp.height ≡ length ws
  pub bound : length ws ≤ stack_limit
  pub room : stack_base store + length ws ≤ length store.operand_stack
  pub word :
      (i : ℕ)
      → i < length ws
      → get_or store.operand_stack (stack_base store + length ws - 1 - i) 0 ≡ get_or ws i 0

-- The frames below are left as they are.
pub record KeepsBelow (store next : Stack) : Type 0 where
  pub frames : next.operand_stack_frames ≡ store.operand_stack_frames
  pub base : stack_base next ≡ stack_base store
  pub below :
      (j : ℕ)
      → j < stack_base store
      → get_or next.operand_stack j 0 ≡ get_or store.operand_stack j 0
  pub length_kept : length store.operand_stack ≤ length next.operand_stack

pub KeepsBelow-refl : (store : Stack) → KeepsBelow store store
KeepsBelow-refl store = record {
  frames = refl;
  base = refl;
  below = λ j h. refl;
  length_kept = omega arith;
}

pub KeepsBelow-trans : (a b c : Stack) → KeepsBelow a b → KeepsBelow b c → KeepsBelow a c
KeepsBelow-trans a b c g h = record {
  frames = h.frames ∙ g.frames;
  base = h.base ∙ g.base;
  below = λ j lt. h.below j (omega (arith, g.base)) ∙ g.below j lt;
  length_kept = omega (arith, g.length_kept, h.length_kept);
}

pub stack_slot_read-Holds :
    (store : Stack) (sp : StackPointer) (ws : List ℕ) (i : ℕ)
    → Holds store sp ws
    → i < length ws
    → stack_slot_read sp i store ≡ ok (get_or ws i 0)
unfolding stack_slot_read stack_slot_read_host
stack_slot_read-Holds store sp ws i h lt =
    rw
      (
        h.storage,
        lt→leb (length ws) i lt,
        lt→leb (length store.operand_stack) (stack_base store + length ws - 1 - i)
            (omega (arith, h.room)),
        h.word i lt,
      )
      refl

-- The store with one word of the frame replaced.
abbrev replaced : Stack → ℕ → ℕ → Stack
replaced store p v = record store { operand_stack = write_at p v store.operand_stack }

stack_base-replaced : (store : Stack) (p v : ℕ) → stack_base (replaced store p v) ≡ stack_base store
unfolding stack_base
stack_base-replaced store p v = refl

replaced-KeepsBelow :
    (store : Stack) (p v : ℕ) → stack_base store ≤ p → KeepsBelow store (replaced store p v)
replaced-KeepsBelow store p v le =
    let (same, others, size, kept) = write_at_lem p v store.operand_stack in
    record {
      frames = refl;
      base = stack_base-replaced store p v;
      below = λ j lt. others j (omega arith);
      length_kept = kept;
    }

-- The word at `i` after the word at `k` is set, read in the store.
replaced_word :
    (store : Stack) (ws : List ℕ) (b k v i : ℕ)
    → ((j : ℕ)
        → j < length ws
        → get_or store.operand_stack (b + length ws - 1 - j) 0 ≡ get_or ws j 0)
    → k < length ws
    → i < length ws
    → get_or (write_at (b + length ws - 1 - k) v store.operand_stack) (b + length ws - 1 - i) 0
      ≡ get_or (set ws k v) i 0
replaced_word store ws b k v i h lt_k lt_i =
    let (same, others, size, kept) = write_at_lem (b + length ws - 1 - k) v store.operand_stack in
    elim (Bool-cases (i == k)) [
      | inl e ↦ let d : i ≡ k = (==_iff i k).0 e in rw d (same ∙ sym (get_or-set ws k v lt_k))
      | inr e ↦
          let ne : i ≢ k = λ d. absurd (ground arith) in
          others (b + length ws - 1 - i) (λ d. ne (omega (arith, d)))
          ∙ h i lt_i
          ∙ sym (get_or-set_other ws k i v ne)
    ]

pub stack_slot_write-Holds :
    (store : Stack) (sp : StackPointer) (ws : List ℕ) (i v : ℕ)
    → Holds store sp ws
    → i < length ws
    → (next : Stack) × (stack_slot_write sp i v store ≡ ok next)
      × Holds next sp (set ws i v)
      × KeepsBelow store next
stack_slot_write-Holds store sp ws i v h lt =
    let p = stack_base store + length ws - 1 - i in
    let n = length-set ws i v in
    let (same, others, size, kept) = write_at_lem p v store.operand_stack in
    let base = stack_base-replaced store p v in
    (
      replaced store p v,
      unfold stack_slot_write stack_slot_write_host in rw (h.storage, lt→leb (length ws) i lt) refl,
      record {
        storage = h.storage ∙ sym n;
        height = h.height ∙ sym n;
        bound = omega (arith, h.bound, n);
        room = omega (arith, h.room, n, base, kept);
        word = λ j lt_j.
            rw (n, base)
              (replaced_word store ws (stack_base store) i v j h.word lt (omega (arith, n)));
      },
      replaced-KeepsBelow store p v (omega arith),
    )

pub stack_top_retreat-Holds :
    (store : Stack) (sp : StackPointer) (w : ℕ) (ws : List ℕ)
    → Holds store sp (w ∷ ws)
    → (next : StackPointer) × (stack_top_retreat sp 1 ≡ ok next) × Holds store next ws
stack_top_retreat-Holds store sp w ws h =
    let n = length ws in
    let e : (suc n + 2 ^ 64 - 1 % 2 ^ 64) % 2 ^ 64 ≡ n = omega (arith, h.bound) in
    (
      record { storage = n; height = n },
      unfold stack_top_retreat stack_top_retreat_host pointer_at in
          rw (h.storage, e, le→leb n stack_limit (omega (arith, h.bound))) refl,
      record {
        storage = refl;
        height = refl;
        bound = omega (arith, h.bound);
        room = omega (arith, h.room);
        word = λ i lt.
            ap (λ (k : ℕ). get_or store.operand_stack k 0) (omega arith)
            ∙ h.word (suc i) (omega arith);
      },
    )

-- The words after a write one above them.
pushed_word :
    (store : Stack) (ws : List ℕ) (b v i : ℕ)
    → ((j : ℕ)
        → j < length ws
        → get_or store.operand_stack (b + length ws - 1 - j) 0 ≡ get_or ws j 0)
    → i < suc (length ws)
    → get_or
        (write_at (b + suc (length ws) - 1 - 0) v store.operand_stack)
        (b + suc (length ws) - 1 - i)
        0
      ≡ get_or (v ∷ ws) i 0
pushed_word store ws b v zero h lt =
    (write_at_lem (b + suc (length ws) - 1 - 0) v store.operand_stack).0
pushed_word store ws b v (suc i) h lt =
    let (same, others, size, kept) =
      write_at_lem (b + suc (length ws) - 1 - 0) v store.operand_stack in
    others (b + suc (length ws) - 1 - suc i) (omega arith)
    ∙ ap (λ (k : ℕ). get_or store.operand_stack k 0) (omega arith)
    ∙ h i (omega arith)

-- A word is pushed: the pointer advances and the word is written at the top.
pub push-Holds :
    (store : Stack) (sp : StackPointer) (ws : List ℕ) (v : ℕ)
    → Holds store sp ws
    → length ws < stack_limit
    → (top : StackPointer) × (next : Stack) × (stack_top_advance sp 1 ≡ ok top)
      × (stack_slot_write top 0 v store ≡ ok next)
      × Holds next top (v ∷ ws)
      × KeepsBelow store next
push-Holds store sp ws v h lt =
    let n = length ws in
    let p = stack_base store + suc n - 1 - 0 in
    let e : (n + 1) % 2 ^ 64 ≡ suc n = omega (arith, lt) in
    let (same, others, size, kept) = write_at_lem p v store.operand_stack in
    let base = stack_base-replaced store p v in
    (
      record { storage = suc n; height = suc n },
      replaced store p v,
      unfold stack_top_advance stack_top_advance_host pointer_at in
          rw (h.storage, e, le→leb (suc n) stack_limit (omega (arith, lt))) refl,
      unfold stack_slot_write stack_slot_write_host in rw (lt→leb (suc n) 0 (omega arith)) refl,
      record {
        storage = refl;
        height = refl;
        bound = omega (arith, lt);
        room = omega (arith, base, size);
        word = λ i lt_i. rw base (pushed_word store ws (stack_base store) v i h.word lt_i);
      },
      replaced-KeepsBelow store p v (omega arith),
    )
