-- ===== src/Execute/Refines.antt =====
-- The instruction bodies against the lists of Execute/Spec.
use evm_sail.Base.{
  ℕ, ◌+◌, ◌-◌, ◌≤◌, ◌<◌, ◌≡◌, refl, ◌∙◌, List, [], ◌∷◌, length, get_or, set, drop, arith, Outcome,
  ok, Bool-cases, inl, inr, ltb, if◌then◌else◌, if_true, if_false, true, false,
}
use evm_sail.Stack.Slots.{Stack}
use evm_sail.Stack.Pointer.{
  StackPointer, stack_limit, validate_stack, read_stack_word, write_stack_word, stack_set,
}
use evm_sail.Stack.Holds.{
  Holds, KeepsBelow, KeepsBelow-refl, KeepsBelow-trans, stack_slot_read-Holds,
  stack_slot_write-Holds, stack_top_retreat-Holds, push-Holds,
}
use evm_sail.Stack.WriteAt.{length-set}
use evm_sail.Execute.Guard.{
  Step, Body, continue, failed, ExceptionKind, stack_underflow, stack_overflow, out_of_gas, failing,
  guard_stack, guarded, charged, unary, binary, ternary, popped, pushed, duplicated, swapped,
}
use evm_sail.Execute.Spec.{
  Result, guarded_words, unary_words, binary_words, ternary_words, swapped_words,
}

-- The body takes words to words, and leaves the frames below.
abbrev pub Computes : Body → (List ℕ → List ℕ) → List ℕ → Type 0
Computes body f ws =
    (store : Stack) (sp : StackPointer)
    → Holds store sp ws
    → (done : StackPointer × Stack) × (body sp store ≡ ok done)
      × Holds (done.1) (done.0) (f ws)
      × KeepsBelow store (done.1)

-- The outcome of an instruction is the result, on a store that has its words and the same frames
-- below.
abbrev pub Refines : Outcome Step → Result → Stack → Type 0
Refines r result store =
    (step : Step) × (r ≡ ok step)
    × (step.gas ≡ result.gas)
    × (step.outcome ≡ result.outcome)
    × Holds step.store step.sp result.words
    × KeepsBelow store step.store

pub guard_stack-value :
    (sp : StackPointer) (n inputs outputs : ℕ)
    → sp.height ≡ n
    → guard_stack sp inputs outputs ≡ (
        if ltb n inputs
        then failed stack_underflow
        else if ltb stack_limit (n - inputs + outputs)
        then failed stack_overflow
        else continue)
unfolding guard_stack validate_stack
guard_stack-value sp n inputs outputs e = elim (Bool-cases (ltb n inputs)) [
  | inl a ↦ rw (e, a) refl
  | inr a ↦ elim (Bool-cases (ltb stack_limit (n - inputs + outputs))) [
    | inl b ↦ rw (e, a, b) refl
    | inr b ↦ rw (e, a, b) refl
  ]
]

guarded-failed :
    (inputs outputs cost : ℕ) (body : Body) (gas : ℕ) (sp : StackPointer) (store : Stack)
    (kind : ExceptionKind)
    → guard_stack sp inputs outputs ≡ failed kind
    → guarded inputs outputs cost body gas sp store ≡ failing sp kind store
unfolding guarded
guarded-failed inputs outputs cost body gas sp store kind e = rw (e, guarded) refl

guarded-charged :
    (inputs outputs cost : ℕ) (body : Body) (gas : ℕ) (sp : StackPointer) (store : Stack)
    → guard_stack sp inputs outputs ≡ continue
    → guarded inputs outputs cost body gas sp store ≡ charged cost body gas sp store
unfolding guarded
guarded-charged inputs outputs cost body gas sp store e = rw (e, guarded) refl

charged-runs :
    (cost : ℕ) (body : Body) (gas : ℕ) (sp : StackPointer) (store : Stack)
    (done : StackPointer × Stack)
    → ltb gas cost ≡ false
    → body sp store ≡ ok done
    → charged cost body gas sp store
      ≡ ok (record { gas = gas - cost; sp = done.0; outcome = continue; store = done.1 })
unfolding charged
charged-runs cost body gas sp store done c e = rw (c, e) refl

charged-short :
    (cost : ℕ) (body : Body) (gas : ℕ) (sp : StackPointer) (store : Stack)
    → ltb gas cost ≡ true
    → charged cost body gas sp store ≡ failing sp out_of_gas store
unfolding charged
charged-short cost body gas sp store c = rw c refl

pub guarded-Refines :
    (inputs outputs cost : ℕ) (body : Body) (f : List ℕ → List ℕ) (gas : ℕ) (ws : List ℕ)
    → (inputs ≤ length ws → length ws - inputs + outputs ≤ stack_limit → Computes body f ws)
    → (store : Stack) (sp : StackPointer) → Holds store sp ws
    → Refines
        (guarded inputs outputs cost body gas sp store)
        (guarded_words inputs outputs cost f gas ws)
        store
unfolding guarded_words
guarded-Refines inputs outputs cost body f gas ws computes store sp h =
    let g = guard_stack-value sp (length ws) inputs outputs h.height in
    elim (Bool-cases (ltb (length ws) inputs)) [
      | inl a ↦
          let v =
            guarded-failed inputs outputs cost body gas sp store stack_underflow
              (g ∙ if_true _ _ _ a) in
          rw a (_, v, refl, refl, h, KeepsBelow-refl store)
      | inr a ↦ elim (Bool-cases (ltb stack_limit (length ws - inputs + outputs))) [
        | inl b ↦
            let v =
              guarded-failed inputs outputs cost body gas sp store stack_overflow
                (g ∙ if_false _ _ _ a ∙ if_true _ _ _ b) in
            rw (a, b) (_, v, refl, refl, h, KeepsBelow-refl store)
        | inr b ↦
            let v =
              guarded-charged inputs outputs cost body gas sp store
                (g ∙ if_false _ _ _ a ∙ if_false _ _ _ b) in
            elim (Bool-cases (ltb gas cost)) [
              | inl c ↦
                  let w = v ∙ charged-short cost body gas sp store c in
                  rw (a, b, c) (_, w, refl, refl, h, KeepsBelow-refl store)
              | inr c ↦
                  let (done, e, held, kept) = computes (ground arith) (ground arith) store sp h in
                  rw (a, b, c)
                    (_, v ∙ charged-runs cost body gas sp store done c e, refl, refl, held, kept)
            ]
      ]
    ]

pub unary-Computes :
    (f : ℕ → ℕ) (ws : List ℕ) → 1 ≤ length ws → Computes (unary f) (unary_words f) ws
unfolding unary unary_words read_stack_word write_stack_word
unary-Computes f [] le store sp h = absurd (omega arith)
unary-Computes f (a ∷ ws) le store sp h =
    let (next, e, held, kept) = stack_slot_write-Holds store sp (a ∷ ws) 0 (f a) h (omega arith) in
    ((sp, next), rw (stack_slot_read-Holds store sp (a ∷ ws) 0 h (omega arith), e) refl, held, kept)

pub binary-Computes :
    (f : ℕ → ℕ → ℕ) (ws : List ℕ) → 2 ≤ length ws → Computes (binary f) (binary_words f) ws
unfolding binary binary_words read_stack_word write_stack_word
binary-Computes f [] le store sp h = absurd (omega arith)
binary-Computes f (a ∷ []) le store sp h = absurd (omega arith)
binary-Computes f (a ∷ b ∷ ws) le store sp h =
    let (top, r, h1) = stack_top_retreat-Holds store sp a (b ∷ ws) h in
    let (next, e, held, kept) =
      stack_slot_write-Holds store top (b ∷ ws) 0 (f a b) h1 (omega arith) in
    (
      (top, next),
      rw
          (
            stack_slot_read-Holds store sp (a ∷ b ∷ ws) 0 h (omega arith),
            r,
            stack_slot_read-Holds store top (b ∷ ws) 0 h1 (omega arith),
            e,
          )
          refl,
      held,
      kept,
    )

pub ternary-Computes :
    (f : ℕ → ℕ → ℕ → ℕ) (ws : List ℕ) → 3 ≤ length ws → Computes (ternary f) (ternary_words f) ws
unfolding ternary ternary_words read_stack_word write_stack_word
ternary-Computes f [] le store sp h = absurd (omega arith)
ternary-Computes f (a ∷ []) le store sp h = absurd (omega arith)
ternary-Computes f (a ∷ b ∷ []) le store sp h = absurd (omega arith)
ternary-Computes f (a ∷ b ∷ n ∷ ws) le store sp h =
    let (mid, r1, h1) = stack_top_retreat-Holds store sp a (b ∷ n ∷ ws) h in
    let (top, r2, h2) = stack_top_retreat-Holds store mid b (n ∷ ws) h1 in
    let (next, e, held, kept) =
      stack_slot_write-Holds store top (n ∷ ws) 0 (f a b n) h2 (omega arith) in
    (
      (top, next),
      rw
          (
            stack_slot_read-Holds store sp (a ∷ b ∷ n ∷ ws) 0 h (omega arith),
            r1,
            stack_slot_read-Holds store mid (b ∷ n ∷ ws) 0 h1 (omega arith),
            r2,
            stack_slot_read-Holds store top (n ∷ ws) 0 h2 (omega arith),
            e,
          )
          refl,
      held,
      kept,
    )

pub popped-Computes : (ws : List ℕ) → 1 ≤ length ws → Computes popped (drop 1) ws
unfolding popped read_stack_word
popped-Computes [] le store sp h = absurd (omega arith)
popped-Computes (a ∷ ws) le store sp h =
    let (top, r, h1) = stack_top_retreat-Holds store sp a ws h in
    (
      (top, store),
      rw (stack_slot_read-Holds store sp (a ∷ ws) 0 h (omega arith), r) refl,
      h1,
      KeepsBelow-refl store,
    )

pub pushed-Computes :
    (v : ℕ) (ws : List ℕ) → length ws < stack_limit → Computes (pushed v) (λ l. v ∷ l) ws
unfolding pushed write_stack_word
pushed-Computes v ws lt store sp h =
    let (top, next, r, e, held, kept) = push-Holds store sp ws v h lt in
    ((top, next), rw (r, e) refl, held, kept)

pub duplicated-Computes :
    (n : ℕ) (ws : List ℕ)
    → 1 ≤ n
    → n ≤ length ws
    → length ws < stack_limit
    → Computes (duplicated n) (λ l. get_or l (n - 1) 0 ∷ l) ws
unfolding duplicated write_stack_word
duplicated-Computes n ws ge le lt store sp h =
    let (top, next, r, e, held, kept) = push-Holds store sp ws (get_or ws (n - 1) 0) h lt in
    (
      (top, next),
      rw (stack_slot_read-Holds store sp ws (n - 1) h (omega arith), r, e) refl,
      held,
      kept,
    )

pub swapped-Computes :
    (n : ℕ) (ws : List ℕ) → n < length ws → Computes (swapped n) (swapped_words n) ws
unfolding swapped swapped_words read_stack_word stack_set
swapped-Computes n ws lt store sp h =
    let (next1, e1, h1, k1) =
      stack_slot_write-Holds store sp ws 0 (get_or ws n 0) h (omega arith) in
    let (next, e2, h2, k2) =
      stack_slot_write-Holds next1 sp (set ws 0 (get_or ws n 0)) n (get_or ws 0 0) h1
        (omega (arith, length-set ws 0 (get_or ws n 0))) in
    (
      (sp, next),
      rw
          (
            stack_slot_read-Holds store sp ws 0 h (omega arith),
            stack_slot_read-Holds store sp ws n h lt,
            e1,
            e2,
          )
          refl,
      h2,
      KeepsBelow-trans store next1 next k1 k2,
    )
