-- ===== src/Execute/Frames.antt =====
-- A nested frame on the operand stack: `operand_stack_push_empty_frame`, the instructions of the
-- child, and `operand_stack_pop_frame`.
use evm_sail.Base.{
  ℕ, zero, suc, ◌+◌, ◌-◌, ◌≤◌, ◌<◌, ◌≡◌, refl, ap, ◌∙◌, List, [], ◌∷◌, length, get_or, take, arith,
  ok,
}
use evm_sail.Stack.Slots.{
  Stack, newest, stack_base, pop_base, operand_stack_pop_frame, operand_stack_push_empty_frame_host,
}
use evm_sail.Stack.Pointer.{StackPointer, operand_stack_push_empty_frame}
use evm_sail.Stack.Holds.{Holds, KeepsBelow}
use evm_sail.Execute.Guard.{Step}
use evm_sail.Execute.Program.{Instruction, run, AllDecoded}
use evm_sail.Execute.Spec.{result_of_all}
use evm_sail.Execute.Steps.{run-Refines}

get_or-take : (n : ℕ) (xs : List ℕ) (j : ℕ) → j < n → get_or (take n xs) j 0 ≡ get_or xs j 0
get_or-take zero xs j h = absurd (omega arith)
get_or-take (suc n) [] j h = refl
get_or-take (suc n) (x ∷ xs) zero h = refl
get_or-take (suc n) (x ∷ xs) (suc j) h = get_or-take n xs j (omega arith)

length-take : (n : ℕ) (xs : List ℕ) → n ≤ length xs → length (take n xs) ≡ n
length-take zero xs h = refl
length-take (suc n) [] h = absurd (omega arith)
length-take (suc n) (x ∷ xs) h = omega (arith, length-take n xs (omega arith))

pub child-Holds :
    (store : Stack)
    → Holds ((operand_stack_push_empty_frame store).0) ((operand_stack_push_empty_frame store).1) []
unfolding operand_stack_push_empty_frame operand_stack_push_empty_frame_host
child-Holds store = record {
  storage = refl;
  height = refl;
  bound = omega arith;
  room = unfold stack_base newest in omega arith;
  word = λ i lt. absurd (omega arith);
}

pop_frame-ok :
    (store next : Stack)
    → KeepsBelow ((operand_stack_push_empty_frame store).0) next
    → operand_stack_pop_frame next
      ≡ ok (record {
        operand_stack = take (length store.operand_stack) next.operand_stack;
        operand_stack_frames = store.operand_stack_frames;
      })
unfolding operand_stack_pop_frame operand_stack_push_empty_frame operand_stack_push_empty_frame_host
pop_frame-ok store next kept =
    ap (pop_base next.operand_stack) kept.frames ∙ (unfold pop_base in refl)

popped-Holds :
    (store next : Stack) (sp : StackPointer) (ws : List ℕ)
    → Holds store sp ws
    → KeepsBelow ((operand_stack_push_empty_frame store).0) next
    → Holds
        (record {
          operand_stack = take (length store.operand_stack) next.operand_stack;
          operand_stack_frames = store.operand_stack_frames;
        })
        sp
        ws
unfolding stack_base newest operand_stack_push_empty_frame operand_stack_push_empty_frame_host
popped-Holds store next sp ws h kept =
    let n = length store.operand_stack in
    record {
      storage = h.storage;
      height = h.height;
      bound = h.bound;
      room = omega (arith, h.room, length-take n next.operand_stack kept.length_kept);
      word = λ i lt.
          get_or-take n next.operand_stack (stack_base store + length ws - 1 - i)
            (omega (arith, h.room))
          ∙ kept.below (stack_base store + length ws - 1 - i) (omega (arith, h.room))
          ∙ h.word i lt;
    }

-- A child frame that is pushed onto a valid stack starts with no words, runs its instructions as
-- on a list of its own without raising, and when its frame is popped the parent has exactly the
-- words it had, under the pointer it had, and the frame bases below are as before.
pub child_frame-Refines :
    (is : List Instruction) (gas : ℕ) (ws : List ℕ) (store : Stack) (sp : StackPointer)
    → AllDecoded is
    → Holds store sp ws
    → (step : Step) × (run is gas
          ((operand_stack_push_empty_frame store).1)
          ((operand_stack_push_empty_frame store).0)
        ≡ ok step)
      × (step.gas ≡ (result_of_all is gas []).gas)
      × (step.outcome ≡ (result_of_all is gas []).outcome)
      × Holds step.store step.sp ((result_of_all is gas []).words)
      × ((parent : Stack) × (operand_stack_pop_frame step.store ≡ ok parent)
          × Holds parent sp ws
          × (parent.operand_stack_frames ≡ store.operand_stack_frames))
child_frame-Refines is gas ws store sp d h =
    let (child, csp) = operand_stack_push_empty_frame store in
    let (step, e, g, o, held, kept) = run-Refines is gas [] child csp d (child-Holds store) in
    (
      step,
      e,
      g,
      o,
      held,
      (_, pop_frame-ok store step.store kept, popped-Holds store step.store sp ws h kept, refl),
    )
