-- ===== src/Code/Destinations.antt =====
-- The marks of `analyze_code` against the instruction boundaries of the code.
use evm_sail.Base.{
  ◌&&◌, ℕ, zero, suc, ◌+◌, ◌-◌, ◌≤◌, ◌<◌, ◌≡◌, ◌⊎◌, ◌↔◌, refl, sym, ap, ◌∙◌, Bool, true, false, ltb,
  leb, ◌==◌, ◌||◌, not, if◌then◌else◌, List, some, Outcome, ok, raised, inl, inr, Bool-cases,
  if_true, if_false, arith, ==_iff, ltb→lt, lt→ltb, ge→ltb,
}
use evm_sail.Rlp.Slices.{Slice, slice_byte}
use evm_sail.Profile.{amsterdam}
use evm_sail.Code.Analysis.{Tables, assigned, jumpdest_table_mark, marked, step_of, mark_at, scan}

-- The bytes behind an opcode that belong to its instruction: the operand of a PUSH, and from
-- Amsterdam on the operand of DUPN, SWAPN and EXCHANGE if it is one they admit.
abbrev pub operand_bytes : ℕ → ℕ → ℕ → ℕ
operand_bytes fork opcode operand =
    if leb 0x60 opcode && leb opcode 0x7f
    then opcode - 0x5f
    else if leb amsterdam fork
        && (((opcode == 0xe6) || (opcode == 0xe7)) && not (leb 91 operand && leb operand 127)
            || (opcode == 0xe8) && not (leb 82 operand && leb operand 127))
    then 1
    else 0

unfoldable pub instruction_length : List ℕ → Slice → ℕ → ℕ → ℕ
instruction_length region code fork p =
    1 + operand_bytes fork (slice_byte region code p) (slice_byte region code (p + 1))

-- The positions at which an instruction starts, from one of them on.
pub data IsBoundary (region : List ℕ) (code : Slice) (fork d : ℕ) : ℕ → Type 0 where
  here : IsBoundary region code fork d d
  after :
      (p : ℕ)
      → p < code.len
      → IsBoundary region code fork d (p + instruction_length region code fork p)
      → IsBoundary region code fork d p

-- A destination is a JUMPDEST that an instruction of the code starts with.
pub record IsDestination (region : List ℕ) (code : Slice) (fork p d : ℕ) : Type 0 where
  pub boundary : IsBoundary region code fork d p
  pub inside : d < code.len
  pub jumpdest : slice_byte region code d ≡ 0x5b

step_of-instruction_length :
    (region : List ℕ) (code : Slice) (fork p : ℕ)
    → step_of region code fork p ≡ instruction_length region code fork p
unfolding step_of instruction_length
step_of-instruction_length region code fork p = ground arith

step_of-positive : (region : List ℕ) (code : Slice) (fork p : ℕ) → 1 ≤ step_of region code fork p
unfolding step_of
step_of-positive region code fork p = ground arith

IsBoundary-le :
    (region : List ℕ) (code : Slice) (fork d p : ℕ) → IsBoundary region code fork d p → p ≤ d
IsBoundary-le region code fork d p here = omega arith
IsBoundary-le region code fork d p (after q lt b) =
    omega (arith, IsBoundary-le region code fork d (q + instruction_length region code fork q) b)

IsDestination-past :
    (region : List ℕ) (code : Slice) (fork p d : ℕ)
    → code.len ≤ p
    → IsDestination region code fork p d
    → ⊥
IsDestination-past region code fork p d le h =
    omega (arith, le, h.inside, IsBoundary-le region code fork d p h.boundary)

IsDestination-split :
    (region : List ℕ) (code : Slice) (fork p d : ℕ)
    → IsDestination region code fork p d
    → ((d ≡ p) × (slice_byte region code p ≡ 0x5b))
      ⊎ IsDestination region code fork (p + instruction_length region code fork p) d
IsDestination-split region code fork p d h = split p h.boundary h.inside h.jumpdest
  where
    split :
        (q : ℕ)
        → IsBoundary region code fork d q
        → d < code.len
        → slice_byte region code d ≡ 0x5b
        → ((d ≡ q) × (slice_byte region code q ≡ 0x5b))
          ⊎ IsDestination region code fork (q + instruction_length region code fork q) d
    split q here lt e = inl (refl, e)
    split q (after r x b) lt e = inr (record { boundary = b; inside = lt; jumpdest = e })

IsDestination-join :
    (region : List ℕ) (code : Slice) (fork p d : ℕ)
    → p < code.len
    → ((d ≡ p) × (slice_byte region code p ≡ 0x5b))
      ⊎ IsDestination region code fork (p + instruction_length region code fork p) d
    → IsDestination region code fork p d
IsDestination-join region code fork p d lt h = elim h [
  | inl (e, j) ↦ record {
    boundary = rw e here;
    inside = omega (arith, e, lt);
    jumpdest = ap (slice_byte region code) e ∙ j;
  }
  | inr k ↦ record { boundary = after p lt k.boundary; inside = k.inside; jumpdest = k.jumpdest }
]

-- The state has a table for the code, with these positions.
pub record HasTable (table code_length : ℕ) (positions : ℕ → Bool) (state : Tables) : Type 0 where
  pub entry :
      state.jumpdest_tables table
      ≡ some (record { code_length = code_length; positions = positions })

mark-HasTable :
    (table n position : ℕ) (positions : ℕ → Bool) (state : Tables)
    → position < n
    → HasTable table n positions state
    → (next : Tables) × (jumpdest_table_mark table n position state ≡ (true, next))
      × HasTable table n (λ i. (i == position) || positions i) next
unfolding jumpdest_table_mark marked
mark-HasTable table n position positions state lt h = (
  record state {
    jumpdest_tables =
        assigned table (record { code_length = n; positions = λ i. (i == position) || positions i })
          state.jumpdest_tables;
  },
  ap (λ o. marked table n position o state) h.entry
      ∙ if_false (not (n == n) || leb n position) _ _ (ground (arith, lt)),
  record { entry = if_true (table == table) _ _ (ground arith) },
)

-- Marking a position adds it if it is a JUMPDEST.
mark_at-HasTable :
    (region : List ℕ) (code : Slice) (table p : ℕ) (positions : ℕ → Bool) (state : Tables)
    → p < code.len
    → HasTable table code.len positions state
    → (next : Tables) × (more : ℕ → Bool) × (mark_at region code table p state ≡ ok next)
      × HasTable table code.len more next
      × ((d : ℕ)
          → (more d ≡ true)
            ↔ ((positions d ≡ true) ⊎ ((d ≡ p) × (slice_byte region code p ≡ 0x5b))))
unfolding mark_at
mark_at-HasTable region code table p positions state lt h =
    elim (Bool-cases (slice_byte region code p == 0x5b)) [
      | inl e ↦
          let (next, m, held) = mark-HasTable table code.len p positions state lt h in
          let j = (==_iff (slice_byte region code p) 0x5b).0 e in
          (
            next,
            λ i. (i == p) || positions i,
            if_true (slice_byte region code p == 0x5b) _ _ e
                ∙ ap (λ (r : Bool × Tables). if r.0 then ok (r.1) else raised) m,
            held,
            λ d. (
              λ g. elim (Bool-cases (d == p)) [
                | inl z ↦ inr ((==_iff d p).0 z, j)
                | inr z ↦ inl (sym (ap (λ b. b || positions d) z) ∙ g)
              ],
              λ g. elim g [
                | inl a ↦ ground (arith, a)
                | inr (z, w) ↦ ap (λ b. b || positions d) ((==_iff d p).1 z)
              ],
            ),
          )
      | inr e ↦ (
        state,
        positions,
        if_false (slice_byte region code p == 0x5b) _ _ e,
        h,
        λ d. (λ g. inl g, λ g. elim g [ inl a ↦ a | inr (z, w) ↦ absurd (ground (arith, w, e)) ]),
      )
    ]

-- What is marked from a position on, given what is marked before it.
abbrev pub Marks : List ℕ → Slice → ℕ → ℕ → ℕ → (ℕ → Bool) → Outcome Tables → Type 0
Marks region code fork table p positions r =
    (next : Tables) × (more : ℕ → Bool) × (r ≡ ok next)
    × HasTable table code.len more next
    × ((d : ℕ) → (more d ≡ true) ↔ ((positions d ≡ true) ⊎ IsDestination region code fork p d))

finished-Marks :
    (region : List ℕ) (code : Slice) (fork table p : ℕ) (positions : ℕ → Bool) (state : Tables)
    → code.len ≤ p
    → HasTable table code.len positions state
    → Marks region code fork table p positions (ok state)
finished-Marks region code fork table p positions state le h = (
  state,
  positions,
  refl,
  h,
  λ d. (
    λ g. inl g,
    λ g. elim g [ inl a ↦ a | inr k ↦ absurd (IsDestination-past region code fork p d le k) ],
  ),
)

-- A round, and what is marked behind it.
round-Marks :
    (region : List ℕ) (code : Slice) (fork table p : ℕ) (positions more : ℕ → Bool)
    (r : Outcome Tables)
    → p < code.len
    → ((d : ℕ)
        → (more d ≡ true) ↔ ((positions d ≡ true) ⊎ ((d ≡ p) × (slice_byte region code p ≡ 0x5b))))
    → Marks region code fork table (p + instruction_length region code fork p) more r
    → Marks region code fork table p positions r
round-Marks region code fork table p positions more r lt i (next, most, e, held, j) = (
  next,
  most,
  e,
  held,
  λ d. (
    λ g. elim ((j d).0 g) [
      | inl a ↦ elim ((i d).0 a) [
        | inl b ↦ inl b
        | inr b ↦ inr (IsDestination-join region code fork p d lt (inl b))
      ]
      | inr k ↦ inr (IsDestination-join region code fork p d lt (inr k))
    ],
    λ g. elim g [
      | inl a ↦ (j d).1 (inl ((i d).1 (inl a)))
      | inr k ↦ elim (IsDestination-split region code fork p d k) [
        | inl b ↦ (j d).1 (inl ((i d).1 (inr b)))
        | inr b ↦ (j d).1 (inr b)
      ]
    ],
  ),
)

round_step-Marks :
    (region : List ℕ) (code : Slice) (fork table p : ℕ) (positions more : ℕ → Bool)
    (r : Outcome Tables)
    → p < code.len
    → ((d : ℕ)
        → (more d ≡ true) ↔ ((positions d ≡ true) ⊎ ((d ≡ p) × (slice_byte region code p ≡ 0x5b))))
    → Marks region code fork table (p + step_of region code fork p) more r
    → Marks region code fork table p positions r
round_step-Marks region code fork table p positions more r lt i m =
    round-Marks region code fork table p positions more r lt i
      (rw (sym (step_of-instruction_length region code fork p)) m)

scan-round :
    (fuel : ℕ) (region : List ℕ) (code : Slice) (fork table p : ℕ) (state next : Tables)
    → p < code.len
    → mark_at region code table p state ≡ ok next
    → scan (suc fuel) region code fork table p state
      ≡ (elim (ltb (step_of region code fork p) (code.len - p)) [
        | true ↦ scan fuel region code fork table (p + step_of region code fork p) next
        | false ↦ ok next
      ])
unfolding scan
scan-round fuel region code fork table p state next lt e =
    if_true (ltb p code.len) _ _ (lt→ltb p code.len lt) ∙ rw e refl

pub scan-Marks :
    (fuel : ℕ) (region : List ℕ) (code : Slice) (fork table p : ℕ) (positions : ℕ → Bool)
    (state : Tables)
    → code.len ≤ p + fuel
    → HasTable table code.len positions state
    → Marks region code fork table p positions (scan fuel region code fork table p state)
scan-Marks zero region code fork table p positions state le h =
    let e : scan 0 region code fork table p state ≡ ok state =
      unfold scan in if_false (ltb p code.len) _ _ (ge→ltb p code.len (omega (arith, le))) in
    rw e (finished-Marks region code fork table p positions state (omega (arith, le)) h)
scan-Marks (suc fuel) region code fork table p positions state le h =
    elim (Bool-cases (ltb p code.len)) [
      | inr e ↦
          let f : scan (suc fuel) region code fork table p state ≡ ok state =
            unfold scan in if_false (ltb p code.len) _ _ e in
          rw f (finished-Marks region code fork table p positions state (ground (arith, e)) h)
      | inl e ↦
          let lt : p < code.len = ltb→lt p code.len e in
          let step = step_of region code fork p in
          let (next, more, m, held, i) =
            mark_at-HasTable region code table p positions state lt h in
          rw (scan-round fuel region code fork table p state next lt m) (
            round_step-Marks region code fork table p positions more _ lt i
              (elim (Bool-cases (ltb step (code.len - p))) [
                | inl d ↦ rw d (
                    scan-Marks fuel region code fork table (p + step) more next
                      (omega (arith, le, step_of-positive region code fork p)) held)
                | inr d ↦ rw d (
                    finished-Marks region code fork table (p + step) more next (ground (arith, d))
                      held)
              ]))
    ]
