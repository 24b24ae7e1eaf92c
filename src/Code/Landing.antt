-- ===== src/Code/Landing.antt =====
-- `do_jump` on the table that `analyze_code` makes.
use evm_sail.Base.{
  ℕ, ◌<◌, ◌≡◌, ◌≢◌, ◌⊎◌, ◌↔◌, ap, ◌∙◌, Bool, true, false, ltb, leb, ◌==◌, ◌||◌, not, List, ok, inl,
  inr, Bool-cases, if_true, if_false, arith, ==-ne, ltb→lt, ◌>>=◌,
}
use evm_sail.Execute.Guard.{continue, failed, invalid_jump}
use evm_sail.Rlp.Slices.{Slice}
use evm_sail.Code.Analysis.{
  Tables, jumpdest_ref_contains, contained, analyze_code_from, analyze_code, jumpdest_table_alloc,
}
use evm_sail.Code.Jump.{frame_jumpdest_valid, do_jump}
use evm_sail.Code.Destinations.{IsDestination, HasTable, scan-Marks}

contains-HasTable :
    (table n d : ℕ) (positions : ℕ → Bool) (state : Tables)
    → d < n
    → HasTable table n positions state
    → jumpdest_ref_contains table n d state ≡ positions d
unfolding jumpdest_ref_contains contained
contains-HasTable table n d positions state lt h =
    ap (contained n d) h.entry ∙ if_false (not (n == n) || leb n d) _ _ (ground (arith, lt))

alloc-HasTable :
    (code : Slice) (state : Tables)
    → HasTable
        ((jumpdest_table_alloc code state).1)
        code.len
        (λ i. false)
        ((jumpdest_table_alloc code state).0)
unfolding jumpdest_table_alloc
alloc-HasTable code state = record {
  entry = if_true (state.next_jumpdest_table == state.next_jumpdest_table) _ _ (ground arith);
}

analyze_code-from :
    (region : List ℕ) (code : Slice) (fork : ℕ) (state next : Tables)
    → code.len ≢ 0
    → state.next_jumpdest_table ≢ 0
    → analyze_code_from region code fork state.next_jumpdest_table 0
        ((jumpdest_table_alloc code state).0)
      ≡ ok next
    → analyze_code region code fork state ≡ ok (state.next_jumpdest_table, next)
unfolding analyze_code jumpdest_table_alloc
analyze_code-from region code fork state next ne some_index e =
    if_false (code.len == 0) _ _ (==-ne code.len 0 ne)
    ∙ if_false (state.next_jumpdest_table == 0) _ _ (==-ne state.next_jumpdest_table 0 some_index)
    ∙ ap (λ r. r >>= λ last. ok (state.next_jumpdest_table, last)) e

-- A jump in the code with this table: the position, the gas and the outcome.
abbrev pub Lands : List ℕ → Slice → ℕ → ℕ → Tables → ℕ → ℕ → ℕ → Type 0
Lands region code fork table state pc g d =
    (IsDestination region code fork 0 d
      × (do_jump pc g (record { len = code.len; jumpdests = table }) d state ≡ (d, g, continue)))
    ⊎ ((¬ IsDestination region code fork 0 d)
        × (do_jump pc g (record { len = code.len; jumpdests = table }) d state
            ≡ (pc, 0, failed invalid_jump)))

landing :
    (region : List ℕ) (code : Slice) (fork table pc g d : ℕ) (more : ℕ → Bool) (state : Tables)
    → HasTable table code.len more state
    → (more d ≡ true) ↔ ((false ≡ true) ⊎ IsDestination region code fork 0 d)
    → Lands region code fork table state pc g d
unfolding do_jump frame_jumpdest_valid
landing region code fork table pc g d more state h i = elim (Bool-cases (ltb d code.len)) [
  | inr e ↦ inr (λ k. absurd (ground (arith, e, k.inside)), if_false (ltb d code.len) _ _ e)
  | inl e ↦
      let c = contains-HasTable table code.len d more state (ltb→lt d code.len e) h in
      elim (Bool-cases (more d)) [
        | inl m ↦ inl (
          elim (i.0 m) [ inl z ↦ absurd (ground (arith, z)) | inr k ↦ k ],
          if_true (ltb d code.len) _ _ e
              ∙ if_true (jumpdest_ref_contains table code.len d state) _ _ (c ∙ m),
        )
        | inr m ↦ inr (
          λ k. absurd (ground (arith, i.1 (inr k), m)),
          if_true (ltb d code.len) _ _ e
              ∙ if_false (jumpdest_ref_contains table code.len d state) _ _ (c ∙ m),
        )
      ]
]

-- The analysis of code that is not empty ends with no error, where the next table has an index
-- other than zero. With the table it makes, a jump goes on at its destination with its gas if that
-- is a JUMPDEST at which an instruction of the code starts, reading from the first byte on, and
-- fails as an invalid jump with all the gas taken if it is not.
pub analyze_code-do_jump :
    (region : List ℕ) (code : Slice) (fork : ℕ) (state : Tables)
    → code.len ≢ 0
    → state.next_jumpdest_table ≢ 0
    → (table : ℕ) × (next : Tables) × (analyze_code region code fork state ≡ ok (table, next))
      × ((pc g d : ℕ) → Lands region code fork table next pc g d)
unfolding analyze_code_from
analyze_code-do_jump region code fork state ne some_index =
    let table = state.next_jumpdest_table in
    let (next, more, e, held, i) =
      scan-Marks code.len region code fork table 0 (λ k. false)
        ((jumpdest_table_alloc code state).0) (omega arith)
        (unfold jumpdest_table_alloc in alloc-HasTable code state) in
    (
      table,
      next,
      analyze_code-from region code fork state next ne some_index e,
      λ pc g d. landing region code fork table pc g d more next held (i d),
    )
