-- ===== src/Kernel/Marked.antt =====
-- The clearing marks of the account rows against the storage generations.
use evm_sail.Base.{
  Option, ℕ, ◌≤◌, ◌≡◌, refl, sym, ap, ◌∙◌, arith, ◌∷◌, none, some, ◌||◌, not, ◌==◌ as nat_beq,
  ==-ne, ==_iff, Bool-cases, inl, inr,
}
use mathlib.Core.Path.{subst}
use evm_sail.Host.Dict.{
  Dict, lookup, assign, lookup-assign_self, lookup-assign_other, lookup_head, number_key,
}
use evm_sail.Host.Rows.{Account, AccountTxRow}
use evm_sail.Host.State.{HostState, storage_initial_generation}
use evm_sail.Host.Slots.{storage_generation}
use evm_sail.Host.Accounts.{list_account}
use evm_sail.Host.Clearing.{IsMarkedAt}

some_ne : {a : AccountTxRow} → some a ≡ none → ⊥
some_ne e = cc

some_inj : {a b : AccountTxRow} → some a ≡ some b → a ≡ b
some_inj e = cc

pub lookup_other :
    (address other : ℕ) (row : AccountTxRow) (rows : Dict ℕ AccountTxRow)
    → (other ≡ address → ⊥)
    → lookup other ((address, row) ∷ rows) ≡ lookup other rows
lookup_other address other row rows ne = rw (==-ne other address ne) refl

module _ (accounts : ℕ → Option Account) where
  -- A listed account is marked as cleared if it was so originally or is past the first generation,
  -- and so is one that the block has and that is not listed.
  pub record IsMarked (s : HostState) : Type 0 where
    pub block : s.account_block ≡ accounts
    pub initial : storage_initial_generation ≤ s.storage_next_generation
    pub listed : (address : ℕ) → IsMarkedAt address s
    pub unlisted :
        (address : ℕ)
        → lookup address s.world.account_tx ≡ none
        → (block : Account) → s.account_block address ≡ some block
        → block.storage_cleared
          ≡ block.storage_cleared
            || not (nat_beq (storage_generation s address) storage_initial_generation)

  -- An operation that touches neither the rows nor the generations.
  pub IsMarked-same :
      (s t : HostState)
      → IsMarked s
      → t.world.account_tx ≡ s.world.account_tx
      → t.world.storage_generations ≡ s.world.storage_generations
      → t.account_block ≡ s.account_block
      → s.storage_next_generation ≤ t.storage_next_generation
      → IsMarked t
  IsMarked-same s t h rows generations blocks more =
      let g = λ (address : ℕ). ap (λ f. f address) generations in
      record {
        block = blocks ∙ h.block;
        initial = omega (arith, h.initial, more);
        listed = λ address row e.
            h.listed address row (ap (lookup address) (sym rows) ∙ e)
            ∙ ap
                (λ (n : ℕ).
                  row.original.storage_cleared || not (nat_beq n storage_initial_generation))
                (sym (g address));
        unlisted = λ address e block cached.
            h.unlisted address (ap (lookup address) (sym rows) ∙ e) block
              (ap (λ f. f address) (sym blocks) ∙ cached)
            ∙ ap (λ (n : ℕ). block.storage_cleared || not (nat_beq n storage_initial_generation))
                (sym (g address));
      }

  -- What a change of one account's row and generation keeps.
  pub record ChangesAt (address : ℕ) (row : AccountTxRow) (s t : HostState) : Type 0 where
    pub more : s.storage_next_generation ≤ t.storage_next_generation
    pub rows :
        (other : ℕ)
        → (other ≡ address → ⊥)
        → lookup other t.world.account_tx ≡ lookup other s.world.account_tx
    pub generations :
        (other : ℕ)
        → (other ≡ address → ⊥)
        → storage_generation t other ≡ storage_generation s other
    pub blocks : t.account_block ≡ s.account_block
    pub listed : lookup address t.world.account_tx ≡ some row
    pub marked :
        row.current.storage_cleared
        ≡ row.original.storage_cleared
          || not (nat_beq (storage_generation t address) storage_initial_generation)

  pub IsMarked-ChangesAt :
      (address : ℕ) (row : AccountTxRow) (s t : HostState)
      → IsMarked s
      → ChangesAt address row s t
      → IsMarked t
  IsMarked-ChangesAt address row s t h c = record {
    block = c.blocks ∙ h.block;
    initial = omega (arith, h.initial, c.more);
    listed = λ other found e. elim (Bool-cases (nat_beq other address)) [
      | inl same ↦
          let q : other ≡ address = (==_iff other address).0 same in
          subst
            (λ (a : ℕ).
              found.current.storage_cleared
              ≡ found.original.storage_cleared
                || not (nat_beq (storage_generation t a) storage_initial_generation))
            (sym q)
            (subst
              (λ (r : AccountTxRow).
                r.current.storage_cleared
                ≡ r.original.storage_cleared
                  || not (nat_beq (storage_generation t address) storage_initial_generation))
              (some_inj (sym c.listed ∙ sym (ap (λ (a : ℕ). lookup a t.world.account_tx) q) ∙ e))
              c.marked)
      | inr differs ↦
          let ne = λ (q : other ≡ address). absurd (ground (arith, q, differs)) in
          h.listed other found (sym (c.rows other ne) ∙ e)
          ∙ ap
              (λ (n : ℕ).
                found.original.storage_cleared || not (nat_beq n storage_initial_generation))
              (sym (c.generations other ne))
    ];
    unlisted = λ other e block cached. elim (Bool-cases (nat_beq other address)) [
      | inl same ↦ absurd (
          some_ne (
            sym c.listed
            ∙ sym (ap (λ (a : ℕ). lookup a t.world.account_tx) ((==_iff other address).0 same))
            ∙ e))
      | inr differs ↦
          let ne = λ (q : other ≡ address). absurd (ground (arith, q, differs)) in
          h.unlisted other (sym (c.rows other ne) ∙ e) block
            (ap (λ f. f other) (sym c.blocks) ∙ cached)
          ∙ ap (λ (n : ℕ). block.storage_cleared || not (nat_beq n storage_initial_generation))
              (sym (c.generations other ne))
    ];
  }

  -- Changing a listed row, its mark kept.
  pub IsMarked-assign :
      (address : ℕ) (row : AccountTxRow) (value : Account) (s t : HostState)
      → IsMarked s
      → lookup address s.world.account_tx ≡ some row
      → value.storage_cleared ≡ row.current.storage_cleared
      → t.world.account_tx ≡ assign address (record row { current = value }) s.world.account_tx
      → t.world.storage_generations ≡ s.world.storage_generations
      → t.account_block ≡ s.account_block
      → s.storage_next_generation ≤ t.storage_next_generation
      → IsMarked t
  IsMarked-assign address row value s t h listed kept rows generations blocks more =
      let written : AccountTxRow = record row { current = value } in
      let g = λ (a : ℕ). ap (λ f. f a) generations in
      IsMarked-ChangesAt address written s t h (record {
        more = more;
        blocks = blocks;
        rows = λ other ne.
            ap (lookup other) rows
            ∙ lookup-assign_other address other written s.world.account_tx ne;
        generations = λ other ne. g other;
        listed =
            ap (lookup address) rows
            ∙ lookup-assign_self address {v = row} written s.world.account_tx listed;
        marked =
            kept
            ∙ h.listed address row listed
            ∙ ap
                (λ (n : ℕ).
                  row.original.storage_cleared || not (nat_beq n storage_initial_generation))
                (sym (g address));
      })

  -- Listing an account, its mark as the block has it.
  pub IsMarked-list :
      (address : ℕ) (value block : Account) (s : HostState)
      → IsMarked s
      → lookup address s.world.account_tx ≡ none
      → s.account_block address ≡ some block
      → value.storage_cleared ≡ block.storage_cleared
      → IsMarked (list_account address (record { current = value; original = block }) s)
  IsMarked-list address value block s h missing cached kept =
      let row : AccountTxRow = record { current = value; original = block } in
      IsMarked-ChangesAt address row s (list_account address row s) h (record {
        more = omega arith;
        blocks = refl;
        rows = λ other ne. lookup_other address other row s.world.account_tx ne;
        generations = λ other ne. refl;
        listed = lookup_head address row s.world.account_tx;
        marked = kept ∙ h.unlisted address missing block cached;
      })
