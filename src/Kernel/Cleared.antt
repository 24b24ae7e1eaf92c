-- ===== src/Kernel/Cleared.antt =====
-- The clearing marks after `storage_tx_clear`, alone and with the update that goes with it.
use evm_sail.Base.{
  Option, ℕ, ◌+◌, ◌≡◌, refl, sym, ap, ◌∙◌, arith, none, some, ok, ◌||◌, not, Bool, true, false,
  ◌==◌ as nat_beq, ==_iff, Bool-cases, inl, inr,
}
use mathlib.Core.Path.{subst}
use evm_sail.Host.Dict.{
  lookup, lookup-assign_self, lookup-assign_other, lookup_head, update_self, update_other,
  number_key,
}
use evm_sail.Host.Rows.{Account, AccountTxRow}
use evm_sail.Host.State.{HostState, storage_initial_generation}
use evm_sail.Host.Slots.{storage_tx_clear, storage_generation}
use evm_sail.Host.Accounts.{acct_tx_update, list_account}
use evm_sail.Kernel.Undo.{updated, acct_tx_update-cases}
use evm_sail.Kernel.Marked.{IsMarked, IsMarked-ChangesAt, lookup_other}

module _ (accounts : ℕ → Option Account) where
  -- An account that is cleared and marked so.
  cleared_mark :
      (mark original : Bool) (s : HostState) (address : ℕ)
      → IsMarked accounts s
      → mark ≡ true
      → mark
        ≡ original
          || not (
              nat_beq
                (storage_generation (storage_tx_clear address s) address)
                storage_initial_generation)
  unfolding storage_tx_clear
  cleared_mark mark original s address h e =
      rw (update_self s.world.storage_generations address (s.storage_next_generation + 1))
        (ground (arith, h.initial, e))

  pub IsMarked-clear_update :
      (address : ℕ) (value : Account) (s t : HostState)
      → IsMarked accounts s
      → value.storage_cleared ≡ true
      → acct_tx_update address value (storage_tx_clear address s) ≡ ok t
      → IsMarked accounts t
  unfolding storage_tx_clear
  IsMarked-clear_update address value s t h cleared e =
      elim (acct_tx_update-cases address value (storage_tx_clear address s) t e) [
        | inl (row, listed, q) ↦
            let written : AccountTxRow = record row { current = value } in
            subst (λ u. IsMarked accounts u) q
              (IsMarked-ChangesAt accounts address written s
                (updated address value row (storage_tx_clear address s)) h
                (record {
                  more = omega arith;
                  blocks = refl;
                  rows =
                      λ other ne. lookup-assign_other address other written s.world.account_tx ne;
                  generations = λ other ne.
                      update_other s.world.storage_generations address other
                        (s.storage_next_generation + 1) ne;
                  listed = lookup-assign_self address {v = row} written s.world.account_tx listed;
                  marked =
                      cleared_mark value.storage_cleared row.original.storage_cleared s address h
                        cleared;
                }))
        | inr (block, missing, cached, q) ↦
            let row : AccountTxRow = record { current = value; original = block } in
            subst (λ u. IsMarked accounts u) q
              (IsMarked-ChangesAt accounts address row s
                (list_account address row (storage_tx_clear address s)) h
                (record {
                  more = omega arith;
                  blocks = refl;
                  rows = λ other ne. lookup_other address other row s.world.account_tx ne;
                  generations = λ other ne.
                      update_other s.world.storage_generations address other
                        (s.storage_next_generation + 1) ne;
                  listed = lookup_head address row s.world.account_tx;
                  marked =
                      cleared_mark value.storage_cleared block.storage_cleared s address h cleared;
                }))
      ]

  -- A clearing on its own keeps the marks where the account is marked as cleared already.
  pub IsMarked-clear :
      (address : ℕ) (s : HostState)
      → IsMarked accounts s
      → ((row : AccountTxRow)
          → lookup address s.world.account_tx ≡ some row
          → row.current.storage_cleared ≡ true)
      → ((block : Account)
          → lookup address s.world.account_tx ≡ none
          → s.account_block address ≡ some block
          → block.storage_cleared ≡ true)
      → IsMarked accounts (storage_tx_clear address s)
  unfolding storage_tx_clear
  IsMarked-clear address s h marked_row marked_block = record {
    block = h.block;
    initial = omega (arith, h.initial);
    listed = λ other found e. elim (Bool-cases (nat_beq other address)) [
      | inl same ↦
          let q : address ≡ other = sym ((==_iff other address).0 same) in
          subst
            (λ (a : ℕ).
              lookup a s.world.account_tx ≡ some found
              → found.current.storage_cleared
                ≡ found.original.storage_cleared
                  || not (
                      nat_beq (storage_generation (storage_tx_clear address s) a)
                        storage_initial_generation))
            q
            (λ f.
              cleared_mark found.current.storage_cleared found.original.storage_cleared s address h
                (marked_row found f))
            e
      | inr differs ↦
          h.listed other found e
          ∙ ap
              (λ (n : ℕ).
                found.original.storage_cleared || not (nat_beq n storage_initial_generation))
              (sym (elsewhere other differs))
    ];
    unlisted = λ other e block cached. elim (Bool-cases (nat_beq other address)) [
      | inl same ↦
          let q : address ≡ other = sym ((==_iff other address).0 same) in
          subst
            (λ (a : ℕ).
              lookup a s.world.account_tx ≡ none
              → s.account_block a ≡ some block
              → block.storage_cleared
                ≡ block.storage_cleared
                  || not (
                      nat_beq (storage_generation (storage_tx_clear address s) a)
                        storage_initial_generation))
            q
            (λ f g.
              cleared_mark block.storage_cleared block.storage_cleared s address h
                (marked_block block f g))
            e cached
      | inr differs ↦
          h.unlisted other e block cached
          ∙ ap (λ (n : ℕ). block.storage_cleared || not (nat_beq n storage_initial_generation))
              (sym (elsewhere other differs))
    ];
  }
    where
      elsewhere :
          (other : ℕ)
          → nat_beq other address ≡ false
          → storage_generation (storage_tx_clear address s) other ≡ storage_generation s other
      elsewhere other differs =
          update_other s.world.storage_generations address other (s.storage_next_generation + 1)
            (λ q. absurd (ground (arith, q, differs)))
