-- ===== src/Host/Clearing.antt =====
-- `storage_tx_clear` in a frame that is reverted.
use evm_sail.Base.{
  ℕ, ◌+◌, ◌≡◌, refl, sym, ap, ◌∙◌, Option, some, ok, ◌||◌, not, ◌==◌ as nat_beq, Option-cases, inl,
  inr,
}
use evm_sail.Host.Dict.{Dict, update, update-update, lookup, assign, assign-lookup, number_key}
use evm_sail.Host.Rows.{AccountTxRow}
use evm_sail.Host.Journal.{entry_kind, account_storage_generation_changed}
use evm_sail.Host.State.{World, HostState, storage_initial_generation}
use evm_sail.Host.Restore.{
  journal_restore, recleared, log_after, state_journal_checkpoint, state_journal_revert,
}
use evm_sail.Host.Slots.{storage_tx_clear, storage_generation}
use evm_sail.Host.Undo.{Undo, Undo-journalled, revert_undoes}

recleared_lem :
    (address prior : ℕ) (rows : Dict ℕ AccountTxRow)
    → ((row : AccountTxRow)
        → lookup address rows ≡ some row
        → row.current.storage_cleared
          ≡ row.original.storage_cleared || not (nat_beq prior storage_initial_generation))
    → recleared address prior rows ≡ rows
recleared_lem address prior rows marked = elim (Option-cases (lookup address rows)) [
  | inl missing ↦ rw (missing, recleared) refl
  | inr (row, listed) ↦
      rw (listed, recleared)
        (ap
            (λ b.
              assign address (record row { current = record row.current { storage_cleared = b } })
                rows)
            (sym (marked row listed))
          ∙ assign-lookup address row rows listed)
]

-- The clearing mark of the account's row says what an undone clearing sets it to.
abbrev pub IsMarkedAt : ℕ → HostState → Type 0
IsMarkedAt address s =
    (row : AccountTxRow)
    → lookup address s.world.account_tx ≡ some row
    → row.current.storage_cleared
      ≡ row.original.storage_cleared
        || not (nat_beq (storage_generation s address) storage_initial_generation)

-- What the entry of a clearing restores, whatever it was made of the rows.
pub generation_restored :
    (address : ℕ) (s : HostState) (rows : Dict ℕ AccountTxRow) (next : ℕ)
    → recleared address (storage_generation s address) rows ≡ s.world.account_tx
    → journal_restore
        (account_storage_generation_changed address (storage_generation s address))
        (record s.world {
          storage_generations = update s.world.storage_generations address next;
          account_tx = rows;
        })
      ≡ ok s.world
unfolding journal_restore
generation_restored address s rows next e =
    ap
      (λ g. ok (record s.world {
        storage_generations = g;
        account_tx = recleared address (storage_generation s address) rows;
      }))
      (update-update s.world.storage_generations address next)
    ∙ ap (λ r. ok (record s.world { account_tx = r })) e

pub storage_tx_clear-Undo :
    (address : ℕ) (s : HostState) → IsMarkedAt address s → Undo s (storage_tx_clear address s)
unfolding storage_tx_clear entry_kind
storage_tx_clear-Undo address s marked =
    let next : ℕ = s.storage_next_generation + 1 in
    let cleared : World = record s.world {
      storage_generations = update s.world.storage_generations address next;
    } in
    let alone =
      Undo-journalled (account_storage_generation_changed address (storage_generation s address))
        cleared s refl
        (generation_restored address s s.world.account_tx next
          (recleared_lem address (storage_generation s address) s.world.account_tx marked)) in
    record {
      entries = alone.entries;
      journal_eq = alone.journal_eq;
      balanced = alone.balanced;
      restores = alone.restores;
    }

-- A frame that clears an account's storage and is then reverted gives back the world and the
-- journal exactly, where the clearing mark of the account's row, if it is listed, says whether the
-- account was cleared originally or is past its first generation. The generation that the
-- clearing took is not given out again.
pub storage_tx_clear-state_journal_revert :
    (address : ℕ) (s : HostState)
    → ((row : AccountTxRow)
        → lookup address s.world.account_tx ≡ some row
        → row.current.storage_cleared
          ≡ row.original.storage_cleared
            || not (nat_beq (storage_generation s address) storage_initial_generation))
    → (log : Option ℕ) × (state_journal_revert
          (storage_tx_clear address (state_journal_checkpoint s))
        ≡ ok (record s {
          storage_next_generation = s.storage_next_generation + 1;
          current_log = log;
        }))
unfolding state_journal_checkpoint storage_tx_clear journal_restore entry_kind
storage_tx_clear-state_journal_revert address s marked =
    let undo = storage_tx_clear-Undo address (state_journal_checkpoint s) marked in
    (
      log_after undo.entries s.current_log,
      revert_undoes s (storage_tx_clear address (state_journal_checkpoint s)) undo,
    )
