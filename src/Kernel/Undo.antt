-- ===== src/Kernel/Undo.antt =====
-- The entries that undo the changes of kernel/accounts.py and kernel/selfdestruct.py.
use evm_sail.Base.{
  ℕ, ◌+◌, ◌≡◌, ◌⊎◌, refl, sym, ap, ◌∙◌, [], ◌∷◌, ◌++◌, none, some, ok, raised, ◌>>=◌, ◌||◌, not,
  Bool, ◌==◌ as nat_beq, Option-cases, inl, inr,
}
use mathlib.Core.List.{append_assoc}
use mathlib.Core.Path.{subst}
use evm_sail.Host.Dict.{lookup, assign, assign_twice, assign-lookup, lookup-assign_self, number_key}
use evm_sail.Host.Rows.{Account, AccountTxRow}
use evm_sail.Host.Journal.{
  entry_kind, transaction_account_listed, account_storage_generation_changed,
}
use evm_sail.Host.State.{HostState, storage_initial_generation}
use evm_sail.Host.Restore.{journal_restore, restore_all, recleared}
use evm_sail.Host.Slots.{storage_tx_clear, storage_generation}
use evm_sail.Host.Accounts.{acct_tx_update, list_account, field_changes}
use evm_sail.Host.Undo.{
  Undo, Undo-trans, Undo-journalled, Balanced-append, Balanced-change, restore_all-append,
}
use evm_sail.Host.AccountUpdate.{
  with_account, listed_update-Undo, field_changes-append, field_changes-Balanced,
  field_changes_unmarked,
}
use evm_sail.Host.Clearing.{IsMarkedAt, generation_restored, storage_tx_clear-Undo}

-- The state that `acct_tx_update` leaves where the row is listed.
abbrev pub updated : ℕ → Account → AccountTxRow → HostState → HostState
updated address value row s = record s {
  world = with_account address row s.world value;
  journal = field_changes address row.current value s.journal;
}

-- An update changes a listed row or lists a new one.
pub acct_tx_update-cases :
    (address : ℕ) (value : Account) (s t : HostState)
    → acct_tx_update address value s ≡ ok t
    → ((row : AccountTxRow) × (lookup address s.world.account_tx ≡ some row)
        × (updated address value row s ≡ t))
      ⊎ ((block : Account) × (lookup address s.world.account_tx ≡ none)
          × (s.account_block address ≡ some block)
          × (list_account address (record { current = value; original = block }) s ≡ t))
unfolding acct_tx_update
acct_tx_update-cases address value s t h = elim (Option-cases (lookup address s.world.account_tx)) [
  | inr (row, listed) ↦ inl (row, listed, ok_inj (rw (listed, acct_tx_update) at h))
  | inl missing ↦ elim (Option-cases (s.account_block address)) [
    | inl absent ↦ absurd (raised_ne (rw (missing, absent, acct_tx_update) at h))
    | inr (block, cached) ↦
        inr (block, missing, cached, ok_inj (rw (missing, cached, acct_tx_update) at h))
  ]
]
  where
    ok_inj : {a b : HostState} → ok a ≡ ok b → a ≡ b
    ok_inj e = cc

    raised_ne : {a : HostState} → raised ≡ ok a → ⊥
    raised_ne e = cc

list_account-Undo :
    (address : ℕ) (row : AccountTxRow) (s : HostState) → Undo s (list_account address row s)
unfolding journal_restore entry_kind
list_account-Undo address row s =
    Undo-journalled transaction_account_listed
      (record s.world { account_tx = (address, row) ∷ s.world.account_tx }) s refl refl

pub acct_tx_update-Undo :
    (address : ℕ) (value : Account) (s t : HostState)
    → ((row : AccountTxRow)
        → lookup address s.world.account_tx ≡ some row
        → (value.info.storage_root ≡ row.current.info.storage_root)
          × (value.storage_cleared ≡ row.current.storage_cleared))
    → acct_tx_update address value s ≡ ok t
    → Undo s t
acct_tx_update-Undo address value s t kept h = elim (acct_tx_update-cases address value s t h) [
  | inl (row, listed, e) ↦
      subst (λ u. Undo s u) e
        (listed_update-Undo address value row s listed (kept row listed).0 (kept row listed).1)
  | inr (block, missing, cached, e) ↦
      subst (λ u. Undo s u) e
        (list_account-Undo address (record { current = value; original = block }) s)
]

-- The row with any clearing mark is set back by the entry of the clearing.
recleared_row :
    (address : ℕ) (mark : Bool) (row : AccountTxRow) (s : HostState)
    → IsMarkedAt address s
    → lookup address s.world.account_tx ≡ some row
    → recleared address (storage_generation s address) (
        assign address
          (record row { current = record row.current { storage_cleared = mark } })
          s.world.account_tx)
      ≡ s.world.account_tx
recleared_row address mark row s marked listed =
    let rows = s.world.account_tx in
    let other : AccountTxRow = record row {
      current = record row.current { storage_cleared = mark };
    } in
    rw (lookup-assign_self address {v = row} other rows listed, recleared)
      (assign_twice address
          (record row {
            current = record row.current {
              storage_cleared =
                  row.original.storage_cleared
                  || not (nat_beq (storage_generation s address) storage_initial_generation);
            };
          })
          other rows
        ∙ ap
            (λ b.
              assign address (record row { current = record row.current { storage_cleared = b } })
                rows)
            (sym (marked row listed))
        ∙ assign-lookup address row rows listed)

cleared_listed-Undo :
    (address : ℕ) (value : Account) (row : AccountTxRow) (s : HostState)
    → IsMarkedAt address s
    → lookup address s.world.account_tx ≡ some row
    → value.info.storage_root ≡ row.current.info.storage_root
    → Undo s (updated address value row (storage_tx_clear address s))
unfolding storage_tx_clear restore_all entry_kind
cleared_listed-Undo address value row s marked listed root =
    let entry = account_storage_generation_changed address (storage_generation s address) in
    let u = storage_tx_clear address s in
    let changes = field_changes address row.current value [] in
    let t = updated address value row u in
    record {
      entries = changes ++ (entry ∷ []);
      journal_eq =
          field_changes-append address row.current value (entry ∷ s.journal)
          ∙ sym (append_assoc changes (entry ∷ []) s.journal);
      balanced =
          Balanced-append changes (entry ∷ []) (field_changes-Balanced address row.current value)
            (Balanced-change entry refl);
      restores =
          restore_all-append changes (entry ∷ []) t.world
          ∙ ap (λ w. w >>= restore_all (entry ∷ []))
              (field_changes_unmarked address row value u.world listed root)
          ∙ ap (λ w. w >>= restore_all [])
              (generation_restored address s
                (assign address
                  (record row {
                    current = record row.current { storage_cleared = value.storage_cleared };
                  })
                  s.world.account_tx)
                (s.storage_next_generation + 1)
                (recleared_row address value.storage_cleared row s marked listed));
    }

-- A clearing with the update that goes with it.
pub cleared_update-Undo :
    (address : ℕ) (value : Account) (s t : HostState)
    → IsMarkedAt address s
    → ((row : AccountTxRow)
        → lookup address s.world.account_tx ≡ some row
        → value.info.storage_root ≡ row.current.info.storage_root)
    → acct_tx_update address value (storage_tx_clear address s) ≡ ok t
    → Undo s t
unfolding storage_tx_clear
cleared_update-Undo address value s t marked kept h =
    elim (acct_tx_update-cases address value (storage_tx_clear address s) t h) [
      | inl (row, listed, e) ↦
          subst (λ u. Undo s u) e
            (cleared_listed-Undo address value row s marked listed (kept row listed))
      | inr (block, missing, cached, e) ↦
          subst (λ u. Undo s u) e
            (Undo-trans s (storage_tx_clear address s) _ (storage_tx_clear-Undo address s marked) (
              list_account-Undo address (record { current = value; original = block })
                (storage_tx_clear address s)))
    ]
