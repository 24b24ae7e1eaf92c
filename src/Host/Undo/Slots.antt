-- ===== src/Host/Undo/Slots.antt =====
-- The operations on slots and the entries that undo them.
use evm_sail.Base.{
  ℕ, ◌≡◌, refl, ap, ◌∙◌, ◌∷◌, some, ok, true, false, ltb, ◌==◌ as nat_beq, ==-refl, ==_iff,
  Bool-cases, Option-cases, inl, inr, if◌then◌else◌,
}
use evm_sail.Host.Dict.{
  StorageKey, update, update-update, lookup, assign, assign-assign, lookup-assign_self, slot_key,
  number_key,
}
use evm_sail.Host.Rows.{StorageValue, StorageTxRow}
use evm_sail.Host.Journal.{
  entry_kind, transient_changed, warm_account_changed, warm_storage_changed,
  transaction_storage_listed, storage_value_changed, storage_row_generation_changed,
}
use evm_sail.Host.State.{World, HostState, journalled}
use evm_sail.Host.Restore.{journal_restore, restore_storage}
use evm_sail.Host.Slots.{
  transient_store, account_mark_warm, storage_mark_warm, storage_tx_update, storage_value_write,
  storage_generation_write, storage_generation, write_row,
}
use evm_sail.Host.Undo.{Undo, Undo-refl, Undo-trans, Undo-journalled}

pub transient_store-Undo :
    (address slot value : ℕ) (s : HostState) → Undo s (transient_store address slot value s)
unfolding transient_store journal_restore entry_kind
transient_store-Undo address slot value s =
    let key : StorageKey = record { addr = address; slot = slot } in
    Undo-journalled (transient_changed address slot (s.world.transient key))
      (record s.world { transient = update s.world.transient key value }) s refl
      (ap (λ f. ok (record s.world { transient = f })) (update-update s.world.transient key value))

pub account_mark_warm-Undo : (address : ℕ) (s : HostState) → Undo s (account_mark_warm address s)
unfolding account_mark_warm journal_restore entry_kind
account_mark_warm-Undo address s =
    elim (ltb (s.world.warm_addresses address) s.current_warm_epoch)
      as (λ b. Undo s (
        if b
        then journalled (warm_account_changed address (s.world.warm_addresses address))
            (record s.world {
              warm_addresses = update s.world.warm_addresses address s.current_warm_epoch;
            })
            s
        else s)) [
          | true ↦
              Undo-journalled (warm_account_changed address (s.world.warm_addresses address))
                (record s.world {
                  warm_addresses = update s.world.warm_addresses address s.current_warm_epoch;
                })
                s refl
                (ap (λ f. ok (record s.world { warm_addresses = f }))
                  (update-update s.world.warm_addresses address s.current_warm_epoch))
          | false ↦ Undo-refl s
        ]

pub storage_mark_warm-Undo : (key : StorageKey) (s : HostState) → Undo s (storage_mark_warm key s)
unfolding storage_mark_warm journal_restore entry_kind
storage_mark_warm-Undo key s =
    elim (ltb (s.world.warm_slots key) s.current_warm_epoch)
      as (λ b. Undo s (
        if b
        then journalled (warm_storage_changed key (s.world.warm_slots key))
            (record s.world { warm_slots = update s.world.warm_slots key s.current_warm_epoch }) s
        else s)) [
          | true ↦
              Undo-journalled (warm_storage_changed key (s.world.warm_slots key))
                (record s.world { warm_slots = update s.world.warm_slots key s.current_warm_epoch })
                s refl
                (ap (λ f. ok (record s.world { warm_slots = f }))
                  (update-update s.world.warm_slots key s.current_warm_epoch))
          | false ↦ Undo-refl s
        ]

-- A row that is written, and changed back by what its entry restores.
restore_storage_lem :
    (key : StorageKey)
    → (undo : StorageTxRow → StorageTxRow) → (row written : StorageTxRow) (world : World)
    → lookup key world.storage_tx ≡ some row
    → undo written ≡ row
    → restore_storage key undo (write_row key written world) ≡ ok world
restore_storage_lem key undo row written world listed undone =
    rw (lookup-assign_self key {v = row} written world.storage_tx listed, restore_storage)
      (ap
          (λ r.
            ok (record world { storage_tx = assign key r (assign key written world.storage_tx) }))
          undone
        ∙ ap (λ rows. ok (record world { storage_tx = rows }))
            (assign-assign key row written world.storage_tx listed))

storage_value_write-Undo :
    (key : StorageKey) (row : StorageTxRow) (curr : ℕ) (s : HostState)
    → lookup key s.world.storage_tx ≡ some row
    → Undo s (storage_value_write key row curr s)
unfolding storage_value_write journal_restore entry_kind
storage_value_write-Undo key row curr s listed = elim (Bool-cases (nat_beq row.value.curr curr)) [
  | inl same ↦ rw same (Undo-refl s)
  | inr other ↦ rw other (
      Undo-journalled (storage_value_changed key row.value.curr)
        (write_row key (record row { value = record row.value { curr = curr } }) s.world) s refl
        (restore_storage_lem key
          (λ r. record r { value = record r.value { curr = row.value.curr } }) row
          (record row { value = record row.value { curr = curr } }) s.world listed refl))
]

storage_generation_write-Undo :
    (key : StorageKey) (row : StorageTxRow) (generation : ℕ) (s : HostState)
    → lookup key s.world.storage_tx ≡ some row
    → Undo s (storage_generation_write key row generation s)
unfolding storage_generation_write journal_restore entry_kind
storage_generation_write-Undo key row generation s listed =
    elim (Bool-cases (nat_beq row.generation generation)) [
      | inl same ↦ rw same (Undo-refl s)
      | inr other ↦ rw other (
          Undo-journalled (storage_row_generation_changed key row.generation)
            (write_row key (record row { generation = generation }) s.world) s refl
            (restore_storage_lem key (λ r. record r { generation = row.generation }) row
              (record row { generation = generation }) s.world listed refl))
    ]

pub lookup-storage_value_write :
    (key : StorageKey) (row : StorageTxRow) (curr : ℕ) (s : HostState)
    → lookup key s.world.storage_tx ≡ some row
    → lookup key (storage_value_write key row curr s).world.storage_tx
      ≡ some (record row { value = record row.value { curr = curr } })
unfolding storage_value_write
lookup-storage_value_write key row curr s listed = elim (Bool-cases (nat_beq row.value.curr curr)) [
  | inl same ↦ rw same (
      listed
      ∙ ap (λ c. some (record row { value = record row.value { curr = c } }))
          ((==_iff row.value.curr curr).0 same))
  | inr other ↦ rw other (
      lookup-assign_self key {v = row} (record row { value = record row.value { curr = curr } })
        s.world.storage_tx listed)
]

pub storage_tx_update-Undo :
    (key : StorageKey) (value : StorageValue) (s : HostState)
    → Undo s (storage_tx_update key value s)
unfolding storage_tx_update journal_restore entry_kind
storage_tx_update-Undo key value s = elim (Option-cases (lookup key s.world.storage_tx)) [
  | inl missing ↦
      rw (missing, storage_tx_update)
        (Undo-journalled (transaction_storage_listed key.addr)
          (record s.world {
            storage_tx =
                (key, record { value = value; generation = storage_generation s key.addr })
                ∷ s.world.storage_tx;
          })
          s refl (rw (==-refl key.addr) refl))
  | inr (row, listed) ↦
      let changed : StorageTxRow = record row { value = record row.value { curr = value.curr } } in
      let written = storage_value_write key row value.curr s in
      rw (listed, storage_tx_update)
        (Undo-trans s written
          (storage_generation_write key changed (storage_generation s key.addr) written)
          (storage_value_write-Undo key row value.curr s listed)
          (storage_generation_write-Undo key changed (storage_generation s key.addr) written
            (lookup-storage_value_write key row value.curr s listed)))
]

pub lookup-storage_generation_write :
    (key : StorageKey) (row : StorageTxRow) (generation : ℕ) (s : HostState)
    → lookup key s.world.storage_tx ≡ some row
    → lookup key (storage_generation_write key row generation s).world.storage_tx
      ≡ some (record row { generation = generation })
unfolding storage_generation_write
lookup-storage_generation_write key row generation s listed =
    elim (Bool-cases (nat_beq row.generation generation)) [
      | inl same ↦ rw same (
          listed
          ∙ ap (λ g. some (record row { generation = g }))
              ((==_iff row.generation generation).0 same))
      | inr other ↦ rw other (
          lookup-assign_self key {v = row} (record row { generation = generation })
            s.world.storage_tx listed)
    ]
