-- ===== src/Host/Freshness.antt =====
-- The generations given out by `storage_next_generation`, under the operations on slots.
use evm_sail.Base.{ℕ, ◌≤◌, ◌≡◌, refl, arith, ◌==◌ as nat_beq, Bool-cases, Option-cases, inl, inr}
use evm_sail.Host.Dict.{StorageKey, lookup, same_key, number_key, slot_key}
use evm_sail.Host.Rows.{StorageValue, StorageTxRow}
use evm_sail.Host.State.{HostState}
use evm_sail.Host.Slots.{
  storage_tx_update, storage_tx_clear, storage_tx_reset, storage_value_write,
  storage_generation_write, storage_generation, write_row,
}
use evm_sail.Host.Generations.{
  RowsWithin, IsFresh, RowsWithin-lookup, RowsWithin-mono, RowsWithin-assign,
}

write_row-IsFresh :
    (key : StorageKey) (row : StorageTxRow) (s t : HostState)
    → IsFresh s
    → row.generation ≤ s.storage_next_generation
    → t.world ≡ write_row key row s.world
    → t.storage_next_generation ≡ s.storage_next_generation
    → IsFresh t
write_row-IsFresh key row s t fresh within w n = record {
  initial = omega (arith, fresh.initial);
  rows =
      rw (w, n)
        (RowsWithin-assign s.storage_next_generation key row s.world.storage_tx within fresh.rows);
  current = λ address. rw (w, n) (fresh.current address);
}

storage_value_write-IsFresh :
    (key : StorageKey) (row : StorageTxRow) (curr : ℕ) (s : HostState)
    → IsFresh s
    → row.generation ≤ s.storage_next_generation
    → IsFresh (storage_value_write key row curr s)
      × ((storage_value_write key row curr s).storage_next_generation ≡ s.storage_next_generation)
unfolding storage_value_write
storage_value_write-IsFresh key row curr s fresh within =
    elim (Bool-cases (nat_beq row.value.curr curr)) [
      | inl same ↦ rw same (fresh, refl)
      | inr other ↦ rw other (
        write_row-IsFresh key (record row { value = record row.value { curr = curr } }) s _ fresh
            within refl refl,
        refl,
      )
    ]

storage_generation_write-IsFresh :
    (key : StorageKey) (row : StorageTxRow) (generation : ℕ) (s : HostState)
    → IsFresh s
    → generation ≤ s.storage_next_generation
    → IsFresh (storage_generation_write key row generation s)
unfolding storage_generation_write
storage_generation_write-IsFresh key row generation s fresh within =
    elim (Bool-cases (nat_beq row.generation generation)) [
      | inl same ↦ rw same fresh
      | inr other ↦ rw other (
          write_row-IsFresh key (record row { generation = generation }) s _ fresh within refl refl)
    ]

storage_tx_update-IsFresh :
    (key : StorageKey) (value : StorageValue) (s : HostState)
    → IsFresh s
    → IsFresh (storage_tx_update key value s)
unfolding storage_tx_update RowsWithin
storage_tx_update-IsFresh key value s fresh = elim (Option-cases (lookup key s.world.storage_tx)) [
  | inl missing ↦
      rw (missing, storage_tx_update)
        (record {
          initial = fresh.initial;
          rows = (fresh.current key.addr, fresh.rows);
          current = fresh.current;
        })
  | inr (row, listed) ↦
      let written =
        storage_value_write-IsFresh key row value.curr s fresh
          (RowsWithin-lookup _ s.world.storage_tx key row fresh.rows listed) in
      rw (listed, storage_tx_update)
        (storage_generation_write-IsFresh key
          (record row { value = record row.value { curr = value.curr } })
          (storage_generation s key.addr) (storage_value_write key row value.curr s) written.0
          (omega (arith, written.1, fresh.current key.addr)))
]

-- No row and no account has a generation that was not given out yet: that holds of a state whose
-- slots were reset, and writing a slot and clearing an account's storage keep it.
pub storage_tx_reset-IsFresh :
    (key : StorageKey) (value : StorageValue) (address : ℕ) (reset s : HostState)
    → IsFresh s
    → IsFresh (storage_tx_reset reset)
      × IsFresh (storage_tx_update key value s)
      × IsFresh (storage_tx_clear address s)
unfolding storage_tx_reset storage_tx_clear RowsWithin
storage_tx_reset-IsFresh key value address reset s fresh = (
  record { initial = omega arith; rows = tt; current = λ other. omega arith },
  storage_tx_update-IsFresh key value s fresh,
  record {
    initial = omega (arith, fresh.initial);
    rows = RowsWithin-mono _ _ s.world.storage_tx (omega arith) fresh.rows;
    current = λ other. elim (Bool-cases (same_key other address)) [
      | inl same ↦ rw same (omega arith)
      | inr differs ↦ rw differs (omega (arith, fresh.current other))
    ];
  },
)
