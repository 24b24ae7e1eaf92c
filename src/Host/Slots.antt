-- ===== src/Host/Slots.antt =====
-- Slots: transient and transaction storage, and the warm marks of slots and addresses, of
-- extractions/python/contract/HostContract.py.
use evm_sail.Base.{
  ℕ, ◌+◌, [], ◌∷◌, Option, none, some, Bool, true, false, not, ◌||◌, ◌&&◌, ltb, leb,
  ◌==◌ as nat_beq, if◌then◌else◌,
}
use evm_sail.Host.Dict.{StorageKey, Dict, update, lookup, assign, slot_key, number_key}
use evm_sail.Host.Rows.{
  StorageValue, StorageTxRow, StorageTxLookup, storage_tx_hit, storage_tx_cleared, storage_tx_miss,
}
use evm_sail.Host.Journal.{
  transient_changed, warm_account_changed, warm_storage_changed, transaction_storage_listed,
  storage_value_changed, storage_row_generation_changed, account_storage_generation_changed,
}
use evm_sail.Host.State.{World, HostState, storage_initial_generation, journalled}

unfoldable pub transient_reset : HostState → HostState
transient_reset state = record state { world = record state.world { transient = λ key. 0 } }

unfoldable pub transient_store : ℕ → ℕ → ℕ → HostState → HostState
transient_store address slot value state =
    let key : StorageKey = record { addr = address; slot = slot } in
    journalled (transient_changed address slot (state.world.transient key))
      (record state.world { transient = update state.world.transient key value }) state

unfoldable pub transient_load : ℕ → ℕ → HostState → ℕ
transient_load address slot state = state.world.transient (record { addr = address; slot = slot })

unfoldable pub warm_reset : ℕ → HostState → HostState
warm_reset epoch state = record state { current_warm_epoch = epoch + 1 }

unfoldable pub account_is_warm : ℕ → HostState → Bool
account_is_warm address state = leb state.current_warm_epoch (state.world.warm_addresses address)

unfoldable pub account_mark_warm : ℕ → HostState → HostState
account_mark_warm address state =
    let stamp = state.world.warm_addresses address in
    if ltb stamp state.current_warm_epoch
    then journalled (warm_account_changed address stamp)
        (record state.world {
          warm_addresses = update state.world.warm_addresses address state.current_warm_epoch;
        })
        state
    else state

unfoldable pub storage_is_warm : StorageKey → HostState → Bool
storage_is_warm key state = leb state.current_warm_epoch (state.world.warm_slots key)

unfoldable pub storage_mark_warm : StorageKey → HostState → HostState
storage_mark_warm key state =
    let stamp = state.world.warm_slots key in
    if ltb stamp state.current_warm_epoch
    then journalled (warm_storage_changed key stamp)
        (record state.world {
          warm_slots = update state.world.warm_slots key state.current_warm_epoch;
        })
        state
    else state

abbrev pub storage_generation : HostState → ℕ → ℕ
storage_generation state address = state.world.storage_generations address

abbrev pub write_row : StorageKey → StorageTxRow → World → World
write_row key row world = record world { storage_tx = assign key row world.storage_tx }

-- The two parts of `storage_tx_update` that a listed row goes through.
unfoldable pub storage_value_write : StorageKey → StorageTxRow → ℕ → HostState → HostState
storage_value_write key row curr state =
    if nat_beq row.value.curr curr
    then state
    else journalled (storage_value_changed key row.value.curr)
        (write_row key (record row { value = record row.value { curr = curr } }) state.world) state

unfoldable pub storage_generation_write : StorageKey → StorageTxRow → ℕ → HostState → HostState
storage_generation_write key row generation state =
    if nat_beq row.generation generation
    then state
    else journalled (storage_row_generation_changed key row.generation)
        (write_row key (record row { generation = generation }) state.world) state

unfoldable pub storage_tx_update : StorageKey → StorageValue → HostState → HostState
storage_tx_update key value state =
    let generation = storage_generation state key.addr in
    elim (lookup key state.world.storage_tx) [
      | none ↦
          journalled (transaction_storage_listed key.addr)
            (record state.world {
              storage_tx =
                  (key, record { value = value; generation = generation }) ∷ state.world.storage_tx;
            })
            state
      | some row ↦
          storage_generation_write key
            (record row { value = record row.value { curr = value.curr } }) generation
            (storage_value_write key row value.curr state)
    ]

-- What `storage_tx_get` answers, for the account's generation and the slot's row.
unfoldable pub slot_lookup : ℕ → Option StorageTxRow → StorageTxLookup
slot_lookup generation none =
    if nat_beq generation storage_initial_generation then storage_tx_miss else storage_tx_cleared
slot_lookup generation (some row) =
    if nat_beq row.generation generation
    then storage_tx_hit row.value
    else if nat_beq generation storage_initial_generation
    then storage_tx_miss
    else storage_tx_cleared

unfoldable pub storage_tx_get : StorageKey → HostState → StorageTxLookup
storage_tx_get key state =
    slot_lookup (storage_generation state key.addr) (lookup key state.world.storage_tx)

-- The loop of `storage_tx_pop`: the newest row whose generation is current, and the older rows.
unfoldable pub pop_live :
    (ℕ → ℕ)
    → Dict StorageKey StorageTxRow
    → Option (StorageKey × StorageValue) × Dict StorageKey StorageTxRow
pop_live generations [] = (none, [])
pop_live generations ((key, row) ∷ rows) =
    let rest = pop_live generations rows in
    if nat_beq row.generation (generations key.addr) then (some (key, row.value), rows) else rest

-- `none` is `StorageTxPopExhausted`.
unfoldable pub storage_tx_pop : HostState → Option (StorageKey × StorageValue) × HostState
storage_tx_pop state =
    let popped = pop_live state.world.storage_generations state.world.storage_tx in
    (popped.0, record state { world = record state.world { storage_tx = popped.1 } })

unfoldable pub storage_tx_clear : ℕ → HostState → HostState
storage_tx_clear address state =
    let next = state.storage_next_generation + 1 in
    record (journalled
      (account_storage_generation_changed address (storage_generation state address))
      (record state.world {
        storage_generations = update state.world.storage_generations address next;
      })
      state) { storage_next_generation = next }

unfoldable pub storage_tx_reset : HostState → HostState
storage_tx_reset state = record state {
  world = record state.world {
    storage_tx = [];
    storage_generations = λ address. storage_initial_generation;
  };
  storage_next_generation = storage_initial_generation;
}

-- The two `any` of `storage_has_writes`.
abbrev pub live_write : ℕ → ℕ → Dict StorageKey StorageTxRow → Bool
live_write address generation [] = false
live_write address generation ((key, row) ∷ rows) =
    (nat_beq key.addr address
      && (nat_beq row.generation generation && not (nat_beq row.value.curr 0)))
    || live_write address generation rows

abbrev pub block_write : ℕ → Dict StorageKey StorageValue → Bool
block_write address [] = false
block_write address ((key, value) ∷ rows) =
    (nat_beq key.addr address && not (nat_beq value.curr 0)) || block_write address rows

unfoldable pub storage_has_writes : ℕ → HostState → Bool
storage_has_writes address state =
    let generation = storage_generation state address in
    if live_write address generation state.world.storage_tx
    then true
    else if not (nat_beq generation storage_initial_generation)
    then false
    else block_write address state.storage_block
