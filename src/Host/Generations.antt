-- ===== src/Host/Generations.antt =====
-- Storage generations: `storage_tx_clear`, `storage_tx_update` and `storage_tx_get`.
use evm_sail.Base.{
  ℕ, ◌+◌, ◌≤◌, ◌<◌, ◌≡◌, ◌≢◌, refl, ap, ◌∙◌, arith, [], ◌∷◌, Option, none, some, ◌==◌ as nat_beq,
  ==-refl, Bool-cases, Option-cases, inl, inr,
}
use evm_sail.Host.Dict.{
  StorageKey, Dict, lookup, assign, lookup_head, update_self, update_other, same_key, slot_key,
  number_key,
}
use evm_sail.Host.Rows.{StorageValue, StorageTxRow, storage_tx_hit, storage_tx_cleared}
use evm_sail.Host.State.{HostState, storage_initial_generation}
use evm_sail.Host.Slots.{
  storage_tx_update, slot_lookup, storage_tx_get, storage_tx_clear, storage_value_write,
  storage_generation_write, storage_generation,
}
use evm_sail.Host.Undo.Slots.{lookup-storage_value_write, lookup-storage_generation_write}

-- No row has a generation above the number.
unfoldable pub RowsWithin : ℕ → Dict StorageKey StorageTxRow → Type 0
RowsWithin n [] = Unit
RowsWithin n ((key, row) ∷ rows) = (row.generation ≤ n) × RowsWithin n rows

-- No row and no account has a generation that was not given out yet.
pub record IsFresh (s : HostState) : Type 0 where
  pub initial : storage_initial_generation ≤ s.storage_next_generation
  pub rows : RowsWithin s.storage_next_generation s.world.storage_tx
  pub current : (address : ℕ) → s.world.storage_generations address ≤ s.storage_next_generation

pub RowsWithin-lookup :
    (n : ℕ) (rows : Dict StorageKey StorageTxRow) (key : StorageKey) (row : StorageTxRow)
    → RowsWithin n rows
    → lookup key rows ≡ some row
    → row.generation ≤ n
unfolding RowsWithin
RowsWithin-lookup n [] key row h e = absurd (none_ne e)
  where
    none_ne : {r : StorageTxRow} → none ≡ some r → ⊥
    none_ne p = cc
RowsWithin-lookup n ((other, found) ∷ rows) key row h e = elim (Bool-cases (same_key key other)) [
  | inl same ↦ ground (arith, rw same at e)
  | inr differs ↦ RowsWithin-lookup n rows key row h.1 (rw differs at e)
]

pub RowsWithin-mono :
    (m n : ℕ) (rows : Dict StorageKey StorageTxRow) → m ≤ n → RowsWithin m rows → RowsWithin n rows
unfolding RowsWithin
RowsWithin-mono m n [] h w = w
RowsWithin-mono m n ((key, row) ∷ rows) h w = (omega arith, RowsWithin-mono m n rows h w.1)

pub RowsWithin-assign :
    (n : ℕ) (key : StorageKey) (row : StorageTxRow) (rows : Dict StorageKey StorageTxRow)
    → row.generation ≤ n
    → RowsWithin n rows
    → RowsWithin n (assign key row rows)
unfolding RowsWithin
RowsWithin-assign n key row [] h w = w
RowsWithin-assign n key row ((other, found) ∷ rows) h w = elim (Bool-cases (same_key key other)) [
  | inl same ↦ rw same (h, w.1)
  | inr differs ↦ rw differs (w.0, RowsWithin-assign n key row rows h w.1)
]

stale_lookup :
    (generation : ℕ) (row : Option StorageTxRow)
    → storage_initial_generation < generation
    → ((found : StorageTxRow) → row ≡ some found → found.generation < generation)
    → slot_lookup generation row ≡ storage_tx_cleared
unfolding slot_lookup
stale_lookup generation none h stale = ground arith
stale_lookup generation (some row) h stale = ground (arith, stale row refl)

-- In a state with `IsFresh`, after an account's storage is cleared, every slot of the account reads
-- as cleared, and the slots of every other account read as they did.
pub storage_tx_clear-storage_tx_get :
    (address slot : ℕ) (key : StorageKey) (s : HostState)
    → IsFresh s
    → key.addr ≢ address
    → (storage_tx_get (record { addr = address; slot = slot }) (storage_tx_clear address s)
        ≡ storage_tx_cleared)
      × (storage_tx_get key (storage_tx_clear address s) ≡ storage_tx_get key s)
unfolding storage_tx_get storage_tx_clear
storage_tx_clear-storage_tx_get address slot key s fresh differs =
    let next : ℕ = s.storage_next_generation + 1 in
    let own : StorageKey = record { addr = address; slot = slot } in
    let rows = s.world.storage_tx in
    let generations = s.world.storage_generations in
    (
      ap (λ g. slot_lookup g (lookup own rows)) (update_self generations address next)
          ∙ stale_lookup next (lookup own rows) (omega (arith, fresh.initial))
              (λ found listed. omega (arith, RowsWithin-lookup _ rows own found fresh.rows listed)),
      ap (λ g. slot_lookup g (lookup key rows))
          (update_other generations address key.addr next differs),
    )

live_lookup :
    (row : StorageTxRow) → slot_lookup row.generation (some row) ≡ storage_tx_hit row.value
unfolding slot_lookup
live_lookup row = rw (==-refl row.generation) refl

-- The original value that a written slot keeps.
abbrev pub original_value : StorageKey → StorageValue → HostState → ℕ
original_value key value s = elim (lookup key s.world.storage_tx) [
  | none ↦ value.orig
  | some row ↦ row.value.orig
]

-- Writing a row leaves the generations of the accounts.
writes_keep :
    (key : StorageKey) (row : StorageTxRow) (n : ℕ) (s : HostState)
    → ((storage_value_write key row n s).world.storage_generations ≡ s.world.storage_generations)
      × ((storage_generation_write key row n s).world.storage_generations
          ≡ s.world.storage_generations)
unfolding storage_value_write storage_generation_write
writes_keep key row n s = (
  elim (Bool-cases (nat_beq row.value.curr n)) [
    | inl same ↦ rw same refl
    | inr other ↦ rw other refl
  ],
  elim (Bool-cases (nat_beq row.generation n)) [
    | inl same ↦ rw same refl
    | inr other ↦ rw other refl
  ],
)

storage_tx_update_keeps :
    (key : StorageKey) (value : StorageValue) (s : HostState)
    → (storage_tx_update key value s).world.storage_generations ≡ s.world.storage_generations
unfolding storage_tx_update
storage_tx_update_keeps key value s = elim (Option-cases (lookup key s.world.storage_tx)) [
  | inl missing ↦ rw (missing, storage_tx_update) refl
  | inr (row, listed) ↦
      let changed : StorageTxRow = record row { value = record row.value { curr = value.curr } } in
      rw (listed, storage_tx_update)
        ((writes_keep key changed (storage_generation s key.addr)
            (storage_value_write key row value.curr s)).1
          ∙ (writes_keep key row value.curr s).0)
]

lookup-storage_tx_update :
    (key : StorageKey) (value : StorageValue) (s : HostState)
    → lookup key (storage_tx_update key value s).world.storage_tx
      ≡ some (record {
        value = record { curr = value.curr; orig = original_value key value s };
        generation = storage_generation s key.addr;
      })
unfolding storage_tx_update
lookup-storage_tx_update key value s = elim (Option-cases (lookup key s.world.storage_tx)) [
  | inl missing ↦
      rw (missing, storage_tx_update, original_value)
        (lookup_head key (record { value = value; generation = storage_generation s key.addr })
          s.world.storage_tx)
  | inr (row, listed) ↦
      rw (listed, storage_tx_update, original_value)
        (lookup-storage_generation_write key
          (record row { value = record row.value { curr = value.curr } })
          (storage_generation s key.addr) (storage_value_write key row value.curr s)
          (lookup-storage_value_write key row value.curr s listed))
]

-- A slot that is written reads as a hit: with the value written, and with the original value of
-- its row, which is the one given where the transaction had no row.
pub storage_tx_update-storage_tx_get :
    (key : StorageKey) (value : StorageValue) (s : HostState)
    → storage_tx_get key (storage_tx_update key value s)
      ≡ storage_tx_hit (record { curr = value.curr; orig = original_value key value s })
unfolding storage_tx_get
storage_tx_update-storage_tx_get key value s =
    let written : StorageTxRow = record {
      value = record { curr = value.curr; orig = original_value key value s };
      generation = storage_generation s key.addr;
    } in
    ap (slot_lookup (storage_generation (storage_tx_update key value s) key.addr))
      (lookup-storage_tx_update key value s)
    ∙ ap (λ (g : ℕ → ℕ). slot_lookup (g key.addr) (some written))
        (storage_tx_update_keeps key value s)
    ∙ live_lookup written
