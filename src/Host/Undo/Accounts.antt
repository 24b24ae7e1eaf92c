-- ===== src/Host/Undo/Accounts.antt =====
-- The setters of an account and the entries that undo them.
use evm_sail.Base.{
  ℕ, ◌≡◌, refl, ap, ◌∙◌, ◌∷◌, some, Outcome, ok, fatal, raised, ◌>>=◌, ◌==◌ as nat_beq, ==-refl,
  Bool-cases, Option-cases, inl, inr,
}
use mathlib.Core.Path.{subst}
use evm_sail.Host.Dict.{lookup, assign, assign-assign, lookup-assign_self, number_key}
use evm_sail.Host.Rows.{Account, AccountTxRow}
use evm_sail.Host.Journal.{
  StateJournalEntry, change, entry_kind, account_balance_changed, account_nonce_changed,
  account_code_hash_changed, transaction_account_listed,
}
use evm_sail.Host.State.{World, HostState}
use evm_sail.Host.Restore.{journal_restore, restore_account}
use evm_sail.Host.Accounts.{
  account_tx_required, set_account, set_balance_of, acct_tx_set_balance, set_nonce_of,
  acct_tx_set_nonce, set_code_hash_of, acct_tx_set_code_hash,
}
use evm_sail.Host.Undo.{Undo, Undo-refl, Undo-trans, Undo-journalled}

ok_inj : {A : Type 0} {a b : A} → ok a ≡ ok b → a ≡ b
ok_inj h = cc

-- The row that a setter works on is the transaction's, and listing it is undone.
pub account_tx_required-Undo :
    (address : ℕ) (s t : HostState) (row : AccountTxRow)
    → account_tx_required address s ≡ ok (row, t)
    → Undo s t × (lookup address t.world.account_tx ≡ some row)
unfolding account_tx_required journal_restore entry_kind
account_tx_required-Undo address s t row h =
    elim (Option-cases (lookup address s.world.account_tx)) [
      | inr (found, listed) ↦
          let e = ok_inj (rw (listed, account_tx_required) at h) in
          subst (λ p. Undo s p.1 × (lookup address p.1.world.account_tx ≡ some p.0)) e
            (Undo-refl s, listed)
      | inl missing ↦ elim (Option-cases (s.account_block address)) [
        | inl absent ↦ absurd (raised_ne (rw (missing, absent, account_tx_required) at h))
        | inr (block, cached) ↦
            let e = ok_inj (rw (missing, cached, account_tx_required) at h) in
            subst (λ p. Undo s p.1 × (lookup address p.1.world.account_tx ≡ some p.0)) e
              (
                Undo-journalled transaction_account_listed
                    (record s.world {
                      account_tx =
                          (address, record { current = block; original = block })
                          ∷ s.world.account_tx;
                    })
                    s refl refl,
                rw (==-refl address) refl,
              )
      ]
    ]
  where
    raised_ne : {p : AccountTxRow × HostState} → raised ≡ ok p → ⊥
    raised_ne e = cc

set_account-Undo :
    (address : ℕ) (entry : StateJournalEntry)
    → (undo : Account → Account) → (row : AccountTxRow) (value : Account) (s : HostState)
    → entry_kind entry ≡ change
    → ((world : World) → journal_restore entry world ≡ restore_account address undo world)
    → lookup address s.world.account_tx ≡ some row
    → undo value ≡ row.current
    → Undo s (set_account address entry row value s)
set_account-Undo address entry undo row value s kind restores listed undone =
    let written : AccountTxRow = record row { current = value } in
    let world : World = record s.world { account_tx = assign address written s.world.account_tx } in
    Undo-journalled entry world s kind (
      restores world
      ∙ rw (lookup-assign_self address {v = row} written s.world.account_tx listed, restore_account)
          (ap
              (λ a. ok (record s.world {
                account_tx =
                    assign address (record row { current = a })
                      (assign address written s.world.account_tx);
              }))
              undone
            ∙ ap (λ rows. ok (record s.world { account_tx = rows }))
                (assign-assign address row written s.world.account_tx listed)))

-- A setter is undone if the change that it makes to the row is.
setter-Undo :
    (address : ℕ)
    → (change_row : AccountTxRow → HostState → HostState) → (s t : HostState)
    → ((row : AccountTxRow) (u : HostState)
        → lookup address u.world.account_tx ≡ some row
        → Undo u (change_row row u))
    → account_tx_required address s >>= (λ required. ok (change_row required.0 required.1)) ≡ ok t
    → Undo s t
setter-Undo address change_row s t undone h = go (account_tx_required address s) refl h
  where
    go :
        (o : Outcome (AccountTxRow × HostState))
        → account_tx_required address s ≡ o
        → o >>= (λ required. ok (change_row required.0 required.1)) ≡ ok t
        → Undo s t
    go (ok (row, u)) e p =
        let required = account_tx_required-Undo address s u row e in
        subst (λ v. Undo s v) (ok_inj p)
          (Undo-trans s u (change_row row u) required.0 (undone row u required.1))
    go (fatal reason) e p = absurd (fatal_ne p)
      where
        fatal_ne : {x : HostState} → fatal reason ≡ ok x → ⊥
        fatal_ne q = cc
    go raised e p = absurd (raised_ne p)
      where
        raised_ne : {x : HostState} → raised ≡ ok x → ⊥
        raised_ne q = cc

pub acct_tx_set_balance-Undo :
    (address value : ℕ) (s t : HostState) → acct_tx_set_balance address value s ≡ ok t → Undo s t
unfolding acct_tx_set_balance set_balance_of journal_restore entry_kind
acct_tx_set_balance-Undo address value s t h =
    setter-Undo address (λ row. set_balance_of address value row) s t write h
  where
    write :
        (row : AccountTxRow) (u : HostState)
        → lookup address u.world.account_tx ≡ some row
        → Undo u (set_balance_of address value row u)
    write row u listed = elim (Bool-cases (nat_beq row.current.info.balance value)) [
      | inl same ↦ rw (same, set_balance_of) (Undo-refl u)
      | inr other ↦
          rw (other, set_balance_of)
            (set_account-Undo address (account_balance_changed address row.current.info.balance)
              (λ account. record account {
                info = record account.info { balance = row.current.info.balance };
              })
              row (record row.current { info = record row.current.info { balance = value } }) u refl
              (λ world. refl) listed refl)
    ]

pub acct_tx_set_nonce-Undo :
    (address value : ℕ) (s t : HostState) → acct_tx_set_nonce address value s ≡ ok t → Undo s t
unfolding acct_tx_set_nonce set_nonce_of journal_restore entry_kind
acct_tx_set_nonce-Undo address value s t h =
    setter-Undo address (λ row. set_nonce_of address value row) s t write h
  where
    write :
        (row : AccountTxRow) (u : HostState)
        → lookup address u.world.account_tx ≡ some row
        → Undo u (set_nonce_of address value row u)
    write row u listed = elim (Bool-cases (nat_beq row.current.info.nonce value)) [
      | inl same ↦ rw (same, set_nonce_of) (Undo-refl u)
      | inr other ↦
          rw (other, set_nonce_of)
            (set_account-Undo address (account_nonce_changed address row.current.info.nonce)
              (λ account. record account {
                info = record account.info { nonce = row.current.info.nonce };
              })
              row (record row.current { info = record row.current.info { nonce = value } }) u refl
              (λ world. refl) listed refl)
    ]

pub acct_tx_set_code_hash-Undo :
    (address value : ℕ) (s t : HostState) → acct_tx_set_code_hash address value s ≡ ok t → Undo s t
unfolding acct_tx_set_code_hash set_code_hash_of journal_restore entry_kind
acct_tx_set_code_hash-Undo address value s t h =
    setter-Undo address (λ row. set_code_hash_of address value row) s t write h
  where
    write :
        (row : AccountTxRow) (u : HostState)
        → lookup address u.world.account_tx ≡ some row
        → Undo u (set_code_hash_of address value row u)
    write row u listed = elim (Bool-cases (nat_beq row.current.info.code_hash value)) [
      | inl same ↦ rw (same, set_code_hash_of) (Undo-refl u)
      | inr other ↦
          rw (other, set_code_hash_of)
            (set_account-Undo address (account_code_hash_changed address row.current.info.code_hash)
              (λ account. record account {
                info = record account.info { code_hash = row.current.info.code_hash };
              })
              row (record row.current { info = record row.current.info { code_hash = value } }) u
              refl (λ world. refl) listed refl)
    ]
