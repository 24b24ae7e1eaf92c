-- ===== src/Kernel/Steps.antt =====
-- Each operation of a frame on accounts: what undoes it, and the clearing marks after it.
use evm_sail.Base.{
  ℕ, ◌≡◌, refl, sym, ap, ◌∙◌, arith, none, some, Option, Outcome, ok, fatal, raised, ◌>>=◌, true,
  ◌==◌ as nat_beq, Option-cases, Bool-cases, inl, inr,
}
use mathlib.Core.Path.{subst}
use evm_sail.Host.Dict.{lookup, number_key}
use evm_sail.Host.Rows.{Account, AccountTxRow}
use evm_sail.Host.Journal.{StateJournalEntry}
use evm_sail.Host.State.{HostState}
use evm_sail.Host.Slots.{storage_tx_clear}
use evm_sail.Host.Accounts.{
  acct_tx_get, acct_tx_update, account_tx_required, set_account, set_balance_of,
  acct_tx_set_balance, set_nonce_of, acct_tx_set_nonce, set_code_hash_of, acct_tx_set_code_hash,
}
use evm_sail.Host.Undo.{Undo, Undo-trans}
use evm_sail.Host.Undo.Accounts.{
  account_tx_required-Undo, acct_tx_set_balance-Undo, acct_tx_set_nonce-Undo,
  acct_tx_set_code_hash-Undo,
}
use evm_sail.Kernel.Accounts.{cached_account}
use evm_sail.Kernel.Undo.{acct_tx_update-cases, acct_tx_update-Undo, cleared_update-Undo}
use evm_sail.Kernel.Marked.{IsMarked, IsMarked-assign, IsMarked-list}
use evm_sail.Kernel.Cleared.{IsMarked-clear_update}

pub ok_inj : {A : Type 0} {a b : A} → ok a ≡ ok b → a ≡ b
ok_inj e = cc

-- A chain that ends in a value has a value at each link.
pub then_ok :
    {A B : Type 0} (r : Outcome A) (f : A → Outcome B) (b : B)
    → (r >>= f) ≡ ok b
    → (a : A) × (r ≡ ok a) × (f a ≡ ok b)
then_ok (ok a) f b e = (a, refl, e)
then_ok (fatal reason) f b e = absurd cc
then_ok raised f b e = absurd cc

-- The account that is cached is the listed one, or the one of the block.
pub cached_listed :
    (address : ℕ) (s : HostState) (acc : Account) (row : AccountTxRow)
    → cached_account address s ≡ some acc
    → lookup address s.world.account_tx ≡ some row
    → row.current ≡ acc
unfolding cached_account acct_tx_get
cached_listed address s acc row e listed = some_inj (rw (listed, cached_account, acct_tx_get) at e)
  where
    some_inj : {a b : Account} → some a ≡ some b → a ≡ b
    some_inj q = cc

pub cached_unlisted :
    (address : ℕ) (s : HostState) (acc : Account)
    → cached_account address s ≡ some acc
    → lookup address s.world.account_tx ≡ none
    → s.account_block address ≡ some acc
unfolding cached_account acct_tx_get
cached_unlisted address s acc e missing = rw (missing, cached_account, acct_tx_get) at e

module _ (accounts : ℕ → Option Account) where
  -- A state that is undone to an earlier one, with its marks kept.
  abbrev pub IsStep : HostState → HostState → Type 0
  IsStep s t = Undo s t × IsMarked accounts t

  pub IsStep-trans : (s t u : HostState) → IsStep s t → IsStep t u → IsStep s u
  IsStep-trans s t u a b = (Undo-trans s t u a.0 b.0, b.1)

  account_tx_required-IsMarked :
      (address : ℕ) (s u : HostState) (row : AccountTxRow)
      → IsMarked accounts s
      → account_tx_required address s ≡ ok (row, u)
      → IsMarked accounts u × (lookup address u.world.account_tx ≡ some row)
  unfolding account_tx_required
  account_tx_required-IsMarked address s u row h e = (
    elim (Option-cases (lookup address s.world.account_tx)) [
      | inr (found, listed) ↦
          subst (λ p. IsMarked accounts p.1) (ok_inj (rw (listed, account_tx_required) at e)) h
      | inl missing ↦ elim (Option-cases (s.account_block address)) [
        | inl absent ↦ absurd (raised_ne (rw (missing, absent, account_tx_required) at e))
        | inr (block, cached) ↦
            subst (λ p. IsMarked accounts p.1)
              (ok_inj (rw (missing, cached, account_tx_required) at e))
              (IsMarked-list accounts address block block s h missing cached refl)
      ]
    ],
    (account_tx_required-Undo address s u row e).1,
  )
    where
      raised_ne : {p : AccountTxRow × HostState} → raised ≡ ok p → ⊥
      raised_ne q = cc

  set_account-IsMarked :
      (address : ℕ) (entry : StateJournalEntry) (row : AccountTxRow) (value : Account)
      (u : HostState)
      → IsMarked accounts u
      → lookup address u.world.account_tx ≡ some row
      → value.storage_cleared ≡ row.current.storage_cleared
      → IsMarked accounts (set_account address entry row value u)
  set_account-IsMarked address entry row value u h listed kept =
      IsMarked-assign accounts address row value u (set_account address entry row value u) h listed
        kept refl refl refl (omega arith)

  setter-IsMarked :
      (address : ℕ) (change_row : AccountTxRow → HostState → HostState) (s t : HostState)
      → IsMarked accounts s
      → ((row : AccountTxRow) (u : HostState)
          → IsMarked accounts u
          → lookup address u.world.account_tx ≡ some row
          → IsMarked accounts (change_row row u))
      → account_tx_required address s >>= (λ required. ok (change_row required.0 required.1)) ≡ ok t
      → IsMarked accounts t
  setter-IsMarked address change_row s t h keeps e =
      let ((row, u), r, f) =
        then_ok (account_tx_required address s) (λ required. ok (change_row required.0 required.1))
          t e in
      let (m, listed) = account_tx_required-IsMarked address s u row h r in
      subst (λ x. IsMarked accounts x) (ok_inj f) (keeps row u m listed)

  pub acct_tx_set_balance-IsStep :
      (address value : ℕ) (s t : HostState)
      → IsMarked accounts s
      → acct_tx_set_balance address value s ≡ ok t
      → IsStep s t
  unfolding acct_tx_set_balance set_balance_of
  acct_tx_set_balance-IsStep address value s t h e = (
    acct_tx_set_balance-Undo address value s t e,
    setter-IsMarked address (λ row. set_balance_of address value row) s t h
        (λ row u m listed. elim (Bool-cases (nat_beq row.current.info.balance value)) [
          | inl same ↦ rw (same, set_balance_of) m
          | inr other ↦
              rw (other, set_balance_of) (set_account-IsMarked address _ row _ u m listed refl)
        ])
        e,
  )

  pub acct_tx_set_nonce-IsStep :
      (address value : ℕ) (s t : HostState)
      → IsMarked accounts s
      → acct_tx_set_nonce address value s ≡ ok t
      → IsStep s t
  unfolding acct_tx_set_nonce set_nonce_of
  acct_tx_set_nonce-IsStep address value s t h e = (
    acct_tx_set_nonce-Undo address value s t e,
    setter-IsMarked address (λ row. set_nonce_of address value row) s t h
        (λ row u m listed. elim (Bool-cases (nat_beq row.current.info.nonce value)) [
          | inl same ↦ rw (same, set_nonce_of) m
          | inr other ↦
              rw (other, set_nonce_of) (set_account-IsMarked address _ row _ u m listed refl)
        ])
        e,
  )

  pub acct_tx_set_code_hash-IsStep :
      (address value : ℕ) (s t : HostState)
      → IsMarked accounts s
      → acct_tx_set_code_hash address value s ≡ ok t
      → IsStep s t
  unfolding acct_tx_set_code_hash set_code_hash_of
  acct_tx_set_code_hash-IsStep address value s t h e = (
    acct_tx_set_code_hash-Undo address value s t e,
    setter-IsMarked address (λ row. set_code_hash_of address value row) s t h
        (λ row u m listed. elim (Bool-cases (nat_beq row.current.info.code_hash value)) [
          | inl same ↦ rw (same, set_code_hash_of) m
          | inr other ↦
              rw (other, set_code_hash_of) (set_account-IsMarked address _ row _ u m listed refl)
        ])
        e,
  )

  -- An update that keeps the storage root and the clearing mark of the account.
  pub kept_update-IsStep :
      (address : ℕ) (acc value : Account) (s t : HostState)
      → IsMarked accounts s
      → cached_account address s ≡ some acc
      → value.info.storage_root ≡ acc.info.storage_root
      → value.storage_cleared ≡ acc.storage_cleared
      → acct_tx_update address value s ≡ ok t
      → IsStep s t
  kept_update-IsStep address acc value s t h cached root mark e =
      let same = λ (row : AccountTxRow) (listed : lookup address s.world.account_tx ≡ some row).
        sym (cached_listed address s acc row cached listed) in
      (
        acct_tx_update-Undo address value s t
            (λ row listed. (
              root ∙ ap (λ (a : Account). a.info.storage_root) (same row listed),
              mark ∙ ap (λ (a : Account). a.storage_cleared) (same row listed),
            ))
            e,
        elim (acct_tx_update-cases address value s t e) [
          | inl (row, listed, q) ↦
              subst (λ u. IsMarked accounts u) q
                (IsMarked-assign accounts address row value s _ h listed
                  (mark ∙ ap (λ (a : Account). a.storage_cleared) (same row listed)) refl refl refl
                  (omega arith))
          | inr (block, missing, found, q) ↦
              let b : acc ≡ block =
                some_inj (sym (cached_unlisted address s acc cached missing) ∙ found) in
              subst (λ u. IsMarked accounts u) q
                (IsMarked-list accounts address value block s h missing found
                  (mark ∙ ap (λ (a : Account). a.storage_cleared) b))
        ],
      )
    where
      some_inj : {a b : Account} → some a ≡ some b → a ≡ b
      some_inj q = cc

  -- A clearing and an update that marks it and keeps the storage root.
  pub cleared_update-IsStep :
      (address : ℕ) (acc value : Account) (s t : HostState)
      → IsMarked accounts s
      → cached_account address s ≡ some acc
      → value.info.storage_root ≡ acc.info.storage_root
      → value.storage_cleared ≡ true
      → acct_tx_update address value (storage_tx_clear address s) ≡ ok t
      → IsStep s t
  cleared_update-IsStep address acc value s t h cached root mark e = (
    cleared_update-Undo address value s t (h.listed address)
        (λ row listed.
          root
          ∙ ap (λ (a : Account). a.info.storage_root)
              (sym (cached_listed address s acc row cached listed)))
        e,
    IsMarked-clear_update accounts address value s t h mark e,
  )
