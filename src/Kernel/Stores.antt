-- ===== src/Kernel/Stores.antt =====
-- `store_account_info`, `k_clear_storage`, `k_mark_created` and `k_selfdestruct` on an account that
-- is cached.
use evm_sail.Base.{
  ℕ, ◌≡◌, refl, sym, ap, ◌∙◌, arith, some, Option, Outcome, ok, not, Bool, true, false,
  ◌==◌ as nat_beq, Bool-cases, inl, inr, if◌then◌else◌, if_true, if_false,
}
use mathlib.Core.Path.{subst}
use evm_sail.Host.Dict.{number_key}
use evm_sail.Host.Rows.{Account, AccountInfo}
use evm_sail.Host.State.{HostState}
use evm_sail.Host.Slots.{storage_tx_clear}
use evm_sail.Host.Accounts.{
  acct_tx_update, acct_tx_set_balance, acct_tx_set_nonce, acct_tx_set_code_hash,
}
use evm_sail.Host.Undo.{Undo-refl}
use evm_sail.Host.Clearing.{storage_tx_clear-Undo}
use evm_sail.Kernel.Accounts.{
  cached_account, account_info_empty, account_set_info, emptied, account_clear_storage, rewrites,
  set_fields, store_account_info, k_clear_storage, k_mark_created, k_selfdestruct,
}
use evm_sail.Kernel.Marked.{IsMarked}
use evm_sail.Kernel.Cleared.{IsMarked-clear}
use evm_sail.Kernel.Steps.{
  IsStep, IsStep-trans, ok_inj, then_ok, acct_tx_set_balance-IsStep, acct_tx_set_nonce-IsStep,
  acct_tx_set_code_hash-IsStep, cached_listed, cached_unlisted, kept_update-IsStep,
  cleared_update-IsStep,
}

-- The two ends of `store_account_info`, by whether the new account is empty.
store_account_info-value :
    (address : ℕ) (acc : Account) (info : AccountInfo) (s : HostState)
    → store_account_info address acc info s ≡ (
        if account_info_empty info
        then (if rewrites acc (emptied acc)
            then acct_tx_update address (emptied acc) (storage_tx_clear address s)
            else set_fields address acc (emptied acc) (storage_tx_clear address s))
        else (if rewrites acc (record acc { info = info; present = true })
            then acct_tx_update address (record acc { info = info; present = true }) s
            else set_fields address acc (record acc { info = info; present = true }) s))
unfolding store_account_info account_set_info
store_account_info-value address acc info s = elim (Bool-cases (account_info_empty info)) [
  | inl e ↦ rw e refl
  | inr e ↦ rw e refl
]

module _ (accounts : ℕ → Option Account) where
  -- A setter that is left out where the field is the same.
  optional-IsStep :
      (same : Bool) (r : Outcome HostState) (s t : HostState)
      → IsMarked accounts s
      → (r ≡ ok t → IsStep accounts s t)
      → (if same then ok s else r) ≡ ok t
      → IsStep accounts s t
  optional-IsStep true r s t h step e = subst (λ u. IsStep accounts s u) (ok_inj e) (Undo-refl s, h)
  optional-IsStep false r s t h step e = step e

  set_fields-IsStep :
      (address : ℕ) (acc next : Account) (s t : HostState)
      → IsMarked accounts s
      → set_fields address acc next s ≡ ok t
      → IsStep accounts s t
  unfolding set_fields
  set_fields-IsStep address acc next s t h e =
      let (s1, e1, f1) = then_ok _ _ t e in
      let (s2, e2, f2) = then_ok _ _ t f1 in
      let step1 =
        optional-IsStep (nat_beq next.info.balance acc.info.balance)
          (acct_tx_set_balance address next.info.balance s) s s1 h
          (λ q. acct_tx_set_balance-IsStep accounts address next.info.balance s s1 h q) e1 in
      let step2 =
        optional-IsStep (nat_beq next.info.nonce acc.info.nonce)
          (acct_tx_set_nonce address next.info.nonce s1) s1 s2 step1.1
          (λ q. acct_tx_set_nonce-IsStep accounts address next.info.nonce s1 s2 step1.1 q) e2 in
      let step3 =
        optional-IsStep (nat_beq next.info.code_hash acc.info.code_hash)
          (acct_tx_set_code_hash address next.info.code_hash s2) s2 t step2.1
          (λ q. acct_tx_set_code_hash-IsStep accounts address next.info.code_hash s2 t step2.1 q)
          f2 in
      IsStep-trans accounts s s1 t step1 (IsStep-trans accounts s1 s2 t step2 step3)

  -- A clearing on its own, of an account that is marked as cleared.
  clear-IsStep :
      (address : ℕ) (acc : Account) (s : HostState)
      → IsMarked accounts s
      → cached_account address s ≡ some acc
      → acc.storage_cleared ≡ true
      → IsStep accounts s (storage_tx_clear address s)
  clear-IsStep address acc s h cached mark = (
    storage_tx_clear-Undo address s (h.listed address),
    IsMarked-clear accounts address s h
        (λ row listed.
          ap (λ (a : Account). a.storage_cleared) (cached_listed address s acc row cached listed)
          ∙ mark)
        (λ block missing found.
          ap (λ (a : Account). a.storage_cleared)
            (some_inj (sym found ∙ cached_unlisted address s acc cached missing))
          ∙ mark),
  )
    where
      some_inj : {a b : Account} → some a ≡ some b → a ≡ b
      some_inj q = cc

  pub store_account_info-IsStep :
      (address : ℕ) (acc : Account) (info : AccountInfo) (s t : HostState)
      → IsMarked accounts s
      → cached_account address s ≡ some acc
      → info.storage_root ≡ acc.info.storage_root
      → store_account_info address acc info s ≡ ok t
      → IsStep accounts s t
  store_account_info-IsStep address acc info s t h cached root e =
      let value = sym (store_account_info-value address acc info s) ∙ e in
      let changed : Account = record acc { info = info; present = true } in
      elim (Bool-cases (account_info_empty info)) [
        | inl empty ↦
            let v = sym (if_true (account_info_empty info) _ _ empty) ∙ value in
            elim (Bool-cases (rewrites acc (emptied acc))) [
              | inl r ↦
                  cleared_update-IsStep accounts address acc (emptied acc) s t h cached refl refl
                    (sym (if_true (rewrites acc (emptied acc)) _ _ r) ∙ v)
              | inr r ↦
                  let step = clear-IsStep address acc s h cached (ground (arith, r)) in
                  IsStep-trans accounts s (storage_tx_clear address s) t step (
                    set_fields-IsStep address acc (emptied acc) (storage_tx_clear address s) t
                      step.1 (sym (if_false (rewrites acc (emptied acc)) _ _ r) ∙ v))
            ]
        | inr full ↦
            let v = sym (if_false (account_info_empty info) _ _ full) ∙ value in
            elim (Bool-cases (rewrites acc changed)) [
              | inl r ↦
                  kept_update-IsStep accounts address acc changed s t h cached root refl
                    (sym (if_true (rewrites acc changed) _ _ r) ∙ v)
              | inr r ↦
                  set_fields-IsStep address acc changed s t h
                    (sym (if_false (rewrites acc changed) _ _ r) ∙ v)
            ]
      ]

  pub k_clear_storage-IsStep :
      (address : ℕ) (cur : Account) (s t : HostState)
      → IsMarked accounts s
      → cached_account address s ≡ some cur
      → k_clear_storage address cur s ≡ ok t
      → IsStep accounts s t
  unfolding k_clear_storage
  k_clear_storage-IsStep address cur s t h cached e =
      cleared_update-IsStep accounts address cur (account_clear_storage cur) s t h cached refl refl
        e

  pub k_mark_created-IsStep :
      (address : ℕ) (cur : Account) (s t : HostState)
      → IsMarked accounts s
      → cached_account address s ≡ some cur
      → k_mark_created address cur s ≡ ok t
      → IsStep accounts s t
  unfolding k_mark_created
  k_mark_created-IsStep address cur s t h cached e =
      kept_update-IsStep accounts address cur (record cur { created = true }) s t h cached refl refl
        e

  pub k_selfdestruct-IsStep :
      (address : ℕ) (cur : Account) (s t : HostState)
      → IsMarked accounts s
      → cached_account address s ≡ some cur
      → k_selfdestruct address cur s ≡ ok t
      → IsStep accounts s t
  unfolding k_selfdestruct
  k_selfdestruct-IsStep address cur s t h cached e = elim (Bool-cases cur.selfdestructed) [
    | inl gone ↦
        subst (λ u. IsStep accounts s u)
          (ok_inj (sym (if_false (not cur.selfdestructed) _ _ (ap not gone)) ∙ e)) (Undo-refl s, h)
    | inr there ↦
        kept_update-IsStep accounts address cur (record cur { selfdestructed = true }) s t h cached
          refl refl (sym (if_true (not cur.selfdestructed) _ _ (ap not there)) ∙ e)
  ]
