-- ===== src/Host/AccountUpdate.antt =====
-- `acct_tx_update` and the entries that it notes, one for each field that differs.
use evm_sail.Base.{
  ℕ, ◌≡◌, refl, sym, ap, ◌∙◌, arith, List, [], ◌∷◌, ◌++◌, Option, some, ok, ◌>>=◌, Bool, true,
  false, eqb, ◌==◌ as nat_beq, ==_iff,
}
use evm_sail.Host.Dict.{lookup, assign, assign_twice, assign-lookup, lookup-assign_self, number_key}
use evm_sail.Host.Rows.{Account, AccountTxRow}
use evm_sail.Host.Journal.{
  StateJournalEntry, entry_kind, change, account_balance_changed, account_nonce_changed,
  account_code_hash_changed, account_exists_changed, account_created_changed,
  account_selfdestructed_changed, frame_checkpointed,
}
use evm_sail.Host.State.{World, HostState}
use evm_sail.Host.Restore.{
  journal_restore, restore_all, restore_account, log_after, state_journal_checkpoint,
  state_journal_revert,
}
use evm_sail.Host.Accounts.{note, field_changes, acct_tx_update}
use evm_sail.Host.Undo.{
  Undo, Balanced, Balanced-append, Balanced-change, Balanced-nil, revert_undoes,
}

eqb_iff : (a b : Bool) → eqb a b ≡ true → a ≡ b
eqb_iff a b h = ground arith

-- The world with a row's account in the table.
abbrev pub with_account : ℕ → AccountTxRow → World → Account → World
with_account address row world account = record world {
  account_tx = assign address (record row { current = account }) world.account_tx;
}

module _ (address : ℕ) (row : AccountTxRow) (world : World) where
  restore_account_lem :
      (undo : Account → Account) (account : Account)
      → lookup address world.account_tx ≡ some row
      → restore_account address undo (with_account address row world account)
        ≡ ok (with_account address row world (undo account))
  restore_account_lem undo account listed =
      rw
        (
          lookup-assign_self address {v = row} (record row { current = account }) world.account_tx
              listed,
          restore_account,
        )
        (ap (λ rows. ok (record world { account_tx = rows }))
          (assign_twice address (record row { current = undo account })
            (record row { current = account }) world.account_tx))

  -- A field is restored whether or not it differed, and so has an entry or none.
  restore_note :
      (same : Bool) (entry : StateJournalEntry) (entries : List StateJournalEntry)
      → (undo : Account → Account) → (account : Account)
      → lookup address world.account_tx ≡ some row
      → ((w : World) → journal_restore entry w ≡ restore_account address undo w)
      → (same ≡ true → undo account ≡ account)
      → restore_all (note same entry entries) (with_account address row world account)
        ≡ restore_all entries (with_account address row world (undo account))
  unfolding restore_all
  restore_note true entry entries undo account listed restores kept =
      ap (λ a. restore_all entries (with_account address row world a)) (sym (kept refl))
  restore_note false entry entries undo account listed restores kept =
      ap (λ o. o >>= restore_all entries)
        (restores (with_account address row world account)
          ∙ restore_account_lem undo account listed)

note-append :
    (same : Bool) (entry : StateJournalEntry) (entries journal : List StateJournalEntry)
    → note same entry (entries ++ journal) ≡ note same entry entries ++ journal
note-append true entry entries journal = refl
note-append false entry entries journal = refl

note-Balanced :
    (same : Bool) (entry : StateJournalEntry) (entries : List StateJournalEntry)
    → entry_kind entry ≡ change
    → Balanced entries
    → Balanced (note same entry entries)
note-Balanced true entry entries kind h = h
note-Balanced false entry entries kind h =
    Balanced-append (entry ∷ []) entries (Balanced-change entry kind) h

note_all : List (Bool × StateJournalEntry) → List StateJournalEntry → List StateJournalEntry
note_all [] journal = journal
note_all ((same, entry) ∷ changes) journal = note same entry (note_all changes journal)

note_all-append :
    (changes : List (Bool × StateJournalEntry)) (journal : List StateJournalEntry)
    → note_all changes journal ≡ note_all changes [] ++ journal
unfolding note_all
note_all-append [] journal = refl
note_all-append ((same, entry) ∷ changes) journal =
    ap (note same entry) (note_all-append changes journal)
    ∙ note-append same entry (note_all changes []) journal

module _ (address : ℕ) (prior value : Account) where
  changes_of : List (Bool × StateJournalEntry)
  changes_of =
      (
        eqb prior.selfdestructed value.selfdestructed,
        account_selfdestructed_changed address prior.selfdestructed,
      )
      ∷ (eqb prior.created value.created, account_created_changed address prior.created)
      ∷ (eqb prior.present value.present, account_exists_changed address prior.present)
      ∷ (
        nat_beq prior.info.code_hash value.info.code_hash,
        account_code_hash_changed address prior.info.code_hash,
      )
      ∷ (nat_beq prior.info.nonce value.info.nonce, account_nonce_changed address prior.info.nonce)
      ∷ (
        nat_beq prior.info.balance value.info.balance,
        account_balance_changed address prior.info.balance,
      )
      ∷ []

  pub field_changes-append :
      (journal : List StateJournalEntry)
      → field_changes address prior value journal ≡ field_changes address prior value [] ++ journal
  unfolding field_changes changes_of note_all
  field_changes-append journal = note_all-append changes_of journal

  pub field_changes-Balanced : Balanced (field_changes address prior value [])
  unfolding field_changes entry_kind
  field_changes-Balanced = note-Balanced (eqb prior.selfdestructed value.selfdestructed) _ _ refl (
      note-Balanced (eqb prior.created value.created) _ _ refl (
        note-Balanced (eqb prior.present value.present) _ _ refl (
          note-Balanced (nat_beq prior.info.code_hash value.info.code_hash) _ _ refl (
            note-Balanced (nat_beq prior.info.nonce value.info.nonce) _ _ refl (
              note-Balanced (nat_beq prior.info.balance value.info.balance) _ [] refl
                Balanced-nil)))))

module _ (address : ℕ) (row : AccountTxRow) (value : Account) (world : World) where
  -- All but the clearing mark, which has no entry.
  pub field_changes_unmarked :
      lookup address world.account_tx ≡ some row
      → value.info.storage_root ≡ row.current.info.storage_root
      → restore_all
          (field_changes address row.current value [])
          (with_account address row world value)
        ≡ ok (
            with_account address row world
              (record row.current { storage_cleared = value.storage_cleared }))
  unfolding field_changes journal_restore restore_all
  field_changes_unmarked listed root =
      let p = row.current in
      let v1 : Account = record value { selfdestructed = p.selfdestructed } in
      let v2 : Account = record v1 { created = p.created } in
      let v3 : Account = record v2 { present = p.present } in
      let v4 : Account = record v3 { info = record v3.info { code_hash = p.info.code_hash } } in
      let v5 : Account = record v4 { info = record v4.info { nonce = p.info.nonce } } in
      restore_note address row world (eqb p.selfdestructed value.selfdestructed) _ _
        (λ a. record a { selfdestructed = p.selfdestructed }) value listed (λ w. refl)
        (λ e. ap (λ b. record value { selfdestructed = b }) (eqb_iff _ _ e))
      ∙ restore_note address row world (eqb p.created value.created) _ _
          (λ a. record a { created = p.created }) v1 listed (λ w. refl)
          (λ e. ap (λ b. record v1 { created = b }) (eqb_iff _ _ e))
      ∙ restore_note address row world (eqb p.present value.present) _ _
          (λ a. record a { present = p.present }) v2 listed (λ w. refl)
          (λ e. ap (λ b. record v2 { present = b }) (eqb_iff _ _ e))
      ∙ restore_note address row world (nat_beq p.info.code_hash value.info.code_hash) _ _
          (λ a. record a { info = record a.info { code_hash = p.info.code_hash } }) v3 listed
          (λ w. refl)
          (λ e. ap (λ n. record v3 { info = record v3.info { code_hash = n } }) ((==_iff _ _).0 e))
      ∙ restore_note address row world (nat_beq p.info.nonce value.info.nonce) _ _
          (λ a. record a { info = record a.info { nonce = p.info.nonce } }) v4 listed (λ w. refl)
          (λ e. ap (λ n. record v4 { info = record v4.info { nonce = n } }) ((==_iff _ _).0 e))
      ∙ restore_note address row world (nat_beq p.info.balance value.info.balance) _ []
          (λ a. record a { info = record a.info { balance = p.info.balance } }) v5 listed
          (λ w. refl)
          (λ e. ap (λ n. record v5 { info = record v5.info { balance = n } }) ((==_iff _ _).0 e))
      ∙ ap
          (λ (root : ℕ). ok (
            with_account address row world (record p {
              info = record p.info { storage_root = root };
              storage_cleared = value.storage_cleared;
            })))
          root

  field_changes_restored :
      lookup address world.account_tx ≡ some row
      → value.info.storage_root ≡ row.current.info.storage_root
      → value.storage_cleared ≡ row.current.storage_cleared
      → restore_all
          (field_changes address row.current value [])
          (with_account address row world value)
        ≡ ok world
  field_changes_restored listed root cleared =
      field_changes_unmarked listed root
      ∙ ap (λ b. ok (with_account address row world (record row.current { storage_cleared = b })))
          cleared
      ∙ ap (λ rows. ok (record world { account_tx = rows }))
          (assign-lookup address row world.account_tx listed)

-- The update of a listed row, keeping its storage root and its clearing mark.
pub listed_update-Undo :
    (address : ℕ) (value : Account) (row : AccountTxRow) (s : HostState)
    → lookup address s.world.account_tx ≡ some row
    → value.info.storage_root ≡ row.current.info.storage_root
    → value.storage_cleared ≡ row.current.storage_cleared
    → Undo s (record s {
      world = with_account address row s.world value;
      journal = field_changes address row.current value s.journal;
    })
listed_update-Undo address value row s listed root cleared = record {
  entries = field_changes address row.current value [];
  journal_eq = field_changes-append address row.current value s.journal;
  balanced = field_changes-Balanced address row.current value;
  restores = field_changes_restored address row value s.world listed root cleared;
}

-- A frame that updates a listed account, keeping its storage root and its clearing mark, and is
-- then reverted, gives back the world and the journal exactly.
pub acct_tx_update-state_journal_revert :
    (address : ℕ) (value : Account) (row : AccountTxRow) (s : HostState)
    → lookup address s.world.account_tx ≡ some row
    → value.info.storage_root ≡ row.current.info.storage_root
    → value.storage_cleared ≡ row.current.storage_cleared
    → (log : Option ℕ) × (acct_tx_update address value (state_journal_checkpoint s)
          >>= state_journal_revert
        ≡ ok (record s { current_log = log }))
unfolding state_journal_checkpoint acct_tx_update field_changes
acct_tx_update-state_journal_revert address value row s listed root cleared =
    let undo =
      listed_update-Undo address value row (state_journal_checkpoint s) listed root cleared in
    let t : HostState = record s {
      world = with_account address row s.world value;
      journal = field_changes address row.current value (frame_checkpointed ∷ s.journal);
    } in
    (log_after undo.entries s.current_log, rw (listed, acct_tx_update) (revert_undoes s t undo))
