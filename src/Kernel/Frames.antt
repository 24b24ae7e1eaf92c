-- ===== src/Kernel/Frames.antt =====
-- The frames of kernel/lifecycle.py with the kernel's changes of accounts: those that empty, fund,
-- clear, create and destroy an account besides the operations of Host/Frames.
use evm_sail.Base.{ℕ, ◌≡◌, refl, sym, ap, ◌∙◌, arith, Option, some, ok}
use mathlib.Core.Path.{subst}
use evm_sail.Host.Rows.{Account}
use evm_sail.Host.State.{HostState}
use evm_sail.Host.Restore.{
  log_after, state_journal_checkpoint, state_journal_revert, state_journal_commit,
}
use evm_sail.Host.Undo.{Undo, Undo-refl, revert_undoes, commit_found}
use evm_sail.Host.Frames.{Operation, perform, perform-Undo, committed-Undo, reverted-Undo}
use evm_sail.Kernel.Accounts.{
  cached_account, store_account_info, k_clear_storage, k_mark_created, k_selfdestruct,
}
use evm_sail.Kernel.Marked.{IsMarked, IsMarked-same}
use evm_sail.Kernel.Steps.{IsStep, IsStep-trans, ok_inj}
use evm_sail.Kernel.Stores.{
  store_account_info-IsStep, k_clear_storage-IsStep, k_mark_created-IsStep, k_selfdestruct-IsStep,
}
use evm_sail.Kernel.Untouched.{perform-IsMarked}

-- A step of a frame. A change of an account has the account that `k_aload` answers; one of its
-- information keeps the storage root, as in every caller of `store_account_info`.
pub data FrameStep : HostState → HostState → Type 0 where
  performed : (op : Operation) (s t : HostState) → perform op s ≡ ok t → FrameStep s t
  stored :
      (address nonce balance code_hash : ℕ) (acc : Account) (s t : HostState)
      → cached_account address s ≡ some acc
      → store_account_info address acc
          (record acc.info { nonce = nonce; balance = balance; code_hash = code_hash })
          s
        ≡ ok t
      → FrameStep s t
  cleared :
      (address : ℕ) (acc : Account) (s t : HostState)
      → cached_account address s ≡ some acc
      → k_clear_storage address acc s ≡ ok t
      → FrameStep s t
  created :
      (address : ℕ) (acc : Account) (s t : HostState)
      → cached_account address s ≡ some acc
      → k_mark_created address acc s ≡ ok t
      → FrameStep s t
  destroyed :
      (address : ℕ) (acc : Account) (s t : HostState)
      → cached_account address s ≡ some acc
      → k_selfdestruct address acc s ≡ ok t
      → FrameStep s t

-- A run of a frame from one state to another, with frames nested in it.
pub data FrameRun : HostState → HostState → Type 0 where
  finished : (s : HostState) → FrameRun s s
  stepped : (s t u : HostState) → FrameStep s t → FrameRun t u → FrameRun s u
  frame_kept :
      (s t u v : HostState)
      → FrameRun (state_journal_checkpoint s) t
      → state_journal_commit t ≡ ok u
      → FrameRun u v
      → FrameRun s v
  frame_undone :
      (s t u v : HostState)
      → FrameRun (state_journal_checkpoint s) t
      → state_journal_revert t ≡ ok u
      → FrameRun u v
      → FrameRun s v

module _ (accounts : ℕ → Option Account) where
  FrameStep-IsStep : (s t : HostState) → IsMarked accounts s → FrameStep s t → IsStep accounts s t
  FrameStep-IsStep _ _ h (performed op s t e) =
      (perform-Undo op s t e, perform-IsMarked accounts op s t h e)
  FrameStep-IsStep _ _ h (stored address nonce balance code_hash acc s t cached e) =
      store_account_info-IsStep accounts address acc _ s t h cached refl e
  FrameStep-IsStep _ _ h (cleared address acc s t cached e) =
      k_clear_storage-IsStep accounts address acc s t h cached e
  FrameStep-IsStep _ _ h (created address acc s t cached e) =
      k_mark_created-IsStep accounts address acc s t h cached e
  FrameStep-IsStep _ _ h (destroyed address acc s t cached e) =
      k_selfdestruct-IsStep accounts address acc s t h cached e

  checkpoint-IsMarked :
      (s : HostState) → IsMarked accounts s → IsMarked accounts (state_journal_checkpoint s)
  unfolding state_journal_checkpoint
  checkpoint-IsMarked s h = IsMarked-same accounts s _ h refl refl refl (omega arith)

  committed-IsMarked :
      (s t u : HostState)
      → Undo (state_journal_checkpoint s) t
      → IsMarked accounts t
      → state_journal_commit t ≡ ok u
      → IsMarked accounts u
  committed-IsMarked s t u undo h e =
      subst (λ x. IsMarked accounts x) (ok_inj (sym (commit_found s t undo) ∙ e))
        (IsMarked-same accounts t _ h refl refl refl (omega arith))

  -- The rows and the generations of the earlier state, with the next generation of the later one.
  restored-IsMarked :
      (s t : HostState) (log : Option ℕ)
      → IsMarked accounts s
      → IsMarked accounts t
      → IsMarked accounts (record t { world = s.world; journal = s.journal; current_log = log })
  restored-IsMarked s t log h k = record {
    block = k.block;
    initial = k.initial;
    listed = h.listed;
    unlisted = λ address e block cached.
        h.unlisted address e block (ap (λ f. f address) (h.block ∙ sym k.block) ∙ cached);
  }

  reverted-IsMarked :
      (s t u : HostState)
      → (undo : Undo (state_journal_checkpoint s) t) → IsMarked accounts s
      → IsMarked accounts t
      → state_journal_revert t ≡ ok u
      → IsMarked accounts u
  reverted-IsMarked s t u undo h k e =
      subst (λ x. IsMarked accounts x) (ok_inj (sym (revert_undoes s t undo) ∙ e))
        (restored-IsMarked s t (log_after undo.entries t.current_log) h k)

  FrameRun-IsStep : (s t : HostState) → IsMarked accounts s → FrameRun s t → IsStep accounts s t
  FrameRun-IsStep _ _ h (finished s) = (Undo-refl s, h)
  FrameRun-IsStep _ _ h (stepped s t u step rest) =
      let a = FrameStep-IsStep s t h step in
      IsStep-trans accounts s t u a (FrameRun-IsStep t u a.1 rest)
  FrameRun-IsStep _ _ h (frame_kept s t u v frame e rest) =
      let a = FrameRun-IsStep (state_journal_checkpoint s) t (checkpoint-IsMarked s h) frame in
      let b : IsStep accounts s u =
        (committed-Undo s t u a.0 e, committed-IsMarked s t u a.0 a.1 e) in
      IsStep-trans accounts s u v b (FrameRun-IsStep u v b.1 rest)
  FrameRun-IsStep _ _ h (frame_undone s t u v frame e rest) =
      let a = FrameRun-IsStep (state_journal_checkpoint s) t (checkpoint-IsMarked s h) frame in
      let b : IsStep accounts s u =
        (reverted-Undo s t u a.0 e, reverted-IsMarked s t u a.0 h a.1 e) in
      IsStep-trans accounts s u v b (FrameRun-IsStep u v b.1 rest)

-- A frame that runs the operations of Host/Frames and the kernel's changes of accounts, with the
-- clearings that emptying and creating an account make and with nested frames that commit or
-- revert, is reverted without an error; that gives back the world and the journal exactly as they
-- were at the checkpoint, and leaves `IsMarked` true. It is so from any state with `IsMarked`,
-- where the changed accounts are ones that the transaction or the block has and a change of their
-- information keeps the storage root, as `FrameStep` states.
pub frame_revert_restores :
    (s t : HostState)
    → IsMarked s.account_block s
    → FrameRun (state_journal_checkpoint s) t
    → (log : Option ℕ) × (state_journal_revert t
        ≡ ok (record t { world = s.world; journal = s.journal; current_log = log }))
      × IsMarked s.account_block
          (record t { world = s.world; journal = s.journal; current_log = log })
frame_revert_restores s t h run =
    let a =
      FrameRun-IsStep s.account_block (state_journal_checkpoint s) t
        (checkpoint-IsMarked s.account_block s h) run in
    let log = log_after a.0.entries t.current_log in
    (log, revert_undoes s t a.0, restored-IsMarked s.account_block s t log h a.1)
