-- ===== src/Host/Undo.antt =====
-- What it is for a state to be undone to an earlier one: its journal has entries on top of the
-- earlier journal that close every checkpoint they open, and restoring them gives the earlier world.
pub mod Slots
pub mod Accounts
pub mod Logs
use evm_sail.Base.{
  ℕ, zero, suc, ◌≡◌, refl, sym, ap, ◌∙◌, List, [], ◌∷◌, ◌++◌, Outcome, ok, fatal, raised, ◌>>=◌,
}
use mathlib.Core.List.{append_assoc, append-nil}
use evm_sail.Host.Journal.{
  StateJournalEntry, EntryKind, entry_kind, checkpoint, commit, change, Split, newer,
  open_checkpoint, frame_checkpointed, frame_committed,
}
use evm_sail.Host.State.{World, HostState, journalled}
use evm_sail.Host.Restore.{
  journal_restore, restore_all, log_after, state_journal_checkpoint, state_journal_revert,
  state_journal_commit,
}

abbrev pub prepend : List StateJournalEntry → Split → Split
prepend [] split = split
prepend (entry ∷ entries) split = newer entry (prepend entries split)

prepend-append :
    (xs ys : List StateJournalEntry) (split : Split)
    → prepend (xs ++ ys) split ≡ prepend xs (prepend ys split)
prepend-append [] ys split = refl
prepend-append (x ∷ xs) ys split = ap (newer x) (prepend-append xs ys split)

prepend_ok :
    (xs undone kept : List StateJournalEntry)
    → prepend xs (ok (undone, kept)) ≡ ok (xs ++ undone, kept)
prepend_ok [] undone kept = refl
prepend_ok (x ∷ xs) undone kept = ap (newer x) (prepend_ok xs undone kept)

-- The search for the open checkpoint passes over the entries.
pub Balanced : List StateJournalEntry → Type 0
Balanced entries =
    (closed : ℕ) (journal : List StateJournalEntry)
    → open_checkpoint closed (entries ++ journal) ≡ prepend entries (open_checkpoint closed journal)

pub Balanced-nil : Balanced []
unfolding Balanced
Balanced-nil closed journal = refl

pub Balanced-append :
    (xs ys : List StateJournalEntry) → Balanced xs → Balanced ys → Balanced (xs ++ ys)
unfolding Balanced
Balanced-append xs ys hx hy closed journal =
    ap (open_checkpoint closed) (append_assoc xs ys journal)
    ∙ hx closed (ys ++ journal)
    ∙ ap (prepend xs) (hy closed journal)
    ∙ sym (prepend-append xs ys (open_checkpoint closed journal))

pub Balanced-change :
    (entry : StateJournalEntry) → entry_kind entry ≡ change → Balanced (entry ∷ [])
unfolding Balanced open_checkpoint
Balanced-change entry h closed journal = rw (h, open_checkpoint) refl

Balanced-frame :
    (entries : List StateJournalEntry)
    → Balanced entries
    → Balanced (frame_committed ∷ entries ++ (frame_checkpointed ∷ []))
unfolding Balanced open_checkpoint entry_kind
Balanced-frame entries h closed journal = ap (newer frame_committed) (
    ap (open_checkpoint (suc closed)) (append_assoc entries (frame_checkpointed ∷ []) journal)
    ∙ h (suc closed) (frame_checkpointed ∷ journal)
    ∙ sym (prepend-append entries (frame_checkpointed ∷ []) (open_checkpoint closed journal)))

pub restore_all-append :
    (xs ys : List StateJournalEntry) (world : World)
    → restore_all (xs ++ ys) world ≡ restore_all xs world >>= restore_all ys
unfolding restore_all
restore_all-append [] ys world = refl
restore_all-append (x ∷ xs) ys world = go (journal_restore x world) (restore_all-append xs ys)
  where
    go :
        (restored : Outcome World)
        → ((w : World) → restore_all (xs ++ ys) w ≡ restore_all xs w >>= restore_all ys)
        → restored >>= restore_all (xs ++ ys) ≡ (restored >>= restore_all xs) >>= restore_all ys
    go (ok next) rest = rest next
    go (fatal reason) rest = refl
    go raised rest = refl

pub record Undo (s t : HostState) : Type 0 where
  pub entries : List StateJournalEntry
  pub journal_eq : t.journal ≡ entries ++ s.journal
  pub balanced : Balanced entries
  pub restores : restore_all entries t.world ≡ ok s.world

pub Undo-refl : (s : HostState) → Undo s s
unfolding Balanced restore_all
Undo-refl s = record {
  entries = [];
  journal_eq = refl;
  balanced = λ closed journal. refl;
  restores = refl;
}

pub Undo-trans : (s t u : HostState) → Undo s t → Undo t u → Undo s u
Undo-trans s t u a b = record {
  entries = b.entries ++ a.entries;
  journal_eq =
      b.journal_eq
      ∙ ap (λ j. b.entries ++ j) a.journal_eq
      ∙ sym (append_assoc b.entries a.entries s.journal);
  balanced = Balanced-append b.entries a.entries b.balanced a.balanced;
  restores =
      restore_all-append b.entries a.entries u.world
      ∙ ap (λ w. w >>= restore_all a.entries) b.restores
      ∙ a.restores;
}

-- One journalled change is undone if its entry restores the world.
pub Undo-journalled :
    (entry : StateJournalEntry) (world : World) (s : HostState)
    → entry_kind entry ≡ change
    → journal_restore entry world ≡ ok s.world
    → Undo s (journalled entry world s)
unfolding restore_all
Undo-journalled entry world s k h = record {
  entries = entry ∷ [];
  journal_eq = refl;
  balanced = Balanced-change entry k;
  restores = rw h refl;
}

checkpoint_found :
    (s t : HostState)
    → (h : Undo (state_journal_checkpoint s) t)
    → open_checkpoint 0 t.journal ≡ ok (h.entries, s.journal)
unfolding state_journal_checkpoint open_checkpoint entry_kind Balanced
checkpoint_found s t h =
    ap (open_checkpoint 0) h.journal_eq
    ∙ h.balanced 0 (frame_checkpointed ∷ s.journal)
    ∙ prepend_ok h.entries [] s.journal
    ∙ ap (λ es. ok (es, s.journal)) (append-nil h.entries)

-- Reverting to a checkpoint gives back the world and the journal that it was made at.
pub revert_undoes :
    (s t : HostState)
    → (h : Undo (state_journal_checkpoint s) t)
    → state_journal_revert t
      ≡ ok (record t {
        world = s.world;
        journal = s.journal;
        current_log = log_after h.entries t.current_log;
      })
unfolding state_journal_revert state_journal_checkpoint
revert_undoes s t h = rw (checkpoint_found s t h, h.restores) refl

pub commit_found :
    (s t : HostState)
    → Undo (state_journal_checkpoint s) t
    → state_journal_commit t ≡ ok (record t { journal = frame_committed ∷ t.journal })
unfolding state_journal_commit
commit_found s t h = rw (checkpoint_found s t h) refl

-- A committed frame is undone with the frame around it.
pub commit_undoes :
    (s t : HostState)
    → Undo (state_journal_checkpoint s) t
    → Undo s (record t { journal = frame_committed ∷ t.journal })
unfolding state_journal_checkpoint restore_all journal_restore
commit_undoes s t h = record {
  entries = frame_committed ∷ h.entries ++ (frame_checkpointed ∷ []);
  journal_eq =
      ap (λ j. frame_committed ∷ j)
        (h.journal_eq ∙ sym (append_assoc h.entries (frame_checkpointed ∷ []) s.journal));
  balanced = Balanced-frame h.entries h.balanced;
  restores =
      restore_all-append h.entries (frame_checkpointed ∷ []) t.world
      ∙ ap (λ w. w >>= restore_all (frame_checkpointed ∷ [])) h.restores;
}
