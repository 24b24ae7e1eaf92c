-- ===== src/Host/Undo/Logs.antt =====
-- Logs and the entries that undo them: `k_log` of src/evm/kernel/logs.py.
use evm_sail.Base.{
  ℕ, ◌+◌, ◌≡◌, refl, sym, ap, ◌∙◌, arith, List, [], ◌∷◌, ◌++◌, length, take_append_length, some, ok,
  ==-refl,
}
use mathlib.Core.Path.{subst}
use evm_sail.Host.Rows.{LogRecord}
use evm_sail.Host.Journal.{log_appended, entry_kind}
use evm_sail.Host.State.{World, HostState, journalled}
use evm_sail.Host.Restore.{journal_restore}
use evm_sail.Host.Logs.{
  LogTopics, log_topics0, log_topics1, log_topics2, log_topics3, log_topics4, log_begin, modify_log,
  current_log_record, log_add_topic, append_log_data, k_log_topics, k_log,
}
use evm_sail.Host.Undo.{Undo, Undo-journalled}

-- The topics, in their order.
abbrev pub topic_list : LogTopics → List ℕ
topic_list log_topics0 = []
topic_list (log_topics1 t0) = t0 ∷ []
topic_list (log_topics2 t0 t1) = t0 ∷ t1 ∷ []
topic_list (log_topics3 t0 t1 t2) = t0 ∷ t1 ∷ t2 ∷ []
topic_list (log_topics4 t0 t1 t2 t3) = t0 ∷ t1 ∷ t2 ∷ t3 ∷ []

-- A state with one log on top of another's, which is being written.
abbrev pub with_log : HostState → LogRecord → List ℕ → HostState
with_log s last bytes =
    record (journalled log_appended
      (record s.world { logs = last ∷ s.world.logs; log_data = bytes }) s) {
        current_log = some (length s.world.logs);
      }

modify_newest :
    (f : LogRecord → LogRecord) (last : LogRecord) (logs : List LogRecord)
    → modify_log f (length logs) (last ∷ logs) ≡ ok (f last ∷ logs)
unfolding modify_log
modify_newest f last logs = rw (==-refl (length logs)) refl

log_add_topic_lem :
    (value : ℕ) (s : HostState) (last : LogRecord) (bytes : List ℕ)
    → log_add_topic value (with_log s last bytes)
      ≡ ok (with_log s (record last { topics = last.topics ++ (value ∷ []) }) bytes)
unfolding log_add_topic current_log_record
log_add_topic_lem value s last bytes =
    rw (modify_newest (λ r. record r { topics = r.topics ++ (value ∷ []) }) last s.world.logs) refl

append_log_data_lem :
    (payload : List ℕ) (s : HostState) (last : LogRecord) (bytes : List ℕ)
    → append_log_data payload (with_log s last bytes)
      ≡ ok (
          with_log s
            (record last { data_length = last.data_length + length payload })
            (bytes ++ payload))
unfolding append_log_data current_log_record
append_log_data_lem payload s last bytes =
    rw
      (modify_newest (λ r. record r { data_length = r.data_length + length payload }) last
        s.world.logs)
      refl

-- The record that `log_begin` opens, with its first topics.
abbrev opened : ℕ → List ℕ → HostState → LogRecord
opened address topics s = record {
  address = address;
  topics = topics;
  data_offset = length s.world.log_data;
  data_length = 0;
}

k_log_topics_lem :
    (address : ℕ) (topics : LogTopics) (s : HostState)
    → k_log_topics topics (log_begin address s)
      ≡ ok (with_log s (opened address (topic_list topics) s) s.world.log_data)
unfolding k_log_topics log_begin
k_log_topics_lem address log_topics0 s = refl
k_log_topics_lem address (log_topics1 t0) s =
    log_add_topic_lem t0 s (opened address [] s) s.world.log_data
k_log_topics_lem address (log_topics2 t0 t1) s =
    rw
      (
        log_add_topic_lem t0 s (opened address [] s) s.world.log_data,
        log_add_topic_lem t1 s (opened address (t0 ∷ []) s) s.world.log_data,
      )
      refl
k_log_topics_lem address (log_topics3 t0 t1 t2) s =
    rw
      (
        log_add_topic_lem t0 s (opened address [] s) s.world.log_data,
        log_add_topic_lem t1 s (opened address (t0 ∷ []) s) s.world.log_data,
        log_add_topic_lem t2 s (opened address (t0 ∷ t1 ∷ []) s) s.world.log_data,
      )
      refl
k_log_topics_lem address (log_topics4 t0 t1 t2 t3) s =
    rw
      (
        log_add_topic_lem t0 s (opened address [] s) s.world.log_data,
        log_add_topic_lem t1 s (opened address (t0 ∷ []) s) s.world.log_data,
        log_add_topic_lem t2 s (opened address (t0 ∷ t1 ∷ []) s) s.world.log_data,
        log_add_topic_lem t3 s (opened address (t0 ∷ t1 ∷ t2 ∷ []) s) s.world.log_data,
      )
      refl

-- Emitting a log never raises: it adds one record, with the topics in their order and the bytes
-- at the end of the log data, and one journal entry, and the log being written is the new one;
-- nothing else changes.
pub k_log-with_log :
    (address : ℕ) (topics : LogTopics) (payload : List ℕ) (s : HostState)
    → k_log address topics payload s
      ≡ ok (
          with_log s
            (record {
              address = address;
              topics = topic_list topics;
              data_offset = length s.world.log_data;
              data_length = length payload;
            })
            (s.world.log_data ++ payload))
unfolding k_log
k_log-with_log address topics payload s =
    rw
      (
        k_log_topics_lem address topics s,
        append_log_data_lem payload s (opened address (topic_list topics) s) s.world.log_data,
      )
      (ap
        (λ (n : ℕ). ok (
          with_log s (record (opened address (topic_list topics) s) { data_length = n })
            (s.world.log_data ++ payload)))
        (omega arith))

pub k_log-Undo :
    (address : ℕ) (topics : LogTopics) (payload : List ℕ) (s t : HostState)
    → k_log address topics payload s ≡ ok t
    → Undo s t
unfolding journal_restore entry_kind
k_log-Undo address topics payload s t h = subst (λ u. Undo s u) (ok_inj (sym whole ∙ h)) undone
  where
    ok_inj : {a b : HostState} → ok a ≡ ok b → a ≡ b
    ok_inj p = cc

    last : LogRecord
    last = record {
      address = address;
      topics = topic_list topics;
      data_offset = length s.world.log_data;
      data_length = length payload;
    }

    whole : k_log address topics payload s ≡ ok (with_log s last (s.world.log_data ++ payload))
    whole = k_log-with_log address topics payload s

    added : World
    added = record s.world { logs = last ∷ s.world.logs; log_data = s.world.log_data ++ payload }

    alone : Undo s (journalled log_appended added s)
    alone = Undo-journalled log_appended added s refl (
        ap (λ bytes. ok (record s.world { log_data = bytes }))
          (take_append_length s.world.log_data payload))

    undone : Undo s (with_log s last (s.world.log_data ++ payload))
    undone = record {
      entries = alone.entries;
      journal_eq = alone.journal_eq;
      balanced = alone.balanced;
      restores = alone.restores;
    }
