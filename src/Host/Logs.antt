-- ===== src/Host/Logs.antt =====
-- The logs of a transaction: the `log_` operations of
-- extractions/python/contract/HostContract.py, and `k_log` of src/evm/kernel/logs.py, which
-- composes them. Python's `logs[i]` counts from the oldest record.
use evm_sail.Base.{
  ℕ, ◌+◌, ◌-◌, List, [], ◌∷◌, ◌++◌, length, none, some, Outcome, ok, raised, ◌>>=◌, ◌==◌,
  if◌then◌else◌,
}
use evm_sail.Host.Rows.{LogRecord}
use evm_sail.Host.Journal.{log_appended}
use evm_sail.Host.State.{HostState, journalled}

unfoldable pub logs_tx_reset : HostState → HostState
logs_tx_reset state = record state {
  transaction_log_start = length state.world.logs;
  current_log = none;
}

unfoldable pub log_begin : ℕ → HostState → HostState
log_begin address state =
    record (journalled log_appended
      (record state.world {
        logs =
            record {
              address = address;
              topics = [];
              data_offset = length state.world.log_data;
              data_length = 0;
            }
            ∷ state.world.logs;
      })
      state) { current_log = some (length state.world.logs) }

-- `logs[index]` changed in place.
unfoldable pub modify_log : (LogRecord → LogRecord) → ℕ → List LogRecord → Outcome (List LogRecord)
modify_log f index [] = raised
modify_log f index (last ∷ logs) =
    let rest = modify_log f index logs in
    if index == length logs then ok (f last ∷ logs) else (rest >>= λ changed. ok (last ∷ changed))

-- `_current_log_record()`, changed in place.
unfoldable pub current_log_record : (LogRecord → LogRecord) → HostState → Outcome HostState
current_log_record f state = elim state.current_log [
  | none ↦ raised
  | some index ↦ modify_log f index state.world.logs >>= λ logs.
      ok (record state { world = record state.world { logs = logs } })
]

unfoldable pub log_add_topic : ℕ → HostState → Outcome HostState
log_add_topic value state =
    current_log_record (λ last. record last { topics = last.topics ++ (value ∷ []) }) state

unfoldable pub append_log_data : List ℕ → HostState → Outcome HostState
append_log_data payload state =
    current_log_record (λ last. record last { data_length = last.data_length + length payload })
      state
    >>= λ next.
        ok (record next { world = record next.world { log_data = next.world.log_data ++ payload } })

unfoldable pub logs_tx_count : HostState → ℕ
logs_tx_count state = length state.world.logs - state.transaction_log_start

-- The topics of `LogTopics`.
pub data LogTopics : Type 0 where
  log_topics0 : LogTopics
  log_topics1 : (t0 : ℕ) → LogTopics
  log_topics2 : (t0 t1 : ℕ) → LogTopics
  log_topics3 : (t0 t1 t2 : ℕ) → LogTopics
  log_topics4 : (t0 t1 t2 t3 : ℕ) → LogTopics

unfoldable pub k_log_topics : LogTopics → HostState → Outcome HostState
k_log_topics log_topics0 state = ok state
k_log_topics (log_topics1 t0) state = log_add_topic t0 state
k_log_topics (log_topics2 t0 t1) state = log_add_topic t0 state >>= log_add_topic t1
k_log_topics (log_topics3 t0 t1 t2) state =
    log_add_topic t0 state >>= log_add_topic t1 >>= log_add_topic t2
k_log_topics (log_topics4 t0 t1 t2 t3) state =
    log_add_topic t0 state >>= log_add_topic t1 >>= log_add_topic t2 >>= log_add_topic t3

-- `payload` is the bytes that `k_log_data` appends: a word's, or those of a slice of memory.
unfoldable pub k_log : ℕ → LogTopics → List ℕ → HostState → Outcome HostState
k_log address topics payload state =
    k_log_topics topics (log_begin address state) >>= append_log_data payload
