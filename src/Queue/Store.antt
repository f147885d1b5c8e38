-- ===== src/Queue/Store.antt =====
-- backend/app/database/queue_db.py: the operations of `SQLiteTaskQueueStore` but `claim_next`. Each
-- is one transaction. `audit_id` is the fresh ID of its audit event, `now` its reading of the clock.
use mama_ai.Prelude.{
  ℕ, String, Bool, true, false, ◌&&◌, ◌+◌, Option, none, some, [], ◌∷◌, ◌==◌, ltb, if◌then◌else◌,
}
use mama_ai.Int.{ℤ}
use mama_ai.Dict.{Dict}
use mama_ai.Result.{Exc, value_error, permission_error, runtime_error, ok}
use mama_ai.Exec.{Exec, lift, or_raise, ◌>>=◌, ◌>>◌}
use mama_ai.Approval.{seconds}
use mama_ai.Queue.{
  QueueStatus, queued, claimed, completed, failed, cancelled, QueueRow, Value, text, number,
  AuditEvent, QueueDb, same, status_value, validate_text, validate_max_attempts, validate_delay,
  or_text, merge_audit_metadata,
}
use mama_ai.Queue.Table.{
  transact, select_task, not_found, require_task, update_where, require_updated, append,
}

-- What a caller may say of the audit event.
pub record Audited : Type 0 where
  pub event_type : Option String
  pub message : Option String
  pub metadata : Option (Dict Value)

-- `audit_event_type or default`
abbrev pub event_or : Audited → String → String
event_or a d = or_text a.event_type d

-- the event of a row; the ID of the worker is an argument, since it is cleared in the row
abbrev pub event_of :
    String
    → QueueRow
    → String
    → Option String
    → String
    → Option String
    → Dict Value
    → ℕ
    → AuditEvent
event_of audit_id r event_type worker message error metadata now = record {
  audit_id = audit_id;
  task_id = r.task_id;
  owner_id = r.owner_id;
  attempt = r.attempts;
  event_type = event_type;
  queue_status = r.status;
  worker_id = worker;
  message = some message;
  error = error;
  metadata = metadata;
  created_at = now;
}

-- the row of the new job
abbrev pub new_row : String → String → ℕ → ℕ → ℕ → QueueRow
new_row task owner max_attempts available now = record {
  task_id = task;
  owner_id = owner;
  status = queued;
  attempts = 0;
  max_attempts = max_attempts;
  available_at = available;
  lease_expires_at = none;
  worker_id = none;
  last_error = none;
  created_at = now;
  updated_at = now;
}

-- the row after the commit
abbrev pub loaded : Exc → Option QueueRow → Exec QueueDb QueueRow
loaded e found = or_raise found e

abbrev pub not_claimed : Exc
not_claimed = permission_error ("The task is not claimed by this worker." ∷ [])

abbrev pub is_worker : String → Option String → Bool
is_worker worker none = false
is_worker worker (some w) = w == worker

-- `status = 'claimed' AND worker_id = ?`
abbrev pub is_held_by : String → QueueRow → Bool
is_held_by worker r = same r.status claimed && is_worker worker r.worker_id

-- the row without its worker
abbrev pub leave : QueueStatus → ℕ → QueueRow → QueueRow
leave status now r = record r {
  status = status;
  worker_id = none;
  lease_expires_at = none;
  updated_at = now;
}

-- an UPDATE with its audit event, and the row after it
unfoldable pub change_job :
    String
    → (QueueRow → Bool)
    → (QueueRow → QueueRow)
    → Exc
    → AuditEvent
    → Exec QueueDb (Option QueueRow)
change_job id test change refused e = do
  hit ← update_where id test change
  lift (require_updated hit refused)
  append e
  select_task id

-- `complete`
unfoldable pub complete : String → ℕ → String → String → Exec QueueDb QueueRow
complete audit_id now task_id worker_id = do
  task ← lift (validate_text task_id "Task ID")
  worker ← lift (validate_text worker_id "Worker ID")
  updated ← transact (do
    current ← require_task task
    change_job task (is_held_by worker) (λ r. record (leave completed now r) { last_error = none })
        not_claimed
        (event_of audit_id (record current { status = completed }) "completed" (some worker)
          "Durable queue delivery completed." none [] now))
  loaded (runtime_error ("Completed queue record could not be loaded." ∷ [])) updated

-- the row after a failed delivery
unfoldable pub fail_row : String → ℕ → ℕ → QueueRow → QueueRow
fail_row error delay now r =
    if ltb r.attempts r.max_attempts
    then record (leave queued now r) { available_at = now + seconds delay; last_error = some error }
    else record (leave failed now r) { last_error = some error }

-- the default event of a failed delivery
unfoldable pub fail_event : String → Audited → String → String → ℕ → ℕ → QueueRow → AuditEvent
fail_event audit_id audit worker error delay now r =
    event_of audit_id (fail_row error delay now r)
      (event_or audit (if ltb r.attempts r.max_attempts then "retry_scheduled" else "failed"))
      (some worker)
      (or_text audit.message (
        if ltb r.attempts r.max_attempts
        then "Queue delivery failed; another automatic attempt was scheduled."
        else "Queue delivery failed and the attempt cycle was exhausted."))
      (some error)
      (merge_audit_metadata
        (("retry_delay_seconds", number delay)
          ∷ ("max_attempts", number r.max_attempts)
          ∷ ("available_at", number (fail_row error delay now r).available_at)
          ∷ [])
        audit.metadata)
      now

-- `fail`
unfoldable pub fail : String → ℕ → String → String → String → ℤ → Audited → Exec QueueDb QueueRow
fail audit_id now task_id worker_id error retry_delay_seconds audit = do
  task ← lift (validate_text task_id "Task ID")
  worker ← lift (validate_text worker_id "Worker ID")
  reason ← lift (validate_text error "Queue error")
  delay ← lift (validate_delay retry_delay_seconds)
  updated ← transact (do
    row ← require_task task
    lift (require_updated (is_held_by worker row) not_claimed)
    change_job task (λ r. true) (fail_row reason delay now) not_claimed
        (fail_event audit_id audit worker reason delay now row))
  loaded (runtime_error ("Failed queue record could not be loaded." ∷ [])) updated

-- the row of a new retry cycle
abbrev pub retry_row : ℕ → ℕ → ℕ → QueueRow → QueueRow
retry_row most available now r = record (leave queued now r) {
  attempts = 0;
  max_attempts = most;
  available_at = available;
}

-- `retry_failed`
unfoldable pub retry_failed : String → ℕ → String → ℤ → ℤ → Exec QueueDb QueueRow
retry_failed audit_id now task_id max_attempts delay_seconds = do
  task ← lift (validate_text task_id "Task ID")
  most ← lift (validate_max_attempts max_attempts)
  delay ← lift (validate_delay delay_seconds)
  updated ← transact (do
    row ← require_task task
    lift (
        require_updated (same row.status failed) (
          value_error (
            "Only failed queue jobs can be retried. Current status: "
            ∷ status_value row.status
            ∷ "."
            ∷ [])))
    change_job task (λ r. same r.status failed) (retry_row most (now + seconds delay) now)
        (runtime_error ("Failed queue job changed before it could be retried." ∷ []))
        (event_of audit_id (retry_row most (now + seconds delay) now row) "manually_retried" none
          "Failed queue job started a new manual retry cycle." row.last_error
          (("previous_attempts", number row.attempts)
            ∷ ("previous_max_attempts", number row.max_attempts)
            ∷ ("new_max_attempts", number most)
            ∷ ("delay_seconds", number delay)
            ∷ ("available_at", number (now + seconds delay))
            ∷ [])
          now))
  loaded (runtime_error ("Retried queue record could not be loaded." ∷ [])) updated

-- `cancel_queued`
unfoldable pub cancel_queued : String → ℕ → String → Exec QueueDb QueueRow
cancel_queued audit_id now task_id = do
  task ← lift (validate_text task_id "Task ID")
  updated ← transact (do
    row ← require_task task
    change_job task (λ r. same r.status queued) (leave cancelled now)
        (value_error (
          "Task cannot be safely cancelled from queue status "
          ∷ status_value row.status
          ∷ "."
          ∷ []))
        (event_of audit_id (record row { status = cancelled }) "cancelled" none
          "Queued task cancelled before worker execution." none
          (("previous_status", text (status_value row.status))
            ∷ ("cancellation_mode", text "safe_queued")
            ∷ [])
          now))
  loaded (runtime_error ("Cancelled queue record could not be loaded." ∷ [])) updated

-- `status IN ('queued', 'claimed')`
abbrev pub is_open : QueueStatus → Bool
is_open queued = true
is_open claimed = true
is_open _ = false

-- `cancel`
unfoldable pub cancel : String → ℕ → String → Audited → Exec QueueDb QueueRow
cancel audit_id now task_id audit = do
  task ← lift (validate_text task_id "Task ID")
  updated ← transact (do
    row ← require_task task
    change_job task (λ r. is_open r.status) (leave cancelled now)
        (value_error
          ("Task cannot be cancelled from queue status " ∷ status_value row.status ∷ "." ∷ []))
        (event_of audit_id (record row { status = cancelled }) (event_or audit "cancelled")
          row.worker_id
          (or_text audit.message "Queue job cancelled by an internal runtime operation.") none
          (merge_audit_metadata
            (("previous_status", text (status_value row.status))
              ∷ ("cancellation_mode", text "internal")
              ∷ [])
            audit.metadata)
          now))
  loaded (runtime_error ("Cancelled queue record could not be loaded." ∷ [])) updated

-- `get`
unfoldable pub get : String → Exec QueueDb (Option QueueRow)
get task_id = lift (validate_text task_id "Task ID") >>= select_task

-- `require`
unfoldable pub require : String → Exec QueueDb QueueRow
require task_id = get task_id >>= λ found. or_raise found (not_found task_id)

-- `clear`
unfoldable pub clear : Exec QueueDb (Unit {0})
clear db = (ok tt, record db { rows = [] })
