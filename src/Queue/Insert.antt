-- ===== src/Queue/Insert.antt =====
-- backend/app/database/queue_db.py: `enqueue`.
use mama_ai.Prelude.{ℕ, String, ◌+◌, Option, none, some, [], ◌∷◌}
use mama_ai.Int.{ℤ}
use mama_ai.Result.{Exc, value_error, runtime_error, integrity_error, Result, ok, err}
use mama_ai.Exec.{Exec, raise, lift, modify, ◌>>=◌, ◌>>◌}
use mama_ai.Approval.{seconds}
use mama_ai.Queue.{
  QueueRow, text, number, AuditEvent, QueueDb, validate_text, validate_max_attempts, validate_delay,
  or_text, merge_audit_metadata,
}
use mama_ai.Queue.Table.{transact, set_row, select_task, append}
use mama_ai.Queue.Store.{Audited, event_or, event_of, new_row, loaded}

-- the INSERT on a row that is there, or not
unfoldable pub insert_found : QueueRow → Option QueueRow → Exec QueueDb (Unit {0})
insert_found r (some v) =
    raise (integrity_error ("UNIQUE constraint failed: task_queue.task_id" ∷ []))
insert_found r none = modify (set_row r.task_id r)

-- `except sqlite3.IntegrityError`
unfoldable pub renamed : String → Exc → Exc
renamed task (integrity_error m) = value_error ("Task is already queued: " ∷ task ∷ [])
renamed task e = e

unfoldable pub rename_integrity {ℓ} : {A S : Type ℓ} → String → Result A × S → Result A × S
rename_integrity task (ok a, s) = (ok a, s)
rename_integrity task (err e, s) = (err (renamed task e), s)

-- the transaction of `enqueue`
unfoldable pub insert_job : QueueRow → AuditEvent → Exec QueueDb (Option QueueRow)
insert_job r e = do
  found ← select_task r.task_id
  insert_found r found
  append e
  select_task r.task_id

-- `enqueue`
unfoldable pub enqueue : String → ℕ → String → String → ℤ → ℤ → Audited → Exec QueueDb QueueRow
enqueue audit_id now task_id owner_id max_attempts delay_seconds audit = do
  task ← lift (validate_text task_id "Task ID")
  owner ← lift (validate_text owner_id "Owner ID")
  most ← lift (validate_max_attempts max_attempts)
  delay ← lift (validate_delay delay_seconds)
  created ← λ db. rename_integrity task (
      transact
        (insert_job (new_row task owner most (now + seconds delay) now) (
          event_of audit_id (new_row task owner most (now + seconds delay) now)
            (event_or audit "enqueued") none
            (or_text audit.message "Task added to the durable queue.") none
            (merge_audit_metadata
              (("owner_id", text owner)
                ∷ ("max_attempts", number most)
                ∷ ("delay_seconds", number delay)
                ∷ ("available_at", number (now + seconds delay))
                ∷ [])
              audit.metadata)
            now))
        db)
  loaded (runtime_error ("Enqueued queue record could not be loaded." ∷ [])) created
