-- ===== src/Queue/Reconcile.antt =====
-- backend/app/database/queue_db.py: `record_reconciliation` and `list`.
use mama_ai.Prelude.{
  ℕ, String, Bool, true, false, ◌&&◌, Option, none, some, List, [], ◌∷◌, ◌==◌, eqb, select, take,
  if◌then◌else◌,
}
use mama_ai.Int.{ℤ}
use mama_ai.Dict
use mama_ai.Newest.{newest_first}
use mama_ai.Result.{value_error, Result, ok, err}
use mama_ai.Exec.{Exec, pure, lift, gets, ◌>>=◌}
use mama_ai.Queue.{
  QueueStatus, queued, claimed, completed, failed, cancelled, QueueRow, Value, text, AuditEvent,
  QueueDb, same, validate_text, validate_limit, merge_audit_metadata,
}
use mama_ai.Queue.Audit.{first_where}
use mama_ai.Queue.Table.{transact, require_task, append}
use mama_ai.Queue.Store.{event_of}

-- `latest_metadata.get("reconciliation_action") == action`
abbrev pub is_action : String → Option Value → Bool
is_action action (some (text a)) = a == action
is_action action _ = false

-- `same_observation`
unfoldable pub same_observation : String → QueueRow → AuditEvent → Bool
same_observation action r e =
    eqb e.attempt r.attempts
    && same e.queue_status r.status
    && is_action action (Dict.get "reconciliation_action" e.metadata)

-- the latest reconciliation event of a task
unfoldable pub latest_reconciliation : String → List AuditEvent → Option AuditEvent
latest_reconciliation task =
    first_where (λ e. (e.task_id == task) && (e.event_type == "reconciled"))

-- the part behind the lookups: an observation that was recorded last is not recorded again
unfoldable pub observe :
    Bool → String → QueueRow → AuditEvent → Option AuditEvent → Exec QueueDb (AuditEvent × Bool)
observe deduplicate action row e none = append e >>= λ created. pure (created, true)
observe deduplicate action row e (some latest) =
    if deduplicate && same_observation action row latest
    then pure (latest, false)
    else append e >>= λ created. pure (created, true)

-- `record_reconciliation`
unfoldable pub record_reconciliation :
    String
    → ℕ
    → String
    → String
    → String
    → Option (Dict.Dict Value)
    → Bool
    → Exec QueueDb (AuditEvent × Bool)
record_reconciliation audit_id now task_id action message metadata deduplicate = do
  task ← lift (validate_text task_id "Task ID")
  act ← lift (validate_text action "Reconciliation action")
  note ← lift (validate_text message "Reconciliation message")
  transact (do
    row ← require_task task
    latest ← gets (λ db. latest_reconciliation task db.log)
    observe deduplicate act row
        (event_of audit_id row "reconciled" row.worker_id note row.last_error
          (merge_audit_metadata (("reconciliation_action", text act) ∷ []) metadata) now)
        latest)

abbrev pub by_status : Option QueueStatus → QueueRow → Bool
by_status none r = true
by_status (some s) r = same r.status s

abbrev pub by_owner : Option String → QueueRow → Bool
by_owner none r = true
by_owner (some o) r = r.owner_id == o

-- `_validate_status`
unfoldable pub validate_status : String → Result QueueStatus
validate_status status = elim (validate_text status "Queue status") [
  | ok s ↦
      if s == "queued"
      then ok queued
      else if s == "claimed"
      then ok claimed
      else if s == "completed"
      then ok completed
      else if s == "failed"
      then ok failed
      else if s == "cancelled"
      then ok cancelled
      else err (value_error ("Unsupported queue status: " ∷ s ∷ []))
  | err e ↦ err e
]

unfoldable pub check_status : Option String → Result (Option QueueStatus)
check_status none = ok none
check_status (some s) = elim (validate_status s) [ ok t ↦ ok (some t) | err e ↦ err e ]

unfoldable pub check_owner : Option String → Result (Option String)
check_owner none = ok none
check_owner (some s) = elim (validate_text s "Owner ID") [ ok t ↦ ok (some t) | err e ↦ err e ]

-- `list`; SQL leaves the order of equal times open
unfoldable pub list : Option String → Option String → ℤ → Exec QueueDb (List QueueRow)
list status owner_id limit = do
  n ← lift (validate_limit limit)
  s ← lift (check_status status)
  o ← lift (check_owner owner_id)
  gets (λ db. take n (
      newest_first (λ (r : QueueRow). r.created_at)
        (select (by_owner o) (select (by_status s) (Dict.values db.rows)))))
