-- ===== src/Reconciler.antt =====
-- backend/app/core/queue_reconciler.py: `QueueReconciler`, on the task registry and the queue. The
-- calls for the record number `i` draw the audit ID `ids i` and read the times `now i` and `task_now i`.
pub mod Record
pub mod Pass
pub mod Free
pub mod Jobs
use mama_ai.Prelude.{ℕ, suc, String, Bool, true, false, Option, none, some, List, [], ◌∷◌, ◌+◌}
use mama_ai.Dict
use mama_ai.Dict.{Dict}
use mama_ai.Exec.{Exec, pure, modify, zoom, ◌>>=◌, ◌>>◌}
use mama_ai.Task.{TaskStatus, status_value}
use mama_ai.TaskRegistry
use mama_ai.TaskRegistry.{TaskRegistry}
use mama_ai.Task.Record.{TaskRecord}
use mama_ai.Queue.{QueueRow, QueueDb, Value, null, text, AuditEvent}
use mama_ai.Queue.Store
use mama_ai.Queue.Store.{Audited}
use mama_ai.Queue.Reconcile.{record_reconciliation}

pub record QueueReconciliationReport : Type 0 where
  pub scanned_tasks : ℕ
  pub scanned_queue : ℕ
  pub enqueued_missing : ℕ
  pub requeued_claimed : ℕ
  pub preserved_failed_jobs : ℕ
  pub cancelled_orphan_jobs : ℕ
  pub cancelled_non_executable_jobs : ℕ
  pub cancelled_inconsistent_tasks : ℕ
  pub recorded_audit_events : ℕ
  pub unchanged : ℕ

-- The registry, the queue, and the report of the pass.
pub record Site (J Db : Type 0) : Type 0 where
  pub tasks : TaskRegistry J Db
  pub queue : QueueDb
  pub report : QueueReconciliationReport

-- The values of one record of the pass.
pub record Reading : Type 0 where
  pub audit_id : String
  pub now : ℕ
  pub task_now : ℕ

-- the arguments of an audit event of the reconciler
abbrev pub reconciled : String → String → Dict Value → Audited
reconciled action message metadata = record {
  event_type = some "reconciled";
  message = some message;
  metadata = some (("reconciliation_action", text action) ∷ metadata);
}

abbrev pub task_status_value : Option TaskStatus → Value
task_status_value none = null
task_status_value (some s) = text (status_value s)

module _ {J Db : Type 0} where
  abbrev pub on_tasks : {A : Type 0} → Exec (TaskRegistry J Db) A → Exec (Site J Db) A
  on_tasks = zoom (λ s. s.tasks) (λ s t. record s { tasks = t })

  abbrev pub on_queue : {A : Type 0} → Exec QueueDb A → Exec (Site J Db) A
  on_queue = zoom (λ s. s.queue) (λ s q. record s { queue = q })

  abbrev pub on_report :
      (QueueReconciliationReport → QueueReconciliationReport) → Exec (Site J Db) (Unit {0})
  on_report f = modify (λ s. record s { report = f s.report })

  -- `report.unchanged += 1`
  abbrev pub count_unchanged : Exec (Site J Db) (Unit {0})
  count_unchanged = on_report (λ r. record r { unchanged = r.unchanged + 1 })

  -- `if created: report.recorded_audit_events += 1`
  abbrev pub count_created : AuditEvent × Bool → Exec (Site J Db) (Unit {0})
  count_created (e, true) =
      on_report (λ r. record r { recorded_audit_events = r.recorded_audit_events + 1 })
  count_created (e, false) = pure tt

  -- `_record_preserved_failed`
  unfoldable pub record_preserved_failed :
      Reading → String → Option TaskStatus → String → Exec (Site J Db) (Unit {0})
  record_preserved_failed reading task_id task_status reason = do
    created ← on_queue (
        record_reconciliation reading.audit_id reading.now task_id "preserved_failed_queue_job"
          "Startup reconciliation preserved a failed queue job for explicit manual retry."
          (some (("reason", text reason) ∷ ("task_status", task_status_value task_status) ∷ []))
          true)
    on_report (λ r. record r { preserved_failed_jobs = r.preserved_failed_jobs + 1 })
    count_created created

  -- the call of `queue.cancel`
  abbrev pub cancel_job : Reading → String → Audited → Exec (Site J Db) QueueRow
  cancel_job reading task_id audit =
      on_queue (Store.cancel reading.audit_id reading.now task_id audit)
