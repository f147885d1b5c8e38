-- ===== src/Reconciler/Record.antt =====
-- backend/app/core/queue_reconciler.py: `_reconcile_queue_record`.
use mama_ai.Prelude.{String, true, false, Option, none, some, [], ◌∷◌, ◌+◌, if◌then◌else◌}
use Prim.Native.String.{◌++◌}
use mama_ai.Int.{pos}
use mama_ai.Result.{runtime_error}
use mama_ai.Text.{is_empty}
use mama_ai.Exec.{Exec, pure, raise, ◌>>=◌, ◌>>◌}
use mama_ai.Task.{TaskStatus, pending, running, status_value}
use mama_ai.Task.Record.{TaskRecord}
use mama_ai.TaskRegistry
use mama_ai.Queue
use mama_ai.Queue.{
  QueueStatus, queued, claimed, completed, failed, cancelled, QueueRow, text, boolean,
}
use mama_ai.Queue.Store
use mama_ai.Queue.Store.{is_open}
use mama_ai.Queue.Reconcile.{record_reconciliation}
use mama_ai.Reconciler.{
  Site, Reading, reconciled, on_tasks, on_queue, on_report, count_unchanged, count_created,
  record_preserved_failed, cancel_job,
}

module _ {J Db : Type 0} (save : TaskRecord J → Exec Db (Unit {0})) (reading : Reading) where
  -- a job without a task
  unfoldable pub reconcile_orphan : QueueRow → Exec (Site J Db) (Unit {0})
  reconcile_orphan job =
      if is_open job.status
      then (do
        cancel_job reading job.task_id (
            reconciled "cancelled_orphan_queue_job"
              "Startup reconciliation cancelled an executable orphan queue job."
              (("task_record_present", boolean false) ∷ []))
        on_report (λ r. record r {
          cancelled_orphan_jobs = r.cancelled_orphan_jobs + 1;
          recorded_audit_events = r.recorded_audit_events + 1;
        }))
      else if Queue.same job.status failed
      then record_preserved_failed reading job.task_id none "orphan_failed_queue_job"
      else count_unchanged

  abbrev pub cancel_executable :
      QueueRow → String → String → TaskStatus → Exec (Site J Db) (Unit {0})
  cancel_executable job action message status = do
    cancel_job reading job.task_id
        (reconciled action message (("task_status", text (status_value status)) ∷ []))
    on_report (λ r. record r {
      cancelled_non_executable_jobs = r.cancelled_non_executable_jobs + 1;
      recorded_audit_events = r.recorded_audit_events + 1;
    })

  -- a job whose task is not executable
  unfoldable pub reconcile_settled : QueueRow → TaskStatus → Exec (Site J Db) (Unit {0})
  reconcile_settled job status =
      if is_open job.status
      then cancel_executable job "cancelled_non_executable_queue_job"
          "Startup reconciliation cancelled a queue job whose task state was not executable." status
      else count_unchanged

  abbrev pub cancel_task : String → String → Exec (Site J Db) (Unit {0})
  cancel_task task_id message =
      on_tasks (TaskRegistry.cancel save task_id message reading.task_now) >>= λ t. pure tt

  abbrev pub count_inconsistent : Exec (Site J Db) (Unit {0})
  count_inconsistent =
      on_report
        (λ r. record r { cancelled_inconsistent_tasks = r.cancelled_inconsistent_tasks + 1 })

  -- a job whose task is marked as running
  unfoldable pub reconcile_running : QueueRow → Exec (Site J Db) (Unit {0})
  reconcile_running job = do
    if is_open job.status
        then cancel_executable job "cancelled_running_task_queue_job"
            "Startup reconciliation cancelled the queue job for a task still marked as running."
            running
        else pure tt
    cancel_task job.task_id
        "Task cancelled during startup reconciliation because it was still marked as running."
    count_inconsistent
    if is_open job.status
        then pure tt
        else (on_queue (
              record_reconciliation reading.audit_id reading.now job.task_id
                "cancelled_inconsistent_running_task"
                "Startup reconciliation cancelled a task still marked as running."
                (some (("task_status", text (status_value running)) ∷ [])) true)
            >>= count_created)

  -- the status of a recovered job
  unfoldable pub count_recovered : QueueStatus → Exec (Site J Db) (Unit {0})
  count_recovered queued = on_report (λ r. record r { requeued_claimed = r.requeued_claimed + 1 })
  count_recovered failed =
      on_report (λ r. record r { preserved_failed_jobs = r.preserved_failed_jobs + 1 })
  count_recovered status = raise (
      runtime_error (
        "Recovered claimed queue job returned an unsupported status: "
        ∷ Queue.status_value status
        ∷ []))

  unfoldable pub cancel_workerless : QueueRow → Exec (Site J Db) (Unit {0})
  cancel_workerless job = do
    cancel_job reading job.task_id (
        reconciled "cancelled_claim_without_worker"
          "Startup reconciliation cancelled a claimed queue job with no worker identity."
          (("task_status", text (status_value pending)) ∷ []))
    cancel_task job.task_id
        "Task cancelled because its claimed queue record had no worker identity."
    on_report (λ r. record r {
      cancelled_non_executable_jobs = r.cancelled_non_executable_jobs + 1;
      cancelled_inconsistent_tasks = r.cancelled_inconsistent_tasks + 1;
      recorded_audit_events = r.recorded_audit_events + 1;
    })

  unfoldable pub recover_claimed : QueueRow → String → Exec (Site J Db) (Unit {0})
  recover_claimed job worker = do
    row ← on_queue (
        Store.fail reading.audit_id reading.now job.task_id worker
          "Claimed queue job recovered during backend startup reconciliation." (pos 0)
          (reconciled "recovered_claimed_queue_job"
            "Startup reconciliation recovered a stale claimed queue job."
            (("task_status", text (status_value pending))
              ∷ ("previous_queue_status", text (Queue.status_value claimed))
              ∷ [])))
    on_report (λ r. record r { recorded_audit_events = r.recorded_audit_events + 1 })
    count_recovered row.status

  -- `if not worker_id`
  unfoldable pub reconcile_claimed : QueueRow → Option String → Exec (Site J Db) (Unit {0})
  reconcile_claimed job none = cancel_workerless job
  reconcile_claimed job (some worker) =
      if is_empty worker then cancel_workerless job else recover_claimed job worker

  -- a pending task whose job is over
  unfoldable pub reconcile_over : QueueRow → Exec (Site J Db) (Unit {0})
  reconcile_over job = do
    cancel_task job.task_id (
        "Task cancelled during startup reconciliation because its durable queue status was "
        ++ Queue.status_value job.status
        ++ ".")
    created ← on_queue (
        record_reconciliation reading.audit_id reading.now job.task_id
          "cancelled_task_for_terminal_queue"
          ("Startup reconciliation cancelled a pending task whose queue record was already "
            ++ Queue.status_value job.status
            ++ ".")
          (some (
            ("task_status", text (status_value pending))
            ∷ ("queue_status", text (Queue.status_value job.status))
            ∷ []))
          true)
    count_created created
    count_inconsistent

  unfoldable pub reconcile_pending : QueueStatus → QueueRow → Exec (Site J Db) (Unit {0})
  reconcile_pending queued job = count_unchanged
  reconcile_pending failed job =
      record_preserved_failed reading job.task_id (some pending) "pending_task_failed_queue_job"
  reconcile_pending claimed job = reconcile_claimed job job.worker_id
  reconcile_pending _ job = reconcile_over job

  unfoldable pub reconcile_task : TaskStatus → QueueRow → Exec (Site J Db) (Unit {0})
  reconcile_task running job = reconcile_running job
  reconcile_task pending job = reconcile_pending job.status job
  reconcile_task status job = reconcile_settled job status

  -- `_reconcile_queue_record`
  unfoldable pub reconcile_record : QueueRow → Option (TaskRecord J) → Exec (Site J Db) (Unit {0})
  reconcile_record job none = reconcile_orphan job
  reconcile_record job (some t) = reconcile_task t.status job
