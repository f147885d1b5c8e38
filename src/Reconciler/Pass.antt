-- ===== src/Reconciler/Pass.antt =====
-- backend/app/core/queue_reconciler.py: `reconcile`.
use mama_ai.Prelude.{
  ℕ, suc, ◌+◌, String, Bool, true, false, ◌&&◌, Option, none, some, List, [], ◌∷◌, length,
  if◌then◌else◌,
}
use mama_ai.Int.{pos}
use mama_ai.Dict
use mama_ai.Dict.{Dict}
use mama_ai.Exec.{Exec, pure, gets, ◌>>=◌, ◌>>◌}
use mama_ai.Task.{TaskStatus, pending, status_value}
use mama_ai.Task.Record.{TaskRecord}
use mama_ai.TaskRegistry
use mama_ai.Queue.{QueueRow, text}
use mama_ai.Queue.Insert
use mama_ai.Queue.Reconcile
use mama_ai.Reconciler.{
  Site, Reading, QueueReconciliationReport, reconciled, on_tasks, on_queue, on_report,
}
use mama_ai.Reconciler.Record.{reconcile_record}

abbrev is_pending : TaskStatus → Bool
is_pending pending = true
is_pending _ = false

-- the report at the start of a pass
abbrev pub new_report : ℕ → ℕ → QueueReconciliationReport
new_report tasks queue = record {
  scanned_tasks = tasks;
  scanned_queue = queue;
  enqueued_missing = 0;
  requeued_claimed = 0;
  preserved_failed_jobs = 0;
  cancelled_orphan_jobs = 0;
  cancelled_non_executable_jobs = 0;
  cancelled_inconsistent_tasks = 0;
  recorded_audit_events = 0;
  unchanged = 0;
}

abbrev is_missing {ℓ} : {A : Type ℓ} → Option A → Bool
is_missing none = true
is_missing (some a) = false

module _ {J Db : Type 0} (save : TaskRecord J → Exec Db (Unit {0})) (default_owner_id : String)
    (readings : ℕ → Reading) where
  -- `tasks_by_id`
  unfoldable pub tasks_by_id : List (TaskRecord J) → Dict (TaskRecord J) → Dict (TaskRecord J)
  tasks_by_id [] d = d
  tasks_by_id (t ∷ ts) d = tasks_by_id ts (Dict.put t.task_id t d)

  -- `queue_by_id`
  unfoldable pub queue_by_id : List QueueRow → Dict QueueRow → Dict QueueRow
  queue_by_id [] d = d
  queue_by_id (r ∷ rs) d = queue_by_id rs (Dict.put r.task_id r d)

  -- the loop over `queue_records`
  unfoldable pub reconcile_jobs : ℕ → Dict (TaskRecord J) → List QueueRow → Exec (Site J Db) ℕ
  reconcile_jobs i tasks [] = pure i
  reconcile_jobs i tasks (job ∷ jobs) =
      reconcile_record save (readings i) job (Dict.get job.task_id tasks)
      >> reconcile_jobs (suc i) tasks jobs

  -- the new job of a task
  unfoldable pub enqueue_missing : Reading → TaskRecord J → Exec (Site J Db) (Unit {0})
  enqueue_missing reading t = do
    on_queue (
        Insert.enqueue reading.audit_id reading.now t.task_id default_owner_id (pos 3) (pos 0) (
          reconciled "enqueued_missing_queue"
            "Startup reconciliation recreated a missing durable queue job."
            (("task_status", text (status_value t.status)) ∷ [])))
    on_report (λ r. record r {
      enqueued_missing = r.enqueued_missing + 1;
      recorded_audit_events = r.recorded_audit_events + 1;
    })

  -- the loop over `task_records`
  unfoldable pub enqueue_all : ℕ → Dict QueueRow → List (TaskRecord J) → Exec (Site J Db) (Unit {0})
  enqueue_all i jobs [] = pure tt
  enqueue_all i jobs (t ∷ ts) =
      (if is_pending t.status && is_missing (Dict.get t.task_id jobs)
        then enqueue_missing (readings i) t
        else pure tt)
      >> enqueue_all (suc i) jobs ts

  -- `reconcile`
  unfoldable pub reconcile : Exec (Site J Db) QueueReconciliationReport
  reconcile = do
    tasks ← on_tasks (TaskRegistry.list none none none)
    jobs ← on_queue (Reconcile.list none none (pos 1000))
    on_report (λ r. new_report (length tasks) (length jobs))
    next ← reconcile_jobs 0 (tasks_by_id tasks []) jobs
    enqueue_all next (queue_by_id jobs []) tasks
    gets (λ s. s.report)
