-- ===== src/Worker/Run.antt =====
-- backend/app/core/task_worker.py: the steps of `process_next`.
use mama_ai.Prelude.{String, Option, none, some, [], ◌∷◌}
use mama_ai.Result.{Exc, runtime_error}
use mama_ai.Exec.{Exec, pure, lift, raise, or_raise, handle, ◌>>=◌, ◌>>◌}
use mama_ai.Task.{TaskStatus, new_request}
use mama_ai.Task.Record.{TaskRecord}
use mama_ai.TaskRegistry
use mama_ai.Queue.{QueueRow}
use mama_ai.Queue.Store
use mama_ai.Queue.Claim.{claim_next}
use mama_ai.Engine.{Payload, Env, on_tasks}
use mama_ai.Engine.Execute.{execute}
use mama_ai.Worker.{
  DurableTaskWorker, WorkerRunReport, Shop, WorkFresh, on_engine, on_queue, unaudited,
  not_registered, check_job_owner, Plan, drop, settle, refuse, perform, plan_of, request_of,
  args_of,
}

abbrev pub report_of :
    DurableTaskWorker
    → WorkFresh
    → QueueRow
    → QueueRow
    → Option TaskStatus
    → String
    → Option String
    → WorkerRunReport
report_of w fresh job row task_status message error = record {
  worker_id = w.worker_id;
  task_id = job.task_id;
  queue_status = row.status;
  task_status = task_status;
  message = message;
  error = error;
  processed_at = fresh.processed_at;
}

abbrev pub status_of : Option (TaskRecord Payload) → Option TaskStatus
status_of none = none
status_of (some t) = some t.status

module _ {Db Ab : Type 0} (env : Env Db Ab) (w : DurableTaskWorker) (fresh : WorkFresh) where
  abbrev pub find_task : QueueRow → Exec (Shop Db Ab) (Option (TaskRecord Payload))
  find_task job = on_engine (on_tasks (TaskRegistry.get job.task_id))

  abbrev pub finish_job : QueueRow → Exec (Shop Db Ab) QueueRow
  finish_job job = on_queue (Store.complete fresh.done_id fresh.done_now job.task_id w.worker_id)

  -- the request is made and given to the engine
  unfoldable pub perform_job : QueueRow → TaskRecord Payload → Exec (Shop Db Ab) WorkerRunReport
  perform_job job t = do
    r ← lift (new_request (request_of w job t))
    result ← on_engine (execute env (args_of job r) fresh.execution)
    row ← finish_job job
    pure (report_of w fresh job row (some result.status) result.message result.error)

  unfoldable pub process_status :
      Plan → QueueRow → TaskRecord Payload → Exec (Shop Db Ab) WorkerRunReport
  process_status drop job t = do
    row ← on_queue (Store.cancel fresh.done_id fresh.done_now job.task_id unaudited)
    pure (
        report_of w fresh job row (some t.status)
          "Cancelled task was removed from worker execution." none)
  process_status settle job t = do
    row ← finish_job job
    pure (
        report_of w fresh job row (some t.status)
          "Task already reached a state that does not require queue execution." t.error)
  process_status refuse job t =
      raise (runtime_error ("The task is already marked as running." ∷ []))
  process_status perform job t = perform_job job t

  -- the `try`
  unfoldable pub process_job : QueueRow → Exec (Shop Db Ab) WorkerRunReport
  process_job job = do
    found ← find_task job
    t ← or_raise found (not_registered job)
    lift (check_job_owner job t)
    process_status (plan_of t.status) job t

  -- its handler
  unfoldable pub job_failed : QueueRow → Exc → Exec (Shop Db Ab) WorkerRunReport
  job_failed job exc = do
    row ← on_queue (
        Store.fail fresh.fail_id fresh.fail_now job.task_id w.worker_id (env.str_exc exc)
          w.retry_delay_seconds unaudited)
    found ← find_task job
    pure (
        report_of w fresh job row (status_of found)
          "The durable worker could not deliver the task to the engine." (some (env.str_exc exc)))

  unfoldable pub process_claimed : Option QueueRow → Exec (Shop Db Ab) (Option WorkerRunReport)
  process_claimed none = pure none
  process_claimed (some job) =
      (λ s. handle (process_job job s) (job_failed job)) >>= λ report. pure (some report)

  -- `process_next`
  unfoldable pub process_next : Exec (Shop Db Ab) (Option WorkerRunReport)
  process_next =
      on_queue (claim_next fresh.claim_ids fresh.claim_now w.worker_id w.lease_seconds)
      >>= process_claimed
