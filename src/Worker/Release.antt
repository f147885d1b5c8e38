-- ===== src/Worker/Release.antt =====
-- backend/app/core/task_worker.py: the job behind a report of `process_next`.
use mama_ai.Prelude.{◌≡◌, refl, Option, none, some}
use mama_ai.Result.{Exc, ok}
use mama_ai.Exec.{Exec, handle, continue}
use mama_ai.Exec.Ensures.{
  Ensures, returned, raised, Ensures-bind, Ensures-weaken, Ensures-check, Ensures-found,
  Ensures-run, Ensures-handle, Ensures-ok,
}
use mama_ai.Task.{new_request}
use mama_ai.Task.Record.{TaskRecord}
use mama_ai.Queue.{QueueRow, QueueDb}
use mama_ai.Queue.Store
use mama_ai.Queue.Store.{Audited, fail_row}
use mama_ai.Queue.Claim.{claim_next}
use mama_ai.Engine.{Payload, Env}
use mama_ai.Engine.Execute.{execute}
use mama_ai.Worker.{
  DurableTaskWorker, WorkerRunReport, Shop, WorkFresh, on_queue, on_engine, unaudited,
  check_job_owner, Plan, drop, settle, refuse, perform, plan_of, request_of, args_of,
  not_registered,
}
use mama_ai.Worker.Run.{
  find_task, perform_job, process_status, process_job, job_failed, process_claimed, process_next,
}
use mama_ai.Queue.Free.{IsFree, complete-IsFree, cancel-IsFree, fail-IsFree}
use mama_ai.Worker.Safe.{on_queue-Ensures, find_task_lem}

-- The job of a report is not claimed, and has the status that the report says.
abbrev pub Released : {Db Ab : Type 0} → WorkerRunReport → Shop Db Ab → Type 0
Released report s' =
    (row : QueueRow) × (row.status ≡ report.queue_status) × IsFree report.task_id row s'.queue

module _ {Db Ab : Type 0} (env : Env Db Ab) (w : DurableTaskWorker) (fresh : WorkFresh) where
  -- A call of the queue whose row is reported.
  reported :
      (job : QueueRow) (m : Exec QueueDb QueueRow) (s : Shop Db Ab)
      {f : QueueRow → Exec (Shop Db Ab) WorkerRunReport}
      → Ensures (IsFree job.task_id) (λ q. Unit) (m s.queue)
      → ((row : QueueRow) (s' : Shop Db Ab)
          → IsFree job.task_id row s'.queue
          → Ensures Released (λ x. Unit) (f row s'))
      → Ensures Released (λ x. Unit) (continue (on_queue m s) f)
  reported job m s h k =
      Ensures-bind (on_queue m s) _
        (Ensures-weaken (on_queue-Ensures env w fresh m s h) (λ r s' p. p.1) (λ s' p. tt)) k

  process_status-Released :
      (p : Plan) (job : QueueRow) (t : TaskRecord Payload) (s : Shop Db Ab)
      → Ensures Released (λ x. Unit) (process_status env w fresh p job t s)
  unfolding process_status perform_job
  process_status-Released drop job t s =
      reported job (Store.cancel fresh.done_id fresh.done_now job.task_id unaudited) s
        (cancel-IsFree fresh.done_id fresh.done_now job.task_id unaudited s.queue)
        λ row s' f. returned _ s' (row, refl, f)
  process_status-Released settle job t s =
      reported job (Store.complete fresh.done_id fresh.done_now job.task_id w.worker_id) s
        (complete-IsFree fresh.done_id fresh.done_now job.task_id w.worker_id s.queue)
        λ row s' f. returned _ s' (row, refl, f)
  process_status-Released refuse job t s = raised _ s tt
  process_status-Released perform job t s =
      Ensures-check (new_request (request_of w job t)) s _
        (λ r n.
          Ensures-bind (on_engine (execute env (args_of job r) fresh.execution) s) _
            (Ensures-run (on_engine (execute env (args_of job r) fresh.execution) s))
            λ result s1 h.
              reported job (Store.complete fresh.done_id fresh.done_now job.task_id w.worker_id) s1
                (complete-IsFree fresh.done_id fresh.done_now job.task_id w.worker_id s1.queue)
                λ row s' f. returned _ s' (row, refl, f))
        tt

  process_job-Released :
      (job : QueueRow) (s : Shop Db Ab)
      → Ensures Released (λ x. Unit) (process_job env w fresh job s)
  unfolding process_job
  process_job-Released job s =
      Ensures-bind (find_task env w fresh job s) _ (Ensures-run (find_task env w fresh job s))
        λ found s1 p.
          Ensures-found found (not_registered job) s1 _
            (λ t q.
              Ensures-check (check_job_owner job t) s1 _
                (λ u o. process_status-Released (plan_of t.status) job t s1) tt)
            tt

  job_failed-Released :
      (job : QueueRow) (e : Exc) (s : Shop Db Ab)
      → Ensures Released (λ x. Unit) (job_failed env w fresh job e s)
  unfolding job_failed
  job_failed-Released job e s =
      reported job
        (Store.fail fresh.fail_id fresh.fail_now job.task_id w.worker_id (env.str_exc e)
          w.retry_delay_seconds unaudited)
        s
        (fail-IsFree fresh.fail_id fresh.fail_now job.task_id w.worker_id (env.str_exc e)
          w.retry_delay_seconds unaudited s.queue)
        λ row s1 f.
          Ensures-bind (find_task env w fresh job s1) _
            (Ensures-weaken (find_task_lem env w fresh job s1) (λ o s2 p. p.0) (λ s2 p. tt))
            λ o s2 p. returned _ s2 (row, refl, rw p f)

  -- Nothing, or a report of a job that is free.
  abbrev pub IsReleased : Option WorkerRunReport → Shop Db Ab → Type 0
  IsReleased none s' = Unit
  IsReleased (some report) s' = Released report s'

  process_claimed-Released :
      (o : Option QueueRow) (s : Shop Db Ab)
      → Ensures IsReleased (λ x. Unit) (process_claimed env w fresh o s)
  unfolding process_claimed
  process_claimed-Released none s = returned none s tt
  process_claimed-Released (some job) s =
      Ensures-bind (handle (process_job env w fresh job s) (job_failed env w fresh job)) _
        (Ensures-handle (process_job env w fresh job s) (job_failed env w fresh job)
          (process_job-Released job s) (λ x s2 h. job_failed-Released job x s2))
        λ r s2 h. returned (some r) s2 h

  -- A run of `process_next` that returns a report leaves the job of the report in the queue, not
  -- claimed by any worker, with the status that the report names.
  pub process_next-Released :
      (s : Shop Db Ab) (report : WorkerRunReport)
      → (process_next env w fresh s).0 ≡ ok (some report)
      → Released report (process_next env w fresh s).1
  unfolding process_next
  process_next-Released s report h =
      Ensures-ok
        (Ensures-bind
          (on_queue (claim_next fresh.claim_ids fresh.claim_now w.worker_id w.lease_seconds) s) _
          (Ensures-run
            (on_queue (claim_next fresh.claim_ids fresh.claim_now w.worker_id w.lease_seconds) s))
          λ o s1 p. process_claimed-Released o s1)
        h
