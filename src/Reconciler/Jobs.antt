-- ===== src/Reconciler/Jobs.antt =====
-- backend/app/core/queue_reconciler.py: the branches of `_reconcile_queue_record`.
use mama_ai.Prelude.{
  String, ◌≡◌, ◌≢◌, refl, arith, true, false, Option, none, some, Bool-cases, inl, inr,
}
use mama_ai.Dict
use mama_ai.Int.{pos}
use mama_ai.Result.{Result, ok}
use mama_ai.Text.{is_empty}
use mama_ai.Exec.{Exec}
use mama_ai.Exec.Ensures.{Ensures, returned, raised, Ensures-bind, Ensures-weaken}
use mama_ai.Task
use mama_ai.Task.{TaskStatus, pending, running}
use mama_ai.Task.Record.{TaskRecord}
use mama_ai.Queue
use mama_ai.Queue.{
  QueueStatus, queued, claimed, completed, failed, cancelled, QueueRow, validate_text,
}
use mama_ai.Queue.Store
use mama_ai.Queue.Store.{Audited, is_open}
use mama_ai.Queue.Reconcile.{record_reconciliation}
use mama_ai.Queue.Free.{fail-IsFree}
use mama_ai.Reconciler.{Site, Reading, reconciled}
use mama_ai.Reconciler.Record.{
  reconcile_orphan, reconcile_settled, reconcile_running, count_recovered, cancel_workerless,
  recover_claimed, reconcile_claimed, reconcile_over, reconcile_pending, reconcile_task,
  reconcile_record, cancel_executable,
}
use mama_ai.Reconciler.Free.{
  SomeFree, Freed, on_queue-Freed, cancel_task-Freed, record_reconciliation-SomeFree,
  count_created-Freed, cancel-SomeFree, record_preserved_failed-Freed,
}

module _ {J Db : Type 0} (save : TaskRecord J → Exec Db (Unit {0})) (reading : Reading)
    (job : QueueRow) where
  abbrev Frees : {A : Type 0} → Result A × Site J Db → Type 0
  Frees m = Ensures (λ a. Freed save reading job.task_id) (λ x. Unit) m

  executable-Frees :
      (action message : String) (status : TaskStatus) (s : Site J Db)
      → Frees (cancel_executable save reading job action message status s)
  executable-Frees action message status s =
      on_queue-Freed save reading job.task_id
        (Store.cancel reading.audit_id reading.now job.task_id (reconciled action message _)) _ s
        (cancel-SomeFree save reading job.task_id (reconciled action message _) s.queue)
        λ r s' k. returned tt _ k

  -- The row of the snapshot is the row of the table.
  abbrev IsFresh : Site J Db → Type 0
  IsFresh s =
      (Dict.get job.task_id s.queue.rows ≡ some job)
      × (validate_text job.task_id "Task ID" ≡ ok job.task_id)

  fresh-Freed :
      (s : Site J Db) → IsFresh s → job.status ≢ claimed → Freed save reading job.task_id s
  fresh-Freed s f h = (job, record { key = job.task_id; named = f.1; stored = f.0; free = h })

  closed-free : is_open job.status ≡ false → job.status ≢ claimed
  closed-free h e = absurd (ground arith)

  orphan-Frees : (s : Site J Db) → IsFresh s → Frees (reconcile_orphan save reading job s)
  unfolding reconcile_orphan
  orphan-Frees s f = elim (Bool-cases (is_open job.status)) [
    | inl o ↦ rw o (
        on_queue-Freed save reading job.task_id
          (Store.cancel reading.audit_id reading.now job.task_id (reconciled _ _ _)) _ s
          (cancel-SomeFree save reading job.task_id (reconciled _ _ _) s.queue)
          λ r s' k. returned tt _ k)
    | inr o ↦ elim (Bool-cases (Queue.same job.status failed)) [
      | inl q ↦
          rw (o, q)
            (record_preserved_failed-Freed save reading job.task_id none _ s
              (fresh-Freed s f (closed-free o)))
      | inr q ↦ rw (o, q) (returned tt _ (fresh-Freed s f (closed-free o)))
    ]
  ]

  settled-Frees :
      (status : TaskStatus) (s : Site J Db)
      → IsFresh s
      → Frees (reconcile_settled save reading job status s)
  unfolding reconcile_settled
  settled-Frees status s f = elim (Bool-cases (is_open job.status)) [
    | inl o ↦ rw o (executable-Frees _ _ status s)
    | inr o ↦ rw o (returned tt _ (fresh-Freed s f (closed-free o)))
  ]

  workerless-Frees : (s : Site J Db) → Frees (cancel_workerless save reading job s)
  unfolding cancel_workerless
  workerless-Frees s =
      on_queue-Freed save reading job.task_id
        (Store.cancel reading.audit_id reading.now job.task_id (reconciled _ _ _)) _ s
        (cancel-SomeFree save reading job.task_id (reconciled _ _ _) s.queue)
        λ r s1 k.
          Ensures-bind _ _ (cancel_task-Freed save reading job.task_id _ s1 k)
            λ u s2 j. returned tt _ j

  running-Frees : (s : Site J Db) → IsFresh s → Frees (reconcile_running save reading job s)
  unfolding reconcile_running
  running-Frees s f = elim (Bool-cases (is_open job.status)) [
    | inl o ↦ rw o (
        Ensures-bind (cancel_executable save reading job _ _ running s) _
          (executable-Frees _ _ running s)
          λ u s1 k.
            Ensures-bind _ _ (cancel_task-Freed save reading job.task_id _ s1 k)
              λ v s2 j. returned tt _ j)
    | inr o ↦ rw o (
        Ensures-bind _ _
          (cancel_task-Freed save reading job.task_id _ s (fresh-Freed s f (closed-free o)))
          λ v s2 j.
            on_queue-Freed save reading job.task_id
              (record_reconciliation reading.audit_id reading.now job.task_id
                "cancelled_inconsistent_running_task" _ _ true)
              _ _
              (record_reconciliation-SomeFree save reading job.task_id
                "cancelled_inconsistent_running_task" _ _ s2.queue j)
              λ c s3 k. count_created-Freed save reading job.task_id c s3 k)
  ]

  recovered-Frees :
      (status : QueueStatus) (s : Site J Db)
      → Freed save reading job.task_id s
      → Frees (count_recovered save reading status s)
  unfolding count_recovered
  recovered-Frees queued s h = returned tt _ h
  recovered-Frees failed s h = returned tt _ h
  recovered-Frees claimed s h = raised _ s tt
  recovered-Frees completed s h = raised _ s tt
  recovered-Frees cancelled s h = raised _ s tt

  recover-Frees :
      (worker : String) (s : Site J Db) → Frees (recover_claimed save reading job worker s)
  unfolding recover_claimed
  recover-Frees worker s =
      on_queue-Freed save reading job.task_id
        (Store.fail reading.audit_id reading.now job.task_id worker _ (pos 0) (reconciled _ _ _)) _
        s
        (Ensures-weaken
          (fail-IsFree reading.audit_id reading.now job.task_id worker _ (pos 0) (reconciled _ _ _)
            s.queue)
          (λ r q' p. (r, p)) (λ q' p. tt))
        λ r s1 k. recovered-Frees r.status _ k

  claimed-Frees :
      (worker : Option String) (s : Site J Db) → Frees (reconcile_claimed save reading job worker s)
  unfolding reconcile_claimed
  claimed-Frees none s = workerless-Frees s
  claimed-Frees (some worker) s = elim (Bool-cases (is_empty worker)) [
    | inl e ↦ rw e (workerless-Frees s)
    | inr e ↦ rw e (recover-Frees worker s)
  ]

  over-Frees :
      (s : Site J Db) → Freed save reading job.task_id s → Frees (reconcile_over save reading job s)
  unfolding reconcile_over
  over-Frees s h = Ensures-bind _ _ (cancel_task-Freed save reading job.task_id _ s h) λ v s1 j.
      on_queue-Freed save reading job.task_id
        (record_reconciliation reading.audit_id reading.now job.task_id
          "cancelled_task_for_terminal_queue" _ _ true)
        _ s1
        (record_reconciliation-SomeFree save reading job.task_id "cancelled_task_for_terminal_queue"
          _ _ s1.queue j)
        λ c s2 k.
          Ensures-bind _ _ (count_created-Freed save reading job.task_id c s2 k)
            λ u s3 l. returned tt _ l

  pending-Frees :
      (status : QueueStatus) (s : Site J Db)
      → IsFresh s
      → job.status ≡ status
      → Frees (reconcile_pending save reading status job s)
  unfolding reconcile_pending
  pending-Frees queued s f e = returned tt _ (fresh-Freed s f (λ c. absurd (ground (arith, e))))
  pending-Frees failed s f e =
      record_preserved_failed-Freed save reading job.task_id (some pending) _ s
        (fresh-Freed s f (λ c. absurd (ground (arith, e))))
  pending-Frees claimed s f e = claimed-Frees job.worker_id s
  pending-Frees completed s f e = over-Frees s (fresh-Freed s f (λ c. absurd (ground (arith, e))))
  pending-Frees cancelled s f e = over-Frees s (fresh-Freed s f (λ c. absurd (ground (arith, e))))

  task-Frees :
      (status : TaskStatus) (s : Site J Db)
      → IsFresh s
      → Frees (reconcile_task save reading status job s)
  unfolding reconcile_task
  task-Frees Task.pending s f = pending-Frees job.status s f refl
  task-Frees Task.running s f = running-Frees s f
  task-Frees Task.waiting_approval s f = settled-Frees Task.waiting_approval s f
  task-Frees Task.succeeded s f = settled-Frees Task.succeeded s f
  task-Frees Task.failed s f = settled-Frees Task.failed s f
  task-Frees Task.cancelled s f = settled-Frees Task.cancelled s f
  task-Frees Task.rolled_back s f = settled-Frees Task.rolled_back s f

-- The reconciliation of a record of the queue, as it stands in the table under its own valid task
-- ID, with or without its task, leaves, if it returns, a row for this task in the queue that no
-- worker has claimed.
pub reconcile_record-SomeFree :
    {J Db : Type 0} (save : TaskRecord J → Exec Db (Unit {0})) (reading : Reading) (job : QueueRow)
    → (task : Option (TaskRecord J)) (s : Site J Db) → Dict.get job.task_id s.queue.rows ≡ some job
    → validate_text job.task_id "Task ID" ≡ ok job.task_id
    → Ensures
        (λ u s'. SomeFree job.task_id s'.queue)
        (λ s'. Unit)
        (reconcile_record save reading job task s)
unfolding reconcile_record
reconcile_record-SomeFree save reading job none s g v = orphan-Frees save reading job s (g, v)
reconcile_record-SomeFree save reading job (some t) s g v =
    task-Frees save reading job t.status s (g, v)
