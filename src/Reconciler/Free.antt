-- ===== src/Reconciler/Free.antt =====
-- backend/app/core/queue_reconciler.py: the job of a reconciled record.
use mama_ai.Prelude.{String, ◌≡◌, Bool, true, false, Option}
use mama_ai.Dict.{Dict}
use mama_ai.Exec.{Exec, continue}
use mama_ai.Exec.Ensures.{
  Ensures-put_back, Ensures, returned, Ensures-bind, Ensures-weaken, Ensures-run,
}
use mama_ai.Task.{TaskStatus}
use mama_ai.Task.Record.{TaskRecord}
use mama_ai.TaskRegistry
use mama_ai.Queue.{QueueRow, QueueDb, Value, AuditEvent}
use mama_ai.Queue.Store
use mama_ai.Queue.Store.{Audited, is_open}
use mama_ai.Queue.Reconcile.{record_reconciliation}
use mama_ai.Queue.Enqueue.{record_reconciliation_lem}
use mama_ai.Queue.Free.{IsFree, cancel-IsFree}
use mama_ai.Reconciler.{Site, Reading, on_tasks, on_queue, count_created, record_preserved_failed}
use mama_ai.Reconciler.Record.{cancel_task}

-- Some row of a task is in the table, and nobody works on it.
abbrev pub SomeFree : String → QueueDb → Type 0
SomeFree id q = (r : QueueRow) × IsFree id r q

SomeFree-rows : (id : String) (q q' : QueueDb) → q'.rows ≡ q.rows → SomeFree id q → SomeFree id q'
SomeFree-rows id q q' e (r, f) =
    (r, record { key = f.key; named = f.named; stored = rw e f.stored; free = f.free })

module _ {J Db : Type 0} (save : TaskRecord J → Exec Db (Unit {0})) (reading : Reading)
    (id : String) where
  abbrev pub Freed : Site J Db → Type 0
  Freed s = SomeFree id s.queue

  -- A call that frees the job, and what follows it.
  pub on_queue-Freed :
      {A B : Type 0} (m : Exec QueueDb A) (f : A → Exec (Site J Db) B) (s : Site J Db)
      → Ensures (λ a q. SomeFree id q) (λ q. Unit) (m s.queue)
      → ((a : A) (s' : Site J Db) → Freed s' → Ensures (λ b. Freed) (λ x. Unit) (f a s'))
      → Ensures (λ b. Freed) (λ x. Unit) (continue (on_queue m s) f)
  on_queue-Freed m f s h k =
      Ensures-bind (on_queue m s) f
        (Ensures-weaken (Ensures-put_back (λ q. record s { queue = q }) h)
          (λ a s' (q, e, p). rw e p) (λ s' p. tt))
        k

  -- A call of the registry does not touch the queue.
  pub cancel_task-Freed :
      (message : String) (s : Site J Db)
      → Freed s
      → Ensures (λ b. Freed) (λ x. Unit) (cancel_task save reading id message s)
  cancel_task-Freed message s h =
      let m = TaskRegistry.cancel save id message reading.task_now s.tasks in
      Ensures-bind (on_tasks (TaskRegistry.cancel save id message reading.task_now) s) _
        (Ensures-weaken (Ensures-put_back (λ t. record s { tasks = t }) (Ensures-run m))
          (λ a s' (t, e, p). rw e h) (λ s' p. tt))
        λ a s' p. returned tt s' p

  pub record_reconciliation-SomeFree :
      (action message : String) (metadata : Option (Dict Value)) (q : QueueDb)
      → SomeFree id q
      → Ensures
          (λ a q'. SomeFree id q')
          (λ q'. Unit)
          (record_reconciliation reading.audit_id reading.now id action message metadata true q)
  record_reconciliation-SomeFree action message metadata q h =
      Ensures-weaken
        (record_reconciliation_lem reading.audit_id reading.now id action message metadata true q)
        (λ a q' p. SomeFree-rows id q q' p.1 h) (λ q' p. tt)

  pub count_created-Freed :
      (c : AuditEvent × Bool) (s : Site J Db)
      → Freed s
      → Ensures (λ b. Freed) (λ x. Unit) (count_created c s)
  count_created-Freed (e, true) s h = returned tt _ h
  count_created-Freed (e, false) s h = returned tt s h

  pub cancel-SomeFree :
      (audit : Audited) (q : QueueDb)
      → Ensures
          (λ a q'. SomeFree id q')
          (λ q'. Unit)
          (Store.cancel reading.audit_id reading.now id audit q)
  cancel-SomeFree audit q =
      Ensures-weaken (cancel-IsFree reading.audit_id reading.now id audit q) (λ r q' p. (r, p))
        (λ q' p. tt)

  pub record_preserved_failed-Freed :
      (task_status : Option TaskStatus) (reason : String) (s : Site J Db)
      → Freed s
      → Ensures (λ b. Freed) (λ x. Unit) (record_preserved_failed reading id task_status reason s)
  unfolding record_preserved_failed
  record_preserved_failed-Freed task_status reason s h =
      on_queue-Freed
        (record_reconciliation reading.audit_id reading.now id "preserved_failed_queue_job" _ _
          true)
        _ s (record_reconciliation-SomeFree "preserved_failed_queue_job" _ _ s.queue h)
        λ c s' k. count_created-Freed c _ k
