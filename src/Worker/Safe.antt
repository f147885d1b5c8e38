-- ===== src/Worker/Safe.antt =====
-- backend/app/core/task_worker.py: when a run of the worker gives a command to the executor.
use mama_ai.Prelude.{◌≡◌, ◌⊎◌, inl, inr, refl, arith, true, some, Bool-cases, subst, sym}
use mama_ai.Result.{Exc, Result, ok, err, Result-cases}
use mama_ai.Exec.{Exec}
use mama_ai.Exec.Ensures.{
  Ensures, returned, raised, Ensures-bind, Ensures-weaken, Ensures-check, Ensures-found,
  Ensures-run, Ensures-put_back,
}
use mama_ai.Task.{TaskStatus, TaskRequest, pending, new_request}
use mama_ai.Task.Record.{TaskRecord}
use mama_ai.Dict
use mama_ai.TaskRegistry
use mama_ai.TaskRegistry.{validate_task_id}
use mama_ai.Queue.{QueueRow, QueueDb}
use mama_ai.Queue.Store
use mama_ai.Engine.{Payload, World, Env}
use mama_ai.Engine.Execute.{execute}
use mama_ai.Engine.Guard.{Ran, Outcome, execute_guarded}
use mama_ai.Worker.{
  unaudited, DurableTaskWorker, Shop, WorkFresh, on_queue, on_engine, owner_matches,
  check_job_owner, Plan, drop, settle, refuse, perform, plan_of, request_of, args_of,
  not_registered,
}
use mama_ai.Worker.Run.{find_task, perform_job, process_status, process_job, job_failed}

Ensures-state : {S A : Type 0} {E : S → Type 0} (m : Result A × S) → E m.1 → Ensures (λ a. E) E m
Ensures-state (ok a, s) e = returned a s e
Ensures-state (err x, s) e = raised x s e

module _ {Db Ab : Type 0} (env : Env Db Ab) (w : DurableTaskWorker) (fresh : WorkFresh) where
  -- A call of the queue does not touch the engine.
  pub on_queue-Ensures :
      {A : Type 0} {P : A → QueueDb → Type 0} {E : QueueDb → Type 0} (m : Exec QueueDb A)
      (s : Shop Db Ab)
      → Ensures P E (m s.queue)
      → Ensures
          (λ a s'. (s'.engine ≡ s.engine) × P a s'.queue)
          (λ s'. (s'.engine ≡ s.engine) × E s'.queue)
          (on_queue m s)
  on_queue-Ensures m s h =
      Ensures-weaken (Ensures-put_back (λ q. record s { queue = q }) h)
        (λ a s' (q, e, p). rw e (refl, p)) (λ s' (q, e, p). rw e (refl, p))

  pub find_task_lem :
      (job : QueueRow) (s : Shop Db Ab)
      → Ensures
          (λ o s'. (s' ≡ s) × ((TaskRegistry.get job.task_id s.engine.tasks).0 ≡ ok o))
          (λ s'. s' ≡ s)
          (find_task env w fresh job s)
  unfolding TaskRegistry.get
  find_task_lem job s = elim (Result-cases (validate_task_id job.task_id)) [
    | inr (id, e) ↦ rw e (returned (Dict.get id s.engine.tasks.records) s (refl, refl))
    | inl (x, e) ↦ rw e (raised x s refl)
  ]

  -- A run on a claimed job that gave a command to the executor.
  pub record Performs (job : QueueRow) (s s' : Shop Db Ab) : Type 0 where
    pub task : TaskRecord Payload
    pub found : (TaskRegistry.get job.task_id s.engine.tasks).0 ≡ ok (some task)
    pub owned : owner_matches job task ≡ true
    pub is_pending : task.status ≡ pending
    pub the_request : TaskRequest
    pub made : new_request (request_of w job task) ≡ ok the_request
    pub ran : Ran env (args_of job the_request) fresh.execution s.engine s'.engine

  abbrev pub IsCalm : Shop Db Ab → Shop Db Ab → Type 0
  IsCalm s s' = s'.engine.executed ≡ s.engine.executed

  abbrev pub JobOutcome : QueueRow → Shop Db Ab → Shop Db Ab → Type 0
  JobOutcome job s s' = IsCalm s s' ⊎ Performs job s s'

  -- A call of the queue after the run changes nothing of it.
  JobOutcome-queue :
      (job : QueueRow) (s s1 s2 : Shop Db Ab)
      → JobOutcome job s s1
      → s2.engine ≡ s1.engine
      → JobOutcome job s s2
  JobOutcome-queue job s s1 s2 (inl c) e = inl (rw e c)
  JobOutcome-queue job s s1 s2 (inr p) e = inr (record {
    task = p.task;
    found = p.found;
    owned = p.owned;
    is_pending = p.is_pending;
    the_request = p.the_request;
    made = p.made;
    ran = subst (Ran env (args_of job p.the_request) fresh.execution s.engine) (sym e) p.ran;
  })

  -- The run of the engine on the request of a task.
  execute-JobOutcome :
      (job : QueueRow) (t : TaskRecord Payload) (r : TaskRequest) (s : Shop Db Ab)
      → (TaskRegistry.get job.task_id s.engine.tasks).0 ≡ ok (some t)
      → owner_matches job t ≡ true
      → t.status ≡ pending
      → new_request (request_of w job t) ≡ ok r
      → Ensures
          (λ x. JobOutcome job s)
          (JobOutcome job s)
          (on_engine (execute env (args_of job r) fresh.execution) s)
  execute-JobOutcome job t r s g o p n =
      Ensures-weaken
        (Ensures-put_back {Q = λ x. Outcome env (args_of job r) fresh.execution s.engine}
          {E = Outcome env (args_of job r) fresh.execution s.engine} (λ e. record s { engine = e })
          (Ensures-state (execute env (args_of job r) fresh.execution s.engine)
            (execute_guarded env (args_of job r) fresh.execution s.engine)))
        (λ x s' (e, q, h). rw q (ran e h)) (λ s' (e, q, h). rw q (ran e h))
    where
      ran :
          (e : World Db Ab)
          → Outcome env (args_of job r) fresh.execution s.engine e
          → JobOutcome job s (record s { engine = e })
      ran e (inl c) = inl c
      ran e (inr k) = inr (record {
        task = t;
        found = g;
        owned = o;
        is_pending = p;
        the_request = r;
        made = n;
        ran = k;
      })

  queue_then :
      {A : Type 0} (m : Exec QueueDb A) (job : QueueRow) (s s1 : Shop Db Ab)
      → JobOutcome job s s1
      → Ensures (λ a. JobOutcome job s) (JobOutcome job s) (on_queue m s1)
  queue_then m job s s1 h =
      Ensures-weaken (on_queue-Ensures m s1 (Ensures-run (m s1.queue)))
        (λ a s2 (e, _). JobOutcome-queue job s s1 s2 h e)
        (λ s2 (e, _). JobOutcome-queue job s s1 s2 h e)

  plan_of-pending : (x : TaskStatus) → plan_of x ≡ perform → x ≡ pending
  plan_of-pending x h = ground arith

  process_status-JobOutcome :
      (p : Plan) (job : QueueRow) (t : TaskRecord Payload) (s : Shop Db Ab)
      → (TaskRegistry.get job.task_id s.engine.tasks).0 ≡ ok (some t)
      → owner_matches job t ≡ true
      → plan_of t.status ≡ p
      → Ensures (λ x. JobOutcome job s) (JobOutcome job s) (process_status env w fresh p job t s)
  unfolding process_status perform_job
  process_status-JobOutcome drop job t s g o e =
      Ensures-bind (on_queue (Store.cancel fresh.done_id fresh.done_now job.task_id unaudited) s) _
        (queue_then (Store.cancel fresh.done_id fresh.done_now job.task_id unaudited) job s s
          (inl refl))
        λ row s' h. returned _ s' h
  process_status-JobOutcome settle job t s g o e =
      Ensures-bind
        (on_queue (Store.complete fresh.done_id fresh.done_now job.task_id w.worker_id) s) _
        (queue_then (Store.complete fresh.done_id fresh.done_now job.task_id w.worker_id) job s s
          (inl refl))
        λ row s' h. returned _ s' h
  process_status-JobOutcome refuse job t s g o e = raised _ s (inl refl)
  process_status-JobOutcome perform job t s g o e =
      Ensures-check (new_request (request_of w job t)) s _
        (λ r n.
          Ensures-bind (on_engine (execute env (args_of job r) fresh.execution) s) _
            (execute-JobOutcome job t r s g o (plan_of-pending t.status e) n)
            λ result s1 h.
              Ensures-bind
                (on_queue (Store.complete fresh.done_id fresh.done_now job.task_id w.worker_id) s1)
                _
                (queue_then (Store.complete fresh.done_id fresh.done_now job.task_id w.worker_id)
                  job s s1 h)
                λ row s2 k. returned _ s2 k)
        (inl refl)

  pub process_job-JobOutcome :
      (job : QueueRow) (s : Shop Db Ab)
      → Ensures (λ x. JobOutcome job s) (JobOutcome job s) (process_job env w fresh job s)
  unfolding process_job check_job_owner
  process_job-JobOutcome job s =
      Ensures-bind (find_task env w fresh job s) _
        (Ensures-weaken (find_task_lem job s) (λ o s1 p. p) (λ s1 p. inl (rw p refl)))
        λ found s1 p. rw p.0 (
          Ensures-found found (not_registered job) s _
            (λ t q. elim (Bool-cases (owner_matches job t)) [
              | inr o ↦ rw o (raised _ s (inl refl))
              | inl o ↦ rw o (
                  process_status-JobOutcome (plan_of t.status) job t s
                    (subst (λ x. (TaskRegistry.get job.task_id s.engine.tasks).0 ≡ ok x) q p.1) o
                    refl)
            ])
            (inl refl))

  pub job_failed-JobOutcome :
      (job : QueueRow) (e : Exc) (s s1 : Shop Db Ab)
      → JobOutcome job s s1
      → Ensures (λ x. JobOutcome job s) (JobOutcome job s) (job_failed env w fresh job e s1)
  unfolding job_failed
  job_failed-JobOutcome job e s s1 h =
      Ensures-bind
        (on_queue
          (Store.fail fresh.fail_id fresh.fail_now job.task_id w.worker_id (env.str_exc e)
            w.retry_delay_seconds unaudited)
          s1)
        _
        (queue_then
          (Store.fail fresh.fail_id fresh.fail_now job.task_id w.worker_id (env.str_exc e)
            w.retry_delay_seconds unaudited)
          job s s1 h)
        λ row s2 k.
          Ensures-bind (find_task env w fresh job s2) _
            (Ensures-weaken (find_task_lem job s2) (λ o s3 p. subst (JobOutcome job s) (sym p.0) k)
              (λ s3 p. subst (JobOutcome job s) (sym p) k))
            λ o s3 p. returned _ s3 p
