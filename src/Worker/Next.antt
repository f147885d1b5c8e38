-- ===== src/Worker/Next.antt =====
-- backend/app/core/task_worker.py: when `process_next` gives a command to the executor.
use mama_ai.Prelude.{none, ap, arith, false, ◌≡◌, ◌⊎◌, inl, inr, refl, some, subst, Option}
use mama_ai.Result.{Result, ok, Result-cases}
use mama_ai.Exec.{handle}
use mama_ai.Exec.Ensures.{Ensures, returned, raised, Ensures-bind, Ensures-weaken, Ensures-handle}
use mama_ai.TaskRegistry
use mama_ai.TaskRegistry.{validate_task_id}
use mama_ai.Queue.{QueueRow}
use mama_ai.Queue.Claim.{claim_next}
use mama_ai.Risk.{needs_approval}
use mama_ai.Engine.{World, Env}
use mama_ai.Engine.Guard.{Ran}
use mama_ai.Worker.{DurableTaskWorker, Shop, WorkFresh, on_queue, args_of}
use mama_ai.Worker.Run.{process_claimed, process_next, process_job, job_failed}
use mama_ai.Worker.Safe.{
  IsCalm, Performs, JobOutcome, process_job-JobOutcome, job_failed-JobOutcome,
}

module _ {Db Ab : Type 0} (env : Env Db Ab) (w : DurableTaskWorker) (fresh : WorkFresh) where
  -- What a run that gave a command to the executor rests on.
  pub record Delivers (s s' : Shop Db Ab) : Type 0 where
    pub job : QueueRow
    pub claim :
        (claim_next fresh.claim_ids fresh.claim_now w.worker_id w.lease_seconds s.queue).0
        ≡ ok (some job)
    pub performs : Performs env w fresh job s s'
    pub allowed : needs_approval performs.ran.assessment.decision ≡ false

  abbrev pub WorkOutcome : Shop Db Ab → Shop Db Ab → Type 0
  WorkOutcome s s' = IsCalm env w fresh s s' ⊎ Delivers s s'

  ended :
      {A : Type 0} {s : Shop Db Ab} {m : Result A × Shop Db Ab}
      → Ensures (λ x. WorkOutcome s) (WorkOutcome s) m
      → WorkOutcome s m.1
  ended (returned x s' p) = p
  ended (raised e s' p) = p

  -- The worker gives no approval, so the policy has asked for none.
  needs_none :
      (job : QueueRow) (s s' : Shop Db Ab) (p : Performs env w fresh job s s')
      → needs_approval p.ran.assessment.decision ≡ false
  needs_none job s s' p = elim p.ran.permitted [
    | inl h ↦ h
    | inr (id, token, u, q, c) ↦ absurd (ground arith)
  ]

  JobOutcome-WorkOutcome :
      (job : QueueRow) (s s1 s' : Shop Db Ab)
      → s1.engine ≡ s.engine
      → (claim_next fresh.claim_ids fresh.claim_now w.worker_id w.lease_seconds s.queue).0
        ≡ ok (some job)
      → JobOutcome env w fresh job s1 s'
      → WorkOutcome s s'
  JobOutcome-WorkOutcome job s s1 s' e c (inl h) = inl (rw h (ap (λ x. x.executed) e))
  JobOutcome-WorkOutcome job s s1 s' e c (inr p) =
      let done : Performs env w fresh job s s' = record {
        task = p.task;
        found =
            subst (λ (x : World Db Ab). (TaskRegistry.get job.task_id x.tasks).0 ≡ ok (some p.task))
              e p.found;
        owned = p.owned;
        is_pending = p.is_pending;
        the_request = p.the_request;
        made = p.made;
        ran = subst (λ x. Ran env (args_of job p.the_request) fresh.execution x s'.engine) e p.ran;
      } in
      inr (record { job = job; claim = c; performs = done; allowed = needs_none job s s' done })

  process_claimed-WorkOutcome :
      (o : Option QueueRow) (s s1 : Shop Db Ab)
      → s1.engine ≡ s.engine
      → (claim_next fresh.claim_ids fresh.claim_now w.worker_id w.lease_seconds s.queue).0 ≡ ok o
      → Ensures (λ x. WorkOutcome s) (WorkOutcome s) (process_claimed env w fresh o s1)
  unfolding process_claimed
  process_claimed-WorkOutcome none s s1 e c = returned none s1 (inl (ap (λ x. x.executed) e))
  process_claimed-WorkOutcome (some job) s s1 e c =
      Ensures-bind (handle (process_job env w fresh job s1) (job_failed env w fresh job)) _
        (Ensures-weaken
          (Ensures-handle (process_job env w fresh job s1) (job_failed env w fresh job)
            (process_job-JobOutcome env w fresh job s1)
            (λ x s2 h. job_failed-JobOutcome env w fresh job x s1 s2 h))
          (λ r s2 h. JobOutcome-WorkOutcome job s s1 s2 e c h)
          (λ s2 h. JobOutcome-WorkOutcome job s s1 s2 e c h))
        λ r s2 h. returned _ s2 h

  -- A run of `process_next`, whether it returns or raises, gives nothing to the executor, or it has
  -- claimed a job whose task is registered and pending, with the owner of the job or the default
  -- owner, and gives exactly the command of this task, as its request stores it, to the executor
  -- once, after the policy has neither denied it nor required approval.
  pub process_next-WorkOutcome : (s : Shop Db Ab) → WorkOutcome s (process_next env w fresh s).1
  unfolding process_next
  process_next-WorkOutcome s = ended (
      Ensures-bind
        (on_queue (claim_next fresh.claim_ids fresh.claim_now w.worker_id w.lease_seconds) s) _
        (claimed s) λ o s1 (e, c). process_claimed-WorkOutcome o s s1 e c)
    where
      claimed :
          (s : Shop Db Ab)
          → Ensures
              (λ o s1.
                (s1.engine ≡ s.engine)
                × ((claim_next fresh.claim_ids fresh.claim_now w.worker_id w.lease_seconds
                      s.queue).0
                    ≡ ok o))
              (WorkOutcome s)
              (on_queue (claim_next fresh.claim_ids fresh.claim_now w.worker_id w.lease_seconds) s)
      claimed s =
          elim (Result-cases
            (claim_next fresh.claim_ids fresh.claim_now w.worker_id w.lease_seconds s.queue).0) [
              | inl (x, q) ↦ rw q (raised x _ (inl refl))
              | inr (o, q) ↦ rw q (returned o _ (refl, refl))
            ]
