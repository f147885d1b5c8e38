-- ===== src/Queue/Moves.antt =====
-- backend/app/database/queue_db.py: `complete`, `fail`, `retry_failed`, `cancel_queued` and
-- `cancel`.
use mama_ai.Prelude.{
  ℕ, String, ◌≡◌, ◌≤◌, refl, arith, Bool, true, eq_iff, Option, none, some, ap, ◌+◌, Bool-cases,
  inl, inr,
}
use mama_ai.Int.{ℤ}
use mama_ai.Dict
use mama_ai.Result.{Exc, ok}
use mama_ai.Exec.Ensures.{Ensures, raised, Ensures-weaken, Ensures-check}
use mama_ai.Queue.{
  QueueStatus, queued, claimed, completed, failed, cancelled, QueueRow, AuditEvent, QueueDb, same,
  validate_text, validate_max_attempts, validate_delay, check_between,
}
use mama_ai.Approval.{seconds}
use mama_ai.Queue.Store.{
  Audited, complete, fail, retry_failed, cancel_queued, cancel, is_held_by, leave, fail_row,
  fail_event, retry_row, is_open, change_job, not_claimed, is_worker,
}
use mama_ai.Queue.Life.{◌⇝◌, finishes, fails, retries, cancels}
use mama_ai.Queue.Effect.{Moved, change_job_lem, job_lem}

-- What `is_held_by` says.
pub held-claimed :
    (worker : String) (v : QueueRow) → is_held_by worker v ≡ true → v.status ≡ claimed
held-claimed worker v h = ground arith

is_worker-eq : (worker : String) (o : Option String) → is_worker worker o ≡ true → o ≡ some worker
is_worker-eq worker none h = cc
is_worker-eq worker (some w) h = ap some ((eq_iff w worker).0 h)

pub held-worker :
    (worker : String) (v : QueueRow) → is_held_by worker v ≡ true → v.worker_id ≡ some worker
held-worker worker v h = is_worker-eq worker v.worker_id (ground arith)

same_iff : (a b : QueueStatus) → same a b ≡ true → a ≡ b
same_iff a b h = ground arith

-- A row that `change_job` has moved.
move_lem :
    (id : String) (test : QueueRow → Bool) (change : QueueRow → QueueRow) (refused : Exc)
    → (raw : AuditEvent) (v : QueueRow) (s : QueueDb) → Dict.get id s.rows ≡ some v
    → (test v ≡ true → v ⇝ change v)
    → raw.task_id ≡ (change v).task_id
    → raw.queue_status ≡ (change v).status
    → raw.attempt ≡ (change v).attempts
    → Ensures
        (λ o s'.
          (r : QueueRow) × (o ≡ some r) × (r ≡ change v) × (test v ≡ true) × Moved id v r s s')
        (λ s'. Unit)
        (change_job id test change refused raw s)
move_lem id test change refused raw v s g st a b c =
    Ensures-weaken (change_job_lem id test change refused raw v s g)
      (λ o s' (t, q, e, k, p). (
        change v,
        q,
        refl,
        t,
        record {
          found = g;
          step = st t;
          event = e;
          tells = record { raw = raw; made = k; its_task = a; its_status = b; its_attempt = c };
          result = p;
        },
      ))
      (λ s' p. p)

pub complete_lem :
    (audit_id : String) (now : ℕ) (task_id worker_id : String) (s : QueueDb)
    → Ensures
        (λ r s'.
          (task : String) × (worker : String) × (v : QueueRow) × (validate_text task_id "Task ID"
            ≡ ok task)
          × (validate_text worker_id "Worker ID" ≡ ok worker)
          × (is_held_by worker v ≡ true)
          × (r ≡ record (leave completed now v) { last_error = none })
          × Moved task v r s s')
        (λ s'. s' ≡ s)
        (complete audit_id now task_id worker_id s)
unfolding complete
complete_lem audit_id now task_id worker_id s =
    Ensures-check (validate_text task_id "Task ID") s _
      (λ task t.
        Ensures-check (validate_text worker_id "Worker ID") s _
          (λ worker w. job_lem task _ _ s (λ v g.
            Ensures-weaken
              (move_lem task (is_held_by worker)
                (λ r. record (leave completed now r) { last_error = none }) not_claimed _ v s g
                (λ h. finishes now (held-claimed worker v h)) refl refl refl)
              (λ o s' (r, q, e, h, m). (r, q, (task, worker, v, t, w, h, e, m))) (λ s' p. p)))
          refl)
      refl

fail_row-attempts :
    (error : String) (delay now : ℕ) (v : QueueRow)
    → (fail_row error delay now v).attempts ≡ v.attempts
unfolding fail_row
fail_row-attempts error delay now v = ground arith

-- The row `v` of a task that its worker holds becomes `fail_row` of it, with one event.
abbrev pub Fails : ℕ → String → String → String → ℤ → QueueDb → QueueRow → QueueDb → Type 0
Fails now task_id worker_id error delay_seconds s r s' =
    (task : String) × (worker : String) × (reason : String) × (delay : ℕ) × (v : QueueRow)
    × (validate_text task_id "Task ID" ≡ ok task)
    × (validate_text worker_id "Worker ID" ≡ ok worker)
    × (validate_text error "Queue error" ≡ ok reason)
    × (validate_delay delay_seconds ≡ ok delay)
    × (is_held_by worker v ≡ true)
    × (r ≡ fail_row reason delay now v)
    × Moved task v r s s'

pub fail_lem :
    (audit_id : String) (now : ℕ) (task_id worker_id error : String) (delay_seconds : ℤ)
    (audit : Audited)
    → (s : QueueDb)
    → Ensures
        (Fails now task_id worker_id error delay_seconds s)
        (λ s'. s' ≡ s)
        (fail audit_id now task_id worker_id error delay_seconds audit s)
unfolding fail fail_event
fail_lem audit_id now task_id worker_id error delay_seconds audit s =
    Ensures-check (validate_text task_id "Task ID") s _
      (λ task t.
        Ensures-check (validate_text worker_id "Worker ID") s _
          (λ worker w.
            Ensures-check (validate_text error "Queue error") s _
              (λ reason x.
                Ensures-check (validate_delay delay_seconds) s _
                  (λ delay y. job_lem task _ _ s (λ v g. elim (Bool-cases (is_held_by worker v)) [
                    | inr h ↦ rw h (raised _ s tt)
                    | inl h ↦ rw h (
                        Ensures-weaken
                          (move_lem task (λ r. true) (fail_row reason delay now) not_claimed _ v s g
                            (λ u. fails reason delay now (held-claimed worker v h)) refl refl refl)
                          (λ o s' (r, q, e, u, m).
                            (r, q, (task, worker, reason, delay, v, t, w, x, y, h, e, m)))
                          (λ s' p. p))
                  ]))
                  refl)
              refl)
          refl)
      refl

pub validate_max_attempts-le : (n : ℤ) {m : ℕ} → validate_max_attempts n ≡ ok m → (1 ≤ m) × (m ≤ 10)
unfolding validate_max_attempts check_between
validate_max_attempts-le n h = ground arith

pub retry_failed_lem :
    (audit_id : String) (now : ℕ) (task_id : String) (max_attempts delay_seconds : ℤ) (s : QueueDb)
    → Ensures
        (λ r s'.
          (task : String) × (most : ℕ) × (available : ℕ) × (v : QueueRow) × (validate_text task_id
              "Task ID"
            ≡ ok task)
          × (v.status ≡ failed)
          × (r ≡ retry_row most available now v)
          × Moved task v r s s')
        (λ s'. s' ≡ s)
        (retry_failed audit_id now task_id max_attempts delay_seconds s)
unfolding retry_failed
retry_failed_lem audit_id now task_id max_attempts delay_seconds s =
    Ensures-check (validate_text task_id "Task ID") s _
      (λ task t.
        Ensures-check (validate_max_attempts max_attempts) s _
          (λ most y.
            Ensures-check (validate_delay delay_seconds) s _
              (λ delay z. job_lem task _ _ s (λ v g. elim (Bool-cases (same v.status failed)) [
                | inr h ↦ rw h (raised _ s tt)
                | inl h ↦ rw h (
                    Ensures-weaken
                      (move_lem task (λ r. same r.status failed)
                        (retry_row most (now + seconds delay) now) _ _ v s g
                        (λ u.
                          retries most (now + seconds delay) now (same_iff v.status failed h)
                            (validate_max_attempts-le max_attempts y).0
                            (validate_max_attempts-le max_attempts y).1)
                        refl refl refl)
                      (λ o s' (r, q, e, u, m). (
                        r,
                        q,
                        (task, most, now + seconds delay, v, t, same_iff v.status failed h, e, m),
                      ))
                      (λ s' p. p))
              ]))
              refl)
          refl)
      refl

pub cancel_queued_lem :
    (audit_id : String) (now : ℕ) (task_id : String) (s : QueueDb)
    → Ensures
        (λ r s'.
          (task : String) × (v : QueueRow) × (validate_text task_id "Task ID" ≡ ok task)
          × (v.status ≡ queued)
          × (r ≡ leave cancelled now v)
          × Moved task v r s s')
        (λ s'. s' ≡ s)
        (cancel_queued audit_id now task_id s)
unfolding cancel_queued
cancel_queued_lem audit_id now task_id s =
    Ensures-check (validate_text task_id "Task ID") s _
      (λ task t. job_lem task _ _ s (λ v g.
        Ensures-weaken
          (move_lem task (λ r. same r.status queued) (leave cancelled now) _ _ v s g
            (λ u. cancels now (ground arith)) refl refl refl)
          (λ o s' (r, q, e, u, m). (r, q, (task, v, t, same_iff v.status queued u, e, m)))
          (λ s' p. p)))
      refl

pub cancel_lem :
    (audit_id : String) (now : ℕ) (task_id : String) (audit : Audited) (s : QueueDb)
    → Ensures
        (λ r s'.
          (task : String) × (v : QueueRow) × (validate_text task_id "Task ID" ≡ ok task)
          × (is_open v.status ≡ true)
          × (r ≡ leave cancelled now v)
          × Moved task v r s s')
        (λ s'. s' ≡ s)
        (cancel audit_id now task_id audit s)
unfolding cancel
cancel_lem audit_id now task_id audit s =
    Ensures-check (validate_text task_id "Task ID") s _
      (λ task t. job_lem task _ _ s (λ v g.
        Ensures-weaken
          (move_lem task (λ r. is_open r.status) (leave cancelled now) _ _ v s g
            (λ u. cancels now u) refl refl refl)
          (λ o s' (r, q, e, u, m). (r, q, (task, v, t, u, e, m))) (λ s' p. p)))
      refl
