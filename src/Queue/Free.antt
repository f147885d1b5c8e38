-- ===== src/Queue/Free.antt =====
-- backend/app/database/queue_db.py: `complete`, `fail` and `cancel` leave a job that nobody works on.
use mama_ai.Prelude.{ℕ, String, ◌≡◌, ◌≢◌, arith, some, subst}
use mama_ai.Int.{ℤ}
use mama_ai.Dict
use mama_ai.Dict.Laws.{get-put_self}
use mama_ai.Result.{ok}
use mama_ai.Exec.Ensures.{Ensures, Ensures-weaken}
use mama_ai.Queue.{QueueRow, QueueDb, claimed, validate_text}
use mama_ai.Queue.Store
use mama_ai.Queue.Store.{Audited, fail_row}
use mama_ai.Queue.Effect.{Moved}
use mama_ai.Queue.Moves.{complete_lem, fail_lem, cancel_lem}

-- The row of a task is in the table, and nobody works on it.
pub record IsFree (task_id : String) (row : QueueRow) (q : QueueDb) : Type 0 where
  pub key : String
  pub named : validate_text task_id "Task ID" ≡ ok key
  pub stored : Dict.get key q.rows ≡ some row
  pub free : row.status ≢ claimed

Moved-IsFree :
    (task_id : String) (task : String) {v r : QueueRow} {s s' : QueueDb}
    → validate_text task_id "Task ID" ≡ ok task
    → r.status ≢ claimed
    → Moved task v r s s'
    → IsFree task_id r s'
Moved-IsFree task_id task {v} {r} {s} h f m = record {
  key = task;
  named = h;
  stored = rw m.result (get-put_self task r s.rows);
  free = f;
}

pub complete-IsFree :
    (audit_id : String) (now : ℕ) (task_id worker_id : String) (q : QueueDb)
    → Ensures (IsFree task_id) (λ s'. Unit) (Store.complete audit_id now task_id worker_id q)
complete-IsFree audit_id now task_id worker_id q =
    Ensures-weaken (complete_lem audit_id now task_id worker_id q)
      (λ r s' (task, _, v, t, _, _, e, m).
        Moved-IsFree task_id task t (λ c. absurd (ground (arith, e))) m)
      (λ s' p. tt)

pub cancel-IsFree :
    (audit_id : String) (now : ℕ) (task_id : String) (audit : Audited) (q : QueueDb)
    → Ensures (IsFree task_id) (λ s'. Unit) (Store.cancel audit_id now task_id audit q)
cancel-IsFree audit_id now task_id audit q =
    Ensures-weaken (cancel_lem audit_id now task_id audit q)
      (λ r s' (task, v, t, _, e, m).
        Moved-IsFree task_id task t (λ c. absurd (ground (arith, e))) m)
      (λ s' p. tt)

fail_row-free :
    (error : String) (delay now : ℕ) (v : QueueRow) → (fail_row error delay now v).status ≢ claimed
unfolding fail_row
fail_row-free error delay now v h = absurd (ground arith)

pub fail-IsFree :
    (audit_id : String) (now : ℕ) (task_id worker_id error : String) (delay : ℤ) (audit : Audited)
    (q : QueueDb)
    → Ensures
        (IsFree task_id)
        (λ s'. Unit)
        (Store.fail audit_id now task_id worker_id error delay audit q)
fail-IsFree audit_id now task_id worker_id error delay audit q =
    Ensures-weaken (fail_lem audit_id now task_id worker_id error delay audit q)
      (λ r s' (task, _, x, n, v, t, _, _, _, _, e, m).
        Moved-IsFree task_id task t
          (λ c. fail_row-free x n now v (subst (λ y. y.status ≡ claimed) e c)) m)
      (λ s' p. tt)
