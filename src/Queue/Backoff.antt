-- ===== src/Queue/Backoff.antt =====
-- backend/app/database/queue_db.py: what `fail` does, with its update written out column by column.
use mama_ai.Prelude.{
  ◌==◌, eq_iff, ℕ, String, ◌≡◌, ◌≤◌, ◌<◌, ◌+◌, ◌⊎◌, arith, refl, none, some, ltb, Bool-cases, inl,
  inr,
}
use mama_ai.Int.{ℤ, pos}
use mama_ai.Approval.{seconds}
use mama_ai.Text.{strip}
use mama_ai.Dict
use mama_ai.Dict.{Dict}
use mama_ai.Dict.Laws.{get-put, get-put_self}
use mama_ai.Result.{ok}
use mama_ai.Exec.Ensures.{Ensures, Ensures-weaken}
use mama_ai.Queue.{queued, claimed, failed, QueueRow, QueueDb, validate_delay, check_between}
use mama_ai.Queue.Store.{Audited, fail, fail_row}
use mama_ai.Queue.Moves.{fail_lem, Fails, held-claimed, held-worker}
use mama_ai.Queue.Lease.{validate_text-eq}

-- The row `r` is the row `v` without its worker, with the error.
pub record IsReleased (error : String) (now : ℕ) (v r : QueueRow) : Type 0 where
  pub task_id : r.task_id ≡ v.task_id
  pub owner_id : r.owner_id ≡ v.owner_id
  pub attempts : r.attempts ≡ v.attempts
  pub max_attempts : r.max_attempts ≡ v.max_attempts
  pub lease_expires_at : r.lease_expires_at ≡ none
  pub worker_id : r.worker_id ≡ none
  pub last_error : r.last_error ≡ some error
  pub created_at : r.created_at ≡ v.created_at
  pub updated_at : r.updated_at ≡ now

-- The row waits for its next attempt, if one is left, and has failed for good, if none is.
abbrev pub IsPutOff : ℕ → ℕ → QueueRow → QueueRow → Type 0
IsPutOff delay now v r =
    ((v.attempts < v.max_attempts) × (r.status ≡ queued) × (r.available_at ≡ now + seconds delay))
    ⊎ ((v.max_attempts ≤ v.attempts) × (r.status ≡ failed) × (r.available_at ≡ v.available_at))

-- The call of `fail` has moved the row `v` of a task that its worker holds to the row `r`.
pub record IsBackedOff (now : ℕ) (task_id worker_id error : String) (delay_seconds : ℤ)
    (s : QueueDb) (r : QueueRow) (s' : QueueDb) : Type 0 where
  pub row : QueueRow
  pub delay : ℕ
  pub delay_is : delay_seconds ≡ pos delay
  pub delay_le : delay ≤ 86400
  pub found : Dict.get (strip task_id) s.rows ≡ some row
  pub was_claimed : row.status ≡ claimed
  pub was_held : row.worker_id ≡ some (strip worker_id)
  pub released : IsReleased (strip error) now row r
  pub put_off : IsPutOff delay now row r
  pub stored : Dict.get (strip task_id) s'.rows ≡ some r
  pub others : (id : String) → (strip task_id ≡ id) ⊎ (Dict.get id s'.rows ≡ Dict.get id s.rows)

fail_row-IsReleased :
    (error : String) (delay now : ℕ) (v : QueueRow)
    → IsReleased error now v (fail_row error delay now v)
unfolding fail_row
fail_row-IsReleased error delay now v = elim (Bool-cases (ltb v.attempts v.max_attempts)) [
  | inl e ↦ rw e (record {
    task_id = refl;
    owner_id = refl;
    attempts = refl;
    max_attempts = refl;
    lease_expires_at = refl;
    worker_id = refl;
    last_error = refl;
    created_at = refl;
    updated_at = refl;
  })
  | inr e ↦ rw e (record {
    task_id = refl;
    owner_id = refl;
    attempts = refl;
    max_attempts = refl;
    lease_expires_at = refl;
    worker_id = refl;
    last_error = refl;
    created_at = refl;
    updated_at = refl;
  })
]

fail_row-IsPutOff :
    (error : String) (delay now : ℕ) (v : QueueRow)
    → IsPutOff delay now v (fail_row error delay now v)
unfolding fail_row
fail_row-IsPutOff error delay now v = elim (Bool-cases (ltb v.attempts v.max_attempts)) [
  | inl e ↦ rw e (inl (ground arith, refl, refl))
  | inr e ↦ rw e (inr (ground arith, refl, refl))
]

other_row :
    (k id : String) (r : QueueRow) (d : Dict QueueRow)
    → (k ≡ id) ⊎ (Dict.get id (Dict.put k r d) ≡ Dict.get id d)
other_row k id r d = elim (Bool-cases (k == id)) [
  | inl e ↦ inl ((eq_iff k id).0 e)
  | inr e ↦ inr (rw (get-put k id r d, e) refl)
]

validate_delay-eq : (n : ℤ) {m : ℕ} → validate_delay n ≡ ok m → (n ≡ pos m) × (m ≤ 86400)
unfolding validate_delay check_between
validate_delay-eq n h = ground arith

Fails-IsBackedOff :
    (now : ℕ) (task_id worker_id error : String) (delay_seconds : ℤ) (s : QueueDb) (r : QueueRow)
    (s' : QueueDb)
    → Fails now task_id worker_id error delay_seconds s r s'
    → IsBackedOff now task_id worker_id error delay_seconds s r s'
Fails-IsBackedOff now task_id worker_id error delay_seconds s r s'
      (task, worker, reason, delay, v, t, w, x, y, h, e, m) =
    let task_is : task ≡ strip task_id = validate_text-eq task_id "Task ID" t in
    let worker_is : worker ≡ strip worker_id = validate_text-eq worker_id "Worker ID" w in
    let reason_is : reason ≡ strip error = validate_text-eq error "Queue error" x in
    record {
      row = v;
      delay = delay;
      delay_is = (validate_delay-eq delay_seconds y).0;
      delay_le = (validate_delay-eq delay_seconds y).1;
      found = rw (← task_is) m.found;
      was_claimed = held-claimed worker v h;
      was_held = rw (← worker_is) (held-worker worker v h);
      released = rw (e, ← reason_is) (fail_row-IsReleased reason delay now v);
      put_off = rw e (fail_row-IsPutOff reason delay now v);
      stored = rw (← task_is, m.result) (get-put_self task r s.rows);
      others = λ id. rw (← task_is, m.result) (other_row task id r s.rows);
    }

-- A `fail` that returns was given a delay of 0 to 86400 seconds and has found the task claimed by
-- this worker. It stores and returns the row without worker and lease, with the stripped error and
-- the time of the call: queued, and available the delay from now, if an attempt is left, or failed,
-- and available when it was, if none is; its other columns and the other rows stay as they were.
-- One that raises, for whatever reason, a refused event included, leaves both tables as they were.
pub fail-IsBackedOff :
    (audit_id : String) (now : ℕ) (task_id worker_id error : String) (delay_seconds : ℤ)
    (audit : Audited)
    → (s : QueueDb)
    → Ensures
        (IsBackedOff now task_id worker_id error delay_seconds s)
        (λ s'. s' ≡ s)
        (fail audit_id now task_id worker_id error delay_seconds audit s)
fail-IsBackedOff audit_id now task_id worker_id error delay_seconds audit s =
    Ensures-weaken (fail_lem audit_id now task_id worker_id error delay_seconds audit s)
      (Fails-IsBackedOff now task_id worker_id error delay_seconds s) (λ s' p. p)
