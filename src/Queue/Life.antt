-- ===== src/Queue/Life.antt =====
-- backend/app/database/queue_db.py: the life of one row of the queue, and of the database.
use mama_ai.Prelude.{
  ℕ, String, ◌≡◌, ◌≢◌, ◌⊎◌, ◌≤◌, ◌<◌, arith, Bool, true, false, Option, none, some, ◌∷◌,
}
use mama_ai.Dict
use mama_ai.Dict.{Dict}
use mama_ai.Result.{ok}
use mama_ai.Queue.{
  QueueStatus, queued, claimed, completed, failed, cancelled, QueueRow, AuditEvent, QueueDb,
  validate_text,
}
use mama_ai.Queue.Audit.{make_event}
use mama_ai.Queue.Store.{leave, fail_row, retry_row, is_open, new_row}
use mama_ai.Queue.Claim.{is_available, is_exhausted, claim_row, exhausted_row}

-- One step of one row: a worker claims it, delivers it or fails to, its last lease runs out, it
-- starts another cycle, or it is cancelled.
infix 40 ◌⇝◌
pub data ◌⇝◌ (v : QueueRow) : QueueRow → Type 0 where
  claims :
      (worker : String) (expiry now : ℕ)
      → is_available now v ≡ true
      → v ⇝ claim_row worker expiry now v
  finishes :
      (now : ℕ) → v.status ≡ claimed → v ⇝ record (leave completed now v) { last_error = none }
  fails : (error : String) (delay now : ℕ) → v.status ≡ claimed → v ⇝ fail_row error delay now v
  exhausts : (error : String) (now : ℕ) → is_exhausted now v ≡ true → v ⇝ exhausted_row now error v
  retries :
      (most available now : ℕ)
      → v.status ≡ failed
      → 1 ≤ most
      → most ≤ 10
      → v ⇝ retry_row most available now v
  cancels : (now : ℕ) → is_open v.status ≡ true → v ⇝ leave cancelled now v

-- An event that was made for a row.
pub record Tells (r : QueueRow) (e : AuditEvent) : Type 0 where
  pub raw : AuditEvent
  pub made : make_event raw ≡ ok e
  pub its_task : raw.task_id ≡ r.task_id
  pub its_status : raw.queue_status ≡ r.status
  pub its_attempt : raw.attempt ≡ r.attempts

-- Steps of the database: each writes at most one row, and an event with it.
pub data Change (db : QueueDb) : QueueDb → Type 0 where
  unchanged : Change db db
  logs :
      {d : QueueDb} (id : String) (r : QueueRow) (e : AuditEvent)
      → Change db d
      → Dict.get id d.rows ≡ some r
      → Tells r e
      → Change db (record d { log = e ∷ d.log })
  inserts :
      {d : QueueDb} (task owner : String) (most available now : ℕ) (e : AuditEvent)
      → Change db d
      → Dict.get task d.rows ≡ none
      → validate_text task "Task ID" ≡ ok task
      → 1 ≤ most
      → most ≤ 10
      → Tells (new_row task owner most available now) e
      → Change db (record {
        rows = Dict.put task (new_row task owner most available now) d.rows;
        log = e ∷ d.log;
      })
  moves :
      {d : QueueDb} (id : String) (v r : QueueRow) (e : AuditEvent)
      → Change db d
      → Dict.get id d.rows ≡ some v
      → v ⇝ r
      → Tells r e
      → Change db (record { rows = Dict.put id r d.rows; log = e ∷ d.log })

pub Change-trans : {a b c : QueueDb} → Change a b → Change b c → Change a c
Change-trans p unchanged = p
Change-trans p (logs id r e q g t) = logs id r e (Change-trans p q) g t
Change-trans p (inserts k o m a n e q g v l u t) = inserts k o m a n e (Change-trans p q) g v l u t
Change-trans p (moves id v r e q g s t) = moves id v r e (Change-trans p q) g s t

-- A worker and a lease are stored exactly while the row is claimed.
abbrev pub is_leased : QueueStatus → Option String → Option ℕ → Bool
is_leased claimed (some w) (some t) = true
is_leased claimed _ _ = false
is_leased _ none none = true
is_leased _ _ _ = false

pub record IsSound (id : String) (r : QueueRow) : Type 0 where
  pub keyed : r.task_id ≡ id
  pub named : validate_text id "Task ID" ≡ ok id
  pub some_attempts : 1 ≤ r.max_attempts
  pub few_attempts : r.max_attempts ≤ 10
  pub bounded : r.attempts ≤ r.max_attempts
  pub spare : (r.status ≢ queued) ⊎ (r.attempts < r.max_attempts)
  pub leased : is_leased r.status r.worker_id r.lease_expires_at ≡ true

pub ⇝-IsSound : {v r : QueueRow} (id : String) → IsSound id v → v ⇝ r → IsSound id r
unfolding is_available fail_row
⇝-IsSound id h (claims worker expiry now a) = ground arith
⇝-IsSound id h (finishes now s) = ground arith
⇝-IsSound id h (fails error delay now s) = ground arith
⇝-IsSound id h (exhausts error now s) = ground arith
⇝-IsSound id h (retries most available now s l u) = ground arith
⇝-IsSound id h (cancels now s) = ground arith

pub new_row-IsSound :
    (task owner : String) (most available now : ℕ)
    → validate_text task "Task ID" ≡ ok task
    → 1 ≤ most
    → most ≤ 10
    → IsSound task (new_row task owner most available now)
new_row-IsSound task owner most available now v l u = ground arith
