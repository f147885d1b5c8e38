-- ===== src/Queue/Claim.antt =====
-- backend/app/database/queue_db.py: `claim_next`. Number `i` of the fresh audit IDs is `fresh i`.
use mama_ai.Prelude.{
  ℕ, suc, String, Bool, true, false, ◌&&◌, ◌||◌, ◌+◌, Option, none, some, List, [], ◌∷◌, leb, ltb,
  select,
}
use mama_ai.Int.{ℤ}
use mama_ai.Dict
use mama_ai.Result.{runtime_error}
use mama_ai.Exec.{Exec, pure, lift, gets, or_raise, ◌>>=◌, ◌>>◌}
use mama_ai.Approval.{seconds}
use mama_ai.Queue.{
  queued, claimed, failed, QueueRow, Value, null, text, number, boolean, AuditEvent, QueueDb, same,
  status_value, validate_text, validate_lease, or_text,
}
use mama_ai.Queue.Table.{transact, select_task, update_where, append, oldest_first}
use mama_ai.Queue.Store.{event_of, leave}

-- `lease_expires_at IS NOT NULL AND lease_expires_at <= now`
abbrev pub is_over : ℕ → Option ℕ → Bool
is_over now none = false
is_over now (some t) = leb t now

-- the rows whose last lease has run out
unfoldable pub is_exhausted : ℕ → QueueRow → Bool
is_exhausted now r =
    same r.status claimed && is_over now r.lease_expires_at && leb r.max_attempts r.attempts

-- the rows that may be claimed
unfoldable pub is_available : ℕ → QueueRow → Bool
is_available now r =
    (same r.status queued && leb r.available_at now)
    || (same r.status claimed && is_over now r.lease_expires_at && ltb r.attempts r.max_attempts)

-- `SELECT * … WHERE … ORDER BY created_at ASC`
unfoldable pub select_rows : (QueueRow → Bool) → QueueDb → List QueueRow
select_rows test db = oldest_first (select test (Dict.values db.rows))

abbrev pub exhausted_error : QueueRow → String
exhausted_error r = or_text r.last_error "Maximum attempts reached after worker lease expiry."

abbrev pub exhausted_row : ℕ → String → QueueRow → QueueRow
exhausted_row now error r = record (leave failed now r) { last_error = some error }

abbrev pub option_text : Option String → Value
option_text none = null
option_text (some s) = text s

abbrev pub option_number : Option ℕ → Value
option_number none = null
option_number (some n) = number n

-- one round of the loop over `exhausted_rows`
unfoldable pub expire_job : String → ℕ → QueueRow → Exec QueueDb (Unit {0})
expire_job audit_id now r = do
  update_where r.task_id (λ v. same v.status claimed) (exhausted_row now (exhausted_error r))
  append (
      event_of audit_id (exhausted_row now (exhausted_error r) r) "failed" r.worker_id
        "Expired worker lease exhausted the queue attempt cycle." (some (exhausted_error r))
        (("reason", text "lease_expired")
          ∷ ("max_attempts", number r.max_attempts)
          ∷ ("lease_expires_at", option_number r.lease_expires_at)
          ∷ [])
        now)
  pure tt

unfoldable pub expire_jobs : (ℕ → String) → ℕ → ℕ → List QueueRow → Exec QueueDb (Unit {0})
expire_jobs fresh i now [] = pure tt
expire_jobs fresh i now (r ∷ rs) = expire_job (fresh i) now r >> expire_jobs fresh (suc i) now rs

-- the claimed row
abbrev pub claim_row : String → ℕ → ℕ → QueueRow → QueueRow
claim_row worker expiry now r = record r {
  status = claimed;
  attempts = r.attempts + 1;
  worker_id = some worker;
  lease_expires_at = some expiry;
  updated_at = now;
}

abbrev pub first_row : List QueueRow → Option QueueRow
first_row [] = none
first_row (r ∷ rs) = some r

-- the event of a claim; `r` is the row before it
unfoldable pub claim_event : String → String → ℕ → ℕ → QueueRow → QueueRow → AuditEvent
claim_event audit_id worker lease now r claimed_row =
    event_of audit_id claimed_row "claimed" (some worker) "Task claimed by durable worker." none
      (("lease_seconds", number lease)
        ∷ ("lease_expires_at", number (now + seconds lease))
        ∷ ("previous_status", text (status_value r.status))
        ∷ ("previous_worker_id", option_text r.worker_id)
        ∷ ("recovered_expired_lease", boolean (same r.status claimed))
        ∷ [])
      now

-- the claim of the row that was selected, if one was
unfoldable pub claim_found :
    String → String → ℕ → ℕ → Option QueueRow → Exec QueueDb (Option QueueRow)
claim_found audit_id worker lease now none = pure none
claim_found audit_id worker lease now (some r) = do
  update_where r.task_id (λ v. true) (claim_row worker (now + seconds lease) now)
  found ← select_task r.task_id
  row ← or_raise found (runtime_error ("Claimed queue record could not be loaded." ∷ []))
  append (claim_event audit_id worker lease now r row)
  pure (some row)

-- the transaction of `claim_next`
unfoldable pub claim_oldest : (ℕ → String) → String → ℕ → ℕ → Exec QueueDb (Option QueueRow)
claim_oldest fresh worker lease now = do
  exhausted ← gets (select_rows (is_exhausted now))
  expire_jobs fresh 1 now exhausted
  found ← gets (λ db. first_row (select_rows (is_available now) db))
  claim_found (fresh 0) worker lease now found

-- `claim_next`
unfoldable pub claim_next : (ℕ → String) → ℕ → String → ℤ → Exec QueueDb (Option QueueRow)
claim_next fresh now worker_id lease_seconds = do
  worker ← lift (validate_text worker_id "Worker ID")
  lease ← lift (validate_lease lease_seconds)
  transact (claim_oldest fresh worker lease now)
