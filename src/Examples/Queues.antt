-- ===== src/Examples/Queues.antt =====
-- Calls of a queue with two jobs and two workers.
use mama_ai.Prelude.{
  false, ℕ, String, ◌≡◌, ◌≢◌, ◌≤◌, ◌+◌, ◌*◌, refl, arith, eqb, if◌then◌else◌, none, some, [], ◌∷◌,
}
use mama_ai.Int.{pos}
use mama_ai.Text.{strip}
use mama_ai.Dict
use mama_ai.Result.{ok}
use mama_ai.Exec.Ensures.{Ensures}
use mama_ai.Queue.{QueueRow, QueueDb, claimed}
use mama_ai.Queue.Store.{Audited, fail}
use mama_ai.Queue.Claim.{claim_next}
use mama_ai.Queue.Valid.{IsValid}
use mama_ai.Queue.History.{
  Call, enqueues, claims_next, completes, perform, perform_all, empty_db, Reached, starts, performs,
  Reached-IsValid,
}
use mama_ai.Queue.Refine.{Lives, job_at, perform_all-Lives}
use mama_ai.Queue.Backoff.{IsBackedOff, fail-IsBackedOff}
use mama_ai.Queue.Due.{claim_next-ClaimsDue, ClaimsDue}
use mama_ai.Queue.Exclusive.{claim_next-kept, claim_next-exclusive}
use mama_ai.Queue.Finite.{claims_made, cycles, claims_made-total_claims}
use mama_ai.Queue.Budget.{total_claims}

abbrev plain : Audited
plain = record { event_type = none; message = none; metadata = none }

abbrev pub first_ids : ℕ → String
first_ids i = if eqb i 0 then "event-3" else "event-4"

abbrev later_ids : ℕ → String
later_ids i = if eqb i 0 then "event-6" else "event-7"

abbrev asks : Call
asks = enqueues "event-1" 100 "task-1" "alice" (pos 2) (pos 0) plain

abbrev asks_again : Call
asks_again = enqueues "event-2" 101 "task-2" "bob" (pos 1) (pos 0) plain

abbrev pub two_jobs : QueueDb
two_jobs = perform asks_again (perform asks empty_db)

pub two_jobs-Reached : Reached two_jobs
two_jobs-Reached = performs asks_again (performs asks starts)

abbrev pub taken : QueueRow
taken = record {
  task_id = "task-1";
  owner_id = "alice";
  status = claimed;
  attempts = 1;
  max_attempts = 2;
  available_at = 100;
  lease_expires_at = some 60000200;
  worker_id = some "worker-a";
  last_error = none;
  created_at = 100;
  updated_at = 200;
}

abbrev taken_later : QueueRow
taken_later = record {
  task_id = "task-2";
  owner_id = "bob";
  status = claimed;
  attempts = 1;
  max_attempts = 1;
  available_at = 101;
  lease_expires_at = some 60000300;
  worker_id = some "worker-b";
  last_error = none;
  created_at = 101;
  updated_at = 300;
}

abbrev pub claim : Call
claim = claims_next first_ids 200 "worker-a" (pos 60)

-- A delivery by a worker that does not hold the job.
abbrev intrusion : Call
intrusion = completes "event-5" 250 "task-1" "worker-b"

claim_taken : (claim_next first_ids 200 "worker-a" (pos 60) two_jobs).0 ≡ ok (some taken)
unfolding claim_next mama_ai.Queue.validate_text mama_ai.Text.is_empty mama_ai.Text.strip
    mama_ai.Queue.validate_lease mama_ai.Queue.Claim.claim_oldest mama_ai.Queue.Claim.expire_jobs
    mama_ai.Queue.Claim.select_rows mama_ai.Queue.Table.oldest_first mama_ai.Prelude.select
    Dict.values perform mama_ai.Queue.Insert.enqueue mama_ai.Queue.validate_max_attempts
    mama_ai.Queue.validate_delay mama_ai.Queue.Insert.rename_integrity
    mama_ai.Queue.Insert.insert_job Dict.get Dict.put mama_ai.Queue.Audit.clean
    mama_ai.Queue.Audit.first_where mama_ai.Queue.Audit.is_event_type mama_ai.Queue.Audit.is_taken
    mama_ai.Queue.Audit.make_event mama_ai.Queue.Audit.validate_event_type
    mama_ai.Queue.Audit.validate_optional mama_ai.Queue.Claim.claim_event
    mama_ai.Queue.Claim.claim_found mama_ai.Queue.Claim.expire_job mama_ai.Queue.Claim.is_available
    mama_ai.Queue.Claim.is_exhausted mama_ai.Queue.Reconcile.latest_reconciliation
    mama_ai.Queue.Reconcile.observe mama_ai.Queue.Reconcile.record_reconciliation
    mama_ai.Queue.Reconcile.same_observation mama_ai.Queue.Store.cancel
    mama_ai.Queue.Store.cancel_queued mama_ai.Queue.Store.change_job mama_ai.Queue.Store.complete
    mama_ai.Queue.Store.fail mama_ai.Queue.Store.fail_event mama_ai.Queue.Store.fail_row
    mama_ai.Queue.Insert.insert_found mama_ai.Queue.Insert.renamed mama_ai.Queue.Store.retry_failed
    mama_ai.Queue.Table.append mama_ai.Queue.Table.insert_event mama_ai.Queue.Table.insert_oldest
    mama_ai.Queue.Table.update_found mama_ai.Queue.Table.update_where mama_ai.Queue.check_between
    mama_ai.Queue.merge_audit_metadata mama_ai.Queue.status_value mama_ai.Queue.update
    mama_ai.Text.is_space mama_ai.Text.lstrip mama_ai.Text.rstrip
claim_taken = refl

claim_later :
    (claim_next later_ids 300 "worker-b"
      (pos 60)
      (perform_all (intrusion ∷ []) (perform claim two_jobs))).0
    ≡ ok (some taken_later)
unfolding claim_next mama_ai.Queue.validate_text mama_ai.Text.is_empty mama_ai.Text.strip
    mama_ai.Queue.validate_lease mama_ai.Queue.Claim.claim_oldest mama_ai.Queue.Claim.expire_jobs
    mama_ai.Queue.Claim.select_rows mama_ai.Queue.Table.oldest_first mama_ai.Prelude.select
    Dict.values perform_all perform mama_ai.Queue.Store.complete Dict.get
    mama_ai.Queue.Insert.enqueue mama_ai.Queue.validate_max_attempts Dict.put
    mama_ai.Queue.Audit.clean mama_ai.Queue.Audit.first_where mama_ai.Queue.Audit.is_event_type
    mama_ai.Queue.Audit.is_taken mama_ai.Queue.Audit.make_event
    mama_ai.Queue.Audit.validate_event_type mama_ai.Queue.Audit.validate_optional
    mama_ai.Queue.Claim.claim_event mama_ai.Queue.Claim.claim_found mama_ai.Queue.Claim.expire_job
    mama_ai.Queue.Claim.is_available mama_ai.Queue.Claim.is_exhausted
    mama_ai.Queue.Reconcile.latest_reconciliation mama_ai.Queue.Reconcile.observe
    mama_ai.Queue.Reconcile.record_reconciliation mama_ai.Queue.Reconcile.same_observation
    mama_ai.Queue.Store.cancel mama_ai.Queue.Store.cancel_queued mama_ai.Queue.Store.change_job
    mama_ai.Queue.Store.fail mama_ai.Queue.Store.fail_event mama_ai.Queue.Store.fail_row
    mama_ai.Queue.Insert.insert_found mama_ai.Queue.Insert.insert_job
    mama_ai.Queue.Insert.rename_integrity mama_ai.Queue.Insert.renamed
    mama_ai.Queue.Store.retry_failed mama_ai.Queue.Table.append mama_ai.Queue.Table.insert_event
    mama_ai.Queue.Table.insert_oldest mama_ai.Queue.Table.update_found
    mama_ai.Queue.Table.update_where mama_ai.Queue.check_between mama_ai.Queue.merge_audit_metadata
    mama_ai.Queue.status_value mama_ai.Queue.update mama_ai.Queue.validate_delay
    mama_ai.Text.is_space mama_ai.Text.lstrip mama_ai.Text.rstrip
claim_later = refl

claim_next-kept_example :
    Dict.get "task-1" (perform_all (intrusion ∷ []) (perform claim two_jobs)).rows ≡ some taken
unfolding strip
claim_next-kept_example =
    claim_next-kept first_ids 200 "worker-a" (pos 60) two_jobs taken 60000200 (intrusion ∷ [])
      two_jobs-Reached claim_taken refl refl

claim_next-exclusive_example : taken_later.task_id ≢ taken.task_id
unfolding strip
claim_next-exclusive_example =
    claim_next-exclusive first_ids 200 "worker-a" (pos 60) two_jobs taken 60000200 (intrusion ∷ [])
      later_ids 300 "worker-b" (pos 60) taken_later two_jobs-Reached claim_taken refl refl
      (ground arith) claim_later

Reached-IsValid_example : IsValid two_jobs
Reached-IsValid_example = Reached-IsValid two_jobs-Reached

perform_all-Lives_example :
    Lives false
      (job_at "task-1" two_jobs)
      (job_at "task-1" (perform_all (claim ∷ intrusion ∷ []) two_jobs))
perform_all-Lives_example =
    perform_all-Lives (claim ∷ intrusion ∷ []) two_jobs "task-1" (Reached-IsValid two_jobs-Reached)

claim_next-ClaimsDue_example :
    Ensures
      (ClaimsDue 200 "worker-a" (pos 60) two_jobs)
      (λ s'. s' ≡ two_jobs)
      (claim_next first_ids 200 "worker-a" (pos 60) two_jobs)
claim_next-ClaimsDue_example =
    claim_next-ClaimsDue first_ids 200 "worker-a" (pos 60) two_jobs
      (Reached-IsValid two_jobs-Reached)

claims_made_example :
    claims_made (claim ∷ intrusion ∷ []) two_jobs
      + total_claims (perform_all (claim ∷ intrusion ∷ []) two_jobs).rows
    ≤ total_claims two_jobs.rows + 10 * cycles (claim ∷ intrusion ∷ [])
claims_made_example = claims_made-total_claims (claim ∷ intrusion ∷ []) two_jobs two_jobs-Reached

fail-IsBackedOff_example :
    Ensures
      (IsBackedOff 250 "task-1" "worker-a" "The desk is closed." (pos 5) (perform claim two_jobs))
      (λ s'. s' ≡ perform claim two_jobs)
      (fail "event-5" 250 "task-1" "worker-a" "The desk is closed."
        (pos 5)
        plain
        (perform claim two_jobs))
fail-IsBackedOff_example =
    fail-IsBackedOff "event-5" 250 "task-1" "worker-a" "The desk is closed." (pos 5) plain
      (perform claim two_jobs)
