-- ===== src/Examples/Reconcilers.antt =====
-- The reconciliation of a job that is claimed, while its task is pending.
use mama_ai.Prelude.{String, ◌≡◌, refl, some, List}
use mama_ai.Dict
use mama_ai.Result.{ok}
use mama_ai.Exec.Ensures.{Ensures}
use mama_ai.Task.Record.{TaskRecord}
use mama_ai.Queue.{validate_text}
use mama_ai.Queue.History.{perform}
use mama_ai.Engine.{Payload}
use mama_ai.Reconciler.{Site, Reading}
use mama_ai.Reconciler.Record.{reconcile_record}
use mama_ai.Reconciler.Pass.{new_report}
use mama_ai.Reconciler.Free.{SomeFree}
use mama_ai.Reconciler.Jobs.{reconcile_record-SomeFree}
use mama_ai.Examples.Queues.{two_jobs, claim, taken}
use mama_ai.Examples.Engines.{save_task}
use mama_ai.Examples.Workers.{light_task, registered}

abbrev stale : Site Payload (List (TaskRecord Payload))
stale = record { tasks = registered.tasks; queue = perform claim two_jobs; report = new_report 1 2 }

abbrev start_up : Reading
start_up = record { audit_id = "event-7"; now = 400; task_now = 401 }

taken_stored : Dict.get "task-1" (perform claim two_jobs).rows ≡ some taken
unfolding mama_ai.Queue.Claim.claim_next mama_ai.Queue.validate_text mama_ai.Text.is_empty
    mama_ai.Text.strip mama_ai.Queue.validate_lease mama_ai.Queue.Claim.claim_oldest
    mama_ai.Queue.Claim.expire_jobs mama_ai.Queue.Claim.select_rows mama_ai.Queue.Table.oldest_first
    mama_ai.Prelude.select Dict.values mama_ai.Queue.History.perform mama_ai.Queue.Insert.enqueue
    mama_ai.Queue.validate_max_attempts mama_ai.Queue.validate_delay
    mama_ai.Queue.Insert.rename_integrity mama_ai.Queue.Insert.insert_job Dict.get Dict.put
    mama_ai.Queue.Audit.clean mama_ai.Queue.Audit.first_where mama_ai.Queue.Audit.is_event_type
    mama_ai.Queue.Audit.is_taken mama_ai.Queue.Audit.make_event
    mama_ai.Queue.Audit.validate_event_type mama_ai.Queue.Audit.validate_optional
    mama_ai.Queue.Claim.claim_event mama_ai.Queue.Claim.claim_found mama_ai.Queue.Claim.expire_job
    mama_ai.Queue.Claim.is_available mama_ai.Queue.Claim.is_exhausted
    mama_ai.Queue.Reconcile.latest_reconciliation mama_ai.Queue.Reconcile.observe
    mama_ai.Queue.Reconcile.record_reconciliation mama_ai.Queue.Reconcile.same_observation
    mama_ai.Queue.Store.cancel mama_ai.Queue.Store.cancel_queued mama_ai.Queue.Store.change_job
    mama_ai.Queue.Store.complete mama_ai.Queue.Store.fail mama_ai.Queue.Store.fail_event
    mama_ai.Queue.Store.fail_row mama_ai.Queue.Insert.insert_found mama_ai.Queue.Insert.renamed
    mama_ai.Queue.Store.retry_failed mama_ai.Queue.Table.append mama_ai.Queue.Table.insert_event
    mama_ai.Queue.Table.insert_oldest mama_ai.Queue.Table.update_found
    mama_ai.Queue.Table.update_where mama_ai.Queue.check_between mama_ai.Queue.merge_audit_metadata
    mama_ai.Queue.status_value mama_ai.Queue.update mama_ai.Text.is_space mama_ai.Text.lstrip
    mama_ai.Text.rstrip
taken_stored = refl

taken_named : validate_text "task-1" "Task ID" ≡ ok "task-1"
unfolding validate_text mama_ai.Text.is_empty mama_ai.Text.strip
taken_named = refl

reconcile_record-SomeFree_example :
    Ensures
      (λ u s'. SomeFree "task-1" s'.queue)
      (λ s'. Unit)
      (reconcile_record save_task start_up taken (some light_task) stale)
reconcile_record-SomeFree_example =
    reconcile_record-SomeFree save_task start_up taken (some light_task) stale taken_stored
      taken_named
