-- ===== src/Examples/Workers.antt =====
-- Runs of a worker on the queue with two jobs: its task is registered, or it is not.
use mama_ai.Prelude.{ℕ, String, ◌≡◌, refl, none, some, List, [], ◌∷◌}
use mama_ai.Int.{pos}
use mama_ai.Dict
use mama_ai.Result.{ok}
use mama_ai.Task.{low, pending}
use mama_ai.Task.Record.{TaskRecord}
use mama_ai.Approval.{ApprovalRecord}
use mama_ai.Queue.{queued}
use mama_ai.Engine.{Payload, World}
use mama_ai.Worker.{DurableTaskWorker, WorkerRunReport, WorkFresh, Shop}
use mama_ai.Worker.Run.{process_next}
use mama_ai.Worker.Next.{WorkOutcome, process_next-WorkOutcome}
use mama_ai.Worker.Release.{Released, process_next-Released}
use mama_ai.Examples.Queues.{first_ids, two_jobs}
use mama_ai.Examples.Engines.{desk, fresh, idle}

abbrev worker : DurableTaskWorker
worker = record { worker_id = "worker-a"; lease_seconds = pos 60; retry_delay_seconds = pos 5 }

abbrev work_values : WorkFresh
work_values = record {
  claim_ids = first_ids;
  claim_now = 200;
  done_id = "event-5";
  done_now = 210;
  fail_id = "event-6";
  fail_now = 220;
  processed_at = 230;
  execution = fresh;
}

abbrev pub light_task : TaskRecord Payload
light_task = record {
  task_id = "task-1";
  command = "read the weather";
  source = "voice";
  autonomy_level = pos 1;
  risk_level = low;
  owner_id = "alice";
  status = pending;
  message = "Task is pending.";
  output = none;
  error = none;
  evidence = [];
  created_at = 40;
  updated_at = 40;
  started_at = none;
  finished_at = none;
}

abbrev pub registered : World (List (TaskRecord Payload)) (List ApprovalRecord)
registered = record idle { tasks = record idle.tasks { records = ("task-1", light_task) ∷ [] } }

abbrev open_shop : Shop (List (TaskRecord Payload)) (List ApprovalRecord)
open_shop = record { engine = registered; queue = two_jobs }

abbrev lost_shop : Shop (List (TaskRecord Payload)) (List ApprovalRecord)
lost_shop = record { engine = idle; queue = two_jobs }

process_next-WorkOutcome_example :
    WorkOutcome desk worker work_values open_shop (process_next desk worker work_values open_shop).1
process_next-WorkOutcome_example = process_next-WorkOutcome desk worker work_values open_shop

-- The task of the job is not registered: the job is queued again.
abbrev lost_report : WorkerRunReport
lost_report = record {
  worker_id = "worker-a";
  task_id = "task-1";
  queue_status = queued;
  task_status = none;
  message = "The durable worker could not deliver the task to the engine.";
  error = some "error";
  processed_at = 230;
}

lost_reported : (process_next desk worker work_values lost_shop).0 ≡ ok (some lost_report)
unfolding process_next mama_ai.Worker.Run.process_claimed mama_ai.Worker.Run.process_job
    mama_ai.Worker.Run.job_failed mama_ai.Worker.check_job_owner mama_ai.TaskRegistry.get
    mama_ai.TaskRegistry.validate_task_id mama_ai.Queue.Claim.claim_next mama_ai.Queue.validate_text
    mama_ai.Text.is_empty mama_ai.Text.strip mama_ai.Queue.validate_lease
    mama_ai.Queue.Claim.claim_oldest mama_ai.Queue.Claim.expire_jobs mama_ai.Queue.Claim.select_rows
    mama_ai.Queue.Table.oldest_first mama_ai.Prelude.select Dict.values
    mama_ai.Queue.History.perform_all mama_ai.Queue.History.perform mama_ai.Queue.Store.complete
    Dict.get mama_ai.Queue.Insert.enqueue mama_ai.Queue.validate_max_attempts Dict.put
    mama_ai.Queue.Audit.clean mama_ai.Queue.Audit.first_where mama_ai.Queue.Audit.is_event_type
    mama_ai.Queue.Audit.is_taken mama_ai.Queue.Audit.make_event
    mama_ai.Queue.Audit.validate_event_type mama_ai.Queue.Audit.validate_optional
    mama_ai.Queue.Claim.claim_event mama_ai.Queue.Claim.claim_found mama_ai.Queue.Claim.expire_job
    mama_ai.Queue.Claim.is_available mama_ai.Queue.Claim.is_exhausted
    mama_ai.Queue.Reconcile.latest_reconciliation mama_ai.Queue.Reconcile.observe
    mama_ai.Queue.Reconcile.record_reconciliation mama_ai.Queue.Reconcile.same_observation
    mama_ai.Queue.Store.cancel mama_ai.Queue.Store.cancel_queued mama_ai.Queue.Store.change_job
    mama_ai.Queue.Store.fail mama_ai.Queue.Store.fail_event mama_ai.Queue.Store.fail_row
    mama_ai.Queue.Insert.insert_found mama_ai.Queue.Insert.insert_job
    mama_ai.Queue.Insert.rename_integrity mama_ai.Queue.Insert.renamed
    mama_ai.Queue.Store.retry_failed mama_ai.Queue.Table.append mama_ai.Queue.Table.insert_event
    mama_ai.Queue.Table.insert_oldest mama_ai.Queue.Table.update_found
    mama_ai.Queue.Table.update_where mama_ai.Queue.check_between mama_ai.Queue.merge_audit_metadata
    mama_ai.Queue.status_value mama_ai.Queue.update mama_ai.Queue.validate_delay
    mama_ai.Text.is_space mama_ai.Text.lstrip mama_ai.Text.rstrip
lost_reported = refl

process_next-Released_example :
    Released lost_report (process_next desk worker work_values lost_shop).1
process_next-Released_example =
    process_next-Released desk worker work_values lost_shop lost_report lost_reported
