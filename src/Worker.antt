-- ===== src/Worker.antt =====
-- backend/app/core/task_worker.py: `DurableTaskWorker.process_next`, on the queue and the engine.
pub mod Run
pub mod Safe
pub mod Next
pub mod Release
use mama_ai.Prelude.{ℕ, String, Bool, Option, none, some, [], ◌∷◌, ◌==◌, ◌||◌, if◌then◌else◌}
use mama_ai.Int.{ℤ, pos}
use mama_ai.Result.{Exc, key_error, permission_error, Result, ok, err}
use mama_ai.Exec.{Exec, zoom}
use mama_ai.Task.{TaskStatus, pending, running, cancelled, TaskRequest, text}
use mama_ai.Task.Record.{TaskRecord}
use mama_ai.Queue.{QueueStatus, QueueRow, QueueDb}
use mama_ai.Queue.Store.{Audited}
use mama_ai.Engine.{Payload, World, Fresh}
use mama_ai.Engine.Execute.{Args, request}

-- what the constructor stores; both numbers are checked there once more
pub record DurableTaskWorker : Type 0 where
  pub worker_id : String
  pub lease_seconds : ℤ
  pub retry_delay_seconds : ℤ

pub record WorkerRunReport : Type 0 where
  pub worker_id : String
  pub task_id : String
  pub queue_status : QueueStatus
  pub task_status : Option TaskStatus
  pub message : String
  pub error : Option String
  pub processed_at : ℕ

-- The engine and the queue that a worker is given.
pub record Shop (Db Ab : Type 0) : Type 0 where
  pub engine : World Db Ab
  pub queue : QueueDb

-- The fresh values of one run: the audit IDs and times of its calls of the queue.
pub record WorkFresh : Type 0 where
  pub claim_ids : ℕ → String
  pub claim_now : ℕ
  pub done_id : String
  pub done_now : ℕ
  pub fail_id : String
  pub fail_now : ℕ
  pub processed_at : ℕ
  pub execution : Fresh

module _ {Db Ab : Type 0} where
  abbrev pub on_engine : {A : Type 0} → Exec (World Db Ab) A → Exec (Shop Db Ab) A
  on_engine = zoom (λ s. s.engine) (λ s e. record s { engine = e })

  abbrev pub on_queue : {A : Type 0} → Exec QueueDb A → Exec (Shop Db Ab) A
  on_queue = zoom (λ s. s.queue) (λ s q. record s { queue = q })

-- calls of the queue that leave the audit arguments out
abbrev pub unaudited : Audited
unaudited = record { event_type = none; message = none; metadata = none }

abbrev pub not_registered : QueueRow → Exc
not_registered job = key_error ("Task record was not found: " ∷ job.task_id ∷ [])

-- the owner of the task is the owner of the job, or the default
abbrev pub owner_matches : QueueRow → TaskRecord Payload → Bool
owner_matches job t = (t.owner_id == job.owner_id) || (t.owner_id == "local-user")

-- the owner check
unfoldable pub check_job_owner : QueueRow → TaskRecord Payload → Result (Unit {0})
check_job_owner job t =
    if owner_matches job t
    then ok tt
    else err (permission_error ("Task state owner does not match the durable queue owner." ∷ []))

-- what `process_next` does with a task in a status
pub data Plan : Type 0 where
  drop settle refuse perform : Plan

abbrev pub plan_of : TaskStatus → Plan
plan_of cancelled = drop
plan_of running = refuse
plan_of pending = perform
plan_of _ = settle

-- the arguments of `TaskRequest`
abbrev pub request_of : DurableTaskWorker → QueueRow → TaskRecord Payload → TaskRequest
request_of w job t = record {
  command = t.command;
  source = t.source;
  autonomy_level = t.autonomy_level;
  risk_level = t.risk_level;
  task_id = t.task_id;
  metadata = ("owner_id", text job.owner_id) ∷ ("queue_worker_id", text w.worker_id) ∷ [];
  created_at = t.created_at;
}

-- the arguments of `execute`; its defaults are not read for a request
abbrev pub args_of : QueueRow → TaskRequest → Args
args_of job r = record {
  task = request r;
  source = "text";
  autonomy_level = pos 1;
  owner_id = some job.owner_id;
  approval_id = none;
  approval_token = none;
}
