-- ===== src/Engine.antt =====
-- backend/app/core/engine.py: the state that `MamaEngine` works on, the values that its tasks
-- carry, the events that it publishes, and what it takes from its environment.
pub mod Steps
pub mod Approve
pub mod Execute
pub mod Calm
pub mod Executor
pub mod Consent
pub mod Guard
pub mod Once
pub mod Runs
use mama_ai.Prelude.{ℕ, String, Bool, Option, List, [], ◌∷◌, ◌++◌}
use mama_ai.Result.{Exc, Result}
use mama_ai.Exec.{Exec, zoom, modify}
use mama_ai.Task.{RiskLevel, TaskRequest, TaskResult}
use mama_ai.Task.Record.{TaskRecord}
use mama_ai.TaskRegistry.{TaskRegistry}
use mama_ai.Approval.{ApprovalRecord}
use mama_ai.Approval.Registry.{ApprovalRegistry}
use mama_ai.Risk.{RiskAssessment}
use mama_ai.Risk.Rules.{PermissionDecision}

-- What an executor returns: `None`, a dictionary (a value is `None` or an object), or another
-- object. An object is known by its number.
pub data Output : Type 0 where
  null : Output
  dict : List (String × Option ℕ) → Output
  object : ℕ → Output

-- The values that the engine stores in `output` and `evidence`.
pub data Payload : Type 0 where
  command_output : Output → Payload
  waiting : ApprovalRecord → RiskAssessment → Payload
  risk_evidence : String → RiskLevel → PermissionDecision → Payload
  executor_evidence : String → Payload

-- The published events with their payloads.
pub data Event : Type 0 where
  task_started : TaskRequest → Event
  task_succeeded : TaskRequest → TaskResult Payload → Event
  task_failed : (task_id message error stage : String) → Event
  task_denied : (task_id reason : String) → RiskAssessment → Event
  approval_required : (task_id owner_id : String) → ApprovalRecord → RiskAssessment → Event
  approval_invalid : (task_id owner_id error : String) → ApprovalRecord → Event
  approval_consumed : (task_id owner_id : String) → ApprovalRecord → Event

-- The two registries, the events published so far, and the commands given to the executor so far.
pub record World (Db Ab : Type 0) : Type 0 where
  pub tasks : TaskRegistry Payload Db
  pub approvals : ApprovalRegistry Ab
  pub events : List Event
  pub executed : List String

-- The stores, the digest, `re.search`, the executor (after `_resolve_result`), its name, and `str`
-- of an exception and of an output.
pub record Env (Db Ab : Type 0) : Type 0 where
  pub save_task : TaskRecord Payload → Exec Db (Unit {0})
  pub save_approval : ApprovalRecord → Exec Ab (Unit {0})
  pub hash_token : String → String
  pub search : String → String → Bool
  pub executor : String → Result Output
  pub executor_name : String
  pub str_exc : Exc → String
  pub str_output : Output → String

-- The fresh values of one call: the readings of the clocks in the order of the source, and the IDs
-- of `uuid4`.
pub record Fresh : Type 0 where
  pub now : ℕ → ℕ
  pub assessment_id : String
  pub approval_id : String
  pub task_id : String

module _ {Db Ab : Type 0} where
  abbrev pub on_tasks : {A : Type 0} → Exec (TaskRegistry Payload Db) A → Exec (World Db Ab) A
  on_tasks = zoom (λ w. w.tasks) (λ w t. record w { tasks = t })

  abbrev pub on_approvals : {A : Type 0} → Exec (ApprovalRegistry Ab) A → Exec (World Db Ab) A
  on_approvals = zoom (λ w. w.approvals) (λ w a. record w { approvals = a })

  -- `self._event_bus.publish`, which never raises: failing handlers are logged
  abbrev pub publish : Event → Exec (World Db Ab) (Unit {0})
  publish e = modify (λ w. record w { events = w.events ++ e ∷ [] })
