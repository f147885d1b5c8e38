-- ===== src/Task.antt =====
-- backend/app/core/task.py: the task contracts. `J` is the type of the values that a task only
-- carries (its output and its evidence). Times are the texts of `utc_now()`, as numbers.
pub mod Record
pub mod Lifecycle
pub mod Listing
pub mod Row
use mama_ai.Prelude.{
  ℕ, String, Bool, true, false, not, Option, none, some, List, [], ◌∷◌, if◌then◌else◌,
}
use mama_ai.Int.{ℤ, is_between}
use mama_ai.Text.{strip, is_empty}
use mama_ai.Dict.{Dict}
use mama_ai.Result.{Exc, value_error, Result, ok, err}

pub data TaskStatus : Type 0 where
  pending running waiting_approval succeeded failed cancelled rolled_back : TaskStatus

pub data RiskLevel : Type 0 where
  low medium high critical : RiskLevel

-- A value of `metadata`: a text, or another object that the code only tells from a text.
pub data Meta : Type 0 where
  text : String → Meta
  object : ℕ → Meta

pub record TaskRequest : Type 0 where
  pub command : String
  pub source : String
  pub autonomy_level : ℤ
  pub risk_level : RiskLevel
  pub task_id : String
  pub metadata : Dict Meta
  pub created_at : ℕ

-- `TaskRequest.__post_init__`, on the constructor's arguments
unfoldable pub new_request : TaskRequest → Result TaskRequest
new_request r =
    if is_empty (strip r.command)
    then err (value_error ("Task command cannot be empty." ∷ []))
    else if is_between 0 3 r.autonomy_level
    then ok (record r { command = strip r.command })
    else err (value_error ("Autonomy level must be between 0 and 3." ∷ []))

pub record TaskResult (J : Type 0) : Type 0 where
  pub task_id : String
  pub status : TaskStatus
  pub message : String
  pub output : Option J
  pub error : Option String
  pub evidence : List J
  pub started_at : ℕ
  pub finished_at : Option ℕ

module _ {J : Type 0} where
  -- `TaskResult.__post_init__`
  unfoldable pub new_result : TaskResult J → Result (TaskResult J)
  new_result r =
      if is_empty r.task_id
      then err (value_error ("Task result requires a task ID." ∷ []))
      else ok (record r { message = strip r.message })

  -- `TaskResult.succeeded`; `started` and `finished` are the two readings of `utc_now()`
  unfoldable pub new_succeeded : String → String → Option J → List J → ℕ → ℕ → Result (TaskResult J)
  unfolding new_result
  new_succeeded task_id message output evidence started finished = new_result (record {
    task_id = task_id;
    status = succeeded;
    message = message;
    output = output;
    error = none;
    evidence = evidence;
    started_at = started;
    finished_at = some finished;
  })

  -- `TaskResult.failed`
  unfoldable pub new_failed : String → String → String → ℕ → ℕ → Result (TaskResult J)
  unfolding new_result
  new_failed task_id message error started finished = new_result (record {
    task_id = task_id;
    status = failed;
    message = message;
    output = none;
    error = some error;
    evidence = [];
    started_at = started;
    finished_at = some finished;
  })

-- `==` of statuses
abbrev pub same : TaskStatus → TaskStatus → Bool
same pending pending = true
same running running = true
same waiting_approval waiting_approval = true
same succeeded succeeded = true
same failed failed = true
same cancelled cancelled = true
same rolled_back rolled_back = true
same _ _ = false

-- the values of the enumeration
unfoldable pub status_value : TaskStatus → String
status_value pending = "pending"
status_value running = "running"
status_value waiting_approval = "waiting_approval"
status_value succeeded = "succeeded"
status_value failed = "failed"
status_value cancelled = "cancelled"
status_value rolled_back = "rolled_back"
