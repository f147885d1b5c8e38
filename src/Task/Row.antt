-- ===== src/Task/Row.antt =====
-- backend/app/core/task_registry.py: `TaskRecord.from_dict`, on a row of the store. The columns
-- that `from_dict` parses are texts; `str(...)` of a text and `deepcopy` change nothing.
use mama_ai.Prelude.{ℕ, String, ◌≡◌, refl, arith, Option, some, List, [], ◌∷◌, ◌==◌, if◌then◌else◌}
use mama_ai.Int.{ℤ}
use mama_ai.Result.{value_error, Result, ok, err, ◌>>=◌}
use mama_ai.Task.{
  TaskStatus, pending, running, waiting_approval, succeeded, failed, cancelled, rolled_back,
  RiskLevel, low, medium, high, critical, Meta, text, status_value,
}
use mama_ai.Task.Record.{TaskRecord, or_default, validate_owner_id}

-- `TaskStatus(value)`
unfoldable pub parse_status : String → Result TaskStatus
parse_status v =
    if v == "pending"
    then ok pending
    else if v == "running"
    then ok running
    else if v == "waiting_approval"
    then ok waiting_approval
    else if v == "succeeded"
    then ok succeeded
    else if v == "failed"
    then ok failed
    else if v == "cancelled"
    then ok cancelled
    else if v == "rolled_back"
    then ok rolled_back
    else err (value_error (v ∷ " is not a valid TaskStatus" ∷ []))

unfoldable pub risk_value : RiskLevel → String
risk_value low = "low"
risk_value medium = "medium"
risk_value high = "high"
risk_value critical = "critical"

-- `RiskLevel(value)`
unfoldable pub parse_risk : String → Result RiskLevel
parse_risk v =
    if v == "low"
    then ok low
    else if v == "medium"
    then ok medium
    else if v == "high"
    then ok high
    else if v == "critical"
    then ok critical
    else err (value_error (v ∷ " is not a valid RiskLevel" ∷ []))

-- A row that `list_tasks` returns; `owner_id`, `message` and `evidence` may be missing.
pub record TaskRow (J : Type 0) : Type 0 where
  pub task_id : String
  pub command : String
  pub source : String
  pub autonomy_level : ℤ
  pub risk_level : String
  pub owner_id : Option Meta
  pub status : String
  pub message : Option String
  pub output : Option J
  pub error : Option String
  pub evidence : Option (List J)
  pub created_at : ℕ
  pub updated_at : ℕ
  pub started_at : Option ℕ
  pub finished_at : Option ℕ

module _ {J : Type 0} where
  -- `TaskRecord.from_dict`
  unfoldable pub from_row : TaskRow J → Result (TaskRecord J)
  from_row row = do
    risk ← parse_risk row.risk_level
    owner ← validate_owner_id (or_default row.owner_id (text "local-user"))
    status ← parse_status row.status
    ok (record {
      task_id = row.task_id;
      command = row.command;
      source = row.source;
      autonomy_level = row.autonomy_level;
      risk_level = risk;
      owner_id = owner;
      status = status;
      message = or_default row.message "";
      output = row.output;
      error = row.error;
      evidence = or_default row.evidence [];
      created_at = row.created_at;
      updated_at = row.updated_at;
      started_at = row.started_at;
      finished_at = row.finished_at;
    })

  -- `TaskRecord.to_dict`, as the store writes it
  unfoldable pub to_row : TaskRecord J → TaskRow J
  unfolding risk_value
  to_row r = record {
    task_id = r.task_id;
    command = r.command;
    source = r.source;
    autonomy_level = r.autonomy_level;
    risk_level = risk_value r.risk_level;
    owner_id = some (text r.owner_id);
    status = status_value r.status;
    message = some r.message;
    output = r.output;
    error = r.error;
    evidence = some r.evidence;
    created_at = r.created_at;
    updated_at = r.updated_at;
    started_at = r.started_at;
    finished_at = r.finished_at;
  }

pub parse_status-value : (s : TaskStatus) → parse_status (status_value s) ≡ ok s
unfolding parse_status status_value
parse_status-value pending = refl
parse_status-value _ = refl

pub parse_risk-value : (l : RiskLevel) → parse_risk (risk_value l) ≡ ok l
unfolding parse_risk risk_value
parse_risk-value low = refl
parse_risk-value _ = refl

-- Reading back the row of a record gives the record, if its owner ID passes its own validation
-- unchanged.
pub from_row-to_row :
    {J : Type 0} (r : TaskRecord J)
    → validate_owner_id (text r.owner_id) ≡ ok r.owner_id
    → from_row (to_row r) ≡ ok r
unfolding from_row to_row
from_row-to_row r h = ground (arith, parse_status-value r.status, parse_risk-value r.risk_level)
