-- ===== src/Task/Record.antt =====
-- backend/app/core/task_registry.py: `TaskRecord` and the table of allowed transitions.
use mama_ai.Prelude.{
  ℕ, String, Bool, true, false, Option, none, some, List, [], ◌∷◌, ◌==◌, if◌then◌else◌,
}
use mama_ai.Int.{ℤ}
use mama_ai.Text.{strip, is_empty}
use mama_ai.Dict.{get}
use mama_ai.Result.{Exc, type_error, value_error, Result, ok, err, ◌>>=◌}
use mama_ai.Task.{
  TaskStatus, pending, running, waiting_approval, succeeded, failed, cancelled, rolled_back,
  RiskLevel, Meta, text, object, TaskRequest, TaskResult, same, status_value,
}

-- the exception of a refused transition
abbrev pub invalid_transition : TaskStatus → TaskStatus → Exc
invalid_transition from to =
    value_error ("Invalid task transition: " ∷ status_value from ∷ " -> " ∷ status_value to ∷ [])

-- TERMINAL_STATUSES
abbrev pub is_terminal : TaskStatus → Bool
is_terminal succeeded = true
is_terminal failed = true
is_terminal cancelled = true
is_terminal rolled_back = true
is_terminal _ = false

-- ALLOWED_TRANSITIONS
unfoldable pub allowed : TaskStatus → TaskStatus → Bool
allowed pending running = true
allowed pending waiting_approval = true
allowed pending cancelled = true
allowed pending failed = true
allowed waiting_approval running = true
allowed waiting_approval cancelled = true
allowed waiting_approval failed = true
allowed running waiting_approval = true
allowed running succeeded = true
allowed running failed = true
allowed running cancelled = true
allowed running rolled_back = true
allowed _ _ = false

pub record TaskRecord (J : Type 0) : Type 0 where
  pub task_id : String
  pub command : String
  pub source : String
  pub autonomy_level : ℤ
  pub risk_level : RiskLevel
  pub owner_id : String
  pub status : TaskStatus
  pub message : String
  pub output : Option J
  pub error : Option String
  pub evidence : List J
  pub created_at : ℕ
  pub updated_at : ℕ
  pub started_at : Option ℕ
  pub finished_at : Option ℕ

-- `TaskRecord._validate_owner_id`
unfoldable pub validate_owner_id : Meta → Result String
validate_owner_id (object n) = err (type_error ("Task owner ID must be text." ∷ []))
validate_owner_id (text s) =
    if is_empty (strip s)
    then err (value_error ("Task owner ID cannot be empty." ∷ []))
    else ok (strip s)

-- `dict.get(key, default)` of the metadata
abbrev pub or_default {ℓ} : {A : Type ℓ} → Option A → A → A
or_default none d = d
or_default (some a) d = a

-- `TaskRecord._owner_from_request`
unfoldable pub owner_from_request : TaskRequest → Result String
unfolding validate_owner_id
owner_from_request r =
    validate_owner_id (or_default (get "owner_id" r.metadata) (text "local-user"))

module _ {J : Type 0} where
  -- `TaskRecord.from_request`
  unfoldable pub from_request : TaskRequest → Result (TaskRecord J)
  from_request r = do
    owner ← owner_from_request r
    ok (record {
      task_id = r.task_id;
      command = r.command;
      source = r.source;
      autonomy_level = r.autonomy_level;
      risk_level = r.risk_level;
      owner_id = owner;
      status = pending;
      message = "";
      output = none;
      error = none;
      evidence = [];
      created_at = r.created_at;
      updated_at = r.created_at;
      started_at = none;
      finished_at = none;
    })

  -- what `transition` writes; `now` is its reading of `utc_now()`
  unfoldable pub enter :
      TaskStatus → Option String → Option String → ℕ → TaskRecord J → TaskRecord J
  enter status message error now r = record r {
    status = status;
    updated_at = now;
    message = elim message [ none ↦ r.message | some m ↦ strip m ];
    error = elim error [ none ↦ r.error | some e ↦ some e ];
    started_at = if same status running then some (or_default r.started_at now) else r.started_at;
    finished_at = if is_terminal status then some now else r.finished_at;
  }

  -- `TaskRecord.transition`
  unfoldable pub transition :
      TaskStatus → Option String → Option String → ℕ → TaskRecord J → Result (TaskRecord J)
  unfolding enter
  transition status message error now r =
      if same status r.status
      then ok r
      else if allowed r.status status
      then ok (enter status message error now r)
      else err (invalid_transition r.status status)

  -- the writes of `apply_result` after the transition; `now` is the last reading
  unfoldable pub store_result : TaskResult J → ℕ → TaskRecord J → TaskRecord J
  store_result result now r = record r {
    output = result.output;
    evidence = result.evidence;
    started_at = some result.started_at;
    finished_at = elim result.finished_at [ none ↦ r.finished_at | some t ↦ some t ];
    updated_at = now;
  }

  -- `TaskRecord.apply_result`
  unfoldable pub apply_result : TaskResult J → ℕ → ℕ → TaskRecord J → Result (TaskRecord J)
  unfolding store_result
  apply_result result now later r =
      if result.task_id == r.task_id
      then (do
        r' ← transition result.status (some result.message) result.error now r
        ok (store_result result later r'))
      else err (value_error ("Task result ID does not match the registered task." ∷ []))
