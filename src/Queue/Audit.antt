-- ===== src/Queue/Audit.antt =====
-- backend/app/database/attempt_audit_db.py: the append-only audit log of the queue. The fresh
-- `audit_id` of `uuid4` is an argument; its column is UNIQUE.
use mama_ai.Prelude.{
  ℕ, String, Bool, true, false, ◌&&◌, ◌||◌, Option, none, some, List, [], ◌∷◌, ◌==◌, if◌then◌else◌,
  select, take, length,
}
use mama_ai.Int.{ℤ}
use mama_ai.Text.{strip, is_empty}
use mama_ai.Result.{value_error, Result, ok, err, ◌>>=◌}
use mama_ai.Queue.{AuditEvent, validate_text, validate_limit}

-- ATTEMPT_EVENT_TYPES
unfoldable pub is_event_type : String → Bool
is_event_type t =
    (t == "enqueued")
    || (t == "claimed")
    || (t == "retry_scheduled")
    || (t == "failed")
    || (t == "manually_retried")
    || (t == "completed")
    || (t == "cancelled")
    || (t == "reconciled")

-- `_validate_event_type`
unfoldable pub validate_event_type : String → Result String
validate_event_type event_type = do
  t ← validate_text event_type "Audit event type"
  (if is_event_type t then ok t else err (value_error ("Unsupported audit event type: " ∷ t ∷ [])))

-- an optional text that is validated
unfoldable pub validate_optional : Option String → String → Result (Option String)
validate_optional none field_name = ok none
validate_optional (some s) field_name = validate_text s field_name >>= λ t. ok (some t)

-- a text that is stripped, or `None` if nothing is left
unfoldable pub clean : Option String → Option String
clean none = none
clean (some s) = if is_empty (strip s) then none else some (strip s)

-- the checks of `append`, on the row that it is asked for
unfoldable pub make_event : AuditEvent → Result AuditEvent
make_event e = do
  task ← validate_text e.task_id "Task ID"
  owner ← validate_text e.owner_id "Owner ID"
  event ← validate_event_type e.event_type
  worker ← validate_optional e.worker_id "Worker ID"
  ok (record e {
    task_id = task;
    owner_id = owner;
    event_type = event;
    worker_id = worker;
    message = clean e.message;
    error = clean e.error;
  })

-- the UNIQUE constraint
unfoldable pub is_taken : String → List AuditEvent → Bool
is_taken audit_id [] = false
is_taken audit_id (e ∷ es) = (e.audit_id == audit_id) || is_taken audit_id es

-- the first row that a test selects, in the order of the list
unfoldable pub first_where : (AuditEvent → Bool) → List AuditEvent → Option AuditEvent
first_where test [] = none
first_where test (e ∷ es) = if test e then some e else first_where test es

-- an optional column test
abbrev pub matches : Option String → String → Bool
matches none s = true
matches (some t) s = s == t

-- the WHERE clause of `list` and `count`
abbrev pub is_listed : Option String → Option String → Option String → AuditEvent → Bool
is_listed task_id event_type owner_id e =
    matches task_id e.task_id && matches event_type e.event_type && matches owner_id e.owner_id

unfoldable pub validate_optional_type : Option String → Result (Option String)
validate_optional_type none = ok none
validate_optional_type (some s) = validate_event_type s >>= λ t. ok (some t)

-- `get`
unfoldable pub get : String → Option String → List AuditEvent → Result (Option AuditEvent)
get audit_id owner_id log = do
  id ← validate_text audit_id "Audit ID"
  owner ← validate_optional owner_id "Owner ID"
  ok (first_where (λ e. (e.audit_id == id) && matches owner e.owner_id) log)

-- `list`: `ORDER BY sequence_id DESC` is the order of the log
unfoldable pub list :
    Option String → Option String → Option String → ℤ → List AuditEvent → Result (List AuditEvent)
list task_id event_type owner_id limit log = do
  n ← validate_limit limit
  task ← validate_optional task_id "Task ID"
  event ← validate_optional_type event_type
  owner ← validate_optional owner_id "Owner ID"
  ok (take n (select (is_listed task event owner) log))

-- `count`
unfoldable pub count : Option String → Option String → Option String → List AuditEvent → Result ℕ
count task_id event_type owner_id log = do
  task ← validate_optional task_id "Task ID"
  event ← validate_optional_type event_type
  owner ← validate_optional owner_id "Owner ID"
  ok (length (select (is_listed task event owner) log))
