-- ===== src/Queue.antt =====
-- backend/app/database/queue_db.py: the rows of the durable queue, and the tests of its arguments.
-- Times are numbers of microseconds; the stored texts of `isoformat` are compared as texts, which
-- is the order of the times.
pub mod Audit
pub mod Table
pub mod Store
pub mod Insert
pub mod Claim
pub mod Reconcile
pub mod Life
pub mod Valid
pub mod Effect
pub mod Moves
pub mod Enqueue
pub mod Order
pub mod Expire
pub mod Claims
pub mod Due
pub mod Backoff
pub mod History
pub mod Refine
pub mod Lease
pub mod Exclusive
pub mod Finite
pub mod Free
pub mod Budget
use mama_ai.Prelude.{
  ℕ, String, Bool, true, false, Option, none, some, List, [], ◌∷◌, ◌==◌, if◌then◌else◌,
}
use mama_ai.Int.{ℤ, pos, negsuc, is_between}
use mama_ai.Text.{strip, is_empty}
use mama_ai.Dict
use mama_ai.Dict.{Dict}
use mama_ai.Result.{Exc, value_error, Result, ok, err}

-- the values of the column `status`
pub data QueueStatus : Type 0 where
  queued claimed completed failed cancelled : QueueStatus

pub record QueueRow : Type 0 where
  pub task_id : String
  pub owner_id : String
  pub status : QueueStatus
  pub attempts : ℕ
  pub max_attempts : ℕ
  pub available_at : ℕ
  pub lease_expires_at : Option ℕ
  pub worker_id : Option String
  pub last_error : Option String
  pub created_at : ℕ
  pub updated_at : ℕ

-- A value of the metadata of an audit event.
pub data Value : Type 0 where
  null : Value
  text : String → Value
  number : ℕ → Value
  boolean : Bool → Value

-- A row of the audit log.
pub record AuditEvent : Type 0 where
  pub audit_id : String
  pub task_id : String
  pub owner_id : String
  pub attempt : ℕ
  pub event_type : String
  pub queue_status : QueueStatus
  pub worker_id : Option String
  pub message : Option String
  pub error : Option String
  pub metadata : Dict Value
  pub created_at : ℕ

-- The two tables of the database file. The log has its newest event first.
pub record QueueDb : Type 0 where
  pub rows : Dict QueueRow
  pub log : List AuditEvent

-- `==` of statuses
abbrev pub same : QueueStatus → QueueStatus → Bool
same queued queued = true
same claimed claimed = true
same completed completed = true
same failed failed = true
same cancelled cancelled = true
same _ _ = false

-- the texts of the column
unfoldable pub status_value : QueueStatus → String
status_value queued = "queued"
status_value claimed = "claimed"
status_value completed = "completed"
status_value failed = "failed"
status_value cancelled = "cancelled"

-- `SQLiteTaskQueueStore._validate_text`
unfoldable pub validate_text : String → String → Result String
validate_text value field_name =
    if is_empty (strip value)
    then err (value_error (field_name ∷ " cannot be empty." ∷ []))
    else ok (strip value)

-- an integer between two bounds
unfoldable pub check_between : ℕ → ℕ → Exc → ℤ → Result ℕ
check_between lo hi e (negsuc n) = err e
check_between lo hi e (pos n) = if is_between lo hi (pos n) then ok n else err e

-- `_validate_max_attempts`
unfoldable pub validate_max_attempts : ℤ → Result ℕ
unfolding check_between
validate_max_attempts =
    check_between 1 10 (value_error ("Maximum attempts must be between 1 and 10." ∷ []))

-- `_validate_delay`
unfoldable pub validate_delay : ℤ → Result ℕ
unfolding check_between
validate_delay =
    check_between 0 86400 (value_error ("Delay must be between 0 and 86400 seconds." ∷ []))

-- `_validate_limit`
unfoldable pub validate_limit : ℤ → Result ℕ
unfolding check_between
validate_limit = check_between 1 1000 (value_error ("Limit must be between 1 and 1000." ∷ []))

-- the check of `lease_seconds`
unfoldable pub validate_lease : ℤ → Result ℕ
unfolding check_between
validate_lease =
    check_between 5 3600 (value_error ("Lease duration must be between 5 and 3600 seconds." ∷ []))

-- `text or default`
abbrev pub or_text : Option String → String → String
or_text none d = d
or_text (some s) d = if is_empty s then d else s

-- `merged.update(extra)`
unfoldable pub update : Dict Value → Dict Value → Dict Value
update base [] = base
update base ((k, v) ∷ extra) = update (Dict.put k v base) extra

-- `_merge_audit_metadata`
unfoldable pub merge_audit_metadata : Dict Value → Option (Dict Value) → Dict Value
unfolding update
merge_audit_metadata base none = base
merge_audit_metadata base (some extra) = update base extra
