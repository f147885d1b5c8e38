-- ===== src/Approval.antt =====
-- backend/app/core/approval_registry.py: the records and the grants. Times are numbers of
-- microseconds; `datetime` arithmetic in UTC is exact on them.
pub mod Registry
pub mod Life
pub mod Effect
pub mod Grant
pub mod Use
pub mod Listing
pub mod Moves
pub mod History
pub mod Restore
pub mod Restored
use mama_ai.Prelude.{
  ℕ, String, Bool, true, false, ◌&&◌, Option, none, some, List, [], ◌∷◌, ◌*◌, leb, if◌then◌else◌,
}
use mama_ai.Text.{strip, is_empty}
use mama_ai.Result.{value_error, Result, ok, err}
use mama_ai.Task.{RiskLevel}

pub data ApprovalStatus : Type 0 where
  pending approved rejected expired consumed : ApprovalStatus

pub record ApprovalRecord : Type 0 where
  pub approval_id : String
  pub task_id : String
  pub owner_id : String
  pub command : String
  pub risk_level : RiskLevel
  pub reasons : List String
  pub status : ApprovalStatus
  pub created_at : ℕ
  pub expires_at : ℕ
  pub decided_at : Option ℕ
  pub consumed_at : Option ℕ
  pub token_hash : Option String

pub record ApprovalGrant : Type 0 where
  pub approval_id : String
  pub task_id : String
  pub owner_id : String
  pub token : String
  pub expires_at : ℕ

-- `==` of statuses
abbrev pub same : ApprovalStatus → ApprovalStatus → Bool
same pending pending = true
same approved approved = true
same rejected rejected = true
same expired expired = true
same consumed consumed = true
same _ _ = false

-- the values of the enumeration
unfoldable pub status_value : ApprovalStatus → String
status_value pending = "pending"
status_value approved = "approved"
status_value rejected = "rejected"
status_value expired = "expired"
status_value consumed = "consumed"

-- `record.status in {PENDING, APPROVED}`
abbrev pub is_active : ApprovalStatus → Bool
is_active pending = true
is_active approved = true
is_active _ = false

-- `ApprovalRegistry._validate_text`
unfoldable pub validate_text : String → String → Result String
validate_text value field_name =
    if is_empty (strip value)
    then err (value_error (field_name ∷ " cannot be empty." ∷ []))
    else ok (strip value)

-- the change of `_refresh_expiry_locked`; `now` is the reading of the clock
unfoldable pub expire : ApprovalRecord → ApprovalRecord
expire r = record r { status = expired; token_hash = none }

-- its test
unfoldable pub is_due : ℕ → ApprovalRecord → Bool
is_due now r = is_active r.status && leb r.expires_at now

-- `reasons=[str(reason).strip() for reason in reasons if str(reason).strip()]`
unfoldable pub clean_reasons : List String → List String
clean_reasons [] = []
clean_reasons (x ∷ xs) =
    let rest = clean_reasons xs in if is_empty (strip x) then rest else strip x ∷ rest

-- `timedelta(seconds=n)`
abbrev pub seconds : ℕ → ℕ
seconds n = n * 1000000
