-- ===== src/Approval/Restore.antt =====
-- backend/app/core/approval_registry.py: `ApprovalRecord.from_dict`, `restore` and
-- `enable_persistence`. The times of a row are parsed (`datetime.fromisoformat`).
use mama_ai.Prelude.{ℕ, suc, String, Bool, Option, some, List, [], ◌∷◌, ◌==◌, length, if◌then◌else◌}
use mama_ai.Dict
use mama_ai.Dict.{Dict}
use mama_ai.Exec.{Exec, pure, lift, gets, modify, put_back, ◌>>=◌, ◌>>◌}
use mama_ai.Result.{value_error, Result, ok, err}
use mama_ai.Task.Record.{or_default}
use mama_ai.Task.Row.{parse_risk}
use mama_ai.Approval.{
  ApprovalStatus, pending, approved, rejected, expired, consumed, ApprovalRecord, is_due, expire,
}
use mama_ai.Approval.Registry.{ApprovalRegistry, require_store, save_to, attach}

-- `ApprovalStatus(value)`
unfoldable pub parse_status : String → Result ApprovalStatus
parse_status v =
    if v == "pending"
    then ok pending
    else if v == "approved"
    then ok approved
    else if v == "rejected"
    then ok rejected
    else if v == "expired"
    then ok expired
    else if v == "consumed"
    then ok consumed
    else err (value_error (v ∷ " is not a valid ApprovalStatus" ∷ []))

pub record ApprovalRow : Type 0 where
  pub approval_id : String
  pub task_id : String
  pub owner_id : String
  pub command : String
  pub risk_level : String
  pub reasons : Option (List String)
  pub status : String
  pub created_at : ℕ
  pub expires_at : ℕ
  pub decided_at : Option ℕ
  pub consumed_at : Option ℕ
  pub token_hash : Option String

-- `ApprovalRecord.from_dict`
unfoldable pub from_row : ApprovalRow → Result ApprovalRecord
from_row row = mama_ai.Result.◌>>=◌ (parse_risk row.risk_level) λ risk.
    mama_ai.Result.◌>>=◌ (parse_status row.status) λ status. ok (record {
      approval_id = row.approval_id;
      task_id = row.task_id;
      owner_id = row.owner_id;
      command = row.command;
      risk_level = risk;
      reasons = or_default row.reasons [];
      status = status;
      created_at = row.created_at;
      expires_at = row.expires_at;
      decided_at = row.decided_at;
      consumed_at = row.consumed_at;
      token_hash = row.token_hash;
    })

module _ {Db : Type 0} (save_approval : ApprovalRecord → Exec Db (Unit {0}))
    (list_approvals : ℕ → Exec Db (List ApprovalRow)) where
  -- an overdue request is expired, and the row saved
  unfoldable pub expire_restored : ℕ → ApprovalRecord → Exec (ApprovalRegistry Db) ApprovalRecord
  expire_restored now r =
      if is_due now r
      then (do
        gets (λ s. require_store s.persistence_enabled s.store) >>= λ db.
            save_to save_approval db (expire r)
        pure (expire r))
      else pure r

  -- the loop over the rows; row number `i` reads `clock i`
  unfoldable pub restore_rows :
      (ℕ → ℕ)
      → ℕ
      → Dict ApprovalRecord
      → List ApprovalRow
      → Exec (ApprovalRegistry Db) (Dict ApprovalRecord)
  restore_rows clock i restored [] = pure restored
  restore_rows clock i restored (row ∷ rows) = do
    r ← lift (from_row row)
    r' ← expire_restored (clock i) r
    restore_rows clock (suc i) (Dict.put r'.approval_id r' restored) rows

  unfoldable pub list_from : Result Db → Exec (ApprovalRegistry Db) (List ApprovalRow)
  list_from (err e) s = (err e, s)
  list_from (ok db) s = put_back (list_approvals 1000 db) (λ db'. record s { store = some db' })

  -- `restore`
  unfoldable pub restore : (ℕ → ℕ) → Exec (ApprovalRegistry Db) ℕ
  restore clock = do
    db ← gets (λ s. require_store s.persistence_enabled s.store)
    rows ← list_from db
    restored ← restore_rows clock 0 [] rows
    modify (λ s. record s { records = restored })
    pure (length restored)

  -- `enable_persistence`
  unfoldable pub enable_persistence : Db → Bool → (ℕ → ℕ) → Exec (ApprovalRegistry Db) ℕ
  enable_persistence db restore_first clock =
      attach db >> (if restore_first then restore clock else pure 0)
