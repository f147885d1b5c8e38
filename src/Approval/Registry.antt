-- ===== src/Approval/Registry.antt =====
-- backend/app/core/approval_registry.py: `ApprovalRegistry`. Its lock makes each method one step.
-- `Db` is the state of the attached store. The readings of the clock, the fresh ID of `uuid4` and
-- the fresh token of `secrets` are arguments; the digest `_hash_token` is a parameter.
use mama_ai.Prelude.{
  ℕ, String, Bool, true, false, not, ◌+◌, Option, none, some, List, [], ◌∷◌, ◌==◌, if◌then◌else◌,
}
use mama_ai.Int.{ℤ, pos, negsuc, is_between}
use mama_ai.Dict
use mama_ai.Dict.{Dict}
use mama_ai.Result.{
  Exc, value_error, key_error, permission_error, timeout_error, runtime_error, Result, ok, err,
}
use mama_ai.Exec.{Exec, pure, lift, gets, or_raise, modify, or_restore, put_back, ◌>>=◌, ◌>>◌}
use mama_ai.Task.{RiskLevel}
use mama_ai.Approval.{
  pending, approved, rejected, expired, consumed, ApprovalRecord, ApprovalGrant, same, status_value,
  validate_text, expire, is_due, clean_reasons, seconds,
}

pub record ApprovalRegistry (Db : Type 0) : Type 0 where
  pub records : Dict ApprovalRecord
  pub store : Option Db
  pub persistence_enabled : Bool

-- `raise e` if the test holds
abbrev pub refuse_if : Bool → Exc → Result (Unit {0})
refuse_if true e = err e
refuse_if false e = ok tt

abbrev pub not_found : String → Exc
not_found id = key_error ("Approval request was not found: " ∷ id ∷ [])

abbrev pub other_owner : Exc
other_owner = permission_error ("This approval request belongs to another owner." ∷ [])

module _ {Db : Type 0} where
  abbrev pub new_registry : ApprovalRegistry Db
  new_registry = record { records = []; store = none; persistence_enabled = false }

  abbrev pub set_record : String → ApprovalRecord → ApprovalRegistry Db → ApprovalRegistry Db
  set_record id r s = record s { records = Dict.put id r s.records }

  abbrev pub pop_record : String → ApprovalRegistry Db → ApprovalRegistry Db
  pop_record id s = record s { records = Dict.pop id s.records }

  -- the first half of `enable_persistence`
  unfoldable pub attach : Db → Exec (ApprovalRegistry Db) (Unit {0})
  attach db s = (ok tt, record s { store = some db; persistence_enabled = true })

  -- `disable_persistence`
  unfoldable pub disable_persistence : Exec (ApprovalRegistry Db) (Unit {0})
  disable_persistence s = (ok tt, record s { store = none; persistence_enabled = false })

  -- `clear`
  unfoldable pub clear : Exec (ApprovalRegistry Db) (Unit {0})
  clear s = (ok tt, record s { records = [] })

  -- `_require_locked`
  unfoldable pub require_locked : String → Exec (ApprovalRegistry Db) ApprovalRecord
  require_locked id = gets (λ s. Dict.get id s.records) >>= λ found. or_raise found (not_found id)

-- `_require_store`
abbrev pub require_store {ℓ} : {Db : Type ℓ} → Bool → Option Db → Result Db
require_store true (some db) = ok db
require_store _ _ = err (runtime_error ("Approval persistence has not been enabled." ∷ []))

-- `_verify_owner`
unfoldable pub verify_owner : ApprovalRecord → String → Result (Unit {0})
verify_owner r owner_id = refuse_if (not (r.owner_id == owner_id)) other_owner

-- the two tests before a decision
unfoldable pub verify_pending : ApprovalRecord → String → Result (Unit {0})
verify_pending r verb =
    if same r.status expired
    then err (timeout_error ("The approval request has expired." ∷ []))
    else refuse_if (not (same r.status pending))
        (value_error (verb ∷ status_value r.status ∷ "." ∷ []))

-- `record.token_hash or ""`
abbrev pub hash_or_empty : Option String → String
hash_or_empty none = ""
hash_or_empty (some h) = h

abbrev pub ttl_error : Exc
ttl_error = value_error ("Approval lifetime must be between 1 and 1800 seconds." ∷ [])

-- the check of `ttl_seconds`
unfoldable pub check_ttl : ℤ → Result ℕ
check_ttl (negsuc n) = err ttl_error
check_ttl (pos n) = if is_between 1 1800 (pos n) then ok n else err ttl_error

-- the tests of `consume` behind the owner's; `compare_digest` is the comparison of texts
unfoldable pub verify_grant : ApprovalRecord → String → String → Result (Unit {0})
verify_grant r task_id supplied_hash =
    if not (r.task_id == task_id)
    then err (permission_error ("The approval token does not belong to this task." ∷ []))
    else if same r.status expired
    then err (timeout_error ("The approval token has expired." ∷ []))
    else if same r.status consumed
    then err (permission_error ("The approval token has already been used." ∷ []))
    else if not (same r.status approved)
    then err (permission_error ("The task has not been approved." ∷ []))
    else refuse_if (not (supplied_hash == hash_or_empty r.token_hash))
        (permission_error ("Invalid approval token." ∷ []))

module _ {Db : Type 0} (save_approval : ApprovalRecord → Exec Db (Unit {0})) where
  unfoldable pub save_to : Result Db → ApprovalRecord → Exec (ApprovalRegistry Db) (Unit {0})
  save_to (err e) r s = (err e, s)
  save_to (ok db) r s = put_back (save_approval r db) (λ db'. record s { store = some db' })

  -- `_persist_locked`
  unfoldable pub persist : ApprovalRecord → Exec (ApprovalRegistry Db) (Unit {0})
  unfolding save_to
  persist r s =
      if s.persistence_enabled
      then save_to (require_store s.persistence_enabled s.store) r s
      else (ok tt, s)

  -- a write of one record, persisted or taken back
  unfoldable pub write_or :
      (ApprovalRegistry Db → ApprovalRegistry Db)
      → String
      → ApprovalRecord
      → Exec (ApprovalRegistry Db) ApprovalRecord
  write_or restore id r = or_restore (modify (set_record id r) >> persist r) restore >> pure r

  -- `_refresh_and_persist_locked`, on the record under the key `id`
  unfoldable pub refresh : String → ApprovalRecord → ℕ → Exec (ApprovalRegistry Db) ApprovalRecord
  refresh id r now = if is_due now r then write_or (set_record id r) id (expire r) else pure r

  -- `create`
  unfoldable pub create :
      String
      → ℕ
      → String
      → String
      → String
      → RiskLevel
      → List String
      → ℤ
      → Exec (ApprovalRegistry Db) ApprovalRecord
  create approval_id now task_id owner_id command risk_level reasons ttl_seconds = do
    task ← lift (validate_text task_id "Task ID")
    owner ← lift (validate_text owner_id "Owner ID")
    text ← lift (validate_text command "Command")
    ttl ← lift (check_ttl ttl_seconds)
    write_or (pop_record approval_id) approval_id (record {
      approval_id = approval_id;
      task_id = task;
      owner_id = owner;
      command = text;
      risk_level = risk_level;
      reasons = clean_reasons reasons;
      status = pending;
      created_at = now;
      expires_at = now + seconds ttl;
      decided_at = none;
      consumed_at = none;
      token_hash = none;
    })

  -- the common start of `approve`, `reject` and `consume`: find, expire if due, check the owner
  unfoldable pub open_record : String → String → ℕ → Exec (ApprovalRegistry Db) ApprovalRecord
  open_record id owner_id now = do
    found ← require_locked id
    r ← refresh id found now
    lift (verify_owner r owner_id)
    pure r

  -- `reject`
  unfoldable pub reject : String → String → ℕ → ℕ → Exec (ApprovalRegistry Db) ApprovalRecord
  reject approval_id owner_id now later = do
    id ← lift (validate_text approval_id "Approval ID")
    owner ← lift (validate_text owner_id "Owner ID")
    r ← open_record id owner now
    lift (verify_pending r "Approval cannot be rejected from status ")
    write_or (set_record id r) id
        (record r { status = rejected; decided_at = some later; token_hash = none })

  unfoldable pub refresh_found :
      String → Option ApprovalRecord → ℕ → Exec (ApprovalRegistry Db) (Option ApprovalRecord)
  refresh_found id none now = pure none
  refresh_found id (some r) now = refresh id r now >>= λ r'. pure (some r')

  -- `get`
  unfoldable pub get : String → ℕ → Exec (ApprovalRegistry Db) (Option ApprovalRecord)
  get approval_id now = do
    id ← lift (validate_text approval_id "Approval ID")
    found ← gets (λ s. Dict.get id s.records)
    refresh_found id found now

  -- `require`
  unfoldable pub require : String → ℕ → Exec (ApprovalRegistry Db) ApprovalRecord
  require approval_id now = do found ← get approval_id now; or_raise found (not_found approval_id)

-- The methods that hash a token.
module _ {Db : Type 0} (save_approval : ApprovalRecord → Exec Db (Unit {0}))
    (hash_token : String → String) where
  -- `approve`; `token` is the fresh token
  unfoldable pub approve :
      String → String → String → ℕ → ℕ → Exec (ApprovalRegistry Db) ApprovalGrant
  approve token approval_id owner_id now later = do
    id ← lift (validate_text approval_id "Approval ID")
    owner ← lift (validate_text owner_id "Owner ID")
    r ← open_record save_approval id owner now
    lift (verify_pending r "Approval cannot be granted from status ")
    granted ← write_or save_approval (set_record id r) id (record r {
      status = approved;
      decided_at = some later;
      token_hash = some (hash_token token);
    })
    pure (record {
      approval_id = granted.approval_id;
      task_id = granted.task_id;
      owner_id = granted.owner_id;
      token = token;
      expires_at = granted.expires_at;
    })

  -- `consume`
  unfoldable pub consume :
      String → String → String → String → ℕ → ℕ → Exec (ApprovalRegistry Db) ApprovalRecord
  consume approval_id task_id owner_id token now later = do
    id ← lift (validate_text approval_id "Approval ID")
    task ← lift (validate_text task_id "Task ID")
    owner ← lift (validate_text owner_id "Owner ID")
    secret ← lift (validate_text token "Approval token")
    r ← open_record save_approval id owner now
    lift (verify_grant r task (hash_token secret))
    write_or save_approval (set_record id r) id
        (record r { status = consumed; consumed_at = some later; token_hash = none })
