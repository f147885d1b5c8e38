-- ===== src/Queue/Table.antt =====
-- backend/app/database/queue_db.py: the SQL statements of the queue, and its transactions.
use mama_ai.Prelude.{
  String, Bool, true, false, Option, none, some, List, [], ◌∷◌, leb, if◌then◌else◌,
}
use mama_ai.Dict
use mama_ai.Dict.{Dict}
use mama_ai.Result.{Exc, integrity_error, key_error, Result, ok, err}
use mama_ai.Exec.{Exec, pure, lift, gets, or_raise, modify, ◌>>=◌, ◌>>◌}
use mama_ai.Queue.{QueueRow, AuditEvent, QueueDb}
use mama_ai.Queue.Audit.{make_event, is_taken}

-- the end of a transaction that began in the state `s`: commit, or rollback and raise
abbrev pub commit_or_rollback {ℓ} : {A : Type ℓ} {S : Type ℓ} → S → Result A × S → Result A × S
commit_or_rollback s (ok a, s') = (ok a, s')
commit_or_rollback s (err e, s') = (err e, s)

-- `BEGIN IMMEDIATE`, the statements, and `commit` or `rollback`
abbrev pub transact {ℓ} : {A : Type ℓ} {S : Type ℓ} → Exec S A → Exec S A
transact m s = commit_or_rollback s (m s)

abbrev pub set_row : String → QueueRow → QueueDb → QueueDb
set_row id r db = record db { rows = Dict.put id r db.rows }

-- `_select_task`
abbrev pub select_task : String → Exec QueueDb (Option QueueRow)
select_task id = gets (λ db. Dict.get id db.rows)

abbrev pub not_found : String → Exc
not_found id = key_error ("Queued task was not found: " ∷ id ∷ [])

abbrev pub require_task : String → Exec QueueDb QueueRow
require_task id = select_task id >>= λ found. or_raise found (not_found id)

-- an UPDATE of one row, if the test of its WHERE clause holds; the result is `rowcount > 0`
unfoldable pub update_found :
    String → (QueueRow → Bool) → (QueueRow → QueueRow) → Option QueueRow → Exec QueueDb Bool
update_found id test change none = pure false
update_found id test change (some r) =
    if test r then modify (set_row id (change r)) >> pure true else pure false

unfoldable pub update_where : String → (QueueRow → Bool) → (QueueRow → QueueRow) → Exec QueueDb Bool
update_where id test change = select_task id >>= update_found id test change

-- `if cursor.rowcount == 0: raise e`
abbrev pub require_updated : Bool → Exc → Result (Unit {0})
require_updated true e = ok tt
require_updated false e = err e

-- `append` on the connection of the caller
unfoldable pub insert_event : AuditEvent → Exec QueueDb AuditEvent
insert_event e db =
    if is_taken e.audit_id db.log
    then (err (integrity_error ("UNIQUE constraint failed: task_attempt_audit.audit_id" ∷ [])), db)
    else (ok e, record db { log = e ∷ db.log })

unfoldable pub append : AuditEvent → Exec QueueDb AuditEvent
append e = lift (make_event e) >>= insert_event

-- `ORDER BY created_at ASC`; SQL leaves the order of equal times open
unfoldable pub insert_oldest : QueueRow → List QueueRow → List QueueRow
insert_oldest r [] = r ∷ []
insert_oldest r (x ∷ xs) =
    let rest = insert_oldest r xs in if leb r.created_at x.created_at then r ∷ x ∷ xs else x ∷ rest

unfoldable pub oldest_first : List QueueRow → List QueueRow
oldest_first [] = []
oldest_first (r ∷ rs) = insert_oldest r (oldest_first rs)
