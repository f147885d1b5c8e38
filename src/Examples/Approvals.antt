-- ===== src/Examples/Approvals.antt =====
-- The life of one approval request on a store that keeps what it is given.
use mama_ai.Prelude.{
  String, ◌≡◌, refl, arith, true, none, some, List, [], ◌∷◌, inl, inr, ℕ, length, ◌+◌,
}
use mama_ai.Dict
use mama_ai.Dict.Laws.{Holds, IsDistinct}
use mama_ai.Result.{Exc, ok, err, ◌>>=◌}
use mama_ai.Exec.{Exec}
use mama_ai.Exec.Ensures.{Ensures}
use mama_ai.Task.{medium}
use mama_ai.Approval.{
  ApprovalStatus, pending, approved, consumed, rejected, ApprovalRecord, ApprovalGrant,
  validate_text,
}
use mama_ai.Approval.Registry.{
  ApprovalRegistry, approve, consume, create, reject, get, persist, set_record,
}
use mama_ai.Approval.Life.{Changes, IsSameRequest}
use mama_ai.Approval.Grant.{Granted, Spent, approve_lem, consume_lem}
use mama_ai.Approval.Use.{approve-consume}
use mama_ai.Approval.Restore.{ApprovalRow, restore}
use mama_ai.Approval.Restored.{IsCurrent, restore-IsCurrent}
use mama_ai.Approval.History.{
  IsValid, Reach, here, next, consumes, approves, gets, Reach-IsValid, Reach-IsSameRequest,
  consume_once,
}

abbrev pub save_kept : ApprovalRecord → Exec (List ApprovalRecord) (Unit {0})
save_kept r db = (ok tt, r ∷ db)

abbrev pub digest : String → String
digest token = token

abbrev pub asked : ApprovalRecord
asked = record {
  approval_id = "a1";
  task_id = "t1";
  owner_id = "mia";
  command = "delete the report";
  risk_level = medium;
  reasons = [];
  status = pending;
  created_at = 10;
  expires_at = 300;
  decided_at = none;
  consumed_at = none;
  token_hash = none;
}

abbrev pub granted : ApprovalRecord
granted = record asked { status = approved; decided_at = some 20; token_hash = some "secret" }

abbrev pub spent : ApprovalRecord
spent = record granted { status = consumed; consumed_at = some 40; token_hash = none }

abbrev pub stored : ApprovalRecord → ApprovalRegistry (List ApprovalRecord)
stored r = record { records = ("a1", r) ∷ []; store = some []; persistence_enabled = true }

pub asked-IsValid : IsValid (stored asked)
unfolding Holds Dict.get
asked-IsValid = record {
  distinct = (refl, tt);
  sound = (record { keyed = refl; hashed = inr ((λ e. absurd (ground arith)), refl) }, tt);
}

pub granted-IsValid : IsValid (stored granted)
unfolding Holds Dict.get
granted-IsValid = record {
  distinct = (refl, tt);
  sound = (record { keyed = refl; hashed = inl (refl, λ q. absurd (ground arith)) }, tt);
}

approve_lem_example :
    Ensures
      (λ g s'.
        (id : String) × (owner : String) × (validate_text " a1" "Approval ID" ≡ ok id)
        × (validate_text "mia" "Owner ID" ≡ ok owner)
        × Granted id owner "secret" "secret" 15 20 (stored asked).records s'.records g)
      (λ s'. Changes (stored asked).records s'.records)
      (approve save_kept digest "secret" " a1" "mia" 15 20 (stored asked))
approve_lem_example = approve_lem save_kept digest "secret" " a1" "mia" 15 20 (stored asked)

consume_lem_example :
    Ensures
      (λ r s'.
        (id : String) × (task : String) × (owner : String) × (secret : String) × (validate_text "a1"
            "Approval ID"
          ≡ ok id)
        × (validate_text "t1" "Task ID" ≡ ok task)
        × (validate_text "mia" "Owner ID" ≡ ok owner)
        × (validate_text "secret" "Approval token" ≡ ok secret)
        × Spent id task owner secret 30 40 (stored granted).records s'.records r)
      (λ s'. Changes (stored granted).records s'.records)
      (consume save_kept digest "a1" "t1" "mia" "secret" 30 40 (stored granted))
consume_lem_example = consume_lem save_kept digest "a1" "t1" "mia" "secret" 30 40 (stored granted)

abbrev after_approve : ApprovalRegistry (List ApprovalRecord)
after_approve = (approve save_kept digest "secret" "a1" "mia" 15 20 (stored asked)).1

abbrev after_consume : ApprovalRegistry (List ApprovalRecord)
after_consume = (consume save_kept digest "a1" "t1" "mia" "secret" 30 40 after_approve).1

used : Reach save_kept digest (stored asked) after_consume
used =
    next (next here (approves "secret" "a1" "mia" 15 20)) (consumes "a1" "t1" "mia" "secret" 30 40)

Reach-IsValid_example : IsValid after_consume
Reach-IsValid_example =
    Reach-IsValid save_kept digest {s = stored asked} {t = after_consume} used asked-IsValid

pub asked_found : Dict.get "a1" (stored asked).records ≡ some asked
unfolding Dict.get
asked_found = refl

Reach-IsSameRequest_example :
    (r : ApprovalRecord) × (Dict.get "a1" after_consume.records ≡ some r) × IsSameRequest asked r
Reach-IsSameRequest_example =
    Reach-IsSameRequest save_kept digest {s = stored asked} {t = after_consume} "a1" asked
      asked-IsValid used asked_found

pub first_use :
    (consume save_kept digest "a1" "t1" "mia" "secret" 30 40 (stored granted)).0 ≡ ok spent
unfolding consume validate_text mama_ai.Text.is_empty mama_ai.Text.strip
    mama_ai.Approval.Registry.open_record mama_ai.Approval.Registry.require_locked Dict.get
    mama_ai.Approval.Registry.refresh mama_ai.Approval.is_due mama_ai.Approval.Registry.verify_owner
    mama_ai.Approval.Registry.verify_grant mama_ai.Approval.Registry.write_or
    mama_ai.Approval.Registry.persist
first_use = refl

abbrev pub after_spent : ApprovalRegistry (List ApprovalRecord)
after_spent = (consume save_kept digest "a1" "t1" "mia" "secret" 30 40 (stored granted)).1

abbrev looked_up : ApprovalRegistry (List ApprovalRecord)
looked_up = (get save_kept "a1" 50 after_spent).1

consume_once_example :
    (e : Exc) × ((consume save_kept digest "a1" "t1" "mia" "secret" 60 70 looked_up).0 ≡ err e)
consume_once_example =
    consume_once save_kept digest "a1" "t1" "mia" "secret" 30 40 (stored granted) looked_up
      {r = spent} "t1" "mia" "secret" 60 70 granted-IsValid first_use (next here (gets "a1" 50))

approve_asked :
    (approve save_kept digest "secret" "a1" "mia" 15 20 (stored asked)).0
    ≡ ok (record {
      approval_id = "a1";
      task_id = "t1";
      owner_id = "mia";
      token = "secret";
      expires_at = 300;
    })
unfolding approve validate_text mama_ai.Text.is_empty mama_ai.Text.strip
    mama_ai.Approval.Registry.open_record mama_ai.Approval.Registry.require_locked Dict.get
    mama_ai.Approval.Registry.refresh mama_ai.Approval.is_due mama_ai.Approval.Registry.verify_owner
    mama_ai.Approval.Registry.verify_pending mama_ai.Approval.Registry.write_or
    mama_ai.Approval.Registry.persist
approve_asked = refl

task_valid : validate_text "t1" "Task ID" ≡ ok "t1"
unfolding validate_text mama_ai.Text.is_empty mama_ai.Text.strip
task_valid = refl

token_valid : validate_text "secret" "Approval token" ≡ ok "secret"
unfolding validate_text mama_ai.Text.is_empty mama_ai.Text.strip
token_valid = refl

approve-consume_example :
    (id : String) × (u : ApprovalRecord) × ((consume save_kept digest "a1" "t1" "mia" "secret" 30 40
        after_approve).0
      ≡ ((persist save_kept u (set_record id u after_approve)).0 >>= λ x. ok u))
    × (u.status ≡ consumed)
    × (u.task_id ≡ "t1")
approve-consume_example =
    approve-consume save_kept digest "a1" "mia" "secret" 15 20 30 40 (stored asked)
      {g = record {
        approval_id = "a1";
        task_id = "t1";
        owner_id = "mia";
        token = "secret";
        expires_at = 300;
      }}
      approve_asked task_valid token_valid (omega arith)

abbrev overdue_row : ApprovalRow
overdue_row = record {
  approval_id = "a1";
  task_id = "t1";
  owner_id = "mia";
  command = "delete the report";
  risk_level = "medium";
  reasons = none;
  status = "pending";
  created_at = 10;
  expires_at = 300;
  decided_at = none;
  consumed_at = none;
  token_hash = none;
}

list_overdue : ℕ → Exec (List ApprovalRecord) (List ApprovalRow)
list_overdue n db = (ok (overdue_row ∷ []), db)

restore-IsCurrent_example :
    Ensures
      (λ n s'. Holds (IsCurrent 400) s'.records × IsDistinct s'.records × (n ≡ length s'.records))
      (λ s'. s'.records ≡ ("a1", asked) ∷ [])
      (restore save_kept list_overdue (λ i. i + 400) (stored asked))
restore-IsCurrent_example =
    restore-IsCurrent save_kept list_overdue 400 (λ i. i + 400) (λ i. omega arith) (stored asked)
