-- ===== src/Engine/Calm.antt =====
-- backend/app/core/engine.py: the steps of `MamaEngine.execute` around the call of the executor.
use mama_ai.Prelude.{
  ◌≢◌, ℕ, String, ◌≡◌, Option, none, some, List, Bool-cases, inl, inr, not, ◌&&◌, ◌==◌, ◌+◌,
}
use mama_ai.Int.{pos}
use mama_ai.Approval.Registry.{create}
use mama_ai.Result.{Exc, Result}
use mama_ai.Exec.{Exec, lift}
use mama_ai.Exec.Ensures.{Ensures, returned, raised, Ensures-lift, Ensures-bind, Ensures-check}
use mama_ai.Task.{TaskRequest, same, pending, new_failed}
use mama_ai.Task.Record.{TaskRecord}
use mama_ai.TaskRegistry.{
  TaskRegistry, get, register, mark_running, complete, require, mark_waiting_approval,
}
use mama_ai.Approval.{ApprovalRecord}
use mama_ai.Approval.Registry.{ApprovalRegistry}
use mama_ai.Approval.Listing.{list}
use mama_ai.Risk.{RiskAssessment}
use mama_ai.Engine.{Payload, World, Env, Fresh, on_tasks, on_approvals}
use mama_ai.Engine.Steps.{
  ensure_found, ensure_registered, start_found, start_task, fail_with, deny_task, can_start,
}
use mama_ai.Engine.Approve.{
  find_active, waiting_result, use_or_create, get_or_create_approval, park_task, request_approval,
  approval_failed,
}

module _ {Db Ab : Type 0} where
  -- However it ends, the executed commands are `ex`.
  abbrev pub Leaves : {A : Type 0} → List String → Result A × World Db Ab → Type 0
  Leaves ex m = Ensures (λ a w. w.executed ≡ ex) (λ w. w.executed ≡ ex) m

  pub on_tasks-Leaves :
      {A : Type 0} (ex : List String) (m : Exec (TaskRegistry Payload Db) A) (w : World Db Ab)
      → w.executed ≡ ex
      → Leaves ex (on_tasks m w)
  on_tasks-Leaves ex m w e =
      Ensures-lift (m w.tasks).0 (record w { tasks = (m w.tasks).1 }) (λ a q. e) e

  pub on_approvals-Leaves :
      {A : Type 0} (ex : List String) (m : Exec (ApprovalRegistry Ab) A) (w : World Db Ab)
      → w.executed ≡ ex
      → Leaves ex (on_approvals m w)
  on_approvals-Leaves ex m w e =
      Ensures-lift (m w.approvals).0 (record w { approvals = (m w.approvals).1 }) (λ a q. e) e

  pub lift-Leaves :
      {A : Type 0} (ex : List String) (r : Result A) (w : World Db Ab)
      → w.executed ≡ ex
      → Leaves ex (lift r w)
  lift-Leaves ex r w e = Ensures-lift r w (λ a q. e) e

module _ {Db Ab : Type 0} (env : Env Db Ab) (ex : List String) where
  start_found-Leaves :
      (r : TaskRequest) (now : ℕ) (o : Option (TaskRecord Payload)) (w : World Db Ab)
      → w.executed ≡ ex
      → Leaves ex (start_found env r now o w)
  unfolding start_found
  start_found-Leaves r now none w e = raised _ w e
  start_found-Leaves r now (some x) w e = elim (Bool-cases (can_start x.status)) [
    | inl q ↦ rw q (
        Ensures-bind (on_tasks (mark_running env.save_task r.task_id now) w) _
          (on_tasks-Leaves ex (mark_running env.save_task r.task_id now) w e)
          λ y w1 e1. returned _ w1 e1)
    | inr q ↦ rw q (raised _ w e)
  ]

  pub start_task-Leaves :
      (r : TaskRequest) (now : ℕ) (w : World Db Ab)
      → w.executed ≡ ex
      → Leaves ex (start_task env r now w)
  unfolding start_task
  start_task-Leaves r now w e =
      Ensures-bind (on_tasks (get r.task_id) w) _ (on_tasks-Leaves ex (get r.task_id) w e)
        λ o w1 e1. start_found-Leaves r now o w1 e1

  pub fail_with-Leaves :
      (id message error stage : String) (a b : ℕ) (w : World Db Ab)
      → w.executed ≡ ex
      → Leaves ex (fail_with env id message error stage a b w)
  unfolding fail_with
  fail_with-Leaves id message error stage a b w e =
      Ensures-check (new_failed id message error a b) w _ (λ r q. returned r _ e) e

  pub deny_task-Leaves :
      (r : TaskRequest) (a : RiskAssessment) (fresh : Fresh) (w : World Db Ab)
      → w.executed ≡ ex
      → Leaves ex (deny_task env r a fresh w)
  unfolding deny_task
  deny_task-Leaves r a fresh w e =
      Ensures-check (new_failed r.task_id _ _ (fresh.now 0) (fresh.now 1)) w _
        (λ x q.
          Ensures-bind (on_tasks (complete env.save_task x (fresh.now 2) (fresh.now 3)) w) _
            (on_tasks-Leaves ex (complete env.save_task x (fresh.now 2) (fresh.now 3)) w e)
            λ y w1 e1. returned x _ e1)
        e

  use_or_create-Leaves :
      (r : TaskRequest) (a : RiskAssessment) (owner : String) (fresh : Fresh)
      → (o : Option ApprovalRecord) (w : World Db Ab) → w.executed ≡ ex
      → Leaves ex (use_or_create env r a owner fresh o w)
  unfolding use_or_create
  use_or_create-Leaves r a owner fresh none w e =
      on_approvals-Leaves ex
        (create env.save_approval fresh.approval_id (fresh.now 4) r.task_id owner r.command
          a.risk_level a.reasons (pos 300))
        w e
  use_or_create-Leaves r a owner fresh (some x) w e = returned x w e

  get_or_create_approval-Leaves :
      (r : TaskRequest) (a : RiskAssessment) (owner : String) (fresh : Fresh) (w : World Db Ab)
      → w.executed ≡ ex
      → Leaves ex (get_or_create_approval env r a owner fresh w)
  unfolding get_or_create_approval
  get_or_create_approval-Leaves r a owner fresh w e =
      let m = list env.save_approval none (some owner) (λ i. fresh.now (i + 100)) in
      Ensures-bind (on_approvals m w) _ (on_approvals-Leaves ex m w e)
        λ rs w1 e1. use_or_create-Leaves r a owner fresh (find_active r.task_id rs) w1 e1

  park_task-Leaves :
      (r : TaskRequest) (message : String) (now : ℕ) (w : World Db Ab)
      → w.executed ≡ ex
      → Leaves ex (park_task env r message now w)
  unfolding park_task
  park_task-Leaves r message now w e =
      Ensures-bind (on_tasks (require r.task_id) w) _ (on_tasks-Leaves ex (require r.task_id) w e)
        λ x w1 e1. elim (Bool-cases (same x.status pending)) [
          | inl q ↦ rw q (
              let m = mark_waiting_approval env.save_task r.task_id message now in
              Ensures-bind (on_tasks m w1) _ (on_tasks-Leaves ex m w1 e1)
                λ y w2 e2. returned tt w2 e2)
          | inr q ↦ rw q (returned tt w1 e1)
        ]

  pub request_approval-Leaves :
      (r : TaskRequest) (a : RiskAssessment) (owner : String) (fresh : Fresh) (w : World Db Ab)
      → w.executed ≡ ex
      → Leaves ex (request_approval env r a owner fresh w)
  unfolding request_approval
  request_approval-Leaves r a owner fresh w e =
      Ensures-bind (park_task env r _ (fresh.now 5) w) _ (park_task-Leaves r _ (fresh.now 5) w e)
        λ u w1 e1.
          Ensures-bind (get_or_create_approval env r a owner fresh w1) _
            (get_or_create_approval-Leaves r a owner fresh w1 e1)
            λ x w2 e2. Ensures-lift _ _ (λ y q. e2) e2

  pub approval_failed-Leaves :
      (r : TaskRequest) (a : RiskAssessment) (owner : String) (fresh : Fresh) (x : Exc)
      → (w : World Db Ab) → w.executed ≡ ex
      → Ensures
          (λ o w'. (w'.executed ≡ ex) × (o ≢ none))
          (λ w'. w'.executed ≡ ex)
          (approval_failed env r a owner fresh x w)
  unfolding approval_failed
  approval_failed-Leaves r a owner fresh x w e =
      Ensures-bind (get_or_create_approval env r a owner fresh w) _
        (get_or_create_approval-Leaves r a owner fresh w e)
        λ y w1 e1.
          Ensures-bind (park_task env r _ (fresh.now 5) w1) _
            (park_task-Leaves r _ (fresh.now 5) w1 e1)
            λ u w2 e2.
              Ensures-check (waiting_result r a y _ _) _ _
                (λ z q. returned (some z) _ (e2, λ n. cc)) e2

-- Registering a task also leaves the approvals alone.
module _ {Db Ab : Type 0} (env : Env Db Ab) (v : World Db Ab) where
  abbrev pub Apart : World Db Ab → Type 0
  Apart w = (w.executed ≡ v.executed) × (w.approvals ≡ v.approvals)

  on_tasks-Apart :
      {A : Type 0} (m : Exec (TaskRegistry Payload Db) A) (w : World Db Ab)
      → Apart w
      → Ensures (λ a. Apart) Apart (on_tasks m w)
  on_tasks-Apart m w e =
      Ensures-lift (m w.tasks).0 (record w { tasks = (m w.tasks).1 }) (λ a q. e) e

  ensure_found-Apart :
      (r : TaskRequest) (owner : String) (o : Option (TaskRecord Payload)) (w : World Db Ab)
      → Apart w
      → Ensures (λ a. Apart) Apart (ensure_found env r owner o w)
  unfolding ensure_found
  ensure_found-Apart r owner none w e = on_tasks-Apart (register env.save_task r) w e
  ensure_found-Apart r owner (some x) w e =
      elim (Bool-cases (not (x.owner_id == owner) && not (x.owner_id == "local-user"))) [
        | inl p ↦ rw p (raised _ w e)
        | inr p ↦ elim (Bool-cases (can_start x.status)) [
          | inl q ↦ rw (p, q) (returned x w e)
          | inr q ↦ rw (p, q) (raised _ w e)
        ]
      ]

  pub ensure_registered-Apart :
      (r : TaskRequest) (owner : String) (w : World Db Ab)
      → Apart w
      → Ensures (λ a. Apart) Apart (ensure_registered env r owner w)
  unfolding ensure_registered
  ensure_registered-Apart r owner w e =
      Ensures-bind (on_tasks (get r.task_id) w) _ (on_tasks-Apart (get r.task_id) w e)
        λ o w1 e1. ensure_found-Apart r owner o w1 e1
