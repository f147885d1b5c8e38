-- ===== src/TaskRegistry/Rollback.antt =====
-- backend/app/core/task_registry.py: the methods that write and then persist, when they raise.
use mama_ai.Prelude.{ℕ, String, ◌≡◌, Option, none, some, arith, Option-cases, inl, inr, ◌⊎◌}
use mama_ai.Dict
use mama_ai.Dict.Laws.{put_self, put-put_restore, pop-put_new}
use mama_ai.Result.{Exc, Result, ok, err, Result-cases}
use mama_ai.Exec.{Exec}
use mama_ai.Task.{TaskStatus, TaskRequest, TaskResult}
use mama_ai.Task.Record.{TaskRecord, from_request, transition, apply_result}
use mama_ai.TaskRegistry.{
  TaskRegistry, set_record, pop_record, validate_task_id, persist, write_or, register_new, register,
  update, transition_task, complete,
}

module _ {J Db : Type 0} (save_task : TaskRecord J → Exec Db (Unit {0})) where
  -- Persisting touches no record.
  pub records-persist :
      (r : TaskRecord J) (s : TaskRegistry J Db) → (persist save_task r s).1.records ≡ s.records
  unfolding persist
  records-persist r s = ground arith

  -- A write either is persisted, or ends in what its restoration makes of the registry.
  pub write_or_cases :
      (restore : TaskRegistry J Db → TaskRegistry J Db)
      → (id : String) (r : TaskRecord J) (s : TaskRegistry J Db)
      → let p = persist save_task r (set_record id r s) in
        ((p.0 ≡ ok tt) × (write_or save_task restore id r s ≡ (ok r, p.1)))
        ⊎ ((e : Exc) × (p.0 ≡ err e) × (write_or save_task restore id r s ≡ (err e, restore p.1)))
  unfolding write_or
  write_or_cases restore id r s = elim (Result-cases (persist save_task r (set_record id r s)).0) [
    | inl (e, q) ↦ inr (e, q, ground arith)
    | inr (u, q) ↦ inl (q, ground arith)
  ]

  -- A write over a present record that is refused changes no record.
  write_restored :
      (id : String) (r v : TaskRecord J) (s : TaskRegistry J Db) {e : Exc}
      → Dict.get id s.records ≡ some v
      → (write_or save_task (set_record id v) id r s).0 ≡ err e
      → (write_or save_task (set_record id v) id r s).1.records ≡ s.records
  write_restored id r v s g h = ground (
    arith,
    write_or_cases (set_record id v) id r s,
    records-persist r (set_record id r s),
    put-put_restore id v r s.records,
  )

  register_new_restored :
      (request : TaskRequest) (r : TaskRecord J) (s : TaskRegistry J Db) {e : Exc}
      → Dict.get request.task_id s.records ≡ none
      → (write_or save_task (pop_record request.task_id) request.task_id r s).0 ≡ err e
      → (write_or save_task (pop_record request.task_id) request.task_id r s).1.records ≡ s.records
  register_new_restored request r s g h = ground (
    arith,
    write_or_cases (pop_record request.task_id) request.task_id r s,
    records-persist r (set_record request.task_id r s),
    pop-put_new request.task_id r s.records,
  )

  -- A `register` that raises, for whatever reason, a failing store included, leaves the records as
  -- they were.
  pub register_rollback :
      (request : TaskRequest) (s : TaskRegistry J Db) {e : Exc}
      → (register save_task request s).0 ≡ err e
      → (register save_task request s).1.records ≡ s.records
  unfolding register register_new
  register_rollback request s {e} h = elim (Option-cases (Dict.get request.task_id s.records)) [
    | inl g ↦ elim (Result-cases (from_request {J = J} request)) [
      | inl (x, q) ↦ ground arith
      | inr (r, q) ↦ ground (arith, register_new_restored request r s {e = e} g)
    ]
    | inr (v, g) ↦ ground arith
  ]

  pub update_rollback :
      (id : String) (change : TaskRecord J → Result (TaskRecord J)) (s : TaskRegistry J Db)
      {e : Exc}
      → (update save_task id change s).0 ≡ err e
      → (update save_task id change s).1.records ≡ s.records
  unfolding update
  update_rollback id change s {e} h = elim (Option-cases (Dict.get id s.records)) [
    | inl g ↦ ground arith
    | inr (v, g) ↦ elim (Result-cases (change v)) [
      | inl (x, q) ↦ ground (arith, put_self id v s.records)
      | inr (r, q) ↦ ground (arith, write_restored id r v s {e = e} g)
    ]
  ]

  -- A transition of a registered task that raises, for whatever reason, a failing store included,
  -- leaves the records as they were.
  pub transition_task_rollback :
      (id : String) (status : TaskStatus) (m : Option String) (now : ℕ) (s : TaskRegistry J Db)
      → {e : Exc} → (transition_task save_task id status m now s).0 ≡ err e
      → (transition_task save_task id status m now s).1.records ≡ s.records
  unfolding transition_task
  transition_task_rollback id status m now s {e} h = elim (Result-cases (validate_task_id id)) [
    | inl (x, q) ↦ ground arith
    | inr (i, q) ↦ ground (arith, update_rollback i (transition status m none now) s {e = e})
  ]

  -- A `complete` that raises, for whatever reason, a failing store included, leaves the records as
  -- they were.
  pub complete_rollback :
      (result : TaskResult J) (now later : ℕ) (s : TaskRegistry J Db) {e : Exc}
      → (complete save_task result now later s).0 ≡ err e
      → (complete save_task result now later s).1.records ≡ s.records
  unfolding complete
  complete_rollback result now later s h =
      update_rollback result.task_id (apply_result result now later) s h
