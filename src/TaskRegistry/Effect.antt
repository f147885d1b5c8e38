-- ===== src/TaskRegistry/Effect.antt =====
-- backend/app/core/task_registry.py: what the calls that write do to the records.
use mama_ai.Prelude.{
  ℕ, String, List, [], ◌∷◌, ◌≡◌, inl, inr, Option, none, some, arith, Option-cases,
}
use mama_ai.Dict
use mama_ai.Dict.{Dict}
use mama_ai.Result.{Result, ok, Result-cases}
use mama_ai.Exec.{Exec}
use mama_ai.Task.{TaskStatus, TaskRequest, TaskResult}
use mama_ai.Task.Record.{TaskRecord, from_request, transition, apply_result}
use mama_ai.TaskRegistry.{
  TaskRegistry, set_record, pop_record, validate_task_id, write_or, register_new, register, update,
  transition_task, complete,
}
use mama_ai.TaskRegistry.Rollback.{
  records-persist, write_or_cases, register_rollback, update_rollback, transition_task_rollback,
}

module _ {J Db : Type 0} (save_task : TaskRecord J → Exec Db (Unit {0})) where
  -- A write that returns has put its record.
  write_or-put :
      (restore : TaskRegistry J Db → TaskRegistry J Db)
      → (id : String) (r : TaskRecord J) (s : TaskRegistry J Db) {x : TaskRecord J}
      → (write_or save_task restore id r s).0 ≡ ok x
      → (x ≡ r) × ((write_or save_task restore id r s).1.records ≡ Dict.put id r s.records)
  write_or-put restore id r s h = ground (
    arith,
    write_or_cases save_task restore id r s,
    records-persist save_task r (set_record id r s),
  )

  pub register-put :
      (request : TaskRequest) (s : TaskRegistry J Db) {x : TaskRecord J}
      → (register save_task request s).0 ≡ ok x
      → (Dict.get request.task_id s.records ≡ none)
        × (from_request request ≡ ok x)
        × ((register save_task request s).1.records ≡ Dict.put request.task_id x s.records)
  unfolding register register_new
  register-put request s {x} h = elim (Option-cases (Dict.get request.task_id s.records)) [
    | inr (v, g) ↦ absurd (ground arith)
    | inl g ↦ elim (Result-cases (from_request {J = J} request)) [
      | inl (e, q) ↦ absurd (ground arith)
      | inr (r, q) ↦
          ground (arith, write_or-put (pop_record request.task_id) request.task_id r s {x = x})
    ]
  ]

  pub update-put :
      (id : String) (change : TaskRecord J → Result (TaskRecord J)) (s : TaskRegistry J Db)
      → {x : TaskRecord J} → (update save_task id change s).0 ≡ ok x
      → (v : TaskRecord J) × (Dict.get id s.records ≡ some v)
        × (change v ≡ ok x)
        × ((update save_task id change s).1.records ≡ Dict.put id x s.records)
  unfolding update
  update-put id change s {x} h = elim (Option-cases (Dict.get id s.records)) [
    | inl g ↦ absurd (ground arith)
    | inr (v, g) ↦ elim (Result-cases (change v)) [
      | inl (e, q) ↦ absurd (ground arith)
      | inr (r, q) ↦
          let w = write_or-put (set_record id v) id r s {x = x} in
          (v, g, ground (arith, w), ground (arith, w))
    ]
  ]

  pub transition_task-put :
      (task_id : String) (status : TaskStatus) (m : Option String) (now : ℕ)
      → (s : TaskRegistry J Db) {x : TaskRecord J}
      → (transition_task save_task task_id status m now s).0 ≡ ok x
      → (id : String) × (v : TaskRecord J) × (validate_task_id task_id ≡ ok id)
        × (Dict.get id s.records ≡ some v)
        × (transition status m none now v ≡ ok x)
        × ((transition_task save_task task_id status m now s).1.records ≡ Dict.put id x s.records)
  unfolding transition_task
  transition_task-put task_id status m now s {x} h =
      elim (Result-cases (validate_task_id task_id)) [
        | inl (e, q) ↦ absurd (ground arith)
        | inr (id, q) ↦
            let (v, g, c, p) =
              update-put id (transition status m none now) s {x = x} (ground arith) in
            (id, v, q, g, c, ground arith)
      ]

-- The calls that write, as data.
pub data Call (J : Type 0) : Type 0 where
  registers : TaskRequest → Call J
  transitions : String → TaskStatus → Option String → ℕ → Call J
  completes : TaskResult J → ℕ → ℕ → Call J

-- A change of the records by a call.
pub data Change {J : Type 0} (d : Dict (TaskRecord J)) : Dict (TaskRecord J) → Type 0 where
  unchanged : Change d d
  added :
      (q : TaskRequest) (r : TaskRecord J)
      → Dict.get q.task_id d ≡ none
      → from_request q ≡ ok r
      → Change d (Dict.put q.task_id r d)
  moved :
      (id : String) (status : TaskStatus) (m e : Option String) (now : ℕ) (v r : TaskRecord J)
      → Dict.get id d ≡ some v
      → transition status m e now v ≡ ok r
      → Change d (Dict.put id r d)
  resulted :
      (x : TaskResult J) (now later : ℕ) (v r : TaskRecord J)
      → Dict.get x.task_id d ≡ some v
      → apply_result x now later v ≡ ok r
      → Change d (Dict.put x.task_id r d)

module _ {J Db : Type 0} (save_task : TaskRecord J → Exec Db (Unit {0})) where
  -- the state after a call, whether it returned or raised
  unfoldable pub after : TaskRegistry J Db → Call J → TaskRegistry J Db
  after s (registers q) = (register save_task q s).1
  after s (transitions id status m now) = (transition_task save_task id status m now s).1
  after s (completes x now later) = (complete save_task x now later s).1

  unfoldable pub run : TaskRegistry J Db → List (Call J) → TaskRegistry J Db
  run s [] = s
  run s (c ∷ cs) = run (after s c) cs

  pub after-Change : (s : TaskRegistry J Db) (c : Call J) → Change s.records (after s c).records
  unfolding after complete
  after-Change s (registers q) = elim (Result-cases (register save_task q s).0) [
    | inl (e, h) ↦ rw (register_rollback save_task q s h) unchanged
    | inr (r, h) ↦ let (g, f, p) = register-put save_task q s h in rw p (added q r g f)
  ]
  after-Change s (transitions id status m now) =
      elim (Result-cases (transition_task save_task id status m now s).0) [
        | inl (e, h) ↦ rw (transition_task_rollback save_task id status m now s h) unchanged
        | inr (r, h) ↦
            let (i, v, _, g, f, p) = transition_task-put save_task id status m now s h in
            rw p (moved i status m none now v r g f)
      ]
  after-Change s (completes x now later) =
      elim (Result-cases (update save_task x.task_id (apply_result x now later) s).0) [
        | inl (e, h) ↦
            rw (update_rollback save_task x.task_id (apply_result x now later) s h) unchanged
        | inr (r, h) ↦
            let (v, g, f, p) = update-put save_task x.task_id (apply_result x now later) s h in
            rw p (resulted x now later v r g f)
      ]
