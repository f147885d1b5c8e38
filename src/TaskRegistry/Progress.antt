-- ===== src/TaskRegistry/Progress.antt =====
-- backend/app/core/task_registry.py: `mark_running`, `mark_waiting_approval` and `cancel` along the
-- edges of the diagram of statuses.
use mama_ai.Prelude.{ℕ, String, ◌≡◌, refl, arith, if◌then◌else◌, false, Option, none, some, true}
use mama_ai.Dict
use mama_ai.Result.{ok, ◌>>=◌}
use mama_ai.Exec.{Exec}
use mama_ai.Text.{strip}
use mama_ai.Task.{
  TaskStatus, same, pending, running, waiting_approval, succeeded, failed, cancelled, rolled_back,
}
use mama_ai.Task.Record.{TaskRecord, allowed, enter, transition, is_terminal, or_default}
use mama_ai.Task.Lifecycle.{◌⟶◌, ⟶→allowed}
use mama_ai.TaskRegistry.{
  TaskRegistry, validate_task_id, set_record, persist, write_or, update, transition_task,
}
use mama_ai.TaskRegistry.Rollback.{write_or_cases}

-- No status is allowed to follow itself.
allowed-same : (a b : TaskStatus) → allowed a b ≡ true → same b a ≡ false
unfolding allowed
allowed-same a b h = ground arith

-- The message is the given one, without the white space around it, or the old one.
abbrev pub IsMessage : Option String → String → String → Type 0
IsMessage none old new = new ≡ old
IsMessage (some m) old new = new ≡ strip m

-- The start time is the old one, or, where the task starts without one, the given time.
abbrev pub IsStart : TaskStatus → ℕ → Option ℕ → Option ℕ → Type 0
IsStart running now none new = new ≡ some now
IsStart _ now old new = new ≡ old

-- The finish time is the given time in a terminal status, and the old one in the others.
abbrev pub IsFinish : TaskStatus → ℕ → Option ℕ → Option ℕ → Type 0
IsFinish succeeded now old new = new ≡ some now
IsFinish failed now old new = new ≡ some now
IsFinish cancelled now old new = new ≡ some now
IsFinish rolled_back now old new = new ≡ some now
IsFinish _ now old new = new ≡ old

entered-IsMessage :
    (m : Option String) (old : String) → IsMessage m old (elim m [ none ↦ old | some t ↦ strip t ])
entered-IsMessage none old = refl
entered-IsMessage (some t) old = refl

entered-IsStart :
    (status : TaskStatus) (old : Option ℕ) (now : ℕ)
    → IsStart status now old (if same status running then some (or_default old now) else old)
entered-IsStart pending old now = refl
entered-IsStart running none now = refl
entered-IsStart running (some t) now = refl
entered-IsStart waiting_approval old now = refl
entered-IsStart succeeded old now = refl
entered-IsStart failed old now = refl
entered-IsStart cancelled old now = refl
entered-IsStart rolled_back old now = refl

entered-IsFinish :
    (status : TaskStatus) (old : Option ℕ) (now : ℕ)
    → IsFinish status now old (if is_terminal status then some now else old)
entered-IsFinish pending old now = refl
entered-IsFinish running old now = refl
entered-IsFinish waiting_approval old now = refl
entered-IsFinish succeeded old now = refl
entered-IsFinish failed old now = refl
entered-IsFinish cancelled old now = refl
entered-IsFinish rolled_back old now = refl

module _ {J : Type 0} where
  -- The record `r` is the record `v` in the new status.
  pub record Entered (asked : TaskStatus) (m : Option String) (now : ℕ) (v r : TaskRecord J)
      : Type 0 where
    pub task_id : r.task_id ≡ v.task_id
    pub owner_id : r.owner_id ≡ v.owner_id
    pub command : r.command ≡ v.command
    pub status : r.status ≡ asked
    pub updated_at : r.updated_at ≡ now
    pub created_at : r.created_at ≡ v.created_at
    pub error : r.error ≡ v.error
    pub output : r.output ≡ v.output
    pub evidence : r.evidence ≡ v.evidence
    pub source : r.source ≡ v.source
    pub autonomy_level : r.autonomy_level ≡ v.autonomy_level
    pub risk_level : r.risk_level ≡ v.risk_level
    pub message : IsMessage m v.message r.message
    pub started_at : IsStart asked now v.started_at r.started_at
    pub finished_at : IsFinish asked now v.finished_at r.finished_at

  transition-enter :
      (status : TaskStatus) (m e : Option String) (now : ℕ) (v : TaskRecord J)
      → v.status ⟶ status
      → transition status m e now v ≡ ok (enter status m e now v)
  unfolding transition
  transition-enter status m e now v h =
      rw (allowed-same v.status status (⟶→allowed h), ⟶→allowed h) refl

  enter-Entered :
      (status : TaskStatus) (m : Option String) (now : ℕ) (v : TaskRecord J)
      → Entered status m now v (enter status m none now v)
  unfolding enter
  enter-Entered status m now v = record {
    task_id = refl;
    owner_id = refl;
    command = refl;
    status = refl;
    updated_at = refl;
    created_at = refl;
    error = refl;
    output = refl;
    evidence = refl;
    source = refl;
    autonomy_level = refl;
    risk_level = refl;
    message = entered-IsMessage m v.message;
    started_at = entered-IsStart status v.started_at now;
    finished_at = entered-IsFinish status v.finished_at now;
  }

module _ {J Db : Type 0} (save_task : TaskRecord J → Exec Db (Unit {0})) where
  write_or-persist :
      (restore : TaskRegistry J Db → TaskRegistry J Db)
      → (id : String) (r : TaskRecord J) (s : TaskRegistry J Db)
      → (write_or save_task restore id r s).0
        ≡ ((persist save_task r (set_record id r s)).0 >>= λ u. ok r)
  write_or-persist restore id r s = ground (arith, write_or_cases save_task restore id r s)

  -- A transition of a registered task along an edge of the diagram of statuses makes a record with
  -- the status that was asked for, the time of the call as its update time, the message that was
  -- given, without the white space around it, or else the old one, a start time, if it is now
  -- running and had none, and the time of the call as its finish time, if the status is terminal,
  -- and all else as it was; it returns this record, or raises exactly what persisting this record
  -- raises.
  pub transition_task-Entered :
      (task_id : String) (status : TaskStatus) (m : Option String) (now : ℕ)
      → (s : TaskRegistry J Db) {id : String} {v : TaskRecord J} → validate_task_id task_id ≡ ok id
      → Dict.get id s.records ≡ some v
      → v.status ⟶ status
      → (r : TaskRecord J) × Entered status m now v r
        × ((transition_task save_task task_id status m now s).0
            ≡ ((persist save_task r (set_record id r s)).0 >>= λ u. ok r))
  unfolding transition_task update
  transition_task-Entered task_id status m now s {id} {v} h g e = (
    enter status m none now v,
    enter-Entered status m now v,
    rw (h, g, transition-enter status m none now v e)
        (write_or-persist (set_record id v) id (enter status m none now v) s),
  )
