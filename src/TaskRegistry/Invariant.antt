-- ===== src/TaskRegistry/Invariant.antt =====
-- backend/app/core/task_registry.py: the well-formedness of a task registry.
use mama_ai.Prelude.{ℕ, String, ◌≡◌, inl, inr, Option, some, List, [], ◌∷◌, arith, ◌∙◌}
use mama_ai.Dict.{Dict}
use mama_ai.Dict.Laws.{Holds, Holds-empty, Holds-put, Holds-get}
use mama_ai.Result.{ok, Result-cases}
use mama_ai.Exec.{Exec}
use mama_ai.Task.{TaskStatus, TaskRequest}
use mama_ai.Task.Record.{TaskRecord, from_request, transition, store_result, owner_from_request}
use mama_ai.Task.Lifecycle.{
  IsTimed, IsTimed-intro, transition-IsTimed, apply_result-IsTimed, apply_result-transition,
}
use mama_ai.TaskRegistry.{TaskRegistry, new_registry}
use mama_ai.TaskRegistry.Effect.{
  Call, Change, unchanged, added, moved, resulted, after, run, after-Change,
}

-- A record stands under its own task ID, and its timestamps agree with its status.
pub record IsFiled {J : Type 0} (id : String) (r : TaskRecord J) : Type 0 where
  pub keyed : r.task_id ≡ id
  pub timed : IsTimed r

pub record IsValid {J Db : Type 0} (s : TaskRegistry J Db) : Type 0 where
  pub filed : Holds IsFiled s.records

module _ {J : Type 0} where
  from_request-IsFiled :
      (q : TaskRequest) (r : TaskRecord J) → from_request q ≡ ok r → IsFiled q.task_id r
  unfolding from_request
  from_request-IsFiled q r h = elim (Result-cases (owner_from_request q)) [
    | inl (e, p) ↦ absurd (ground arith)
    | inr (o, p) ↦ record {
      keyed = ground arith;
      timed = IsTimed-intro (λ t. ground arith) (λ t. ground arith);
    }
  ]

  transition-keyed :
      (s : TaskStatus) (m e : Option String) (now : ℕ) (v : TaskRecord J) {r : TaskRecord J}
      → transition s m e now v ≡ ok r
      → r.task_id ≡ v.task_id
  unfolding transition
  transition-keyed s m e now v h = ground arith

  Change-IsFiled : {d d' : Dict (TaskRecord J)} → Change d d' → Holds IsFiled d → Holds IsFiled d'
  unfolding store_result
  Change-IsFiled unchanged h = h
  Change-IsFiled (added q r g f) h = Holds-put IsFiled q.task_id r _ h (from_request-IsFiled q r f)
  Change-IsFiled {d} (moved id status m e now v r g f) h =
      let old = Holds-get IsFiled id d h g in
      Holds-put IsFiled id r _ h (record {
        keyed = transition-keyed status m e now v f ∙ old.keyed;
        timed = transition-IsTimed status m e now old.timed f;
      })
  Change-IsFiled {d} (resulted x now later v r g f) h =
      let old = Holds-get IsFiled x.task_id d h g in
      let (m, _, t, e) = apply_result-transition x now later v f in
      Holds-put IsFiled x.task_id r _ h (record {
        keyed =
            ground (arith, transition-keyed x.status (some x.message) x.error now v t, old.keyed);
        timed = apply_result-IsTimed x now later old.timed f;
      })

module _ {J Db : Type 0} (save_task : TaskRecord J → Exec Db (Unit {0})) where
  pub after-IsValid :
      (s : TaskRegistry J Db) (c : Call J) → IsValid s → IsValid (after save_task s c)
  after-IsValid s c v = record { filed = Change-IsFiled (after-Change save_task s c) v.filed }

  -- Any list of registrations, transitions and completions, successful or refused, keeps a valid
  -- registry valid: each record stands under its own task ID, a task in a terminal status has a
  -- finish time, and a running task has a start time.
  pub run-IsValid :
      (s : TaskRegistry J Db) (cs : List (Call J)) → IsValid s → IsValid (run save_task s cs)
  unfolding run
  run-IsValid s [] v = v
  run-IsValid s (c ∷ cs) v = run-IsValid (after save_task s c) cs (after-IsValid s c v)

pub IsValid-new : (J Db : Type 0) → IsValid (new_registry {J = J} {Db = Db})
IsValid-new J Db = record { filed = Holds-empty IsFiled }
