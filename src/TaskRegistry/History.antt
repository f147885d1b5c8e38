-- ===== src/TaskRegistry/History.antt =====
-- backend/app/core/task_registry.py: the status of a registered task over histories of calls.
use mama_ai.Prelude.{
  String, ◌≡◌, inl, inr, true, some, List, [], ◌∷◌, arith, eq_iff, ◌==◌, Bool-cases,
}
use mama_ai.Dict
use mama_ai.Dict.{Dict}
use mama_ai.Dict.Laws.{get-put}
use mama_ai.Exec.{Exec}
use mama_ai.Task.{TaskStatus}
use mama_ai.Task.Record.{TaskRecord, is_terminal}
use mama_ai.Task.Lifecycle.{◌⟶*◌, here, ⟶*_trans, transition-⟶*, apply_result-⟶*, terminal_final}
use mama_ai.TaskRegistry.{TaskRegistry}
use mama_ai.TaskRegistry.Effect.{
  Call, Change, unchanged, added, moved, resulted, after, run, after-Change,
}

module _ {J : Type 0} where
  -- The task is still there, and its status has moved along edges only.
  abbrev pub Follows : String → TaskStatus → Dict (TaskRecord J) → Type 0
  Follows id status d = (r : TaskRecord J) × (Dict.get id d ≡ some r) × (status ⟶* r.status)

  -- A write under one key that follows the status there.
  Follows-put :
      (id k : String) (d : Dict (TaskRecord J)) (v r w : TaskRecord J)
      → Dict.get k d ≡ some v
      → v.status ⟶* r.status
      → Dict.get id d ≡ some w
      → Follows id w.status (Dict.put k r d)
  Follows-put id k d v r w g f h = elim (Bool-cases (k == id)) [
    | inl e ↦ (r, ground (arith, get-put k id r d), rw (same_status e) f)
    | inr e ↦ (w, ground (arith, get-put k id r d), here)
  ]
    where
      same_status : (k == id) ≡ true → w.status ≡ v.status
      same_status e = ground (arith, eq_iff k id)

  Change-Follows :
      (id : String) {d d' : Dict (TaskRecord J)} (w : TaskRecord J)
      → Change d d'
      → Dict.get id d ≡ some w
      → Follows id w.status d'
  Change-Follows id w unchanged h = (w, h, here)
  Change-Follows id {d} w (added q r g f) h =
      (w, ground (arith, get-put q.task_id id r d, eq_iff q.task_id id), here)
  Change-Follows id {d} w (moved k status m e now v r g f) h =
      Follows-put id k d v r w g (transition-⟶* status m e now v f) h
  Change-Follows id {d} w (resulted x now later v r g f) h =
      Follows-put id x.task_id d v r w g (apply_result-⟶* x now later v f) h

module _ {J Db : Type 0} (save_task : TaskRecord J → Exec Db (Unit {0})) where
  -- Whatever registrations, transitions and completions follow, successful or refused, a registered
  -- task stays registered, and its status moves along the edges of the diagram of statuses only.
  pub run-Follows :
      (s : TaskRegistry J Db) (cs : List (Call J)) (id : String) (w : TaskRecord J)
      → Dict.get id s.records ≡ some w
      → Follows id w.status (run save_task s cs).records
  unfolding run
  run-Follows s [] id w h = (w, h, here)
  run-Follows s (c ∷ cs) id w h =
      let (v, g, p) = Change-Follows id w (after-Change save_task s c) h in
      let (r, e, q) = run-Follows (after save_task s c) cs id v g in (r, e, ⟶*_trans p q)

  -- A task in a terminal status keeps this status, whatever registrations, transitions and
  -- completions follow.
  pub run_terminal :
      (s : TaskRegistry J Db) (cs : List (Call J)) (id : String) (w : TaskRecord J)
      → Dict.get id s.records ≡ some w
      → is_terminal w.status ≡ true
      → (r : TaskRecord J) × (Dict.get id (run save_task s cs).records ≡ some r)
        × (r.status ≡ w.status)
  run_terminal s cs id w h t = let (r, e, p) = run-Follows s cs id w h in (r, e, terminal_final p t)
