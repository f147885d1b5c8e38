-- ===== src/Engine/Runs.antt =====
-- backend/app/core/engine.py: `MamaEngine.execute` on commands that need no approval.
use mama_ai.Prelude.{ℕ, String, ◌≡◌, ap, ◌∙◌, false, Option, List, [], ◌∷◌, ◌++◌}
use mama_ai.Result.{Result, ok}
use mama_ai.Exec.Ensures.{returned, raised, Ensures-ok, Ensures-handle}
use mama_ai.Task.{TaskRequest}
use mama_ai.Risk.{is_deny, needs_approval}
use mama_ai.Engine.{World, Env, Fresh}
use mama_ai.Engine.Steps.{start_task}
use mama_ai.Engine.Execute.{
  Args, Ready, to_request, prepare, run_executor, executor_failed, run_started, run_task, decide,
  decide_prepared, execute_request, execute,
}
use mama_ai.Engine.Calm.{Leaves, start_task-Leaves}
use mama_ai.Engine.Executor.{run_executor-Leaves, executor_failed-Leaves}
use mama_ai.Engine.Guard.{prepare-Prepared}

module _ {Db Ab : Type 0} (env : Env Db Ab) where
  executed_of :
      {A : Type 0} (ex : List String) {m : Result A × World Db Ab} → Leaves ex m → m.1.executed ≡ ex
  executed_of ex (returned a w e) = e
  executed_of ex (raised x w e) = e

  run_started-Leaves :
      (t : Ready) (started : Option ℕ) (fresh : Fresh) (ex : List String) (w : World Db Ab)
      → w.executed ≡ ex
      → Leaves (ex ++ t.the_request.command ∷ []) (run_started env t fresh (ok started, w))
  unfolding run_started
  run_started-Leaves t started fresh ex w e =
      Ensures-handle (run_executor env t started fresh _) (executor_failed env t started fresh)
        (run_executor-Leaves env t started fresh ex _ e)
        λ x w1 e1. executor_failed-Leaves env t started fresh x _ w1 e1

  run_task-started :
      (t : Ready) (fresh : Fresh) (ex : List String) (w : World Db Ab) {started : Option ℕ}
      → w.executed ≡ ex
      → (start_task env t.the_request (fresh.now 19) w).0 ≡ ok started
      → (run_task env t fresh w).1.executed ≡ ex ++ t.the_request.command ∷ []
  unfolding run_task
  run_task-started t fresh ex w {started} e h =
      let m = start_task env t.the_request (fresh.now 19) w in
      executed_of (ex ++ t.the_request.command ∷ []) {m = run_started env t fresh (m.0, m.1)} (
        rw h (
          run_started-Leaves t started fresh ex m.1
            (executed_of ex {m = m} (start_task-Leaves env ex t.the_request (fresh.now 19) w e))))

  -- If the request is made, and its assessment and registration succeed, the policy neither denies
  -- its command nor requires approval, and the task is started, then a run of `execute` gives the
  -- command of the request to the executor exactly once and nothing else, whatever the executor and
  -- the completion do.
  pub execute_runs :
      (a : Args) (fresh : Fresh) (w : World Db Ab) {r : TaskRequest} {t : Ready}
      {started : Option ℕ}
      → to_request a.task a.source a.autonomy_level fresh.task_id (fresh.now 24) ≡ ok r
      → (prepare env r a.owner_id fresh w).0 ≡ ok t
      → is_deny t.assessment.decision ≡ false
      → needs_approval t.assessment.decision ≡ false
      → (start_task env t.the_request (fresh.now 19) (prepare env r a.owner_id fresh w).1).0
        ≡ ok started
      → (execute env a fresh w).1.executed ≡ w.executed ++ r.command ∷ []
  unfolding execute execute_request decide_prepared decide
  execute_runs a fresh w {r} {t} h q d n s =
      let p = Ensures-ok (prepare-Prepared env r a fresh w) q in
      rw (h, q, d, n)
        (run_task-started t fresh w.executed (prepare env r a.owner_id fresh w).1 p.untouched s
          ∙ ap (λ c. w.executed ++ c ∷ []) p.its_command)
