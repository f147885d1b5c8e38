-- ===== src/Engine/Executor.antt =====
-- backend/app/core/engine.py: the part of `MamaEngine.execute` that calls the executor.
use mama_ai.Prelude.{ℕ, String, ◌≡◌, ◌⊎◌, ap, Option, List, [], ◌∷◌, ◌++◌, inl, inr}
use mama_ai.Result.{Exc, Result}
use mama_ai.Exec.Ensures.{
  Ensures, returned, raised, Ensures-bind, Ensures-weaken, Ensures-check, Ensures-handle,
}
use mama_ai.Task.{TaskResult, new_succeeded, new_failed}
use mama_ai.TaskRegistry.{complete}
use mama_ai.Engine.{Payload, World, Env, Fresh, on_tasks}
use mama_ai.Engine.Execute.{
  Ready, restart_at, call_executor, run_executor, complete_quietly, executor_failed, run_started,
  run_task,
}
use mama_ai.Engine.Calm.{Leaves, on_tasks-Leaves, start_task-Leaves, fail_with-Leaves}

module _ {Db Ab : Type 0} (env : Env Db Ab) where
  -- However it ends, the command was given to the executor at most once, and nothing else was.
  abbrev pub AtMost : {A : Type 0} → List String → String → Result A × World Db Ab → Type 0
  AtMost ex c m =
      Ensures (λ a w. (w.executed ≡ ex) ⊎ (w.executed ≡ ex ++ c ∷ []))
        (λ w. (w.executed ≡ ex) ⊎ (w.executed ≡ ex ++ c ∷ [])) m

  pub run_executor-Leaves :
      (t : Ready) (started : Option ℕ) (fresh : Fresh) (ex : List String) (w : World Db Ab)
      → w.executed ≡ ex
      → Leaves (ex ++ t.the_request.command ∷ []) (run_executor env t started fresh w)
  unfolding run_executor call_executor
  run_executor-Leaves t started fresh ex w e =
      let c = t.the_request.command in
      let e1 : w.executed ++ c ∷ [] ≡ ex ++ c ∷ [] = ap (λ xs. xs ++ c ∷ []) e in
      Ensures-check (env.executor c) (record w { executed = w.executed ++ c ∷ [] }) _
        (λ out p.
          Ensures-check (new_succeeded _ _ _ _ (fresh.now 9) (fresh.now 10)) _ _
            (λ x q.
              let m = complete env.save_task (restart_at started x) (fresh.now 11) (fresh.now 12) in
              Ensures-bind (on_tasks m _) _ (on_tasks-Leaves _ m _ e1) λ y w1 e2. returned _ _ e2)
            e1)
        e1

  complete_quietly-Leaves :
      (x : TaskResult Payload) (fresh : Fresh) (ex : List String) (w : World Db Ab)
      → w.executed ≡ ex
      → Leaves ex (complete_quietly env x fresh w)
  unfolding complete_quietly
  complete_quietly-Leaves x fresh ex w e =
      let m = complete env.save_task x (fresh.now 15) (fresh.now 16) in
      Ensures-handle _ _
        (Ensures-bind (on_tasks m w) _ (on_tasks-Leaves ex m w e) λ y w1 e1. returned tt w1 e1)
        λ y w1 e1. returned tt w1 e1

  pub executor_failed-Leaves :
      (t : Ready) (started : Option ℕ) (fresh : Fresh) (x : Exc) (ex : List String)
      → (w : World Db Ab) → w.executed ≡ ex
      → Leaves ex (executor_failed env t started fresh x w)
  unfolding executor_failed
  executor_failed-Leaves t started fresh x ex w e =
      Ensures-check (new_failed _ _ _ (fresh.now 13) (fresh.now 14)) w _
        (λ r q.
          Ensures-bind (complete_quietly env (restart_at started r) fresh w) _
            (complete_quietly-Leaves (restart_at started r) fresh ex w e)
            λ u w1 e1. returned _ _ e1)
        e

  run_started-AtMost :
      (t : Ready) (fresh : Fresh) (ex : List String) (m : Result (Option ℕ) × World Db Ab)
      → Leaves ex m
      → AtMost ex t.the_request.command (run_started env t fresh m)
  unfolding run_started
  run_started-AtMost t fresh ex m (raised x w e) =
      Ensures-weaken (fail_with-Leaves env ex _ _ _ _ (fresh.now 17) (fresh.now 18) w e)
        (λ a w1 p. inl p) (λ w1 p. inl p)
  run_started-AtMost t fresh ex m (returned started w e) =
      Ensures-weaken
        (Ensures-handle (run_executor env t started fresh _) (executor_failed env t started fresh)
          (run_executor-Leaves t started fresh ex _ e)
          λ x w1 e1. executor_failed-Leaves t started fresh x _ w1 e1)
        (λ a w1 p. inr p) (λ w1 p. inr p)

  pub run_task-AtMost :
      (t : Ready) (fresh : Fresh) (ex : List String) (w : World Db Ab)
      → w.executed ≡ ex
      → AtMost ex t.the_request.command (run_task env t fresh w)
  unfolding run_task
  run_task-AtMost t fresh ex w e =
      run_started-AtMost t fresh ex _ (start_task-Leaves env ex t.the_request (fresh.now 19) w e)
