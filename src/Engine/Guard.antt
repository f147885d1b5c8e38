-- ===== src/Engine/Guard.antt =====
-- backend/app/core/engine.py: when `MamaEngine.execute` calls the executor.
use mama_ai.Prelude.{
  String, ◌≡◌, ◌⊎◌, refl, ap, ◌∙◌, false, Option, none, some, [], ◌∷◌, ◌++◌, Bool-cases, inl, inr,
  subst,
}
use mama_ai.Result.{Result, ok, err}
use mama_ai.Exec.Ensures.{Ensures, returned, raised, Ensures-bind, Ensures-weaken, Ensures-check}
use mama_ai.Task.{TaskRequest, TaskResult}
use mama_ai.Approval.Registry.{consume}
use mama_ai.Risk.{RiskAssessment, is_deny, needs_approval}
use mama_ai.Risk.Policy.{assess}
use mama_ai.Engine.{Payload, World, Env, Fresh}
use mama_ai.Engine.Steps.{resolve_owner_id, ensure_registered}
use mama_ai.Engine.Approve.{consume_approval, consume_given, given}
use mama_ai.Engine.Execute.{
  Args, Ready, to_request, stamp, prepare, run_task, run_unless, decide, decide_prepared,
  execute_request, execute,
}
use mama_ai.Engine.Calm.{ensure_registered-Apart, fail_with-Leaves, deny_task-Leaves}
use mama_ai.Engine.Executor.{run_task-AtMost}
use mama_ai.Engine.Consent.{Permit, consume_given-Permitted}

module _ {Db Ab : Type 0} (env : Env Db Ab) where
  -- What a run of `execute` rests on that gave a command to the executor.
  pub record Ran (a : Args) (fresh : Fresh) (w w' : World Db Ab) : Type 0 where
    pub the_request : TaskRequest
    pub owner : String
    pub assessment : RiskAssessment
    pub asked :
        to_request a.task a.source a.autonomy_level fresh.task_id (fresh.now 24) ≡ ok the_request
    pub owned : resolve_owner_id the_request a.owner_id ≡ ok owner
    pub assessed :
        assess env.search the_request.command fresh.assessment_id (fresh.now 8) ≡ ok assessment
    pub not_denied : is_deny assessment.decision ≡ false
    pub permitted :
        (needs_approval assessment.decision ≡ false)
        ⊎ Permit env w the_request owner (given a.approval_id a.approval_token) fresh
    pub once : w'.executed ≡ w.executed ++ the_request.command ∷ []

  -- The assessed and registered request: nothing was executed, and no approval was touched.
  pub record Prepared (r : TaskRequest) (a : Args) (fresh : Fresh) (w : World Db Ab) (t : Ready)
      (w1 : World Db Ab) : Type 0 where
    pub untouched : w1.executed ≡ w.executed
    same_approvals : w1.approvals ≡ w.approvals
    pub its_command : t.the_request.command ≡ r.command
    its_id : t.the_request.task_id ≡ r.task_id
    its_owner : resolve_owner_id r a.owner_id ≡ ok t.owner
    its_assessment : assess env.search r.command fresh.assessment_id (fresh.now 8) ≡ ok t.assessment

  pub prepare-Prepared :
      (r : TaskRequest) (a : Args) (fresh : Fresh) (w : World Db Ab)
      → Ensures
          (Prepared r a fresh w)
          (λ w'. w'.executed ≡ w.executed)
          (prepare env r a.owner_id fresh w)
  unfolding prepare stamp
  prepare-Prepared r a fresh w =
      Ensures-check (resolve_owner_id r a.owner_id) w _
        (λ owner o.
          Ensures-check (assess env.search r.command fresh.assessment_id (fresh.now 8)) w _
            (λ x q.
              Ensures-bind (ensure_registered env (stamp r x owner) owner w) _
                (Ensures-weaken
                  (ensure_registered-Apart env w (stamp r x owner) owner w (refl, refl))
                  (λ y w1 k. k) (λ w1 k. k.0))
                λ y w1 k. returned _ w1 (record {
                  untouched = k.0;
                  same_approvals = k.1;
                  its_command = refl;
                  its_id = refl;
                  its_owner = o;
                  its_assessment = q;
                }))
            refl)
        refl

  -- No command was given to the executor, or one as described by `Ran`.
  abbrev pub Outcome : Args → Fresh → World Db Ab → World Db Ab → Type 0
  Outcome a fresh w w' = (w'.executed ≡ w.executed) ⊎ Ran a fresh w w'

  Permit-Prepared :
      (r : TaskRequest) (a : Args) (fresh : Fresh) (w : World Db Ab) (t : Ready) (w1 : World Db Ab)
      → (g : Option (String × String)) → Prepared r a fresh w t w1
      → Permit env w1 t.the_request t.owner g fresh
      → Permit env w r t.owner g fresh
  Permit-Prepared r a fresh w t w1 g p (id, token, u, q, c) = (
    id,
    token,
    u,
    q,
    subst
        (λ x.
          (consume env.save_approval env.hash_token id r.task_id t.owner token (fresh.now 6)
            (fresh.now 7) x).0
          ≡ ok u)
        p.same_approvals
        (subst
          (λ x.
            (consume env.save_approval env.hash_token id x t.owner token (fresh.now 6) (fresh.now 7)
              w1.approvals).0
            ≡ ok u)
          p.its_id c),
  )

  run_task-Outcome :
      (r : TaskRequest) (a : Args) (fresh : Fresh) (w : World Db Ab) (t : Ready)
      (w1 w2 : World Db Ab)
      → to_request a.task a.source a.autonomy_level fresh.task_id (fresh.now 24) ≡ ok r
      → Prepared r a fresh w t w1
      → is_deny t.assessment.decision ≡ false
      → (needs_approval t.assessment.decision ≡ false)
        ⊎ Permit env w r t.owner (given a.approval_id a.approval_token) fresh
      → w2.executed ≡ w.executed
      → Ensures (λ x. Outcome a fresh w) (Outcome a fresh w) (run_task env t fresh w2)
  run_task-Outcome r a fresh w t w1 w2 h p d n e =
      Ensures-weaken (run_task-AtMost env t fresh w.executed w2 e) (λ x. ended) ended
    where
      ended :
          (w3 : World Db Ab)
          → (w3.executed ≡ w.executed) ⊎ (w3.executed ≡ w.executed ++ t.the_request.command ∷ [])
          → Outcome a fresh w w3
      ended w3 (inl q) = inl q
      ended w3 (inr q) = inr (record {
        the_request = r;
        owner = t.owner;
        assessment = t.assessment;
        asked = h;
        owned = p.its_owner;
        assessed = p.its_assessment;
        not_denied = d;
        permitted = n;
        once = q ∙ ap (λ c. w.executed ++ c ∷ []) p.its_command;
      })

  decide-Outcome :
      (r : TaskRequest) (a : Args) (fresh : Fresh) (w : World Db Ab) (t : Ready) (w1 : World Db Ab)
      → to_request a.task a.source a.autonomy_level fresh.task_id (fresh.now 24) ≡ ok r
      → Prepared r a fresh w t w1
      → Ensures
          (λ x. Outcome a fresh w)
          (Outcome a fresh w)
          (decide env t a.approval_id a.approval_token fresh w1)
  unfolding decide consume_approval run_unless
  decide-Outcome r a fresh w t w1 h p = elim (Bool-cases (is_deny t.assessment.decision)) [
    | inl d ↦ rw d (
        Ensures-weaken
          (deny_task-Leaves env w.executed t.the_request t.assessment fresh w1 p.untouched)
          (λ x w2 e. inl e) (λ w2 e. inl e))
    | inr d ↦ elim (Bool-cases (needs_approval t.assessment.decision)) [
      | inl n ↦
          rw (d, n)
            (Ensures-bind (consume_given env t.the_request t.assessment t.owner fresh g w1) _
              (Ensures-weaken
                (consume_given-Permitted env t.the_request t.assessment t.owner g fresh w1)
                (λ o w2 q. (q.0 ∙ p.untouched, q.1)) (λ w2 q. inl (q ∙ p.untouched)))
              (allowed d))
      | inr n ↦ rw (d, n) (run_task-Outcome r a fresh w t w1 w1 h p d (inl n) p.untouched)
    ]
  ]
    where
      g : Option (String × String)
      g = given a.approval_id a.approval_token

      allowed :
          is_deny t.assessment.decision ≡ false
          → (o : Option (TaskResult Payload)) (w2 : World Db Ab)
          → (w2.executed ≡ w.executed) × (o ≡ none → Permit env w1 t.the_request t.owner g fresh)
          → Ensures (λ x. Outcome a fresh w) (Outcome a fresh w) (run_unless env t fresh o w2)
      allowed d (some x) w2 q = returned x w2 (inl q.0)
      allowed d none w2 q =
          run_task-Outcome r a fresh w t w1 w2 h p d
            (inr (Permit-Prepared r a fresh w t w1 g p (q.1 refl))) q.0

  decide_prepared-Outcome :
      (r : TaskRequest) (a : Args) (fresh : Fresh) (w : World Db Ab)
      (m : Result Ready × World Db Ab)
      → to_request a.task a.source a.autonomy_level fresh.task_id (fresh.now 24) ≡ ok r
      → Ensures (Prepared r a fresh w) (λ w'. w'.executed ≡ w.executed) m
      → Ensures
          (λ x. Outcome a fresh w)
          (Outcome a fresh w)
          (decide_prepared env r a.approval_id a.approval_token fresh m)
  unfolding decide_prepared
  decide_prepared-Outcome r a fresh w m h (returned t w1 p) = decide-Outcome r a fresh w t w1 h p
  decide_prepared-Outcome r a fresh w m h (raised x w1 e) =
      Ensures-weaken
        (fail_with-Leaves env w.executed r.task_id _ _ _ (fresh.now 20) (fresh.now 21) w1 e)
        (λ y w2 q. inl q) (λ w2 q. inl q)

  execute_request-Outcome :
      (m : Result TaskRequest) (a : Args) (fresh : Fresh) (w : World Db Ab)
      → to_request a.task a.source a.autonomy_level fresh.task_id (fresh.now 24) ≡ m
      → Ensures (λ x. Outcome a fresh w) (Outcome a fresh w) (execute_request env m a fresh w)
  unfolding execute_request
  execute_request-Outcome (ok r) a fresh w h =
      decide_prepared-Outcome r a fresh w _ h (prepare-Prepared r a fresh w)
  execute_request-Outcome (err x) a fresh w h =
      Ensures-weaken
        (fail_with-Leaves env w.executed fresh.task_id _ _ _ (fresh.now 22) (fresh.now 23) w refl)
        (λ y w2 q. inl q) (λ w2 q. inl q)

  -- A run of `execute`, whether it returns or raises, either gives no command to the executor, or
  -- gives it exactly one, once: the command of the request, which the policy assessed and does not
  -- deny, and, where the policy requires approval, with an approval ID and a token that `consume`
  -- accepts for this task and this owner.
  pub execute_guarded :
      (a : Args) (fresh : Fresh) (w : World Db Ab) → Outcome a fresh w (execute env a fresh w).1
  unfolding execute
  execute_guarded a fresh w = ended (
      execute_request-Outcome
        (to_request a.task a.source a.autonomy_level fresh.task_id (fresh.now 24)) a fresh w refl)
    where
      ended :
          {m : Result (TaskResult Payload) × World Db Ab}
          → Ensures (λ x. Outcome a fresh w) (Outcome a fresh w) m
          → Outcome a fresh w m.1
      ended (returned x w1 p) = p
      ended (raised x w1 p) = p
