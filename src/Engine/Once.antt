-- ===== src/Engine/Once.antt =====
-- backend/app/core/engine.py: `MamaEngine.execute` on denied commands, and on approvals that were
-- used before.
use mama_ai.Prelude.{String, ◌≡◌, arith, true, Option, none, some, inl, inr}
use mama_ai.Dict
use mama_ai.Task.{TaskRequest}
use mama_ai.Result.{ok}
use mama_ai.Approval.{ApprovalRecord, validate_text}
use mama_ai.Approval.Registry.{ApprovalRegistry}
use mama_ai.Approval.Life.{is_final}
use mama_ai.Approval.History.{IsValid, Reach, consume_final}
use mama_ai.Risk.{RiskAssessment, is_deny, needs_approval}
use mama_ai.Risk.Policy.{assess}
use mama_ai.Engine.{World, Env, Fresh}
use mama_ai.Engine.Approve.{given}
use mama_ai.Engine.Execute.{Args, to_request, execute}
use mama_ai.Engine.Guard.{Ran, execute_guarded}

given-fst : (i : String) (t : Option String) {j k : String} → given (some i) t ≡ some (j, k) → j ≡ i
given-fst i none h = absurd (ground arith)
given-fst i (some t) h = ground arith

module _ {Db Ab : Type 0} (env : Env Db Ab) where
  -- The request and the assessment of a run are what the code computes.
  Ran-assessed :
      (a : Args) (fresh : Fresh) (w w' : World Db Ab) (r : TaskRequest) (x : RiskAssessment)
      → to_request a.task a.source a.autonomy_level fresh.task_id (fresh.now 24) ≡ ok r
      → assess env.search r.command fresh.assessment_id (fresh.now 8) ≡ ok x
      → (p : Ran env a fresh w w') → (p.assessment.decision ≡ x.decision)
  Ran-assessed a fresh w w' r x h q p = ground (arith, p.asked, p.assessed)

  -- A run of `execute` on a request whose command the policy denies gives nothing to the executor,
  -- however the run ends.
  pub execute_denied :
      (a : Args) (fresh : Fresh) (w : World Db Ab) (r : TaskRequest) (x : RiskAssessment)
      → to_request a.task a.source a.autonomy_level fresh.task_id (fresh.now 24) ≡ ok r
      → assess env.search r.command fresh.assessment_id (fresh.now 8) ≡ ok x
      → is_deny x.decision ≡ true
      → (execute env a fresh w).1.executed ≡ w.executed
  execute_denied a fresh w r x h q d = elim (execute_guarded env a fresh w) [
    | inl e ↦ e
    | inr p ↦ absurd (ground (arith, p.not_denied, Ran-assessed a fresh w _ r x h q p))
  ]

  -- If an approval was rejected, expired or consumed in a valid approval registry, then after any
  -- history of the calls `create` with a fresh ID, `approve`, `reject`, `consume`, `get` and `list`
  -- of that registry, with no `clear`, `restore` or `enable_persistence` in between, a run of
  -- `execute` that is given the ID of this approval, for a command that requires approval, gives
  -- nothing to the executor.
  pub execute_spent :
      (a : Args) (fresh : Fresh) (w : World Db Ab) (r : TaskRequest) (x : RiskAssessment)
      → (s : ApprovalRegistry Ab) (approval_id id : String) (u : ApprovalRecord)
      → to_request a.task a.source a.autonomy_level fresh.task_id (fresh.now 24) ≡ ok r
      → assess env.search r.command fresh.assessment_id (fresh.now 8) ≡ ok x
      → needs_approval x.decision ≡ true
      → a.approval_id ≡ some approval_id
      → validate_text approval_id "Approval ID" ≡ ok id
      → IsValid s
      → Dict.get id s.records ≡ some u
      → is_final u.status ≡ true
      → Reach env.save_approval env.hash_token s w.approvals
      → (execute env a fresh w).1.executed ≡ w.executed
  execute_spent a fresh w r x s approval_id id u h q n e i v g f reach =
      elim (execute_guarded env a fresh w) [
        | inl done ↦ done
        | inr p ↦ elim p.permitted [
          | inl m ↦ absurd (ground (arith, m, n, Ran-assessed a fresh w _ r x h q p))
          | inr (j, token, y, k, c) ↦
              let same : j ≡ approval_id = given-fst approval_id a.approval_token (rw e at k) in
              let (z, refused) =
                consume_final env.save_approval env.hash_token j p.the_request.task_id p.owner token
                  (fresh.now 6) (fresh.now 7) s w.approvals id u v reach (rw same i) g f in
              cc
        ]
      ]
