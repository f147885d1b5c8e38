-- ===== src/Engine/Consent.antt =====
-- backend/app/core/engine.py: `_consume_approval`.
use mama_ai.Prelude.{String, ◌≡◌, refl, Option, none, some}
use mama_ai.Result.{Result, ok, err}
use mama_ai.Exec.Ensures.{Ensures, returned, Ensures-bind, Ensures-weaken}
use mama_ai.Task.{TaskRequest, TaskResult}
use mama_ai.Approval.{ApprovalRecord}
use mama_ai.Approval.Registry.{consume}
use mama_ai.Risk.{RiskAssessment}
use mama_ai.Engine.{Payload, World, Env, Fresh}
use mama_ai.Engine.Approve.{consume_given, after_consume, request_approval}
use mama_ai.Engine.Calm.{request_approval-Leaves, approval_failed-Leaves}

module _ {Db Ab : Type 0} (env : Env Db Ab) where
  -- The approval ID and the token that were given are accepted by `consume`.
  abbrev pub Permit : World Db Ab → TaskRequest → String → Option (String × String) → Fresh → Type 0
  Permit w r owner g fresh =
      (id : String) × (token : String) × (u : ApprovalRecord) × (g ≡ some (id, token))
      × ((consume env.save_approval env.hash_token id r.task_id owner token (fresh.now 6)
            (fresh.now 7) w.approvals).0
          ≡ ok u)

  abbrev pub Permitted :
      World Db Ab
      → TaskRequest
      → String
      → Option (String × String)
      → Fresh
      → Result (Option (TaskResult Payload)) × World Db Ab
      → Type 0
  Permitted w r owner g fresh m =
      Ensures (λ o w'. (w'.executed ≡ w.executed) × (o ≡ none → Permit w r owner g fresh))
        (λ w'. w'.executed ≡ w.executed) m

  after_consume-Permitted :
      (r : TaskRequest) (a : RiskAssessment) (owner : String) (g : Option (String × String))
      → (fresh : Fresh) (w w1 : World Db Ab) (c : Result ApprovalRecord) → w1.executed ≡ w.executed
      → ((u : ApprovalRecord) → c ≡ ok u → Permit w r owner g fresh)
      → Permitted w r owner g fresh (after_consume env r a owner fresh (c, w1))
  unfolding after_consume
  after_consume-Permitted r a owner g fresh w w1 (ok u) e p = returned none _ (e, λ _. p u refl)
  after_consume-Permitted r a owner g fresh w w1 (err x) e p =
      Ensures-weaken (approval_failed-Leaves env w.executed r a owner fresh x w1 e)
        (λ o w2 q. (q.0, λ n. absurd (q.1 n))) (λ w2 q. q)

  pub consume_given-Permitted :
      (r : TaskRequest) (a : RiskAssessment) (owner : String) (g : Option (String × String))
      → (fresh : Fresh) (w : World Db Ab)
      → Permitted w r owner g fresh (consume_given env r a owner fresh g w)
  unfolding consume_given
  consume_given-Permitted r a owner none fresh w =
      Ensures-bind (request_approval env r a owner fresh w) _
        (request_approval-Leaves env w.executed r a owner fresh w refl)
        λ x w1 e1. returned (some x) w1 (e1, λ n. cc)
  consume_given-Permitted r a owner (some (id, token)) fresh w =
      let m =
        consume env.save_approval env.hash_token id r.task_id owner token (fresh.now 6)
          (fresh.now 7) w.approvals in
      after_consume-Permitted r a owner (some (id, token)) fresh w (record w { approvals = m.1 })
        m.0 refl (λ u q. (id, token, u, refl, q))
