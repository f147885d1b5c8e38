-- ===== src/Approval/Grant.antt =====
-- backend/app/core/approval_registry.py: `approve` and `consume`.
use mama_ai.Prelude.{ℕ, String, ◌≡◌, refl, arith, none, some, eq_iff, ◌<◌, ap}
use mama_ai.Dict
use mama_ai.Dict.{Dict}
use mama_ai.Dict.Laws.{get-put_self}
use mama_ai.Result.{ok}
use mama_ai.Exec.{Exec}
use mama_ai.Exec.Ensures.{Ensures, returned, Ensures-bind, Ensures-weaken, Ensures-check}
use mama_ai.Approval.{pending, approved, consumed, ApprovalRecord, ApprovalGrant, validate_text}
use mama_ai.Approval.Registry.{
  ApprovalRegistry, set_record, write_or, open_record, approve, consume, verify_pending,
  verify_grant, hash_or_empty,
}
use mama_ai.Approval.Life.{grants, spends, Changes, unchanged}
use mama_ai.Approval.Effect.{Refreshed-active, open_record_lem, decide_lem, verify_pending-eq}

-- The record after a grant.
abbrev pub granted_record : ApprovalRecord → ℕ → String → ApprovalRecord
granted_record v later hash = record v {
  status = approved;
  decided_at = some later;
  token_hash = some hash;
}

-- The record after its token was spent.
abbrev pub spent_record : ApprovalRecord → ℕ → ApprovalRecord
spent_record v later = record v { status = consumed; consumed_at = some later; token_hash = none }

-- What a grant rests on: a pending request of this owner that is not overdue.
pub record Granted (id owner token hash : String) (now later : ℕ) (d d' : Dict ApprovalRecord)
    (g : ApprovalGrant) : Type 0 where
  pub asked : ApprovalRecord
  pub found : Dict.get id d ≡ some asked
  pub was_pending : asked.status ≡ pending
  pub owned : asked.owner_id ≡ owner
  pub in_time : now < asked.expires_at
  pub here : Dict.get id d' ≡ some (granted_record asked later hash)
  pub the_token : g.token ≡ token
  pub the_task : g.task_id ≡ asked.task_id
  pub the_expiry : g.expires_at ≡ asked.expires_at
  pub changes : Changes d d'

-- What spending a token rests on: an approved request of this owner for this task that is not
-- overdue, whose stored hash is that of the token.
pub record Spent (id task owner hash : String) (now later : ℕ) (d d' : Dict ApprovalRecord)
    (r : ApprovalRecord) : Type 0 where
  pub asked : ApprovalRecord
  pub found : Dict.get id d ≡ some asked
  pub was_approved : asked.status ≡ approved
  pub for_task : asked.task_id ≡ task
  pub owned : asked.owner_id ≡ owner
  pub in_time : now < asked.expires_at
  pub matching : hash_or_empty asked.token_hash ≡ hash
  pub result : r ≡ spent_record asked later
  pub here : Dict.get id d' ≡ some r
  pub changes : Changes d d'

verify_grant-eq :
    (r : ApprovalRecord) (task hash : String) {u : Unit {0}}
    → verify_grant r task hash ≡ ok u
    → (r.status ≡ approved) × (r.task_id ≡ task) × (hash_or_empty r.token_hash ≡ hash)
unfolding verify_grant
verify_grant-eq r task hash h =
    ground (arith, eq_iff r.task_id task, eq_iff hash (hash_or_empty r.token_hash))

module _ {Db : Type 0} (save_approval : ApprovalRecord → Exec Db (Unit {0}))
    (hash_token : String → String) where
  -- An `approve` that returns found, under the stripped ID, a pending request of the given owner
  -- before its expiry, and leaves it approved with the digest of the token that it returns; whether
  -- it returns or raises, the records move along the steps of the life of requests only.
  pub approve_lem :
      (token approval_id owner_id : String) (now later : ℕ) (s : ApprovalRegistry Db)
      → Ensures
          (λ g s'.
            (id : String) × (owner : String) × (validate_text approval_id "Approval ID" ≡ ok id)
            × (validate_text owner_id "Owner ID" ≡ ok owner)
            × Granted id owner token (hash_token token) now later s.records s'.records g)
          (λ s'. Changes s.records s'.records)
          (approve save_approval hash_token token approval_id owner_id now later s)
  unfolding approve
  approve_lem token approval_id owner_id now later s =
      Ensures-check (validate_text approval_id "Approval ID") s _
        (λ id i.
          Ensures-check (validate_text owner_id "Owner ID") s _
            (λ owner o.
              Ensures-bind (open_record save_approval id owner now s) _
                (open_record_lem save_approval id owner now s)
                λ r s1 h.
                  Ensures-check (verify_pending r _) s1 _
                    (λ u e.
                      let p = verify_pending-eq r _ e in
                      let (f, t) =
                        Refreshed-active save_approval id now s.records r s1 h.0 (rw p refl) in
                      Ensures-bind (write_or save_approval (set_record id r) id _ s1) _
                        (decide_lem save_approval id now s.records r _ s1 h.0
                          (grants later (hash_token token) p))
                        λ y s2 w. returned _ s2 (
                          id,
                          owner,
                          i,
                          o,
                          record {
                            asked = r;
                            found = f;
                            was_pending = p;
                            owned = h.1;
                            in_time = t;
                            here = rw w.1 (get-put_self id _ s1.records);
                            the_token = refl;
                            the_task = ap (λ (x : ApprovalRecord). x.task_id) w.0;
                            the_expiry = ap (λ (x : ApprovalRecord). x.expires_at) w.0;
                            changes = w.2;
                          },
                        ))
                    h.0.changes)
            unchanged)
        unchanged

  -- A `consume` that returns found, under the stripped ID, an approved request of the given owner
  -- for the given task, before its expiry, whose stored hash is the digest of the stripped token,
  -- and leaves it consumed without a hash; whether it returns or raises, the records move along the
  -- steps of the life of requests only.
  pub consume_lem :
      (approval_id task_id owner_id token : String) (now later : ℕ) (s : ApprovalRegistry Db)
      → Ensures
          (λ r s'.
            (id : String) × (task : String) × (owner : String) × (secret : String) × (validate_text
                approval_id "Approval ID"
              ≡ ok id)
            × (validate_text task_id "Task ID" ≡ ok task)
            × (validate_text owner_id "Owner ID" ≡ ok owner)
            × (validate_text token "Approval token" ≡ ok secret)
            × Spent id task owner (hash_token secret) now later s.records s'.records r)
          (λ s'. Changes s.records s'.records)
          (consume save_approval hash_token approval_id task_id owner_id token now later s)
  unfolding consume
  consume_lem approval_id task_id owner_id token now later s =
      Ensures-check (validate_text approval_id "Approval ID") s _
        (λ id i.
          Ensures-check (validate_text task_id "Task ID") s _
            (λ task k.
              Ensures-check (validate_text owner_id "Owner ID") s _
                (λ owner o.
                  Ensures-check (validate_text token "Approval token") s _
                    (λ secret c.
                      Ensures-bind (open_record save_approval id owner now s) _
                        (open_record_lem save_approval id owner now s)
                        λ r s1 h.
                          Ensures-check (verify_grant r task (hash_token secret)) s1 _
                            (λ u e.
                              let (p, q, m) = verify_grant-eq r task (hash_token secret) e in
                              let (f, t) =
                                Refreshed-active save_approval id now s.records r s1 h.0
                                  (rw p refl) in
                              Ensures-weaken
                                (decide_lem save_approval id now s.records r _ s1 h.0
                                  (spends later p))
                                (λ y s2 w. (
                                  id,
                                  task,
                                  owner,
                                  secret,
                                  i,
                                  k,
                                  o,
                                  c,
                                  record {
                                    asked = r;
                                    found = f;
                                    was_approved = p;
                                    for_task = q;
                                    owned = h.1;
                                    in_time = t;
                                    matching = m;
                                    result = w.0;
                                    here = rw (w.1, w.0) (get-put_self id _ s1.records);
                                    changes = w.2;
                                  },
                                ))
                                (λ s2 w. w))
                            h.0.changes)
                    unchanged)
                unchanged)
            unchanged)
        unchanged
