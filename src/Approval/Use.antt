-- ===== src/Approval/Use.antt =====
-- backend/app/core/approval_registry.py: `approve` followed by `consume`.
use mama_ai.Prelude.{ℕ, String, ◌≡◌, ◌<◌, arith, some, refl, false, lt→not_leb, eq_iff, subst, sym}
use mama_ai.Dict
use mama_ai.Result.{ok, ◌>>=◌}
use mama_ai.Exec.{Exec}
use mama_ai.Exec.Ensures.{Ensures-ok}
use mama_ai.Approval.{approved, consumed, ApprovalRecord, ApprovalGrant, validate_text, is_due}
use mama_ai.Approval.Registry.{
  ApprovalRegistry, approve, consume, persist, write_or, set_record, open_record, verify_owner,
  verify_grant, refresh, require_locked,
}
use mama_ai.Approval.Grant.{approve_lem, spent_record, granted_record}

module _ {Db : Type 0} (save_approval : ApprovalRecord → Exec Db (Unit {0})) where
  -- A write returns its record, or raises what persisting it raises.
  write_or-persist :
      (restore : ApprovalRegistry Db → ApprovalRegistry Db)
      → (id : String) (r : ApprovalRecord) (s : ApprovalRegistry Db)
      → (write_or save_approval restore id r s).0
        ≡ ((persist save_approval r (set_record id r s)).0 >>= λ u. ok r)
  unfolding write_or
  write_or-persist restore id r s = ground arith

  in_time : (now : ℕ) (r : ApprovalRecord) → now < r.expires_at → is_due now r ≡ false
  unfolding is_due
  in_time now r t = ground (arith, lt→not_leb r.expires_at now t)

  -- A record before its expiry is opened by its owner as it is.
  open_record-get :
      (id owner : String) (now : ℕ) (r : ApprovalRecord) (s : ApprovalRegistry Db)
      → Dict.get id s.records ≡ some r
      → r.owner_id ≡ owner
      → now < r.expires_at
      → open_record save_approval id owner now s ≡ (ok r, s)
  unfolding open_record refresh verify_owner require_locked
  open_record-get id owner now r s g o t =
      rw (g, in_time now r t, (eq_iff r.owner_id owner).1 o) refl

verify_grant-ok :
    (r : ApprovalRecord) (hash : String)
    → r.status ≡ approved
    → r.token_hash ≡ some hash
    → verify_grant r r.task_id hash ≡ ok tt
unfolding verify_grant
verify_grant-ok r hash p q = ground (arith, eq_iff r.task_id r.task_id, eq_iff hash hash)

module _ {Db : Type 0} (save_approval : ApprovalRecord → Exec Db (Unit {0}))
    (hash_token : String → String) where
  -- `consume` of an approved record before its expiry, with a matching token
  consume-granted :
      (id task owner secret a k o c : String) (now later : ℕ) (r : ApprovalRecord)
      → (s : ApprovalRegistry Db) → validate_text a "Approval ID" ≡ ok id
      → validate_text k "Task ID" ≡ ok task
      → validate_text o "Owner ID" ≡ ok owner
      → validate_text c "Approval token" ≡ ok secret
      → Dict.get id s.records ≡ some r
      → r.owner_id ≡ owner
      → now < r.expires_at
      → verify_grant r task (hash_token secret) ≡ ok tt
      → (consume save_approval hash_token a k o c now later s).0 ≡ (
          (persist save_approval (spent_record r later) (set_record id (spent_record r later) s)).0
          >>= λ u. ok (spent_record r later))
  unfolding consume
  consume-granted id task owner secret a k o c now later r s vi vk vo vc g w t v = ground (
    arith,
    open_record-get save_approval id owner now r s g w t,
    write_or-persist save_approval (set_record id r) id (spent_record r later) s,
  )

  -- After an `approve` that returned a grant, `consume` with the task and token of the grant, by
  -- the same owner and before the expiry, returns a consumed record of this task, or raises exactly
  -- what persisting this record raises, if the task ID and the token of the grant are valid texts
  -- without white space around them.
  pub approve-consume :
      (approval_id owner_id token : String) (now later now' later' : ℕ) (s : ApprovalRegistry Db)
      → {g : ApprovalGrant}
      → (approve save_approval hash_token token approval_id owner_id now later s).0 ≡ ok g
      → validate_text g.task_id "Task ID" ≡ ok g.task_id
      → validate_text g.token "Approval token" ≡ ok g.token
      → now' < g.expires_at
      → let s' = (approve save_approval hash_token token approval_id owner_id now later s).1 in
        (id : String) × (u : ApprovalRecord) × ((consume save_approval hash_token approval_id
            g.task_id owner_id g.token now' later' s').0
          ≡ ((persist save_approval u (set_record id u s')).0 >>= λ x. ok u))
        × (u.status ≡ consumed)
        × (u.task_id ≡ g.task_id)
  approve-consume a o token now later now' later' s {g} h vk vc t =
      let (id, owner, i, w, p) =
        Ensures-ok (approve_lem save_approval hash_token token a o now later s) h in
      let s' = (approve save_approval hash_token token a o now later s).1 in
      let r = granted_record p.asked later (hash_token token) in
      (
        id,
        spent_record r later',
        consume-granted id g.task_id owner g.token a g.task_id o g.token now' later' r s' i vk w vc
            p.here p.owned (subst (λ n. now' < n) p.the_expiry t)
            (rw (p.the_task, p.the_token) (verify_grant-ok r (hash_token token) refl refl)),
        refl,
        sym p.the_task,
      )
