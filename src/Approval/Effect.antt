-- ===== src/Approval/Effect.antt =====
-- backend/app/core/approval_registry.py: the writes of `ApprovalRegistry`, and the refresh of a
-- record.
use mama_ai.Prelude.{
  ℕ, String, ◌≡◌, ◌⊎◌, if◌then◌else◌, refl, arith, true, none, some, Bool-cases, inl, inr, eq_iff,
  ◌<◌,
}
use mama_ai.Dict
use mama_ai.Dict.{Dict}
use mama_ai.Dict.Laws.{IsStored, IsStored-put, get-put_self, put-put_restore, pop-put_new}
use mama_ai.Result.{Exc, ok, err, Result-cases}
use mama_ai.Exec.{Exec}
use mama_ai.Exec.Ensures.{
  Ensures, returned, raised, Ensures-bind, Ensures-weaken, Ensures-check, Ensures-found,
}
use mama_ai.Approval.{pending, ApprovalRecord, is_active, is_due, expire, validate_text}
use mama_ai.Approval.Registry.{
  ApprovalRegistry, set_record, pop_record, persist, write_or, refresh, open_record, reject,
  require_locked, verify_owner, verify_pending, not_found,
}
use mama_ai.Approval.Life.{◌⟹◌, expires, refuses, Changes, unchanged, steps}

due-is_active : (now : ℕ) (v : ApprovalRecord) → is_due now v ≡ true → is_active v.status ≡ true
unfolding is_due
due-is_active now v e = ground arith

pub verify_owner-eq :
    (r : ApprovalRecord) (owner : String) {u : Unit {0}}
    → verify_owner r owner ≡ ok u
    → r.owner_id ≡ owner
unfolding verify_owner
verify_owner-eq r owner h = ground (arith, eq_iff r.owner_id owner)

pub verify_pending-eq :
    (r : ApprovalRecord) (verb : String) {u : Unit {0}}
    → verify_pending r verb ≡ ok u
    → r.status ≡ pending
unfolding verify_pending
verify_pending-eq r verb h = ground arith

module _ {Db : Type 0} (save_approval : ApprovalRecord → Exec Db (Unit {0})) where
  records-persist :
      (r : ApprovalRecord) (s : ApprovalRegistry Db)
      → (persist save_approval r s).1.records ≡ s.records
  unfolding persist
  records-persist r s = ground arith

  write_or_cases :
      (restore : ApprovalRegistry Db → ApprovalRegistry Db)
      → (id : String) (r : ApprovalRecord) (s : ApprovalRegistry Db)
      → let p = persist save_approval r (set_record id r s) in
        ((write_or save_approval restore id r s ≡ (ok r, p.1)))
        ⊎ ((e : Exc) × (write_or save_approval restore id r s ≡ (err e, restore p.1)))
  unfolding write_or
  write_or_cases restore id r s =
      elim (Result-cases (persist save_approval r (set_record id r s)).0) [
        | inl (e, q) ↦ inr (e, ground arith)
        | inr (u, q) ↦ inl (ground arith)
      ]

  -- The write of a record over one that is there: it is made, or nothing has changed.
  pub write_over :
      (id : String) (v r : ApprovalRecord) (s : ApprovalRegistry Db)
      → Dict.get id s.records ≡ some v
      → Ensures
          (λ x s'. (x ≡ r) × (s'.records ≡ Dict.put id r s.records))
          (λ s'. s'.records ≡ s.records)
          (write_or save_approval (set_record id v) id r s)
  write_over id v r s g = elim (write_or_cases (set_record id v) id r s) [
    | inl e ↦ rw e (returned r _ (refl, records-persist r (set_record id r s)))
    | inr (x, e) ↦ rw e (
        raised x _
          (ground (arith, records-persist r (set_record id r s), put-put_restore id v r s.records)))
  ]

  -- The write of a record under a fresh ID.
  pub write_new :
      (id : String) (r : ApprovalRecord) (s : ApprovalRegistry Db)
      → Dict.get id s.records ≡ none
      → Ensures
          (λ x s'. (x ≡ r) × (s'.records ≡ Dict.put id r s.records))
          (λ s'. s'.records ≡ s.records)
          (write_or save_approval (pop_record id) id r s)
  write_new id r s g = elim (write_or_cases (pop_record id) id r s) [
    | inl e ↦ rw e (returned r _ (refl, records-persist r (set_record id r s)))
    | inr (x, e) ↦ rw e (
        raised x _
          (ground (arith, records-persist r (set_record id r s), pop-put_new id r s.records)))
  ]

  -- The record that a method works on after the refresh: the one that was there, if it is not due,
  -- or the expired one.
  pub record Refreshed (id : String) (now : ℕ) (d : Dict ApprovalRecord) (r : ApprovalRecord)
      (s' : ApprovalRegistry Db) : Type 0 where
    pub original : ApprovalRecord
    pub found : Dict.get id d ≡ some original
    pub current : r ≡ (if is_due now original then expire original else original)
    pub here : Dict.get id s'.records ≡ some r
    pub changes : Changes d s'.records
    pub apart :
        (rest : Dict ApprovalRecord)
        → Dict.get id rest ≡ none
        → IsStored rest d
        → IsStored rest s'.records

  pub refresh_lem :
      (id : String) (v : ApprovalRecord) (now : ℕ) (s : ApprovalRegistry Db)
      → Dict.get id s.records ≡ some v
      → Ensures
          (Refreshed id now s.records)
          (λ s'. Changes s.records s'.records)
          (refresh save_approval id v now s)
  unfolding refresh
  refresh_lem id v now s g = elim (Bool-cases (is_due now v)) [
    | inl e ↦ rw e (
        Ensures-weaken (write_over id v (expire v) s g)
          (λ r s' p. record {
            original = v;
            found = g;
            current = rw e p.0;
            here = rw (p.1, p.0) (get-put_self id (expire v) s.records);
            changes = rw p.1 (steps id v (expire v) unchanged g (expires (due-is_active now v e)));
            apart = λ rest f q. rw p.1 (IsStored-put id (expire v) rest s.records f q);
          })
          (λ s' p. rw p unchanged))
    | inr e ↦ rw e (
        returned v s (record {
          original = v;
          found = g;
          current = rw e;
          here = g;
          changes = unchanged;
          apart = λ rest f q. q;
        }))
  ]

  -- After `open_record`, the owner is checked too.
  pub open_record_lem :
      (id owner : String) (now : ℕ) (s : ApprovalRegistry Db)
      → Ensures
          (λ r s'. Refreshed id now s.records r s' × (r.owner_id ≡ owner))
          (λ s'. Changes s.records s'.records)
          (open_record save_approval id owner now s)
  unfolding open_record require_locked
  open_record_lem id owner now s =
      Ensures-found (Dict.get id s.records) (not_found id) s _
        (λ v g.
          Ensures-bind (refresh save_approval id v now s) _ (refresh_lem id v now s g) λ r s1 h.
            Ensures-check (verify_owner r owner) s1 _
              (λ u e. returned r s1 (h, verify_owner-eq r owner e)) h.changes)
        unchanged

  -- A decision on an opened record: one more step, or none.
  pub decide_lem :
      (id : String) (now : ℕ) (d : Dict ApprovalRecord) (r x : ApprovalRecord)
      (s : ApprovalRegistry Db)
      → Refreshed id now d r s
      → r ⟹ x
      → Ensures
          (λ y s'. (y ≡ x) × (s'.records ≡ Dict.put id x s.records) × Changes d s'.records)
          (λ s'. Changes d s'.records)
          (write_or save_approval (set_record id r) id x s)
  decide_lem id now d r x s h e =
      Ensures-weaken (write_over id r x s h.here)
        (λ y s' p. (p.0, p.1, rw p.1 (steps id r x h.changes h.here e))) (λ s' p. rw p h.changes)

  pub reject-Changes :
      (approval_id owner_id : String) (now later : ℕ) (s : ApprovalRegistry Db)
      → Ensures
          (λ r s'. Changes s.records s'.records)
          (λ s'. Changes s.records s'.records)
          (reject save_approval approval_id owner_id now later s)
  unfolding reject
  reject-Changes approval_id owner_id now later s =
      Ensures-check (validate_text approval_id "Approval ID") s _
        (λ id _.
          Ensures-check (validate_text owner_id "Owner ID") s _
            (λ owner _.
              Ensures-bind (open_record save_approval id owner now s) _
                (open_record_lem id owner now s)
                λ r s1 h.
                  Ensures-check (verify_pending r _) s1 _
                    (λ u e.
                      Ensures-weaken
                        (decide_lem id now s.records r _ s1 h.0
                          (refuses later (verify_pending-eq r _ e)))
                        (λ y s' p. p.2) (λ s' p. p))
                    h.0.changes)
            unchanged)
        unchanged

  -- A record that is still active after the refresh was there before it, and is not overdue.
  pub Refreshed-active :
      (id : String) (now : ℕ) (d : Dict ApprovalRecord) (r : ApprovalRecord)
      (s : ApprovalRegistry Db)
      → Refreshed id now d r s
      → is_active r.status ≡ true
      → (Dict.get id d ≡ some r) × (now < r.expires_at)
  unfolding is_due expire
  Refreshed-active id now d r s h a = ground (arith, h.found, h.current)
